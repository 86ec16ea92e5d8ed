-- ===== src/Comp.antt =====
-- src/comp: completion queues and completion handlers behind `comp_t`, and the allocator.
pub mod Fifo
use lcw.Base.{
  to_size_t, Keeps, Keeps-bind, Keeps-or_fault, or_fault, deref, ℕ, ℤ, ◌≡◌, Option, none, some,
  List, [], ◌∷◌, ◌++◌, length, get_elem?, set, ok, fault, bad_pointer, Action, pure, ◌>>=◌, ◌>>◌,
  modify,
}
use lcw.Api.{Ptr, RequestT}
use lcw.Pcounter.{Counters, Trend}
use lcw.Pcounter

-- LCT_queue_type_t
pub data QueueType : Type 0 where
  array_atomic_faa array_atomic_cas array_atomic_basic array_mutex std_mutex : QueueType
  ms lcrq lprq faaarray lazy_index : QueueType

-- What the process is linked with, over a world `W` that its calls read and change: LCT's queues,
-- the functions behind `handler_t`, the functions behind `allocator_base_t`, memory.
pub record Host (W : Type 0) : Type 0 where
  pub queue_alloc : QueueType → ℕ → W → ℕ × W
  pub queue_free : ℕ → W → W
  -- The queues hold pointers to requests made by `new request_t`: the requests stand for them.
  pub queue_push : ℕ → RequestT → W → W
  pub queue_pop : ℕ → W → Option RequestT × W
  pub invoke : ℕ → RequestT → W → W
  pub allocate : ℕ → ℕ → W → Ptr × W
  pub new_chars : ℕ → W → Ptr × W
  pub memcpy : Ptr → Ptr → ℕ → W → W

-- comp_cq_t and comp_handler_t
pub data CompT : Type 0 where
  cq : (queue : ℕ) → CompT
  handler : (function : ℕ) → CompT

-- What every backend shares. A `comp_t` is an index into `comps`; `none` there is an object that
-- has been deleted.
pub record Runtime (W : Type 0) : Type 0 where
  pub comps : List (Option CompT)
  pub counters : Counters
  pub allocator : ℕ  -- m_allocator
  pub world : W

abbrev pub count : {W : Type 0} → Trend → Runtime W → Runtime W
count t r = record r { counters = Pcounter.add t r.counters }

unfoldable pub comp_at : {W : Type 0} → Ptr → Action (Runtime W) CompT
comp_at none r = fault bad_pointer
comp_at (some p) r = or_fault (deref (get_elem? r.comps p)) bad_pointer r

new_comp : {W : Type 0} → CompT → Action (Runtime W) Ptr
new_comp c r = ok (some (length r.comps), record r { comps = r.comps ++ some c ∷ [] })

delete_comp : {W : Type 0} → Ptr → Action (Runtime W) (Unit {0})
delete_comp none r = ok (tt, r)
delete_comp (some p) r = ok (tt, record r { comps = set r.comps p none })

unfoldable pub alloc_handler : {W : Type 0} → ℕ → Action (Runtime W) Ptr
unfolding new_comp
alloc_handler h = new_comp (handler h)

unfoldable pub free_handler : {W : Type 0} → Ptr → Action (Runtime W) (Unit {0})
unfolding comp_at delete_comp
free_handler none = pure tt
free_handler (some p) = do h ← comp_at (some p); delete_comp (some p)

module _ {W : Type 0} (host : Host W) where
  unfoldable pub alloc_cq : ℤ → Action (Runtime W) Ptr
  unfolding new_comp
  alloc_cq default_cq_length r =
      let (q, w) = host.queue_alloc lcrq (to_size_t default_cq_length) r.world in
      new_comp (cq q) (record r { world = w })

  destroy : CompT → Runtime W → Runtime W
  destroy (cq q) r = record r { world = host.queue_free q r.world }
  destroy (handler f) r = r

  -- `delete` through the virtual destructor; of nullptr it does nothing.
  unfoldable pub free_cq : Ptr → Action (Runtime W) (Unit {0})
  unfolding comp_at delete_comp destroy
  free_cq none = pure tt
  free_cq (some p) = do c ← comp_at (some p); modify (destroy c); delete_comp (some p)

  poll : CompT → Action (Runtime W) (Option RequestT)
  poll (cq q) r = let (o, w) = host.queue_pop q r.world in ok (o, record r { world = w })
  poll (handler f) r = fault bad_pointer

  -- `none` is the result `false`; otherwise the request is what `*request` receives.
  unfoldable pub poll_cq : Ptr → Action (Runtime W) (Option RequestT)
  unfolding comp_at poll
  poll_cq completion = do c ← comp_at completion; poll c

  signal : CompT → RequestT → W → W
  signal (cq q) request w = host.queue_push q request w
  signal (handler f) request w = host.invoke f request w

  unfoldable pub signal_comp : Ptr → RequestT → Action (Runtime W) (Unit {0})
  unfolding comp_at signal
  signal_comp completion request = do
    c ← comp_at completion
    modify (λ r. record r { world = signal c request r.world })

  -- m_allocator->allocate.
  unfoldable pub allocate : ℕ → Action (Runtime W) Ptr
  allocate size r =
      let (buffer, w) = host.allocate r.allocator size r.world in
      ok (buffer, record r { world = w })

-- Signalling reaches the queue or the handler, and nothing else of the runtime.
module _ {W : Type 0} (host : Host W) (n : Counters) where
  comp_at-counters : (p : Ptr) → Keeps {S = Runtime W} (λ r. r.counters ≡ n) (comp_at p)
  unfolding comp_at
  comp_at-counters none = record { at = λ r h. tt }
  comp_at-counters (some p) = record {
    at = λ r h.
        (Keeps-or_fault (λ r. r.counters ≡ n) (deref (get_elem? r.comps p)) bad_pointer).at r h;
  }

  pub signal_comp-counters :
      (p : Ptr) (q : RequestT) → Keeps (λ r. r.counters ≡ n) (signal_comp host p q)
  unfolding signal_comp
  signal_comp-counters p q = Keeps-bind _ _ _ (comp_at-counters p) λ c. record { at = λ r h. h }

  pub allocate-counters : (size : ℕ) → Keeps (λ r. r.counters ≡ n) (allocate host size)
  unfolding allocate
  allocate-counters size = record { at = λ r h. h }

  pub alloc_cq-counters : (k : ℤ) → Keeps (λ r. r.counters ≡ n) (alloc_cq host k)
  unfolding alloc_cq
  alloc_cq-counters k = record { at = λ r h. h }

  pub alloc_handler-counters :
      (f : ℕ) → Keeps {S = Runtime W} (λ r. r.counters ≡ n) (alloc_handler f)
  unfolding alloc_handler
  alloc_handler-counters f = record { at = λ r h. h }

  delete_comp-counters :
      (p : ℕ) → Keeps {S = Runtime W} (λ r. r.counters ≡ n) (delete_comp (some p))
  unfolding delete_comp
  delete_comp-counters p = record { at = λ r h. h }

  pub free_handler-counters :
      (p : Ptr) → Keeps {S = Runtime W} (λ r. r.counters ≡ n) (free_handler p)
  unfolding free_handler
  free_handler-counters none = record { at = λ r h. h }
  free_handler-counters (some p) =
      Keeps-bind _ _ _ (comp_at-counters (some p)) λ c. delete_comp-counters p

  destroy-counters :
      (c : CompT) → Keeps {S = Runtime W} (λ r. r.counters ≡ n) (modify (destroy host c))
  unfolding destroy
  destroy-counters (cq q) = record { at = λ r h. h }
  destroy-counters (handler f) = record { at = λ r h. h }

  pub free_cq-counters : (p : Ptr) → Keeps (λ r. r.counters ≡ n) (free_cq host p)
  unfolding free_cq
  free_cq-counters none = record { at = λ r h. h }
  free_cq-counters (some p) =
      Keeps-bind _ _ _ (comp_at-counters (some p)) λ c.
        Keeps-bind _ (modify (destroy host c)) _ (destroy-counters c) λ _. delete_comp-counters p

  poll-counters : (c : CompT) → Keeps (λ r. r.counters ≡ n) (poll host c)
  unfolding poll
  poll-counters (cq q) = record { at = λ r h. h }
  poll-counters (handler f) = record { at = λ r h. tt }

  pub poll_cq-counters : (p : Ptr) → Keeps (λ r. r.counters ≡ n) (poll_cq host p)
  unfolding poll_cq
  poll_cq-counters p = Keeps-bind _ _ _ (comp_at-counters p) λ c. poll-counters c

-- Handlers come and go without the world.
module _ {W : Type 0} (w : W) where
  pub comp_at-world : (p : Ptr) → Keeps {S = Runtime W} (λ r. r.world ≡ w) (comp_at p)
  unfolding comp_at
  comp_at-world none = record { at = λ r h. tt }
  comp_at-world (some p) = record {
    at =
        λ r h. (Keeps-or_fault (λ r. r.world ≡ w) (deref (get_elem? r.comps p)) bad_pointer).at r h;
  }

  delete_comp-world : (p : ℕ) → Keeps {S = Runtime W} (λ r. r.world ≡ w) (delete_comp (some p))
  unfolding delete_comp
  delete_comp-world p = record { at = λ r h. h }

  pub alloc_handler-world : (f : ℕ) → Keeps {S = Runtime W} (λ r. r.world ≡ w) (alloc_handler f)
  unfolding alloc_handler
  alloc_handler-world f = record { at = λ r h. h }

  pub free_handler-world : (p : Ptr) → Keeps {S = Runtime W} (λ r. r.world ≡ w) (free_handler p)
  unfolding free_handler
  free_handler-world none = record { at = λ r h. h }
  free_handler-world (some p) = Keeps-bind _ _ _ (comp_at-world (some p)) λ c. delete_comp-world p
