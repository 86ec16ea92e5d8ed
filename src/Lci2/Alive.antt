-- ===== src/Lci2/Alive.antt =====
-- What LCI2 documents of user contexts, and the requests behind them.
use lcw.Base.{
  ℕ, ℤ, ◌+◌, ◌≡◌, ◌≢◌, refl, ap, ◌∙◌, Option, none, some, get_elem?, deref, total, arith, ok,
  bad_pointer, Action, or_fault, modify, gets, if◌then◌else◌, Post, Outcome, fault, blocked,
  put_back, set, Holds, Keeps,
}
use lcw.Api.{Ptr, RequestT}
use lcw.Pcounter.{Trend}
use lcw.Comp.{Host, Runtime, count}
use lcw.Contexts.{
  State, in_runtime, in_world, new_device, next_id, new_request, delete_request, request_at, run,
}
use lcw.Contexts.Ledger.{at, live, Leaves, alive_there, live-set, live-append}
use lcw.Lci2.{Status, Posted, done, Lci2Api, DeviceT, is_posted}
use lcw.Lci.Keeps.{handed}

abbrev pub handed_by : Option Status → ℕ → ℕ
handed_by none q = 0
handed_by (some t) q = handed t.user_context q

abbrev pub handed_to : ℕ → Ptr × Status → ℕ
handed_to q (c, t) = handed t.user_context q

-- A post takes its user context unless it is to be tried again; it is never done at once.
pub record Takes {W : Type 0} (owed : W → ℕ → ℕ) (p : ℕ) (g : W → Posted × W) : Type 0 where
  pub takes :
      (w : W) (q : ℕ) → owed (g w).1 q ≡ owed w q + (if is_posted (g w).0 then at p q else 0)
  pub not_done : (w : W) → (g w).0 ≢ done

-- `owed w q` is how often LCI2 holds the user context q: it was taken by a post, and no completion
-- has handed it back. Handlers post and poll nothing themselves.
pub record Laws {W : Type 0} (host : Host W) (api : Lci2Api W) (owed : W → ℕ → ℕ) : Type 0 where
  pub cq_pop :
      (c : Ptr) (w : W) (q : ℕ)
      → owed w q ≡ owed (api.cq_pop c w).1 q + handed_by (api.cq_pop c w).0 q
  pub progress :
      (d : ℕ) (w : W) (q : ℕ)
      → owed w q ≡ owed (api.progress d w).1 q + total (handed_to q) (api.progress d w).0.1
  pub post_send :
      (d : ℕ) (r : ℤ) (b : Ptr) (n : ℕ) (t : ℤ) (c : Ptr) (p : ℕ)
      → Takes owed p (api.post_send d r b n t c p)
  pub post_recv :
      (d : ℕ) (r : ℤ) (b : Ptr) (n : ℕ) (t : ℤ) (c : Ptr) (p : ℕ)
      → Takes owed p (api.post_recv d r b n t c p)
  pub post_am :
      (d : ℕ) (r : ℤ) (b : Ptr) (n : ℕ) (c : Ptr) (m p : ℕ)
      → Takes owed p (api.post_am d r b n c m p)
  pub register_rcomp : (c : Ptr) → Leaves owed (λ w. (api.register_rcomp c w).1)
  pub deregister_rcomp : (c : ℕ) → Leaves owed (api.deregister_rcomp c)
  pub alloc_device : Leaves owed (λ w. (api.alloc_device w).1)
  pub free_device : (d : ℕ) → Leaves owed (api.free_device d)
  pub barrier : (d : ℕ) → Leaves owed (api.barrier d)
  pub alloc_cq : Leaves owed (λ w. (api.alloc_cq w).1)
  pub free_comp : (c : Ptr) → Leaves owed (api.free_comp c)
  pub set_allocator : (a : ℕ) → Leaves owed (api.set_allocator a)
  pub warn : (n : ℤ) (k : ℕ) → Leaves owed (api.warn n k)
  pub invoke : (f : ℕ) (r : RequestT) → Leaves owed (host.invoke f r)

module _ {W : Type 0} (owed : W → ℕ → ℕ) where
  -- The requests that live are those whose addresses LCI2 holds, and those in hand, which `hand`
  -- counts.
  abbrev pub Alive : (ℕ → ℕ) → State DeviceT W → Type 0
  Alive hand s = (q : ℕ) → owed s.world q + hand q ≡ live s.contexts q

  abbrev pub nothing : ℕ → ℕ
  nothing q = 0

  pub new_request-Alive : (r : RequestT) → Holds (Alive nothing) (new_request r) (λ p. Alive (at p))
  unfolding new_request
  new_request-Alive r = record { at = λ s h q. omega (arith, h q, live-append s.contexts r q) }

  pub delete_request-Alive :
      (p : ℕ) (k : ℕ → ℕ) → Holds (Alive (λ q. at p q + k q)) (delete_request p) (λ _. Alive k)
  unfolding delete_request
  delete_request-Alive p k = record {
    at = λ s h.
        let there = alive_there s.contexts p (owed s.world p + k p) (omega (arith, h p)) in
        let l : Alive k (record s { contexts = set s.contexts p none }) =
          λ q. omega (arith, h q, live-set s.contexts p q there.1) in
        rw (ap deref there.1) l;
  }

  pub same_world :
      {A : Type 0} (k : ℕ → ℕ) (g : W → A × W)
      → Leaves owed (λ w. (g w).1)
      → Keeps (Alive k) (in_world (run g))
  same_world k g l = record { at = λ s h q. omega (arith, h q, l s.world q) }

  pub modify-Alive : (k : ℕ → ℕ) (g : W → W) → Leaves owed g → Keeps (Alive k) (in_world (modify g))
  modify-Alive k g l = record { at = λ s h q. omega (arith, h q, l s.world q) }

  -- What does not touch the requests or the world.
  pub next_id-Alive : (k : ℕ → ℕ) → Keeps (Alive k) next_id
  unfolding next_id
  next_id-Alive k = record { at = λ s h. h }

  pub new_device-Alive : (k : ℕ → ℕ) (d : DeviceT) → Keeps (Alive k) (new_device d)
  unfolding new_device
  new_device-Alive k d = record { at = λ s h. h }

  pub count-Alive :
      (k : ℕ → ℕ) (t : Trend)
      → Keeps (Alive k) (modify (λ s. record s { runtime = count t s.runtime }))
  count-Alive k t = record { at = λ s h. h }

  pub gets-Alive : {A : Type 0} (k : ℕ → ℕ) (g : State DeviceT W → A) → Keeps (Alive k) (gets g)
  gets-Alive k g = record { at = λ s h. h }

  pub runtime-Alive :
      {A : Type 0} (k : ℕ → ℕ) (m : Action (Runtime W) A)
      → ((w : W) → Keeps (λ r. r.world ≡ w) m)
      → Keeps (Alive k) (in_runtime m)
  runtime-Alive {A} k m l = record {
    at = λ s h. go s (m s.runtime) ((l s.world).at s.runtime refl) h;
  }
    where
      go :
          (s : State DeviceT W) (o : Outcome (A × Runtime W))
          → Post (λ _ r. r.world ≡ s.world) o
          → Alive k s
          → Post (λ _. Alive k) (put_back (λ r t. record t { runtime = r }) s o)
      go s (ok (a, r)) e h = λ q. ap (λ w. owed w q + k q) e ∙ h q
      go s (fault x) e h = tt
      go s blocked e h = tt

  -- The request that a completion hands back is there, and is deleted.
  pub request_at-there : (p : ℕ) (k : ℕ → ℕ) → Keeps (Alive (λ q. at p q + k q)) (request_at p)
  unfolding request_at
  request_at-there p k = record { at = λ s h. go s (deref (get_elem? s.contexts p)) h }
    where
      go :
          (s : State DeviceT W) (o : Option RequestT)
          → Alive (λ q. at p q + k q) s
          → Post (λ _. Alive (λ q. at p q + k q)) (or_fault o bad_pointer s)
      go s none h = tt
      go s (some r) h = h
