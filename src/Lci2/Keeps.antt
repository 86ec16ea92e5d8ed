-- ===== src/Lci2/Keeps.antt =====
-- What each operation of the LCI2 backend does with the requests behind user contexts.
use lcw.Base.{
  ℕ, ℤ, ◌+◌, ◌≡◌, ◌≢◌, refl, Bool, true, false, Option, none, some, List, [], ◌∷◌, total, arith,
  bad_pointer, when, assert, modify, ltb, to_size_t, to_int, length, if◌then◌else◌, Holds,
  Holds-bind, Keeps-fail, Keeps, Keeps-bind, Keeps-pure, Keeps-when, Keeps-assert,
}
use lcw.Api.{Ptr, RequestT}
use lcw.Comp.{Host, CompT, cq, handler, Runtime, comp_at, count}
use lcw.Comp
use lcw.Contexts.{
  State, in_runtime, in_world, device_at, next_id, new_request, delete_request, request_at, run,
}
use lcw.Contexts.Ledger.{at, device_at-Keeps}
use lcw.Lci.{end_of}
use lcw.Lci2.{
  Status, Posted, posted, retry, done, Lci2Api, DeviceT, is_posted, completed, alloc_device,
  free_device, take_own, request_from, get_request_from_status, invoke, signal, signal_all,
  do_progress, alloc_handler, free_handler, alloc_cq, free_cq, polled, poll_cq, finish, post, send,
  recv, put, barrier, set_custom_allocator,
}
use lcw.Lci.Keeps.{handed}
use lcw.Lci2.Alive.{
  handed_by, handed_to, Takes, Laws, Alive, nothing, new_request-Alive, delete_request-Alive,
  same_world, modify-Alive, next_id-Alive, new_device-Alive, count-Alive, gets-Alive, runtime-Alive,
  request_at-there,
}

module _ {W : Type 0} {host : Host W} {api : Lci2Api W} {owed : W → ℕ → ℕ}
    (laws : Laws host api owed) where
  pub request_from-Alive :
      (k : ℕ → ℕ) (t : Status) (c : Ptr)
      → Holds (Alive owed (λ q. handed c q + k q)) (request_from host api t c) (λ _. Alive owed k)
  unfolding request_from take_own
  request_from-Alive k t none = record { at = λ s h q. omega (arith, h q) }
  request_from-Alive k t (some p) =
      Holds-bind (request_at p) (λ _. Alive owed (λ q. at p q + k q)) _ _
        (request_at-there owed p k)
        λ r.
          Holds-bind (delete_request p) (λ _. Alive owed k) _ _ (delete_request-Alive owed p k)
            λ _. Keeps-pure _ (completed t r)

  from_status-Alive :
      (k : ℕ → ℕ) (t : Status)
      → Holds
          (Alive owed (λ q. handed t.user_context q + k q))
          (get_request_from_status host api t)
          (λ _. Alive owed k)
  unfolding get_request_from_status
  from_status-Alive k t = request_from-Alive k t t.user_context

  invoke-Alive : (k : ℕ → ℕ) (c : CompT) (r : RequestT) → Keeps (Alive owed k) (invoke host api c r)
  unfolding invoke
  invoke-Alive k (cq q) r = Keeps-fail _ bad_pointer
  invoke-Alive k (handler f) r = modify-Alive owed k _ (laws.invoke f r)

  signal-Alive :
      (k : ℕ → ℕ) (c : Ptr) (t : Status)
      → Holds
          (Alive owed (λ q. handed t.user_context q + k q))
          (signal host api c t)
          (λ _. Alive owed k)
  unfolding signal
  signal-Alive k c t =
      Holds-bind (in_runtime (comp_at c)) (λ _. Alive owed (λ q. handed t.user_context q + k q)) _ _
        (runtime-Alive owed _ (comp_at c) (λ w. Comp.comp_at-world w c))
        λ x.
          Holds-bind (get_request_from_status host api t) (λ _. Alive owed k) _ _
            (from_status-Alive k t) λ r. invoke-Alive k x r

  signal_all-Alive :
      (signals : List (Ptr × Status))
      → Holds
          (Alive owed (λ q. total (handed_to q) signals))
          (signal_all host api signals)
          (λ _. Alive owed (nothing owed))
  unfolding signal_all
  signal_all-Alive [] = Keeps-pure _ tt
  signal_all-Alive ((c, t) ∷ rest) =
      Holds-bind (signal host api c t) (λ _. Alive owed (λ q. total (handed_to q) rest)) _ _
        (signal-Alive (λ q. total (handed_to q) rest) c t) λ _. signal_all-Alive rest

  pub do_progress-Alive : (p : Ptr) → Keeps (Alive owed (nothing owed)) (do_progress host api p)
  unfolding do_progress
  do_progress-Alive p =
      Holds-bind (device_at p) (λ _. Alive owed (nothing owed)) _ _ (device_at-Keeps _ p)
        λ d.
          Holds-bind (in_world (run (api.progress d.device)))
            (λ x. Alive owed (λ q. total (handed_to q) x.1)) _ _
            (record { at = λ s h q. omega (arith, h q, laws.progress d.device s.world q) })
            λ x.
              Holds-bind (signal_all host api x.1) (λ _. Alive owed (nothing owed)) _ _
                (signal_all-Alive x.1) λ _. Keeps-pure _ x.0

  pub alloc_device-Alive :
      (n : ℤ) (c : Ptr) → Keeps (Alive owed (nothing owed)) (alloc_device host api n c)
  unfolding alloc_device
  alloc_device-Alive n c = Keeps-bind _ _ _ (gets-Alive owed _ _) λ size.
      Keeps-bind _ (when (ltb size (to_size_t n)) (in_world (modify (api.warn n size)))) _
        (Keeps-when _ _ _ (modify-Alive owed _ _ (laws.warn n size)))
        λ _. Keeps-bind _ next_id _ (next_id-Alive owed _) λ id.
          Keeps-bind _ (in_world (run (api.register_rcomp c))) _
            (same_world owed _ _ (laws.register_rcomp c))
            λ r.
              Keeps-bind _ (in_world (run api.alloc_device)) _
                (same_world owed _ _ laws.alloc_device)
                λ d. new_device-Alive owed _ (record { id = id; device = d; rcomp = r })

  pub free_device-Alive : (p : Ptr) → Keeps (Alive owed (nothing owed)) (free_device host api p)
  unfolding free_device
  free_device-Alive p = Keeps-bind _ (device_at p) _ (device_at-Keeps _ p) λ d.
      Keeps-bind _ (in_world (modify (api.deregister_rcomp d.rcomp))) _
        (modify-Alive owed _ _ (laws.deregister_rcomp d.rcomp))
        λ _. modify-Alive owed _ _ (laws.free_device d.device)

  pub barrier-Alive : (p : Ptr) → Keeps (Alive owed (nothing owed)) (barrier host api p)
  unfolding barrier
  barrier-Alive p =
      Keeps-bind _ (device_at p) _ (device_at-Keeps _ p)
        λ d. modify-Alive owed _ _ (laws.barrier d.device)

  pub alloc_cq-Alive : Keeps (Alive owed (nothing owed)) (alloc_cq host api)
  unfolding alloc_cq
  alloc_cq-Alive = same_world owed _ _ laws.alloc_cq

  pub free_cq-Alive : (c : Ptr) → Keeps (Alive owed (nothing owed)) (free_cq host api c)
  unfolding free_cq
  free_cq-Alive c = modify-Alive owed _ _ (laws.free_comp c)

  pub set_custom_allocator-Alive :
      (a : ℕ) → Keeps (Alive owed (nothing owed)) (set_custom_allocator host api a)
  unfolding set_custom_allocator
  set_custom_allocator-Alive a = modify-Alive owed _ _ (laws.set_allocator a)

  pub alloc_handler-Alive : (f : ℕ) → Keeps (Alive owed (nothing owed)) (alloc_handler host api f)
  alloc_handler-Alive f =
      runtime-Alive owed _ (Comp.alloc_handler f) (λ w. Comp.alloc_handler-world w f)

  pub free_handler-Alive : (h : Ptr) → Keeps (Alive owed (nothing owed)) (free_handler host api h)
  free_handler-Alive h =
      runtime-Alive owed _ (Comp.free_handler h) (λ w. Comp.free_handler-world w h)

  polled-Alive :
      (o : Option Status)
      → Holds (Alive owed (handed_by o)) (polled host api o) (λ _. Alive owed (nothing owed))
  unfolding polled
  polled-Alive none = Keeps-pure _ none
  polled-Alive (some t) =
      Holds-bind (get_request_from_status host api t) (λ _. Alive owed (nothing owed)) _ _
        (record { at = λ s h. (from_status-Alive (nothing owed) t).at s (λ q. omega (arith, h q)) })
        λ r.
          Holds-bind (modify (λ s. record s { runtime = count (end_of r.op) s.runtime }))
            (λ _. Alive owed (nothing owed)) _ _ (count-Alive owed _ (end_of r.op))
            λ _. Keeps-pure _ (some r)

  pub poll_cq-Alive : (c : Ptr) → Keeps (Alive owed (nothing owed)) (poll_cq host api c)
  unfolding poll_cq
  poll_cq-Alive c =
      Holds-bind (in_world (run (api.cq_pop c))) (λ o. Alive owed (handed_by o)) _ _
        (record { at = λ s h q. omega (arith, h q, laws.cq_pop c s.world q) }) polled-Alive

  -- What a post leaves in hand.
  abbrev After : ℕ → Posted → State DeviceT W → Type 0
  After p posted s = Alive owed (nothing owed) s
  After p retry s = Alive owed (at p) s
  After p done s = ⊥

  call-After :
      (p : ℕ) (o : Posted) (w : W) (s : State DeviceT W)
      → ((q : ℕ) → owed w q ≡ owed s.world q + (if is_posted o then at p q else 0))
      → o ≢ done
      → Alive owed (at p) s
      → After p o (record s { runtime = record s.runtime { world = w } })
  call-After p posted w s l n h = λ q. omega (arith, l q, h q)
  call-After p retry w s l n h = λ q. omega (arith, l q, h q)
  call-After p done w s l n h = absurd (n refl)

  finish-Alive :
      (debug : Bool) (o : Posted) (p : ℕ)
      → Holds (After p o) (finish host api debug o p) (λ _. Alive owed (nothing owed))
  unfolding finish
  finish-Alive debug posted p =
      Holds-bind (when debug (assert true)) (λ _. Alive owed (nothing owed)) _ _
        (Keeps-when _ debug _ (Keeps-assert _ true)) λ _. Keeps-pure _ true
  finish-Alive debug retry p =
      Holds-bind (delete_request p) (λ _. Alive owed (nothing owed)) _ _
        (record {
          at = λ s h. (delete_request-Alive owed p (nothing owed)).at s (λ q. omega (arith, h q));
        })
        λ _. Keeps-pure _ false
  finish-Alive debug done p = record { at = λ s h. absurd h }

  pub post-Alive :
      (debug : Bool) (r : RequestT) (call : DeviceT → ℕ → W → Posted × W)
      → ((d : DeviceT) (p : ℕ) → Takes owed p (call d p))
      → Keeps (Alive owed (nothing owed)) (post host api debug r call)
  unfolding post
  post-Alive debug r call l =
      Holds-bind (new_request r) (λ p. Alive owed (at p)) _ _ (new_request-Alive owed r)
        λ p.
          Holds-bind (device_at r.device) (λ d. Alive owed (at p)) _ _ (device_at-Keeps _ r.device)
            λ d.
              Holds-bind (in_world (run (call d p))) (λ o. After p o) _ _
                (record {
                  at = λ s h.
                      call-After p _ _ s ((l d p).takes s.world) ((l d p).not_done s.world) h;
                })
                λ o. finish-Alive debug o p

  pub send-Alive :
      (debug : Bool) (d : Ptr) (rank tag : ℤ) (buf : Ptr) (length : ℤ) (c : Ptr) (u : ℕ)
      → Keeps (Alive owed (nothing owed)) (send host api debug d rank tag buf length c u)
  unfolding send
  send-Alive debug d rank tag buf length c u =
      post-Alive debug _ _
        λ x p. laws.post_send x.device (to_int rank) buf (to_size_t length) tag c p

  pub recv-Alive :
      (debug : Bool) (d : Ptr) (rank tag : ℤ) (buf : Ptr) (length : ℤ) (c : Ptr) (u : ℕ)
      → Keeps (Alive owed (nothing owed)) (recv host api debug d rank tag buf length c u)
  unfolding recv
  recv-Alive debug d rank tag buf length c u =
      post-Alive debug _ _
        λ x p. laws.post_recv x.device (to_int rank) buf (to_size_t length) tag c p

  pub put-Alive :
      (debug : Bool) (d : Ptr) (rank : ℤ) (buf : Ptr) (length : ℤ) (c : Ptr) (u : ℕ)
      → Keeps (Alive owed (nothing owed)) (put host api debug d rank buf length c u)
  unfolding put
  put-Alive debug d rank buf length c u =
      post-Alive debug _ _
        λ x p. laws.post_am x.device (to_int rank) buf (to_size_t length) c x.rcomp p
