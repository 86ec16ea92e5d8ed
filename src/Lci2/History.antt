-- ===== src/Lci2/History.antt =====
-- Sequences of calls of the LCI2 backend.
use lcw.Base.{
  ℕ, ℤ, ◌≡◌, Bool, List, [], ◌∷◌, ok, Action, pure, ◌>>=◌, ◌>>◌, Holds-at, Keeps, Keeps-bind,
  Keeps-pure,
}
use lcw.Api.{Ptr}
use lcw.Comp.{Host}
use lcw.Contexts.{State}
use lcw.Lci2.{
  Lci2Api, DeviceT, alloc_device, free_device, do_progress, alloc_handler, free_handler, alloc_cq,
  free_cq, poll_cq, send, recv, put, barrier, set_custom_allocator,
}
use lcw.Lci2.Alive.{Laws, Alive, nothing}
use lcw.Lci2.Keeps.{
  do_progress-Alive, alloc_device-Alive, free_device-Alive, barrier-Alive, alloc_cq-Alive,
  free_cq-Alive, set_custom_allocator-Alive, alloc_handler-Alive, free_handler-Alive, poll_cq-Alive,
  send-Alive, recv-Alive, put-Alive,
}

pub data Call : Type 0 where
  allocs_device : ℤ → Ptr → Call
  frees_device : Ptr → Call
  progresses : Ptr → Call
  allocs_handler : ℕ → Call
  frees_handler : Ptr → Call
  allocs_cq : Call
  frees_cq : Ptr → Call
  polls : Ptr → Call
  sends :
      (device : Ptr) (rank tag : ℤ) (buf : Ptr) (length : ℤ) (completion : Ptr) (user_context : ℕ)
      → Call
  recvs :
      (device : Ptr) (rank tag : ℤ) (buf : Ptr) (length : ℤ) (completion : Ptr) (user_context : ℕ)
      → Call
  puts :
      (device : Ptr) (rank : ℤ) (buf : Ptr) (length : ℤ) (completion : Ptr) (user_context : ℕ)
      → Call
  barriers : Ptr → Call
  sets_custom_allocator : ℕ → Call

module _ {W : Type 0} (host : Host W) (api : Lci2Api W) (debug : Bool) where
  perform : Call → Action (State DeviceT W) (Unit {0})
  perform (allocs_device n c) = do p ← alloc_device host api n c; pure tt
  perform (frees_device p) = free_device host api p
  perform (progresses p) = do b ← do_progress host api p; pure tt
  perform (allocs_handler f) = do h ← alloc_handler host api f; pure tt
  perform (frees_handler h) = free_handler host api h
  perform allocs_cq = do c ← alloc_cq host api; pure tt
  perform (frees_cq c) = free_cq host api c
  perform (polls c) = do o ← poll_cq host api c; pure tt
  perform (sends d r g b n c u) = do ok? ← send host api debug d r g b n c u; pure tt
  perform (recvs d r g b n c u) = do ok? ← recv host api debug d r g b n c u; pure tt
  perform (puts d r b n c u) = do ok? ← put host api debug d r b n c u; pure tt
  perform (barriers p) = barrier host api p
  perform (sets_custom_allocator a) = set_custom_allocator host api a

  unfoldable pub run : List Call → Action (State DeviceT W) (Unit {0})
  unfolding perform
  run [] = pure tt
  run (c ∷ cs) = do perform c; run cs

module _ {W : Type 0} {host : Host W} {api : Lci2Api W} {owed : W → ℕ → ℕ}
    (laws : Laws host api owed) where
  quiet :
      {A : Type 0} (m : Action (State DeviceT W) A)
      → Keeps (Alive owed (nothing owed)) m
      → Keeps (Alive owed (nothing owed)) (do a ← m; pure tt)
  quiet m k = Keeps-bind _ m _ k λ a. Keeps-pure _ tt

  perform-Alive :
      (debug : Bool) (c : Call) → Keeps (Alive owed (nothing owed)) (perform host api debug c)
  unfolding perform
  perform-Alive debug (allocs_device n c) = quiet _ (alloc_device-Alive laws n c)
  perform-Alive debug (frees_device p) = free_device-Alive laws p
  perform-Alive debug (progresses p) = quiet _ (do_progress-Alive laws p)
  perform-Alive debug (allocs_handler f) = quiet _ (alloc_handler-Alive laws f)
  perform-Alive debug (frees_handler h) = free_handler-Alive laws h
  perform-Alive debug allocs_cq = quiet _ (alloc_cq-Alive laws)
  perform-Alive debug (frees_cq c) = free_cq-Alive laws c
  perform-Alive debug (polls c) = quiet _ (poll_cq-Alive laws c)
  perform-Alive debug (sends d r g b n c u) = quiet _ (send-Alive laws debug d r g b n c u)
  perform-Alive debug (recvs d r g b n c u) = quiet _ (recv-Alive laws debug d r g b n c u)
  perform-Alive debug (puts d r b n c u) = quiet _ (put-Alive laws debug d r b n c u)
  perform-Alive debug (barriers p) = barrier-Alive laws p
  perform-Alive debug (sets_custom_allocator a) = set_custom_allocator-Alive laws a

  run-Keeps :
      (debug : Bool) (cs : List Call) → Keeps (Alive owed (nothing owed)) (run host api debug cs)
  unfolding run
  run-Keeps debug [] = Keeps-pure _ tt
  run-Keeps debug (c ∷ cs) =
      Keeps-bind _ (perform host api debug c) _ (perform-Alive debug c) λ _. run-Keeps debug cs

  -- After any history that returns, in which handlers may have been signalled, a request made for an
  -- operation lives exactly while LCI2 holds its address, if this holds of the start.
  pub run-Alive :
      (debug : Bool) (cs : List Call) (s s' : State DeviceT W)
      → Alive owed (nothing owed) s
      → run host api debug cs s ≡ ok (tt, s')
      → Alive owed (nothing owed) s'
  run-Alive debug cs s s' h e = Holds-at (run-Keeps debug cs) s e h
