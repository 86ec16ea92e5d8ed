-- ===== src/Lci2.antt =====
-- src/backend/lci2/backend_lci2.cpp: the LCI2 backend.
pub mod Alive
pub mod Keeps
pub mod History
pub mod Delivery
pub mod Table
use lcw.Base.{
  ℕ, ℤ, pos, Bool, true, false, Option, none, some, List, [], ◌∷◌, Action, pure, assert, when, gets,
  modify, fail, bad_pointer, ◌>>=◌, ◌>>◌, ltb, to_size_t, to_int, if◌then◌else◌,
}
use lcw.Api.{Ptr, OpT, put_signal, RequestT}
use lcw.Pcounter.{Trend, send_end, recv_end, put_end}
use lcw.Comp.{Host, CompT, cq, handler, comp_at, count}
use lcw.Comp
use lcw.Contexts.{
  State, in_runtime, in_world, device_at, new_device, next_id, new_request, delete_request,
  request_at, run,
}
use lcw.Lci.{request_of, end_of, is_arrival}

-- lci::status_t of a completion.
pub record Status : Type 0 where
  pub user_context : Ptr
  pub rank : ℤ
  pub tag : ℕ
  pub buffer : Ptr
  pub size : ℕ

-- lci::status_t of a post.
pub data Posted : Type 0 where
  posted retry done : Posted

-- The calls of LCI2. An impl pointer of lci::comp_t is what a comp_t holds.
pub record Lci2Api (W : Type 0) : Type 0 where
  pub runtime_init : W → W  -- alloc_default_device(false)
  pub runtime_fina : W → W
  pub rank_me : W → ℤ
  pub rank_n : W → ℤ
  pub max_bcopy_size : W → ℕ
  pub max_imm_tag : W → ℤ
  pub register_rcomp : Ptr → W → ℕ × W
  pub deregister_rcomp : ℕ → W → W
  pub alloc_device : W → ℕ × W
  pub free_device : ℕ → W → W
  -- Whether something is done, and the handlers that it signals, with their completions.
  pub progress : ℕ → W → (Bool × List (Ptr × Status)) × W
  pub barrier : ℕ → W → W
  pub alloc_cq : W → Ptr × W
  pub free_comp : Ptr → W → W
  -- `none` is a status to retry.
  pub cq_pop : Ptr → W → Option Status × W
  -- Device, rank, buffer, size, tag, completion, user context; done is not allowed.
  pub post_send : ℕ → ℤ → Ptr → ℕ → ℤ → Ptr → ℕ → W → Posted × W
  pub post_recv : ℕ → ℤ → Ptr → ℕ → ℤ → Ptr → ℕ → W → Posted × W
  -- Device, rank, buffer, size, completion, remote completion, user context.
  pub post_am : ℕ → ℤ → Ptr → ℕ → Ptr → ℕ → ℕ → W → Posted × W
  -- An allocator that passes its calls on to the one given.
  pub set_allocator : ℕ → W → W
  pub warn : ℤ → ℕ → W → W  -- LCW_Warn

-- device_impl_t
pub record DeviceT : Type 0 where
  pub id : ℕ
  pub device : ℕ
  pub rcomp : ℕ

abbrev pub is_posted : Posted → Bool
is_posted posted = true
is_posted retry = false
is_posted done = false

abbrev pub arrived : Status → RequestT
arrived t = request_of put_signal none t.rank (pos t.tag) t.buffer (pos t.size) 0

-- The request, with the length that has arrived.
abbrev pub completed : Status → RequestT → RequestT
completed t r = if is_arrival r.op then record r { length = pos t.size } else r

module _ {W : Type 0} (host : Host W) (api : Lci2Api W) where
  abbrev pub initialize : Action (State DeviceT W) (Unit {0})
  initialize = in_world (modify api.runtime_init)

  abbrev pub finalize : Action (State DeviceT W) (Unit {0})
  finalize = in_world (modify api.runtime_fina)

  -- The length is compared as an unsigned number.
  unfoldable pub alloc_device : ℤ → Ptr → Action (State DeviceT W) Ptr
  alloc_device max_put_length put_comp = do
    size ← gets (λ s. api.max_bcopy_size s.world)
    when (ltb size (to_size_t max_put_length)) (in_world (modify (api.warn max_put_length size)))
    id ← next_id
    rcomp ← in_world (run (api.register_rcomp put_comp))
    device ← in_world (run api.alloc_device)
    new_device (record { id = id; device = device; rcomp = rcomp })

  -- The device itself is not deleted.
  unfoldable pub free_device : Ptr → Action (State DeviceT W) (Unit {0})
  free_device device = do
    d ← device_at device
    in_world (modify (api.deregister_rcomp d.rcomp))
    in_world (modify (api.free_device d.device))

  unfoldable pub take_own : Status → ℕ → Action (State DeviceT W) RequestT
  take_own t p = do r ← request_at p; delete_request p; pure (completed t r)

  unfoldable pub request_from : Status → Ptr → Action (State DeviceT W) RequestT
  unfolding take_own
  request_from t none = pure (arrived t)
  request_from t (some p) = take_own t p

  unfoldable pub get_request_from_status : Status → Action (State DeviceT W) RequestT
  unfolding request_from
  get_request_from_status t = request_from t t.user_context

  -- A completion queue is signalled inside LCI2.
  invoke : CompT → RequestT → Action (State DeviceT W) (Unit {0})
  invoke (cq q) r = fail bad_pointer
  invoke (handler f) r = in_world (modify (host.invoke f r))

  -- comp_handler_lci_t::signal
  unfoldable pub signal : Ptr → Status → Action (State DeviceT W) (Unit {0})
  unfolding get_request_from_status invoke
  signal completion t = do
    c ← in_runtime (comp_at completion)
    r ← get_request_from_status t
    invoke c r

  unfoldable pub signal_all : List (Ptr × Status) → Action (State DeviceT W) (Unit {0})
  unfolding signal
  signal_all [] = pure tt
  signal_all ((c, t) ∷ rest) = do signal c t; signal_all rest

  unfoldable pub do_progress : Ptr → Action (State DeviceT W) Bool
  unfolding signal_all
  do_progress device = do
    d ← device_at device
    (is_done, signals) ← in_world (run (api.progress d.device))
    signal_all signals
    pure is_done

  abbrev pub alloc_handler : ℕ → Action (State DeviceT W) Ptr
  alloc_handler f = in_runtime (Comp.alloc_handler f)

  abbrev pub free_handler : Ptr → Action (State DeviceT W) (Unit {0})
  free_handler h = in_runtime (Comp.free_handler h)

  unfoldable pub alloc_cq : Action (State DeviceT W) Ptr
  alloc_cq = in_world (run api.alloc_cq)

  unfoldable pub free_cq : Ptr → Action (State DeviceT W) (Unit {0})
  free_cq completion = in_world (modify (api.free_comp completion))

  unfoldable pub polled : Option Status → Action (State DeviceT W) (Option RequestT)
  unfolding get_request_from_status
  polled none = pure none
  polled (some t) = do
    r ← get_request_from_status t
    modify (λ s. record s { runtime = count (end_of r.op) s.runtime })
    pure (some r)

  -- `none` is the result `false`; otherwise the request is what `*request` receives.
  unfoldable pub poll_cq : Ptr → Action (State DeviceT W) (Option RequestT)
  unfolding polled
  poll_cq completion = do o ← in_world (run (api.cq_pop completion)); polled o

  -- The end of send, recv and put; `debug` is LCW_DEBUG.
  unfoldable pub finish : Bool → Posted → ℕ → Action (State DeviceT W) Bool
  finish debug retry p = do delete_request p; pure false
  finish debug posted p = do when debug (assert true); pure true
  finish debug done p = do when debug (assert false); pure false

  -- What send, recv and put have in common.
  unfoldable pub post :
      Bool → RequestT → (DeviceT → ℕ → W → Posted × W) → Action (State DeviceT W) Bool
  unfolding finish
  post debug r call = do
    p ← new_request r
    d ← device_at r.device
    status ← in_world (run (call d p))
    finish debug status p

  unfoldable pub send : Bool → Ptr → ℤ → ℤ → Ptr → ℤ → Ptr → ℕ → Action (State DeviceT W) Bool
  unfolding post
  send debug device rank tag buf length completion user_context =
      post debug (request_of OpT.send device rank tag buf length user_context)
        λ d p. api.post_send d.device (to_int rank) buf (to_size_t length) tag completion p

  unfoldable pub recv : Bool → Ptr → ℤ → ℤ → Ptr → ℤ → Ptr → ℕ → Action (State DeviceT W) Bool
  unfolding post
  recv debug device rank tag buf length completion user_context =
      post debug (request_of OpT.recv device rank tag buf length user_context)
        λ d p. api.post_recv d.device (to_int rank) buf (to_size_t length) tag completion p

  unfoldable pub put : Bool → Ptr → ℤ → Ptr → ℤ → Ptr → ℕ → Action (State DeviceT W) Bool
  unfolding post
  put debug device rank buf length completion user_context =
      post debug (request_of OpT.put device rank (pos 0) buf length user_context)
        λ d p. api.post_am d.device (to_int rank) buf (to_size_t length) completion d.rcomp p

  unfoldable pub get_max_tag : Ptr → Action (State DeviceT W) ℤ
  get_max_tag device = gets (λ s. api.max_imm_tag s.world)

  unfoldable pub barrier : Ptr → Action (State DeviceT W) (Unit {0})
  barrier device = do d ← device_at device; in_world (modify (api.barrier d.device))

  -- lci2_custom_allocator_t around the allocator.
  unfoldable pub set_custom_allocator : ℕ → Action (State DeviceT W) (Unit {0})
  set_custom_allocator a = in_world (modify (api.set_allocator a))
