-- ===== src/Gex.antt =====
-- src/backend/gex/backend_gex.cpp: the GASNet-EX backend, which has puts only.
pub mod Delivery
pub mod Table
use lcw.Base.{
  ℕ, ℤ, pos, ◌-◌, Bool, true, false, Option, none, some, List, [], ◌∷◌, ◌++◌, length, get_elem?,
  set, deref, Outcome, ok, fault, assertion, bad_pointer, exited, exception, Action, pure, fail,
  assert, or_fault, gets, modify, zoom, ◌>>=◌, ◌>>◌, to_size_t,
}
use lcw.Api.{Ptr, OpT, put_signal, RequestT}
use lcw.Pcounter.{Trend}
use lcw.Comp.{Host, Runtime, count}
use lcw.Comp

-- The calls of GASNet-EX. `none` is an error code, with which CHECK_GEX ends the process.
pub record GexApi (W : Type 0) : Type 0 where
  pub gasnet_par : Bool  -- GASNET_PAR
  pub client_init : W → W
  pub query_job_rank : W → ℤ
  pub query_job_size : W → ℤ
  pub register_handlers : W → Option (Unit {0} × W)
  pub barrier : W → W
  pub am_poll : W → Option (Unit {0} × W)
  -- Rank, buffer, length and the handler's argument, which it converts to GASNet-EX's types.
  pub request_medium : ℤ → Ptr → ℕ → ℕ → W → Option (Unit {0} × W)
  pub max_request_medium : W → ℕ

-- device_impl_t
pub record DeviceT : Type 0 where
  pub id : ℕ
  pub comp : Ptr

-- The globals of gex_detail, and the devices that the backend has made: a device is an index into
-- `devices`, where a freed one is `none`. g_devices holds such indices.
pub record State (W : Type 0) : Type 0 where
  pub runtime : Runtime W
  pub open runtime use *
  pub rank_me : ℤ
  pub rank_n : ℤ
  pub finalized : Bool
  pub g_allocator_copy : ℕ
  pub g_devices : List ℕ
  pub devices : List (Option DeviceT)

allocated : Ptr → Bool
allocated none = false
allocated (some p) = true

module _ {W : Type 0} where
  abbrev pub in_runtime : {A : Type 0} → Action (Runtime W) A → Action (State W) A
  in_runtime = zoom (λ s. s.runtime) (λ r s. record s { runtime = r })

  abbrev pub in_world : {A : Type 0} → Action W A → Action (State W) A
  in_world = zoom (λ s. s.world) (λ w s. record s { runtime = record s.runtime { world = w } })

  abbrev pub check_gex : {A : Type 0} → (W → Option (A × W)) → Action W A
  check_gex call w = (or_fault (call w) exited >>= λ r w'. ok (r.0, r.1)) w

  -- The first access through a device_t.
  device_at : Ptr → Action (State W) DeviceT
  device_at none s = fault bad_pointer
  device_at (some p) s = or_fault (deref (get_elem? s.devices p)) bad_pointer s

  -- gex_Client_Init comes first; a build that is not GASNET_PAR throws.
  abbrev require_par : Bool → Action (State W) (Unit {0})
  require_par true = pure tt
  require_par false = fail exception

module _ {W : Type 0} (host : Host W) (api : GexApi W) where
  -- The constructor: the allocator of backend_base_t is copied for the handler.
  unfoldable pub create : Action (State W) (Unit {0})
  create = do a ← gets (λ s. s.allocator); modify (λ s. record s { g_allocator_copy = a })

  unfoldable pub initialize : Action (State W) (Unit {0})
  initialize = do
    in_world (modify api.client_init)
    require_par api.gasnet_par
    modify (λ s. record s {
      rank_me = api.query_job_rank s.world;
      rank_n = api.query_job_size s.world;
      finalized = false;
    })
    in_world (check_gex api.register_handlers)

  -- gasnet_exit does not return.
  unfoldable pub finalize : Action (State W) (Unit {0})
  finalize = do
    in_world (modify api.barrier)
    modify (λ s. record s { finalized = true })
    fail exited

  unfoldable pub alloc_device : ℤ → Ptr → Action (State W) Ptr
  alloc_device max_put_length put_comp = do
    p ← gets (λ s. length s.devices)
    modify (λ s. record s { g_devices = s.g_devices ++ p ∷ [] })
    id ← gets (λ s. length s.g_devices - 1)
    modify
        (λ s. record s { devices = s.devices ++ some (record { id = id; comp = put_comp }) ∷ [] })
    pure (some p)

  delete_device : ℕ → State W → State W
  delete_device p s = record s { devices = set s.devices p none }

  -- `delete` of nullptr does nothing. g_devices keeps the pointer.
  unfoldable pub free_device : Ptr → Action (State W) (Unit {0})
  unfolding device_at delete_device
  free_device none = pure tt
  free_device (some p) = do d ← device_at (some p); modify (delete_device p)

  unfoldable pub do_progress : Ptr → Action (State W) Bool
  do_progress device = do in_world (check_gex api.am_poll); pure false

  unfoldable pub send : Ptr → ℤ → ℤ → Ptr → ℤ → Ptr → ℕ → Action (State W) Bool
  send device rank tag buf length completion user_context = fail exception

  unfoldable pub recv : Ptr → ℤ → ℤ → Ptr → ℤ → Ptr → ℕ → Action (State W) Bool
  recv device rank tag buf length completion user_context = fail exception

  abbrev pub put_request : Ptr → ℤ → Ptr → ℤ → ℕ → RequestT
  put_request device rank buf length user_context = record {
    op = OpT.put;
    device = device;
    rank = rank;
    tag = pos 0;
    buffer = buf;
    length = length;
    user_context = user_context;
  }

  unfoldable pub put : Ptr → ℤ → Ptr → ℤ → Ptr → ℕ → Action (State W) Bool
  unfolding device_at
  put device rank buf length completion user_context = do
    d ← device_at device
    in_world (check_gex (api.request_medium rank buf (to_size_t length) d.id))
    in_runtime (Comp.signal_comp host completion (put_request device rank buf length user_context))
    pure true

  abbrev pub signal_request : ℕ → ℤ → Ptr → ℕ → RequestT
  signal_request p rank buffer nbytes = record {
    op = put_signal;
    device = some p;
    rank = rank;
    tag = pos 0;
    buffer = buffer;
    length = pos nbytes;
    user_context = 0;
  }

  -- gex_reqhandler, for a message of `rank`. An index past the end of g_devices is undefined.
  unfoldable pub gex_reqhandler : ℤ → Ptr → ℕ → ℕ → Action (State W) (Unit {0})
  unfolding device_at allocated
  gex_reqhandler rank am_buf nbytes device_idx = do
    a ← gets (λ s. s.g_allocator_copy)
    buffer ← in_world (λ w. ok (host.allocate a nbytes w))
    assert (allocated buffer)
    in_world (modify (host.memcpy buffer am_buf nbytes))
    found ← gets (λ s. get_elem? s.g_devices device_idx)
    p ← or_fault found bad_pointer
    modify (λ s. record s { runtime = count Trend.put_signal s.runtime })
    d ← device_at (some p)
    in_runtime (Comp.signal_comp host d.comp (signal_request p rank buffer nbytes))

  unfoldable pub get_max_tag : Ptr → Action (State W) ℤ
  get_max_tag device = gets (λ s. pos (api.max_request_medium s.world))

  unfoldable pub barrier : Ptr → Action (State W) (Unit {0})
  barrier device = in_world (modify api.barrier)

  unfoldable pub set_custom_allocator : ℕ → Action (State W) (Unit {0})
  set_custom_allocator a = do
    modify (λ s. record s { runtime = record s.runtime { allocator = a } })
    modify (λ s. record s { g_allocator_copy = a })
