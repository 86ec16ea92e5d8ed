-- ===== src/Mpi/Types.antt =====
-- src/backend/mpi/backend_mpi.hpp and comp_manager/manager_base.hpp: configuration, entries,
-- managers, devices, the backend's state, and the calls of MPI that the backend makes.
use lcw.Base.{
  deref, ℕ, ℤ, pos, negsuc, Bool, true, false, ◌&&◌, Option, none, some, List, get_elem?, set, zero,
  suc, int_max, ◌==◌, if◌then◌else◌, ◌≡◌, ◌<◌, arith, ok, fault, await, when, bad_pointer, Action,
  ◌>>=◌, ◌>>◌, gets, modify, zoom, or_fault,
}
use lcw.Api.{Ptr, RequestT}
use lcw.Comp.{QueueType, Runtime}

pub data CompType : Type 0 where
  request continue : CompType

-- mpi::config_t, with the two macros that the build sets.
pub record Config : Type 0 where
  pub have_stream : Bool  -- LCW_MPI_USE_STREAM
  pub have_cont : Bool  -- LCW_MPI_USE_CONT
  pub cq_type : QueueType
  pub default_max_put : ℕ
  pub default_cq_length : ℤ
  pub comp_type : CompType
  pub use_stream : Bool
  pub use_cont_imm : Bool
  pub use_cont_req : Bool
  pub use_cont_poll_only : Bool
  pub use_cont_defer : Bool
  pub g_pending_msg_max : ℤ
  pub g_num_comp_managers : ℤ

-- What MPI_Test fills in: MPI_SOURCE, MPI_TAG, and the bytes that MPI_Get_count reports.
pub record Status : Type 0 where
  pub source : ℤ
  pub tag : ℤ
  pub count : ℕ

-- The calls of MPI, over the world `W`. `none` is an error code other than MPI_SUCCESS; a request
-- handle is an `Option`, `none` for MPI_REQUEST_NULL.
pub record MpiApi (W : Type 0) : Type 0 where
  pub byte : ℕ  -- MPI_BYTE
  pub any_source : ℤ
  pub type_vector : ℕ → ℕ → ℕ → ℕ → W → ℕ × W
  pub type_contiguous : ℕ → ℕ → W → ℕ × W
  -- Block length, displacement and type of each block.
  pub type_create_struct : List (ℕ × ℕ × ℕ) → W → ℕ × W
  pub type_commit : ℕ → W → W
  pub type_free : ℕ → W → W
  pub isend : Ptr → ℕ → ℕ → ℤ → ℤ → ℕ → W → Option (Option ℕ × W)
  pub irecv : Ptr → ℕ → ℕ → ℤ → ℤ → ℕ → W → Option (Option ℕ × W)
  pub test : ℕ → W → Option (Option Status × W)
  -- MPI_Init_thread; the result says whether MPI_THREAD_MULTIPLE is provided.
  pub init_thread : W → Option (Bool × W)
  pub comm_rank : W → Option (ℤ × W)
  pub comm_size : W → Option (ℤ × W)
  pub comm_dup : W → Option (ℕ × W)
  pub stream_create : W → Option (ℕ × W)
  pub stream_comm_create : ℕ → W → Option (ℕ × W)
  pub stream_free : ℕ → W → Option (Unit {0} × W)
  pub comm_set_info : ℕ → W → W
  pub comm_tag_ub : ℕ → W → Option ℤ × W
  pub comm_free : ℕ → W → Option (Unit {0} × W)
  pub barrier : ℕ → W → Option (Unit {0} × W)
  pub finalize : W → Option (Unit {0} × W)
  -- Flags IMMEDIATE and DEFER_COMPLETE; the result says whether the callback ran within the call.
  pub attach : Option ℕ → Bool → Bool → Option ℕ → W → Option (Bool × W)
  pub continue_init : Bool → W → Option (ℕ × W)
  pub start : ℕ → W → Option (Unit {0} × W)
  pub request_free : ℕ → W → Option (Unit {0} × W)

-- comp::entry_t. An entry owns its request, which `new request_t` made for it alone.
pub record EntryT : Type 0 where
  pub mpi_req : Option ℕ
  pub device : Ptr
  pub completion : Ptr
  pub request : RequestT

-- manager_req_t and manager_cont_t, and what is left of one that has been destroyed. `attached` holds
-- the entries whose continuation MPI still has; `lost` those that a manager_req_t was destroyed with,
-- which nothing can reach any more.
pub data ManagerT : Type 0 where
  req : (entries : List EntryT) (locked : Bool) → ManagerT
  cont : (cont_req : Option ℕ) (attached : List EntryT) (locked : Bool) → ManagerT
  freed : (lost attached : List EntryT) → ManagerT

-- device_t with its progress_engine_t.
pub record DeviceT : Type 0 where
  pub stream_locked : Bool
  pub stream : ℕ
  pub id : ℕ
  pub enable_put : Bool
  pub comm : ℕ
  pub max_tag_2sided : ℤ
  pub put_tag : ℤ
  pub put_rbuf : Ptr
  pub put_rbuf_size : ℕ
  pub put_entry : EntryT
  pub put_entry_locked : Bool
  pub comp_manager : ℕ

-- The globals of namespace mpi, and the objects that the backend has made: a device or a manager
-- is an index into its list, and a freed device is `none`.
pub record State (W : Type 0) : Type 0 where
  pub runtime : Runtime W
  pub open runtime use *
  pub config : Config
  pub g_rank : ℤ
  pub g_nranks : ℤ
  pub g_pending_msg : ℤ
  pub g_comp_managers : List ℕ
  pub g_ndevices : ℕ
  pub managers : List ManagerT
  pub devices : List (Option DeviceT)

-- std::atomic<int>::fetch_add and fetch_sub of 1, which wrap around.
abbrev pub fetch_add : ℤ → ℤ
fetch_add (pos n) = if n == int_max then negsuc int_max else pos (suc n)
fetch_add (negsuc zero) = pos 0
fetch_add (negsuc (suc n)) = negsuc n

abbrev pub fetch_sub : ℤ → ℤ
fetch_sub (pos zero) = negsuc 0
fetch_sub (pos (suc n)) = pos n
fetch_sub (negsuc n) = if n == int_max then pos int_max else negsuc (suc n)

pub fetch_add-pos : (n : ℕ) → n < int_max → fetch_add (pos n) ≡ pos (suc n)
fetch_add-pos n h = ground arith

-- One less, for the tags.

abbrev pub pred_ℤ : ℤ → ℤ
pred_ℤ (pos zero) = negsuc 0
pred_ℤ (pos (suc n)) = pos n
pred_ℤ (negsuc n) = negsuc (suc n)

module _ {W : Type 0} where
  abbrev pub in_runtime : {A : Type 0} → Action (Runtime W) A → Action (State W) A
  in_runtime = zoom (λ s. s.runtime) (λ r s. record s { runtime = r })

  abbrev pub with_world : W → State W → State W
  with_world w s = record s { runtime = record s.runtime { world = w } }

  abbrev pub in_world : {A : Type 0} → Action W A → Action (State W) A
  in_world = zoom (λ s. s.world) with_world

  -- reinterpret_cast of a handle, and the first access through it.
  unfoldable pub device_at : Ptr → Action (State W) DeviceT
  device_at none s = fault bad_pointer
  device_at (some p) s = or_fault (deref (get_elem? s.devices p)) bad_pointer s

  abbrev pub write_device : Ptr → DeviceT → Action (State W) (Unit {0})
  write_device none d s = fault bad_pointer
  write_device (some p) d s = ok (tt, record s { devices = set s.devices p (some d) })

  abbrev pub manager_at : ℕ → Action (State W) ManagerT
  manager_at p s = or_fault (get_elem? s.managers p) bad_pointer s

  abbrev pub write_manager : ℕ → ManagerT → Action (State W) (Unit {0})
  write_manager p m = modify λ s. record s { managers = set s.managers p m }

  abbrev streams : State W → Bool
  streams s = s.config.have_stream && s.config.use_stream

  unfoldable pub enter_stream_cs : Ptr → Action (State W) (Unit {0})
  enter_stream_cs p = do
    used ← gets streams
    when used (do
      d ← device_at p
      await d.stream_locked
      write_device p (record d { stream_locked = true }))

  unfoldable pub leave_stream_cs : Ptr → Action (State W) (Unit {0})
  leave_stream_cs p = do
    used ← gets streams
    when used (do d ← device_at p; write_device p (record d { stream_locked = false }))
