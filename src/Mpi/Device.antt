-- ===== src/Mpi/Device.antt =====
-- src/backend/mpi/backend_mpi.cpp: post_put_recv, alloc_device, free_device, get_max_tag, barrier,
-- alloc_cq and finalize.
pub mod Balance
pub mod Posted
pub mod Reposting
use lcw.Base.{
  ℕ, ℤ, pos, negsuc, zero, suc, ◌+◌, ◌%◌, ◌++◌, List, [], ◌∷◌, Bool, true, false, Option, none,
  some, length, get_elem?, set, ltb_ℤ, to_size_t, to_int, Outcome, ok, fault, uninitialized,
  bad_pointer, blocked, Action, pure, fail, assert, or_fault, when, gets, modify, zoom, ◌>>=◌, ◌>>◌,
  ◌&&◌, not, ◌==◌, ◌||◌, any, if◌then◌else◌,
}
use lcw.Api.{Ptr, OpT, put_signal, RequestT}
use lcw.Comp.{Host}
use lcw.Comp
use lcw.Mpi.Types.{
  Config, MpiApi, EntryT, DeviceT, State, pred_ℤ, in_world, in_runtime, device_at, write_device,
  manager_at, enter_stream_cs, leave_stream_cs,
}
use lcw.Mpi.Bigcount.{safecall, run, irecv}
use lcw.Mpi.Manager.{make_manager, destroy}

module _ {W : Type 0} (api : MpiApi W) where
  abbrev pub put_request : Ptr → DeviceT → RequestT
  put_request device d = record {
    op = put_signal;
    device = device;
    rank = negsuc 0;
    tag = d.put_tag;
    buffer = d.put_rbuf;
    length = pos d.put_rbuf_size;
    user_context = 0;
  }

  unfoldable pub post_put_recv : Ptr → Ptr → Action (State W) (Unit {0})
  post_put_recv device completion = do
    d ← device_at device
    let request = put_request device d
    enter_stream_cs device
    mpi_req ← in_world (
        irecv api request.buffer (to_size_t request.length) api.any_source (to_int request.tag)
          d.comm)
    leave_stream_cs device
    d' ← device_at device
    write_device device (record d' {
      put_entry = record {
        mpi_req = mpi_req;
        device = device;
        completion = completion;
        request = request;
      };
    })

module _ {W : Type 0} (host : Host W) (api : MpiApi W) where
  -- The device's communicator; without the stream extension, `use_stream` leaves it unset.
  make_comm : Bool → Bool → Action (State W) (ℕ × ℕ)
  make_comm true true = do
    stream ← in_world (safecall api.stream_create)
    comm ← in_world (safecall (api.stream_comm_create stream))
    pure (stream, comm)
  make_comm true false = fail uninitialized
  make_comm false have_stream = do comm ← in_world (safecall api.comm_dup); pure (0, comm)

  -- The default, 32767, stands where the attribute is not set.
  max_tag_of : Option ℤ → ℤ
  max_tag_of none = pos 32767
  max_tag_of (some ub) = ub

  choose_manager : List ℕ → ℕ → Action (State W) ℕ
  choose_manager [] id = make_manager host api
  choose_manager (m ∷ ms) id = or_fault (get_elem? (m ∷ ms) (id % length (m ∷ ms))) bad_pointer

  rbuf_size : ℤ → ℕ → ℕ
  rbuf_size max_put_length default_max_put =
      if ltb_ℤ (pos 0) max_put_length then to_size_t max_put_length else default_max_put

  empty_entry : EntryT
  empty_entry = record {
    mpi_req = none;
    device = none;
    completion = none;
    request = record {
      op = put_signal;
      device = none;
      rank = pos 0;
      tag = pos 0;
      buffer = none;
      length = pos 0;
      user_context = 0;
    };
  }

  unfoldable pub alloc_device : ℤ → Ptr → Action (State W) Ptr
  unfolding make_comm max_tag_of choose_manager rbuf_size empty_entry
  alloc_device max_put_length put_comp = do
    id ← gets (λ s. s.g_ndevices)
    modify (λ s. record s { g_ndevices = s.g_ndevices + 1 })
    c ← gets (λ s. s.config)
    made ← make_comm c.use_stream c.have_stream
    in_world (modify (api.comm_set_info made.1))
    ub ← in_world (run (api.comm_tag_ub made.1))
    let max_tag = max_tag_of ub
    managers ← gets (λ s. s.g_comp_managers)
    comp_manager ← choose_manager managers id
    let size = rbuf_size max_put_length c.default_max_put
    put_rbuf ← in_world (run (host.new_chars size))
    p ← gets (λ s. length s.devices)
    let d : DeviceT = record {
      stream_locked = false;
      stream = made.0;
      id = id;
      enable_put = true;
      comm = made.1;
      max_tag_2sided = pred_ℤ max_tag;
      put_tag = max_tag;
      put_rbuf = put_rbuf;
      put_rbuf_size = size;
      put_entry = empty_entry;
      put_entry_locked = false;
      comp_manager = comp_manager;
    }
    modify (λ s. record s { devices = s.devices ++ some d ∷ [] })
    post_put_recv api (some p) put_comp
    pure (some p)

  -- `delete device_p`, at an address that `device_at` has followed.
  delete_device : Ptr → State W → State W
  delete_device none s = s
  delete_device (some p) s = record s { devices = set s.devices p none }

  refers : ℕ → Option DeviceT → Bool
  refers p none = false
  refers p (some d) = d.comp_manager == p

  -- Whether some shared_ptr still holds manager `p`: one of the vector's or one of a device's.
  is_held : ℕ → State W → Bool
  unfolding refers
  is_held p s = any (λ q. q == p) s.g_comp_managers || any (refers p) s.devices

  -- The destructor of a shared_ptr to manager `p`: whoever drops the last one destroys the manager.
  unfoldable pub release : ℕ → Action (State W) (Unit {0})
  unfolding is_held
  release p = do held ← gets (is_held p); m ← manager_at p; when (not held) (destroy host api p m)

  unfoldable pub free_device : Ptr → Action (State W) (Unit {0})
  unfolding delete_device
  free_device device = do
    d ← device_at device
    c ← gets (λ s. s.config)
    when (not (d.id == 0)) (in_world (safecall (api.comm_free d.comm)))
    when (c.have_stream && c.use_stream) (in_world (safecall (api.stream_free d.stream)))
    modify (delete_device device)
    release d.comp_manager

  unfoldable pub get_max_tag : Ptr → Action (State W) ℤ
  get_max_tag device = do d ← device_at device; pure d.max_tag_2sided

  unfoldable pub barrier : Ptr → Action (State W) (Unit {0})
  barrier device = do d ← device_at device; in_world (safecall (api.barrier d.comm))

  unfoldable pub alloc_cq : Action (State W) Ptr
  alloc_cq = do c ← gets (λ s. s.config); in_runtime (Comp.alloc_cq host c.default_cq_length)

  unfoldable pub release_all : List ℕ → Action (State W) (Unit {0})
  release_all [] = pure tt
  release_all (p ∷ ps) = do release p; release_all ps

  unfoldable pub finalize : Action (State W) (Unit {0})
  finalize = do
    ms ← gets (λ s. s.g_comp_managers)
    modify (λ s. record s { g_comp_managers = [] })
    release_all ms
    in_world (safecall api.finalize)
