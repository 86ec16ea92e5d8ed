-- ===== src/Checks/Put.antt =====
-- A device that is allocated over the concrete world, and a put that arrives on it.
use lcw.Base.{
  ℕ, ℤ, ◌≢◌, leb_ℤ, arith, pos, negsuc, ◌≡◌, refl, some, none, List, [], ◌∷◌, ok, to_size_t, to_int,
  true, false, ◌||◌, pure, ◌>>=◌, ◌>>◌,
}
use lcw.Api.{put_signal}
use lcw.Comp
use lcw.Frontend
use lcw.Frontend.{Process}
use lcw.Mpi.Types.{DeviceT, State, device_at, enter_stream_cs, leave_stream_cs, with_world}
use lcw.Mpi.Bigcount
use lcw.Mpi.Signal.{signal_comp}
use lcw.Mpi.Manager
use lcw.Mpi.Device
use lcw.Mpi.Device.{put_request}
use lcw.Mpi.Progress
use lcw.Mpi.Progress.Arrival.{arrived, put_lock, do_progress-arrived}
use lcw.Mpi.Device.Reposting.{reposted}
use lcw.Mpi.History.Tags.{get_max_tag-apart}
use lcw.Mpi.Put.{Each}
use lcw.Mpi.Put.Receive.{IsPosted}
use lcw.Mpi.History.{Call, allocs_device, allocs_cq, run, step}
use lcw.Mpi.History.Posted.{run-Each}
use lcw.Checks.World.{Sim, sim_host, sim_mpi, sim_env, fresh_process, result_of, sim_status}

-- Device 0 signals to queue 0; its put receive is request 12, which has completed.
abbrev calls : List Call
calls = allocs_cq ∷ allocs_device (pos 64) (some 0) ∷ []

abbrev start : Process (State Sim)
start = fresh_process (12 ∷ [])

set_up : Process (State Sim)
unfolding run step Frontend.alloc_device Frontend.alloc_cq Comp.alloc_cq Comp.allocate device_at
    enter_stream_cs leave_stream_cs Bigcount.irecv Manager.make_manager Device.post_put_recv
    Device.alloc_device Device.alloc_cq to_size_t to_int
set_up = result_of start (run sim_host sim_mpi sim_env calls start)

run-set_up : run sim_host sim_mpi sim_env calls start ≡ ok (tt, set_up)
unfolding set_up
run-set_up = refl

run-Each_example : Each (IsPosted sim_mpi none) set_up.state.devices
run-Each_example =
    run-Each sim_host sim_mpi sim_env calls start set_up run-set_up λ p d e. absurd (cc)

abbrev device : DeviceT
device = record {
  stream_locked = false;
  stream = 0;
  id = 0;
  enable_put = true;
  comm = 10;
  max_tag_2sided = pos 99;
  put_tag = pos 100;
  put_rbuf = some 11;
  put_rbuf_size = 64;
  put_entry = record {
    mpi_req = some 12;
    device = some 0;
    completion = some 0;
    request = record {
      op = put_signal;
      device = some 0;
      rank = negsuc 0;
      tag = pos 100;
      buffer = some 11;
      length = pos 64;
      user_context = 0;
    };
  };
  put_entry_locked = false;
  comp_manager = 0;
}

-- The message is in buffer 13, and the next receive is request 14.
do_progress-arrived_example :
    Progress.do_progress sim_host sim_mpi (some 0) set_up.state
    ≡ (do
      signal_comp sim_host (arrived sim_host sim_mpi 0 (some 0) sim_status 13)
      d' ← device_at (some 0)
      worked ← Manager.do_progress sim_host sim_mpi d'.comp_manager
      pure (worked || true))
        (record (with_world
          (record { fresh = 15; arrived = 12 ∷ []; queued = []; invoked = [] })
          set_up.state) {
            devices =
                some
                  (put_lock sim_host sim_mpi false (reposted sim_mpi 0 (some 14) (some 0) device))
                ∷ [];
          })
unfolding set_up
do_progress-arrived_example =
    do_progress-arrived sim_host sim_mpi 0 13 device set_up.state sim_status 12 (some 14)
      (record { fresh = 13; arrived = 12 ∷ []; queued = []; invoked = [] })
      (record { fresh = 14; arrived = 12 ∷ []; queued = []; invoked = [] })
      (record { fresh = 15; arrived = 12 ∷ []; queued = []; invoked = [] }) run-Each_example refl
      refl refl refl refl refl

get_max_tag-apart_example :
    (m : ℤ) × (Device.get_max_tag sim_host sim_mpi (some 0) set_up.state ≡ ok (m, set_up.state))
    × ((t : ℕ)
        → leb_ℤ (pos t) m ≡ true
        → (to_int (pos t) ≡ pos t) × (to_int (pos 100) ≢ to_int (pos t)))
unfolding set_up
get_max_tag-apart_example =
    get_max_tag-apart sim_host sim_mpi sim_env calls start set_up run-set_up refl 0 100 device refl
      refl (omega arith)
