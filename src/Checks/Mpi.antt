-- ===== src/Checks/Mpi.antt =====
-- A short history over the MPI backend, and the theorems about histories at it.
use lcw.Base.{pos, ◌≡◌, refl, some, List, [], ◌∷◌, arith, ok, to_size_t, to_int}
use lcw.Api.{send}
use lcw.Comp
use lcw.Pcounter
use lcw.Pcounter.{Trend}
use lcw.Frontend
use lcw.Frontend.{Process}
use lcw.Mpi.Types.{State, device_at, enter_stream_cs, leave_stream_cs}
use lcw.Mpi.Bigcount
use lcw.Mpi.Signal
use lcw.Mpi.Manager
use lcw.Mpi.Device
use lcw.Mpi.Post
use lcw.Mpi.Progress
use lcw.Mpi.History.{Call, sends, progresses, polls, allocs_device, allocs_cq, run, step}
use lcw.Mpi.Frame.{On, books}
use lcw.Mpi.Ledger.{Inv}
use lcw.Mpi.Produce.{Produce}
use lcw.Mpi.Throttle.{is_counted, Throttle}
use lcw.Mpi.History.Balance.{IsBalanced, run-IsBalanced, run-Produce, run-Throttle}
use lcw.Checks.World.{Sim, sim_host, sim_mpi, sim_env, fresh_process, result_of}

-- Device 0 signals to queue 0; its put receive is request 12, the first send 13.
abbrev calls : List Call
calls =
    allocs_cq
    ∷ allocs_device (pos 0) (some 0)
    ∷ sends (some 0) (pos 1) (pos 5) (some 7) (pos 8) (some 0) 1
    ∷ sends (some 0) (pos 1) (pos 6) (some 7) (pos 8) (some 0) 2
    ∷ sends (some 0) (pos 1) (pos 7) (some 7) (pos 8) (some 0) 3
    ∷ progresses (some 0)
    ∷ polls (some 0)
    ∷ []

final : Process (State Sim)
unfolding run step Frontend.send Frontend.do_progress Frontend.poll_cq Frontend.alloc_device
    Frontend.alloc_cq Comp.alloc_cq Comp.poll_cq Comp.signal_comp Comp.comp_at Comp.allocate
    device_at enter_stream_cs leave_stream_cs Bigcount.isend Bigcount.irecv Signal.signal_comp
    Signal.account Manager.make_manager Manager.add_entry Manager.do_progress Device.post_put_recv
    Device.alloc_device Device.alloc_cq Post.acquire_pending Post.post_send Post.send
    Progress.do_progress Pcounter.add Pcounter.start Pcounter.finish to_size_t to_int
final =
    result_of (fresh_process (13 ∷ []))
      (run sim_host sim_mpi sim_env calls (fresh_process (13 ∷ [])))

-- The second send is still held, the third was refused only after two were pending.
final_counts :
    (final.state.counters.trend Trend.send_start ≡ 2)
    × (final.state.counters.trend Trend.send_retry ≡ 1)
    × (final.state.counters.trend Trend.send_end ≡ 1)
    × (final.state.counters.trend Trend.comp_consume ≡ 1)
    × (final.state.g_pending_msg ≡ pos 1)
unfolding final
final_counts = (refl, refl, refl, refl, refl)

run-final : run sim_host sim_mpi sim_env calls (fresh_process (13 ∷ [])) ≡ ok (tt, final)
unfolding final
run-final = refl

run-IsBalanced_example : IsBalanced send final.state
run-IsBalanced_example =
    run-IsBalanced sim_host sim_mpi sim_env send calls (fresh_process (13 ∷ [])) final run-final
      refl refl

run-Produce_example : Produce 0 (books final.state)
run-Produce_example =
    run-Produce sim_host sim_mpi sim_env calls (fresh_process (13 ∷ [])) final run-final
      (record { sum = refl })

run-Throttle_example : On (Inv is_counted (Throttle 1)) final.state
run-Throttle_example =
    run-Throttle sim_host sim_mpi sim_env 1 calls (fresh_process (13 ∷ [])) final (omega arith)
      (omega arith) run-final (record { limit = refl; exact = refl; bound = omega arith })
