-- ===== src/Mpi/History.antt =====
-- Histories of a process that runs over the MPI backend: any sequence of the calls of src/lcw.cpp
-- that a program makes between initialize and finalize, save those that only read or that set the
-- allocator, and of continuations that MPI runs in between.
pub mod Kept
pub mod Balance
pub mod Posted
pub mod Tags
use lcw.Base.{
  ℕ, ℤ, ◌+◌, ◌≡◌, refl, Bool, true, false, List, [], ◌∷◌, Action, pure, ◌>>=◌, ◌>>◌, zoom, Holds,
  Holds-map, Keeps, Keeps-bind, Keeps-pure,
}
use lcw.Api.{BackendT, Ptr, OpT, send, recv, put, put_signal}
use lcw.Comp.{Host}
use lcw.Comp
use lcw.Pcounter.{
  Counters, Trend, Timer, put_start, put_retry, send_start, send_retry, recv_start, recv_retry,
  comp_consume, comp_poll, progress, send_timer, recv_timer, put_timer,
}
use lcw.Pcounter
use lcw.Backend.{Backend}
use lcw.Frontend.{Process, backend, on_backend}
use lcw.Frontend
use lcw.Frontend.Rules
use lcw.Frontend.Rules.{In}
use lcw.Mpi.Types.{MpiApi, State, in_runtime}
use lcw.Mpi.Init.{Env}
use lcw.Mpi.Table.{backend_mpi}
use lcw.Mpi.Frame.{Core, Books, On, books, in_runtime-Keeps, in_world-Keeps, device_at-Keeps}
use lcw.Mpi.Ledger.{Settles, Inv, Hand}
use lcw.Mpi.Post.{acquire_pending}
use lcw.Mpi.Post.Balance.{Entered, After, send-Holds, recv-Holds, put-Holds}
use lcw.Mpi.Manager.{complete_cb}
use lcw.Mpi.Manager.Balance.{complete_cb-Keeps}
use lcw.Mpi.Device.Balance.{alloc_device-Keeps, free_device-Keeps}
use lcw.Mpi.Progress.Balance.{do_progress-Keeps}

abbrev pub start_of : OpT → Trend
start_of send = send_start
start_of recv = recv_start
start_of put = put_start
start_of put_signal = Trend.put_signal

pub data Call : Type 0 where
  sends recvs : Ptr → ℤ → ℤ → Ptr → ℤ → Ptr → ℕ → Call
  puts : Ptr → ℤ → Ptr → ℤ → Ptr → ℕ → Call
  progresses : Ptr → Call
  polls : Ptr → Call
  allocs_device : ℤ → Ptr → Call
  frees_device : Ptr → Call
  allocs_cq : Call
  frees_cq : Ptr → Call
  allocs_handler : ℕ → Call
  frees_handler : Ptr → Call
  barriers : Ptr → Call
  -- MPI runs one of the continuations that were attached for a manager.
  continues : ℕ → ℕ → Call

abbrev discard : {S A : Type 0} → Action S A → Action S (Unit {0})
discard m = m >>= λ _. pure tt

module _ {W : Type 0} (host : Host W) (api : MpiApi W) (env : Env) where
  abbrev mpi : Backend (State W)
  mpi = backend_mpi host api env

  abbrev table : BackendT → Backend (State W)
  table _ = mpi

  unfoldable pub step : Call → Action (Process (State W)) (Unit {0})
  step (sends d r t b l c u) = discard (Frontend.send table d r t b l c u)
  step (recvs d r t b l c u) = discard (Frontend.recv table d r t b l c u)
  step (puts d r b l c u) = discard (Frontend.put table d r b l c u)
  step (progresses d) = discard (Frontend.do_progress table d)
  step (polls c) = discard (Frontend.poll_cq table c)
  step (allocs_device n c) = discard (Frontend.alloc_device table n c)
  step (frees_device d) = Frontend.free_device table d
  step allocs_cq = discard (Frontend.alloc_cq table)
  step (frees_cq c) = Frontend.free_cq table c
  step (allocs_handler f) = discard (Frontend.alloc_handler table f)
  step (frees_handler c) = Frontend.free_handler table c
  step (barriers d) = Frontend.barrier table d
  step (continues p i) = on_backend table (complete_cb host api p i)

  unfoldable pub run : List Call → Action (Process (State W)) (Unit {0})
  run [] = pure tt
  run (c ∷ cs) = do step c; run cs
