-- ===== src/Mpi/History/Posted.antt =====
-- In every history over the MPI backend each device keeps its receive for puts posted.
use lcw.Base.{none, List, [], ◌∷◌, Action, Keeps, Keeps-bind, Keeps-pure, ok, Holds-at, ◌≡◌}
use lcw.Api.{Ptr}
use lcw.Comp.{Host, Runtime}
use lcw.Comp
use lcw.Pcounter.{Trend, Timer}
use lcw.Frontend.{Process}
use lcw.Frontend
use lcw.Frontend.Rules.{
  In, pass-Keeps, on_backend-Holds, timed-Holds, poll_cq-Holds, do_progress-Holds,
}
use lcw.Mpi.Types.{MpiApi, State, in_runtime}
use lcw.Mpi.Init.{Env}
use lcw.Mpi.Put.{Devices, Ignores, Each, put_rules, in_runtime-Keeps}
use lcw.Mpi.Put.Receive.{IsPosted, IsPosted-Ignores}
use lcw.Mpi.Device.{barrier, alloc_cq}
use lcw.Mpi.Device.Posted.{alloc_device-Keeps, free_device-Keeps}
use lcw.Mpi.Post.Posted.{send-Keeps, recv-Keeps, put-Keeps}
use lcw.Mpi.Manager.Posted.{complete_cb-Keeps}
use lcw.Mpi.Progress.Posted.{do_progress-Keeps}
use lcw.Mpi.History.{
  Call, sends, recvs, puts, progresses, polls, allocs_device, frees_device, allocs_cq, frees_cq,
  allocs_handler, frees_handler, barriers, continues, discard, mpi, step, run,
}

module _ {W : Type 0} (host : Host W) (api : MpiApi W) (env : Env) where
  abbrev Posted : State W → Type 0
  Posted = Devices (IsPosted api none)

  abbrev Whole : Process (State W) → Type 0
  Whole = In (mpi host api env) Posted

  ignores : Ignores (IsPosted api none)
  ignores = IsPosted-Ignores api none

  discard-Keeps :
      {A : Type 0} (m : Action (Process (State W)) A) → Keeps Whole m → Keeps Whole (discard m)
  discard-Keeps m h = Keeps-bind Whole _ _ h λ _. Keeps-pure Whole tt

  runtime-Keeps : {A : Type 0} (m : Action (Runtime W) A) → Keeps Posted (in_runtime m)
  runtime-Keeps m = in_runtime-Keeps (IsPosted api none) m

  barrier-Keeps : (d : Ptr) → Keeps Posted (barrier host api d)
  unfolding barrier
  barrier-Keeps d = search put_rules

  alloc_cq-Keeps : Keeps Posted (alloc_cq host api)
  unfolding alloc_cq
  alloc_cq-Keeps = search put_rules

  step-Keeps : (c : Call) → Keeps Whole (step host api env c)
  unfolding step
  step-Keeps (sends d r t b l c u) =
      unfold Frontend.send in
      discard-Keeps _ (
        timed-Holds (mpi host api env) Timer.send_timer Trend.send_start Trend.send_retry
          (λ v. v.send d r t b l c u) Posted (λ _. Posted) (λ s h. h)
          (send-Keeps host api (IsPosted api none) ignores d r t b l c u) (λ _ s h. h) (λ s h. h)
          (λ s h. h))
  step-Keeps (recvs d r t b l c u) =
      unfold Frontend.recv in
      discard-Keeps _ (
        timed-Holds (mpi host api env) Timer.recv_timer Trend.recv_start Trend.recv_retry
          (λ v. v.recv d r t b l c u) Posted (λ _. Posted) (λ s h. h)
          (recv-Keeps host api (IsPosted api none) ignores d r t b l c u) (λ _ s h. h) (λ s h. h)
          (λ s h. h))
  step-Keeps (puts d r b l c u) =
      unfold Frontend.put in
      discard-Keeps _ (
        timed-Holds (mpi host api env) Timer.put_timer Trend.put_start Trend.put_retry
          (λ v. v.put d r b l c u) Posted (λ _. Posted) (λ s h. h)
          (put-Keeps host api (IsPosted api none) ignores d r b l c u) (λ _ s h. h) (λ s h. h)
          (λ s h. h))
  step-Keeps (progresses d) =
      discard-Keeps _
        (do_progress-Holds (mpi host api env) Posted d (λ s h. h) (do_progress-Keeps host api d))
  step-Keeps (polls c) = discard-Keeps _ (
      poll_cq-Holds (mpi host api env) Posted c (λ s h. h) (λ s h. h)
        (runtime-Keeps (Comp.poll_cq host c)))
  step-Keeps (allocs_device n c) =
      unfold Frontend.alloc_device in
      discard-Keeps _ (
        pass-Keeps (mpi host api env) Posted (λ v. v.alloc_device n c)
          (alloc_device-Keeps host api n c))
  step-Keeps (frees_device d) =
      unfold Frontend.free_device in
      pass-Keeps (mpi host api env) Posted (λ v. v.free_device d)
        (free_device-Keeps host api (IsPosted api none) ignores d)
  step-Keeps allocs_cq =
      unfold Frontend.alloc_cq in
      discard-Keeps _ (pass-Keeps (mpi host api env) Posted (λ v. v.alloc_cq) alloc_cq-Keeps)
  step-Keeps (frees_cq c) =
      unfold Frontend.free_cq in
      pass-Keeps (mpi host api env) Posted (λ v. v.free_cq c) (runtime-Keeps (Comp.free_cq host c))
  step-Keeps (allocs_handler f) =
      unfold Frontend.alloc_handler in
      discard-Keeps _ (
        pass-Keeps (mpi host api env) Posted (λ v. v.alloc_handler f)
          (runtime-Keeps (Comp.alloc_handler f)))
  step-Keeps (frees_handler c) =
      unfold Frontend.free_handler in
      pass-Keeps (mpi host api env) Posted (λ v. v.free_handler c)
        (runtime-Keeps (Comp.free_handler c))
  step-Keeps (barriers d) =
      unfold Frontend.barrier in
      pass-Keeps (mpi host api env) Posted (λ v. v.barrier d) (barrier-Keeps d)
  step-Keeps (continues p i) =
      on_backend-Holds (mpi host api env) Posted _ (λ _. Posted)
        (complete_cb-Keeps host api (IsPosted api none) ignores p i)

  run-Keeps : (cs : List Call) → Keeps Whole (run host api env cs)
  unfolding run
  run-Keeps [] = Keeps-pure Whole tt
  run-Keeps (c ∷ cs) = Keeps-bind Whole _ _ (step-Keeps c) λ _. run-Keeps cs

  -- After any history of calls and continuations that returns, every device that has not been freed has
  -- its receive for puts recorded in its own name, into its own buffer and with its own tag, takes puts
  -- in, keeps a tag for them just above those of sends and receives, and has the lock on its put entry
  -- free, if all devices were so at the start.
  pub run-Each :
      (cs : List Call) (s s' : Process (State W))
      → run host api env cs s ≡ ok (tt, s')
      → Each (IsPosted api none) s.state.devices
      → Each (IsPosted api none) s'.state.devices
  run-Each cs s s' e h = Holds-at (run-Keeps cs) s e h
