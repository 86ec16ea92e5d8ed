-- ===== src/Mpi/History/Kept.antt =====
-- A ledger that every call settles is kept by every history.
use lcw.Base.{
  ℕ, ℤ, ◌≡◌, Bool, true, false, List, [], ◌∷◌, Action, Holds, Keeps, Keeps-bind, Keeps-pure,
}
use lcw.Api.{Ptr, OpT, send, recv, put, put_signal}
use lcw.Comp.{Host}
use lcw.Comp
use lcw.Pcounter.{Counters, Trend, Timer}
use lcw.Pcounter
use lcw.Frontend.{Process}
use lcw.Frontend
use lcw.Frontend.Rules.{
  In, pass-Keeps, on_backend-Holds, timed-Holds, poll_cq-Holds, do_progress-Holds,
}
use lcw.Mpi.Types.{MpiApi, State, in_runtime}
use lcw.Mpi.Init.{Env}
use lcw.Mpi.Frame.{Books, On, books, frame_rules, gets-Keeps, in_runtime-Keeps}
use lcw.Mpi.Ledger.{Settles, Inv, Hand}
use lcw.Mpi.Post.{acquire_pending}
use lcw.Mpi.Post.Balance.{Entered, After, send-Holds, recv-Holds, put-Holds}
use lcw.Mpi.Manager.Balance.{complete_cb-Keeps}
use lcw.Mpi.Device.{barrier, alloc_cq}
use lcw.Mpi.Device.Balance.{alloc_device-Keeps, free_device-Keeps}
use lcw.Mpi.Progress.Balance.{do_progress-Keeps}
use lcw.Mpi.History.{
  start_of, Call, sends, recvs, puts, progresses, polls, allocs_device, frees_device, allocs_cq,
  frees_cq, allocs_handler, frees_handler, barriers, continues, discard, mpi, table, step, run,
}

-- A change of the counters that a ledger does not see, or that takes it to another.
abbrev pub Takes : (Counters → Counters) → (ℕ → Books → Type 0) → (ℕ → Books → Type 0) → Type 0
Takes f L L' = (x : ℕ) (b : Books) → L x b → L' x (record b { counters = f b.counters })

-- The counters of retries, polls and progress.
pub data IsAside : Trend → Type 0 where
  put_retry : IsAside Trend.put_retry
  send_retry : IsAside Trend.send_retry
  recv_retry : IsAside Trend.recv_retry
  comp_consume : IsAside Trend.comp_consume
  comp_poll : IsAside Trend.comp_poll
  progress : IsAside Trend.progress

-- The operations that a process posts.
pub data IsPost : OpT → Type 0 where
  is_send : IsPost OpT.send
  is_recv : IsPost OpT.recv
  is_put : IsPost OpT.put

-- A ledger `L`, and for each operation the ledger `posted op` between its post and its counter.
pub record Accounting (W : Type 0) (w : OpT → ℕ) (L : ℕ → Books → Type 0) : Type 1 where
  pub posted : OpT → ℕ → Books → Type 0
  pub settles : Settles W w L
  pub settles_posted : (op : OpT) → Settles W w (posted op)
  pub free : w put_signal ≡ 0
  pub sends :
      Holds {S = State W}
        (On (Inv w L))
        acquire_pending
        (λ b. On (Entered w L (posted send) send b))
  pub puts :
      Holds {S = State W} (On (Inv w L)) acquire_pending (λ b. On (Entered w L (posted put) put b))
  pub recvs : (s : State W) → On (Inv w L) s → On (Hand w (posted recv) (w recv)) s
  pub aside : (t : Trend) → IsAside t → Takes (Pcounter.add t) L L
  pub start : (t : Timer) → Takes (Pcounter.start t) L L
  pub finish : (t : Timer) → Takes (Pcounter.finish t) L L
  pub finish_posted : (op : OpT) (t : Timer) → Takes (Pcounter.finish t) (posted op) (posted op)
  pub count : (op : OpT) → IsPost op → Takes (Pcounter.add (start_of op)) (posted op) L

module _ {W : Type 0} (host : Host W) (api : MpiApi W) (env : Env) (w : OpT → ℕ)
    (L : ℕ → Books → Type 0) (a : Accounting W w L) where
  open a use {posted}

  abbrev Kept : State W → Type 0
  Kept = On (Inv w L)

  abbrev pub Whole : Process (State W) → Type 0
  Whole = In (mpi host api env) Kept

  discard-Keeps :
      {A : Type 0} (m : Action (Process (State W)) A) → Keeps Whole m → Keeps Whole (discard m)
  discard-Keeps m h = Keeps-bind Whole _ _ h λ _. Keeps-pure Whole tt

  finish-Takes :
      (op : OpT) (t : Timer) (b : Bool) (s : State W)
      → On (After w L (posted op) b) s
      → On
          (After w L (posted op) b)
          ((mpi host api env).with_counters (Pcounter.finish t s.counters) s)
  finish-Takes op t true s h = a.finish_posted op t _ (books s) h
  finish-Takes op t false s h = a.finish t _ (books s) h

  send-Keeps :
      (d : Ptr) (r t : ℤ) (b : Ptr) (l : ℤ) (c : Ptr) (u : ℕ)
      → Keeps Whole (Frontend.send (table host api env) d r t b l c u)
  unfolding Frontend.send
  send-Keeps d r t b l c u =
      timed-Holds (mpi host api env) Timer.send_timer Trend.send_start Trend.send_retry
        (λ v. v.send d r t b l c u) Kept (λ b. On (After w L (posted send) b))
        (λ s h. a.start Timer.send_timer _ (books s) h)
        (send-Holds host api w L (posted send) (a.settles_posted send) a.sends d r t b l c u)
        (finish-Takes send Timer.send_timer) (λ s h. a.count send is_send _ (books s) h)
        (λ s h. a.aside Trend.send_retry send_retry _ (books s) h)

  recv-Keeps :
      (d : Ptr) (r t : ℤ) (b : Ptr) (l : ℤ) (c : Ptr) (u : ℕ)
      → Keeps Whole (Frontend.recv (table host api env) d r t b l c u)
  unfolding Frontend.recv
  recv-Keeps d r t b l c u =
      timed-Holds (mpi host api env) Timer.recv_timer Trend.recv_start Trend.recv_retry
        (λ v. v.recv d r t b l c u) Kept (λ b. On (After w L (posted recv) b))
        (λ s h. a.start Timer.recv_timer _ (books s) h)
        (recv-Holds host api w L (posted recv) (a.settles_posted recv) a.recvs d r t b l c u)
        (finish-Takes recv Timer.recv_timer) (λ s h. a.count recv is_recv _ (books s) h)
        (λ s h. a.aside Trend.recv_retry recv_retry _ (books s) h)

  put-Keeps :
      (d : Ptr) (r : ℤ) (b : Ptr) (l : ℤ) (c : Ptr) (u : ℕ)
      → Keeps Whole (Frontend.put (table host api env) d r b l c u)
  unfolding Frontend.put
  put-Keeps d r b l c u =
      timed-Holds (mpi host api env) Timer.put_timer Trend.put_start Trend.put_retry
        (λ v. v.put d r b l c u) Kept (λ b. On (After w L (posted put) b))
        (λ s h. a.start Timer.put_timer _ (books s) h)
        (put-Holds host api w L (posted put) (a.settles_posted put) a.puts d r b l c u)
        (finish-Takes put Timer.put_timer) (λ s h. a.count put is_put _ (books s) h)
        (λ s h. a.aside Trend.put_retry put_retry _ (books s) h)

  runtime-Keeps :
      {A : Type 0} (m : Action (Comp.Runtime W) A)
      → ((c : Counters) → Keeps (λ r. r.counters ≡ c) m)
      → Keeps Kept (in_runtime m)
  runtime-Keeps m k = in_runtime-Keeps (Inv w L) m k

  barrier-Keeps : (d : Ptr) → Keeps Kept (barrier host api d)
  unfolding barrier
  barrier-Keeps d = search frame_rules depth 16

  alloc_cq-Keeps : Keeps Kept (alloc_cq host api)
  unfolding alloc_cq
  alloc_cq-Keeps = Keeps-bind Kept _ _ (gets-Keeps (Inv w L) (λ s. s.config)) λ c.
      runtime-Keeps (Comp.alloc_cq host c.default_cq_length)
        (λ n. Comp.alloc_cq-counters host n c.default_cq_length)

  step-Keeps : (c : Call) → Keeps Whole (step host api env c)
  unfolding step
  step-Keeps (sends d r t b l c u) = discard-Keeps _ (send-Keeps d r t b l c u)
  step-Keeps (recvs d r t b l c u) = discard-Keeps _ (recv-Keeps d r t b l c u)
  step-Keeps (puts d r b l c u) = discard-Keeps _ (put-Keeps d r b l c u)
  step-Keeps (progresses d) = discard-Keeps _ (
      do_progress-Holds (mpi host api env) Kept d
        (λ s h. a.aside Trend.progress progress _ (books s) h)
        (do_progress-Keeps host api w L a.settles a.free d))
  step-Keeps (polls c) = discard-Keeps _ (
      poll_cq-Holds (mpi host api env) Kept c
        (λ s h. a.aside Trend.comp_poll comp_poll _ (books s) h)
        (λ s h. a.aside Trend.comp_consume comp_consume _ (books s) h)
        (runtime-Keeps (Comp.poll_cq host c) (λ n. Comp.poll_cq-counters host n c)))
  step-Keeps (allocs_device n c) =
      unfold Frontend.alloc_device in
      discard-Keeps _ (
        pass-Keeps (mpi host api env) Kept (λ v. v.alloc_device n c)
          (alloc_device-Keeps host api w L n c))
  step-Keeps (frees_device d) =
      unfold Frontend.free_device in
      pass-Keeps (mpi host api env) Kept (λ v. v.free_device d) (free_device-Keeps host api w L d)
  step-Keeps allocs_cq =
      unfold Frontend.alloc_cq in
      discard-Keeps _ (pass-Keeps (mpi host api env) Kept (λ v. v.alloc_cq) alloc_cq-Keeps)
  step-Keeps (frees_cq c) =
      unfold Frontend.free_cq in
      pass-Keeps (mpi host api env) Kept (λ v. v.free_cq c)
        (runtime-Keeps (Comp.free_cq host c) (λ n. Comp.free_cq-counters host n c))
  step-Keeps (allocs_handler f) =
      unfold Frontend.alloc_handler in
      discard-Keeps _ (
        pass-Keeps (mpi host api env) Kept (λ v. v.alloc_handler f)
          (runtime-Keeps (Comp.alloc_handler f) (λ n. Comp.alloc_handler-counters host n f)))
  step-Keeps (frees_handler c) =
      unfold Frontend.free_handler in
      pass-Keeps (mpi host api env) Kept (λ v. v.free_handler c)
        (runtime-Keeps (Comp.free_handler c) (λ n. Comp.free_handler-counters host n c))
  step-Keeps (barriers d) =
      unfold Frontend.barrier in
      pass-Keeps (mpi host api env) Kept (λ v. v.barrier d) (barrier-Keeps d)
  step-Keeps (continues p i) =
      on_backend-Holds (mpi host api env) Kept _ (λ _. Kept)
        (complete_cb-Keeps host api w L a.settles p i)

  -- Any history keeps the ledger.
  pub run-Keeps : (cs : List Call) → Keeps Whole (run host api env cs)
  unfolding run
  run-Keeps [] = Keeps-pure Whole tt
  run-Keeps (c ∷ cs) = Keeps-bind Whole _ _ (step-Keeps c) λ _. run-Keeps cs
