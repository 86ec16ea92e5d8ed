-- ===== src/Mpi/History/Balance.antt =====
-- What holds after any history over the MPI backend: operations are conserved, completions are
-- counted once, and LCW_MPI_MAX_PENDING_MSG bounds the messages in flight.
use lcw.Base.{
  int_max, ℕ, ◌+◌, ◌<◌, ◌≡◌, refl, true, List, [], ◌∷◌, total, total-append, arith, ok, Holds-at,
}
use lcw.Api.{OpT, send, recv, put, put_signal}
use lcw.Comp.{Host}
use lcw.Pcounter.{Counters, Trend, Timer, add}
use native.Mathlib.Nat.{zero-add}
use lcw.Pcounter
use lcw.Frontend.{Process}
use lcw.Mpi.Types.{MpiApi, EntryT, ManagerT, req, cont, freed, State}
use lcw.Mpi.Init.{Env}
use lcw.Mpi.Frame.{books, On}
use lcw.Mpi.Ledger.{entries, weight, load, Inv, Hand}
use lcw.Mpi.Tally.{one_of, end_of, Tally, Tally-settles, Tally-weigh, Tally-opens}
use lcw.Mpi.Throttle.{is_counted, Throttle, Throttle-settles, Throttle-opens}
use lcw.Mpi.Produce.{nothing, Produce, Produce-settles, Produce-opens}
use lcw.Mpi.History.{start_of, Call, run}
use lcw.Mpi.History.Kept.{
  Takes, IsAside, put_retry, send_retry, recv_retry, comp_consume, comp_poll, progress, IsPost,
  is_send, is_recv, is_put, Accounting, run-Keeps,
}

Tally-aside :
    (k : OpT) (d : ℕ) (t : Trend) → IsAside t → Takes (Pcounter.add t) (Tally k d) (Tally k d)
unfolding add
Tally-aside k d t put_retry x b h = ground arith
Tally-aside k d t send_retry x b h = ground arith
Tally-aside k d t recv_retry x b h = ground arith
Tally-aside k d t comp_consume x b h = ground arith
Tally-aside k d t comp_poll x b h = ground arith
Tally-aside k d t progress x b h = ground arith

Tally-start : (k : OpT) (d : ℕ) (t : Timer) → Takes (Pcounter.start t) (Tally k d) (Tally k d)
unfolding Pcounter.start
Tally-start k d t x b h = ground arith

Tally-finish : (k : OpT) (d : ℕ) (t : Timer) → Takes (Pcounter.finish t) (Tally k d) (Tally k d)
unfolding Pcounter.finish
Tally-finish k d t x b h = ground arith

Tally-count :
    (k op : OpT)
    → IsPost op
    → Takes (Pcounter.add (start_of op)) (Tally k (0 + one_of k op)) (Tally k 0)
unfolding add
Tally-count k op is_send x b h = ground arith
Tally-count k op is_recv x b h = ground arith
Tally-count k op is_put x b h = ground arith

one_of-put_signal : (k : OpT) → one_of k put_signal ≡ 0
one_of-put_signal send = refl
one_of-put_signal _ = refl

pub Tally-accounting : {W : Type 0} (k : OpT) → Accounting W (one_of k) (Tally k 0)
Tally-accounting k = record {
  posted = λ op. Tally k (0 + one_of k op);
  settles = Tally-settles k 0;
  settles_posted = λ op. Tally-settles k (0 + one_of k op);
  free = one_of-put_signal k;
  sends = Tally-opens k send 0;
  puts = Tally-opens k put 0;
  recvs = Tally-weigh k recv 0;
  aside = Tally-aside k 0;
  start = Tally-start k 0;
  finish = Tally-finish k 0;
  finish_posted = λ op. Tally-finish k (0 + one_of k op);
  count = Tally-count k;
}

-- The counters play no part.
Throttle-takes : (m : ℕ) (f : Counters → Counters) → Takes f (Throttle m) (Throttle m)
Throttle-takes m f x b h = record { limit = h.limit; exact = h.exact; bound = h.bound }

module _ {W : Type 0} (m : ℕ) (lt : 0 < m) (top : m < int_max) where
  Throttle-recv :
      (s : State W) → On (Inv is_counted (Throttle m)) s → On (Hand is_counted (Throttle m) 0) s
  Throttle-recv s h = record {
    limit = h.limit;
    exact = rw zero-add h.exact;
    bound = omega (arith, h.bound);
  }

  pub Throttle-accounting : Accounting W is_counted (Throttle m)
  Throttle-accounting = record {
    posted = λ op. Throttle m;
    settles = Throttle-settles m lt;
    settles_posted = λ op. Throttle-settles m lt;
    free = refl;
    sends = Throttle-opens m send lt top refl;
    puts = Throttle-opens m put lt top refl;
    recvs = Throttle-recv;
    aside = λ t i. Throttle-takes m (Pcounter.add t);
    start = λ t. Throttle-takes m (Pcounter.start t);
    finish = λ t. Throttle-takes m (Pcounter.finish t);
    finish_posted = λ op t. Throttle-takes m (Pcounter.finish t);
    count = λ op _. Throttle-takes m (Pcounter.add (start_of op));
  }

Produce-aside : (t : Trend) → IsAside t → Takes (Pcounter.add t) Produce Produce
unfolding add
Produce-aside t put_retry x b h = ground arith
Produce-aside t send_retry x b h = ground arith
Produce-aside t recv_retry x b h = ground arith
Produce-aside t comp_consume x b h = ground arith
Produce-aside t comp_poll x b h = ground arith
Produce-aside t progress x b h = ground arith

Produce-start : (t : Timer) → Takes (Pcounter.start t) Produce Produce
unfolding Pcounter.start
Produce-start t x b h = ground arith

Produce-finish : (t : Timer) → Takes (Pcounter.finish t) Produce Produce
unfolding Pcounter.finish
Produce-finish t x b h = ground arith

Produce-count : (op : OpT) → IsPost op → Takes (Pcounter.add (start_of op)) Produce Produce
unfolding add
Produce-count op is_send x b h = ground arith
Produce-count op is_recv x b h = ground arith
Produce-count op is_put x b h = ground arith

pub Produce-accounting : {W : Type 0} → Accounting W nothing Produce
Produce-accounting = record {
  posted = λ op. Produce;
  settles = Produce-settles;
  settles_posted = λ op. Produce-settles;
  free = refl;
  sends = Produce-opens send;
  puts = Produce-opens put;
  recvs = λ s h. record { sum = h.sum };
  aside = Produce-aside;
  start = Produce-start;
  finish = Produce-finish;
  finish_posted = λ op. Produce-finish;
  count = Produce-count;
}

-- The entries that can still complete, and those that a manager_req_t was destroyed with.
abbrev pub held : ManagerT → List EntryT
held (req es l) = es
held (cont r es l) = es
held (freed gone es) = es

abbrev pub lost : ManagerT → List EntryT
lost (req es l) = []
lost (cont r es l) = []
lost (freed gone es) = gone

entries-split :
    (w : OpT → ℕ) (m : ManagerT) → weight w (entries m) ≡ weight w (held m) + weight w (lost m)
entries-split w (req es l) = omega arith
entries-split w (cont r es l) = omega arith
entries-split w (freed gone es) = omega (arith, total-append (λ e. w e.request.op) gone es)

load-split :
    (w : OpT → ℕ) (ms : List ManagerT)
    → load w ms ≡ total (λ m. weight w (held m)) ms + total (λ m. weight w (lost m)) ms
load-split w [] = refl
load-split w (m ∷ ms) = omega (arith, entries-split w m, load-split w ms)

-- Started is ended, held and lost together, for the operation `k`.
abbrev pub IsBalanced : {W : Type 0} → OpT → State W → Type 0
IsBalanced k s =
    total (λ m. weight (one_of k) (held m)) s.managers
      + total (λ m. weight (one_of k) (lost m)) s.managers
      + s.counters.trend (end_of k)
    ≡ s.counters.trend (start_of k)

module _ {W : Type 0} (host : Host W) (api : MpiApi W) (env : Env) where
  -- With the performance counters on, after any history of communication, device and completion calls
  -- and of continuations, run in any order, that returns: the sends (receives, puts) that were counted
  -- as started are as many as those counted as ended, those that a completion manager or MPI holds for
  -- completion, and those that were in the queue of a manager_req_t when free_device destroyed it, if
  -- they were as many before the history.
  pub run-IsBalanced :
      (k : OpT) (cs : List Call) (p p' : Process (State W))
      → run host api env cs p ≡ ok (tt, p')
      → p.state.counters.enabled ≡ true
      → IsBalanced k p.state
      → IsBalanced k p'.state
  run-IsBalanced k cs p p' e on h =
      omega (arith, after.sum, load-split (one_of k) p'.state.managers)
    where
      before : On (Inv (one_of k) (Tally k 0)) p.state
      before = record {
        enabled = on;
        sum = omega (arith, h, load-split (one_of k) p.state.managers);
      }

      after : On (Inv (one_of k) (Tally k 0)) p'.state
      after =
          Holds-at (run-Keeps host api env (one_of k) (Tally k 0) (Tally-accounting k) cs) p e
            before

  -- Every signalled completion is counted once: after any history that returns, comp_produce is the
  -- sum of send_end, recv_end, put_end and put_signal, if it was so before.
  pub run-Produce :
      (cs : List Call) (p p' : Process (State W))
      → run host api env cs p ≡ ok (tt, p')
      → Produce 0 (books p.state)
      → Produce 0 (books p'.state)
  run-Produce cs p p' e h = record { sum = after.sum }
    where
      after : On (Inv nothing Produce) p'.state
      after =
          Holds-at (run-Keeps host api env nothing Produce Produce-accounting cs) p e
            (record { sum = h.sum })

  -- With a positive LCW_MPI_MAX_PENDING_MSG `m` below the greatest int, after any history that returns,
  -- g_pending_msg, an int that wraps around, is the number of sends and puts that completion managers
  -- or MPI hold for completion or that were lost with a manager_req_t that was destroyed, and that is
  -- `m + 1` at most, if both were so before.
  pub run-Throttle :
      (m : ℕ) (cs : List Call) (p p' : Process (State W))
      → 0 < m
      → m < int_max
      → run host api env cs p ≡ ok (tt, p')
      → On (Inv is_counted (Throttle m)) p.state
      → On (Inv is_counted (Throttle m)) p'.state
  run-Throttle m cs p p' lt top e h =
      Holds-at (run-Keeps host api env is_counted (Throttle m) (Throttle-accounting m lt top) cs) p
        e h
