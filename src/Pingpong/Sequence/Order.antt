-- ===== src/Pingpong/Sequence/Order.antt =====
-- The order in which the workers take their turns.
use lcw.Base.{
  ℕ, zero, suc, ◌≤◌, ◌<◌, ◌≡◌, ◌≢◌, refl, sym, ap, ◌∙◌, Bool, true, false, Option, none, some, List,
  [], ◌∷◌, ◌++◌, arith, length, length-append, get_elem?, set, get_elem?-set_self, get_elem?-set_ne,
  lt-length_of_some, length-set, leb, ◌==◌, ==_iff, if◌then◌else◌, Bool-cases, inl, inr,
}
use lcw.Pingpong.Sequence.{Phase, takes_turn, looks, step, run, all_waiting, phase_from}

-- 0, 1, ..., n - 1
unfoldable pub upto : ℕ → List ℕ
upto zero = []
upto (suc n) = upto n ++ n ∷ []

-- `n` devices of the `workers` ones with a worker have been dealt with, the first ones in order.
pub record IsInTurn (ndevices workers : ℕ) (s : Phase) : Type 0 where
  pub n : ℕ
  pub most : n ≤ workers
  pub order : s.order ≡ upto n
  pub control : s.control ≡ (if n == ndevices then 0 else n)
  pub count : length s.waiting ≡ workers
  pub waits : (d : ℕ) → d < workers → get_elem? s.waiting d ≡ some (leb n d)

length-all_waiting : (n : ℕ) → length (all_waiting n) ≡ n
unfolding all_waiting
length-all_waiting zero = refl
length-all_waiting (suc n) = ap suc (length-all_waiting n)

get_elem?-all_waiting : (n d : ℕ) → d < n → get_elem? (all_waiting n) d ≡ some true
unfolding all_waiting
get_elem?-all_waiting zero d lt = absurd (omega (arith, lt))
get_elem?-all_waiting (suc n) zero lt = refl
get_elem?-all_waiting (suc n) (suc d) lt = get_elem?-all_waiting n d (omega (arith, lt))

module _ (ndevices workers : ℕ) (le : workers ≤ ndevices) where
  module _ (d : ℕ) (s : Phase) (at : get_elem? s.waiting d ≡ some true)
      (h : IsInTurn ndevices workers s) where
    has_worker : d < workers
    has_worker = omega (arith, lt-length_of_some s.waiting d at, h.count)

    not_yet : h.n ≤ d
    not_yet = let q : some true ≡ some (leb h.n d) = sym at ∙ h.waits d has_worker in ground arith

    -- The counter has not wrapped round.
    counts : s.control ≡ h.n
    counts = let k = h.control in let a = has_worker in let b = not_yet in ground arith

    turn_waits :
        s.control ≡ d
        → (d' : ℕ) → d' < workers
        → get_elem? (set s.waiting d false) d' ≡ some (leb (suc h.n) d')
    turn_waits e d' lt = elim (Bool-cases (d == d')) [
      | inl same ↦
          let q : d ≡ d' = (==_iff d d').0 same in
          let f : leb (suc h.n) d' ≡ false = let c = counts in ground arith in
          rw f (rw (← q) (get_elem?-set_self s.waiting d false (lt-length_of_some s.waiting d at)))
      | inr other ↦
          let q : d ≢ d' = λ q. cc (sym ((==_iff d d').1 q) ∙ other) in
          let f : leb (suc h.n) d' ≡ leb h.n d' = let c = counts in ground arith in
          rw f (get_elem?-set_ne s.waiting false q ∙ h.waits d' lt)
    ]

    turn-IsInTurn :
        (b : Bool) → (s.control == d) ≡ b → IsInTurn ndevices workers (takes_turn ndevices d b s)
    unfolding takes_turn upto
    turn-IsInTurn false e = h
    turn-IsInTurn true e =
        let q : s.control ≡ d = (==_iff _ _).0 e in
        record {
          n = suc h.n;
          most = omega (arith, has_worker, counts, q);
          order = ap (λ o. o ++ d ∷ []) h.order ∙ ap (λ k. upto h.n ++ k ∷ []) (sym q ∙ counts);
          control = let c = counts in ground arith;
          count = length-set s.waiting d false ∙ h.count;
          waits = turn_waits q;
        }

  looks-IsInTurn :
      (d : ℕ) (o : Option Bool) (s : Phase)
      → get_elem? s.waiting d ≡ o
      → IsInTurn ndevices workers s
      → IsInTurn ndevices workers (looks ndevices d o s)
  unfolding looks
  looks-IsInTurn d none s at h = h
  looks-IsInTurn d (some false) s at h = h
  looks-IsInTurn d (some true) s at h = turn-IsInTurn d s at h (s.control == d) refl

  run_keeps :
      (ds : List ℕ) (s : Phase)
      → IsInTurn ndevices workers s
      → IsInTurn ndevices workers (run ndevices ds s)
  unfolding run step
  run_keeps [] s h = h
  run_keeps (d ∷ ds) s h =
      run_keeps ds (step ndevices d s) (looks-IsInTurn d (get_elem? s.waiting d) s refl h)

  length-upto : (n : ℕ) → length (upto n) ≡ n
  unfolding upto
  length-upto zero = refl
  length-upto (suc n) = omega (arith, length-append (upto n) (n ∷ []), length-upto n)

  -- A look by the next worker in turn, or by one that has been served.
  looks-advances :
      (d : ℕ) (b : Bool) (s : Phase) (h : IsInTurn ndevices workers s)
      → leb h.n d ≡ b
      → d ≤ h.n
      → d < workers
      → suc d ≤ length (looks ndevices d (some b) s).order
  unfolding looks takes_turn
  looks-advances d false s h e le' lt =
      omega (arith, ap length h.order, length-upto h.n, not_le h.n d e)
    where
      not_le : (n d : ℕ) → leb n d ≡ false → d < n
      not_le n d e = ground arith
  looks-advances d true s h e le' lt =
      rw served (omega (arith, length-append s.order (d ∷ []), ap length h.order, length-upto h.n))
    where
      served : (s.control == d) ≡ true
      served = let k = h.control in ground arith

  step-advances :
      (d : ℕ) (s : Phase)
      → IsInTurn ndevices workers s
      → d ≤ length s.order
      → d < workers
      → suc d ≤ length (step ndevices d s).order
  unfolding step
  step-advances d s h le' lt = rw (h.waits d lt) (
      looks-advances d (leb h.n d) s h refl (omega (arith, le', ap length h.order, length-upto h.n))
        lt)

  run-append :
      (ds es : List ℕ) (s : Phase) → run ndevices (ds ++ es) s ≡ run ndevices es (run ndevices ds s)
  unfolding run
  run-append [] es s = refl
  run-append (d ∷ ds) es s = run-append ds es (step ndevices d s)

  run-upto-advances :
      (j : ℕ) (s : Phase)
      → IsInTurn ndevices workers s
      → j ≤ workers
      → j ≤ length (run ndevices (upto j) s).order
  unfolding run upto
  run-upto-advances zero s h k = omega arith
  run-upto-advances (suc j) s h k = rw (run-append (upto j) (j ∷ []) s) (
      step-advances j (run ndevices (upto j) s) (run_keeps (upto j) s h)
        (run-upto-advances j s h (omega arith)) (omega arith))

  start-IsInTurn : IsInTurn ndevices workers (phase_from 0 workers)
  unfolding phase_from upto
  start-IsInTurn = record {
    n = 0;
    most = omega arith;
    order = refl;
    control = ground arith;
    count = length-all_waiting workers;
    waits = λ d lt. get_elem?-all_waiting workers d lt ∙ ap some (ground arith);
  }

  -- With no more responsible workers than devices, in the first phase, in whatever order and however often the workers look, the devices are
  -- allocated in increasing order with none left out: `order` is 0, 1, ..., n - 1 for some n. And
  -- once each worker looks again in turn, all are allocated, and the counter is left at 0 if every
  -- device has a worker and at the number of workers that are responsible for one if not.
  pub run-in_turn :
      (ds : List ℕ)
      → ((n : ℕ) × (n ≤ workers) × ((run ndevices ds (phase_from 0 workers)).order ≡ upto n))
        × ((run ndevices (ds ++ upto workers) (phase_from 0 workers)).order ≡ upto workers)
        × ((run ndevices (ds ++ upto workers) (phase_from 0 workers)).control
            ≡ (if workers == ndevices then 0 else workers))
  run-in_turn ds = (
    (h.n, h.most, h.order),
    end.order ∙ ap upto all,
    end.control ∙ ap (λ n. if n == ndevices then 0 else n) all,
  )
    where
      h : IsInTurn ndevices workers (run ndevices ds (phase_from 0 workers))
      h = run_keeps ds (phase_from 0 workers) start-IsInTurn

      end : IsInTurn ndevices workers (run ndevices (ds ++ upto workers) (phase_from 0 workers))
      end = run_keeps (ds ++ upto workers) (phase_from 0 workers) start-IsInTurn

      reached : workers ≤ length (run ndevices (ds ++ upto workers) (phase_from 0 workers)).order
      reached =
          rw (run-append ds (upto workers) (phase_from 0 workers))
            (run-upto-advances workers (run ndevices ds (phase_from 0 workers)) h (omega arith))

      all : end.n ≡ workers
      all = omega (arith, reached, end.most, ap length end.order, length-upto end.n)

looks-stuck :
    (ndevices workers d : ℕ) (o : Option Bool)
    → get_elem? (all_waiting workers) d ≡ o
    → looks ndevices d o (phase_from workers workers) ≡ phase_from workers workers
unfolding looks phase_from takes_turn
looks-stuck ndevices workers d none e = refl
looks-stuck ndevices workers d (some false) e = refl
looks-stuck ndevices workers d (some true) e = rw other refl
  where
    other : (workers == d) ≡ false
    other =
        let q = lt-length_of_some (all_waiting workers) d e in
        let r = length-all_waiting workers in ground arith

run-stuck :
    (ndevices workers : ℕ) (ds : List ℕ)
    → run ndevices ds (phase_from workers workers) ≡ phase_from workers workers
unfolding run step phase_from
run-stuck ndevices workers [] = refl
run-stuck ndevices workers (d ∷ ds) =
    ap (run ndevices ds) (looks-stuck ndevices workers d (get_elem? (all_waiting workers) d) refl)
    ∙ run-stuck ndevices workers ds

-- The counter after a first phase in which every worker has had its turn.
abbrev pub control_after : ℕ → ℕ → List ℕ → ℕ
control_after ndevices workers ds =
    (run ndevices (ds ++ upto workers) (phase_from 0 workers)).control

-- Where every device has a worker, the second phase frees all the devices in increasing order, once
-- each worker looks again in turn.
pub second_phase_frees :
    (ndevices : ℕ) (ds es : List ℕ)
    → (run ndevices
        (es ++ upto ndevices)
        (phase_from (control_after ndevices ndevices ds) ndevices)).order
      ≡ upto ndevices
second_phase_frees ndevices ds es =
    let e : control_after ndevices ndevices ds ≡ 0 =
      (run-in_turn ndevices ndevices (omega arith) ds).2 ∙ back in
    rw e (run-in_turn ndevices ndevices (omega arith) es).1
  where
    back : (if ndevices == ndevices then 0 else ndevices) ≡ 0
    back = ground arith

-- Where some device has no worker, the second phase never frees anything: however often the workers
-- look, each of them goes on spinning.
pub second_phase_stuck :
    (ndevices workers : ℕ) (ds es : List ℕ)
    → workers < ndevices
    → run ndevices es (phase_from (control_after ndevices workers ds) workers)
      ≡ phase_from (control_after ndevices workers ds) workers
second_phase_stuck ndevices workers ds es lt =
    let e : control_after ndevices workers ds ≡ workers =
      (run-in_turn ndevices workers (omega arith) ds).2 ∙ kept in
    rw e (run-stuck ndevices workers es)
  where
    kept : (if workers == ndevices then 0 else workers) ≡ workers
    kept = ground arith
