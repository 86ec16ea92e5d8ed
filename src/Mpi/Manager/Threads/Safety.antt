-- ===== src/Mpi/Manager/Threads/Safety.antt =====
-- What holds of manager_req_t however its threads interleave.
use lcw.Base.{
  ℕ, ◌≡◌, refl, ap, Bool, true, false, Option, none, some, List, [], ◌∷◌, arith, length, get_elem?,
  total, total-set,
}
use lcw.Mpi.Manager.Threads.{
  Point, idle, seen, locked, popping, testing, finishing, signalling, leaving, adding, appending,
  Event, progresses, adds, tests, Shared, looks, begins, try_lock, checks, pops, reports, waits,
  resume, at_point, step, run,
}
use lcw.Mpi.Manager.Threads.Moves.{
  inside, at_front, held-le, carried, IsSafe, goes-IsSafe, enters-IsSafe, leaves-IsSafe,
  pushes-IsSafe, alone,
}

module _ {A : Type 0} where
  begins-IsSafe :
      (w : A → ℕ) (i : ℕ) (v : Event A) (s : Shared A)
      → get_elem? s.threads i ≡ some idle
      → IsSafe w s
      → IsSafe w (begins i v s)
  unfolding begins looks
  begins-IsSafe w i progresses s at h = go s.entries
    where
      go : (es : List A) → IsSafe w (looks i es s)
      go [] = h
      go (e ∷ es) = goes-IsSafe w i idle seen s at refl refl refl h
  begins-IsSafe w i (adds e) s at h = record {
    exclusive = omega (arith, total-set inside s.threads i (adding e) at, h.exclusive);
    ready = omega (arith, total-set at_front s.threads i (adding e) at, h.ready);
    intact = h.intact;
    conserved = omega (arith, total-set (carried w) s.threads i (adding e) at, h.conserved);
  }
  begins-IsSafe w i (tests b) s at h = h

  checks-IsSafe :
      (w : A → ℕ) (i : ℕ) (es : List A) (s : Shared A)
      → s.entries ≡ es
      → get_elem? s.threads i ≡ some locked
      → IsSafe w s
      → IsSafe w (checks i es s)
  unfolding checks
  checks-IsSafe w i [] s eq at h = goes-IsSafe w i locked leaving s at refl refl refl h
  checks-IsSafe w i (e ∷ es) s eq at h = record {
    exclusive = omega (arith, total-set inside s.threads i popping at, h.exclusive);
    ready = omega (
      arith,
      ap length eq,
      alone i s,
      total-set at_front s.threads i popping at,
      total-set at_front s.threads i idle at,
      total-set inside s.threads i idle at,
      h.exclusive,
      held-le s.lock,
    );
    intact = h.intact;
    conserved = omega (arith, total-set (carried w) s.threads i popping at, h.conserved);
  }

  pops-IsSafe :
      (w : A → ℕ) (i : ℕ) (es : List A) (s : Shared A)
      → s.entries ≡ es
      → get_elem? s.threads i ≡ some popping
      → IsSafe w s
      → IsSafe w (pops i es s)
  unfolding pops
  pops-IsSafe w i [] s eq at h =
      absurd (omega (arith, ap length eq, total-set at_front s.threads i idle at, h.ready))
  pops-IsSafe w i (e ∷ es) s eq at h = record {
    exclusive = omega (arith, total-set inside s.threads i (testing e) at, h.exclusive);
    ready = omega (
      arith,
      alone i s,
      total-set at_front s.threads i (testing e) at,
      total-set at_front s.threads i idle at,
      total-set inside s.threads i idle at,
      h.exclusive,
      held-le s.lock,
    );
    intact = h.intact;
    conserved =
        omega
          (arith, total-set (carried w) s.threads i (testing e) at, h.conserved, ap (total w) eq);
  }

  try_lock-IsSafe :
      (w : A → ℕ) (i : ℕ) (b : Bool) (s : Shared A)
      → s.lock ≡ b
      → get_elem? s.threads i ≡ some seen
      → IsSafe w s
      → IsSafe w (try_lock i b s)
  unfolding try_lock
  try_lock-IsSafe w i true s eq at h = goes-IsSafe w i seen idle s at refl refl refl h
  try_lock-IsSafe w i false s eq at h = enters-IsSafe w i seen locked s at eq refl refl refl refl h

  waits-IsSafe :
      (w : A → ℕ) (i : ℕ) (e : A) (b : Bool) (s : Shared A)
      → s.lock ≡ b
      → get_elem? s.threads i ≡ some (adding e)
      → IsSafe w s
      → IsSafe w (waits i e b s)
  unfolding waits
  waits-IsSafe w i e true s eq at h = h
  waits-IsSafe w i e false s eq at h =
      enters-IsSafe w i (adding e) (appending e) s at eq refl refl refl refl h

  reports-IsSafe :
      (w : A → ℕ) (i : ℕ) (e : A) (v : Event A) (s : Shared A)
      → get_elem? s.threads i ≡ some (testing e)
      → IsSafe w s
      → IsSafe w (reports i e v s)
  unfolding reports
  reports-IsSafe w i e progresses s at h = h
  reports-IsSafe w i e (adds f) s at h = h
  reports-IsSafe w i e (tests true) s at h = goes-IsSafe w i _ (finishing e) s at refl refl refl h
  reports-IsSafe w i e (tests false) s at h = pushes-IsSafe w i _ e s at refl refl h

  resume-IsSafe :
      (w : A → ℕ) (i : ℕ) (v : Event A) (q : Point A) (s : Shared A)
      → get_elem? s.threads i ≡ some q
      → IsSafe w s
      → IsSafe w (resume i v q s)
  unfolding resume
  resume-IsSafe w i v idle s at h = begins-IsSafe w i v s at h
  resume-IsSafe w i v seen s at h = try_lock-IsSafe w i s.lock s refl at h
  resume-IsSafe w i v locked s at h = checks-IsSafe w i s.entries s refl at h
  resume-IsSafe w i v popping s at h = pops-IsSafe w i s.entries s refl at h
  resume-IsSafe w i v (testing e) s at h = reports-IsSafe w i e v s at h
  resume-IsSafe w i v (finishing e) s at h =
      leaves-IsSafe w i _ (signalling e) s at refl refl refl refl h
  resume-IsSafe w i v (signalling e) s at h = record {
    exclusive = omega (arith, total-set inside s.threads i idle at, h.exclusive);
    ready = omega (arith, total-set at_front s.threads i idle at, h.ready);
    intact = h.intact;
    conserved = omega (arith, total-set (carried w) s.threads i idle at, h.conserved);
  }
  resume-IsSafe w i v leaving s at h = leaves-IsSafe w i _ idle s at refl refl refl refl h
  resume-IsSafe w i v (adding e) s at h = waits-IsSafe w i e s.lock s refl at h
  resume-IsSafe w i v (appending e) s at h = pushes-IsSafe w i _ e s at refl refl h

  step-IsSafe :
      (w : A → ℕ) (i : ℕ) (v : Event A) (s : Shared A) → IsSafe w s → IsSafe w (step i v s)
  unfolding step at_point
  step-IsSafe w i v s h = go (get_elem? s.threads i) refl
    where
      go : (o : Option (Point A)) → get_elem? s.threads i ≡ o → IsSafe w (at_point i v o s)
      go none at = h
      go (some q) at = resume-IsSafe w i v q s at h

  -- However the steps of the threads interleave, one thread at most is between `lock` and `unlock`,
  -- and one is exactly when the lock is held; `front` is never called on an empty queue; and for
  -- any weight of entries, those added weigh as much as those queued, in a thread's hand, and
  -- signalled: none is lost or signalled twice. It is assumed of the start of the schedule.
  pub run-IsSafe :
      (w : A → ℕ) (vs : List (ℕ × Event A)) (s : Shared A) → IsSafe w s → IsSafe w (run vs s)
  unfolding run
  run-IsSafe w [] s h = h
  run-IsSafe w ((i, v) ∷ vs) s h = run-IsSafe w vs (step i v s) (step-IsSafe w i v s h)
