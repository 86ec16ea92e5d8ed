-- ===== src/Mpi/Manager/Threads/Moves.antt =====
-- What is kept under several threads, and the moves of one thread that keep it.
use lcw.Base.{
  ℕ, ◌+◌, ◌≤◌, ◌≡◌, subst, Bool, true, false, some, [], ◌∷◌, ◌++◌, arith, length, length-append,
  get_elem?, set, total, total-append, total-set, total-le,
}
use lcw.Mpi.Manager.Threads.{
  Point, idle, locked, popping, testing, finishing, signalling, leaving, adding, appending, Shared,
  goes,
}

abbrev pub held : Bool → ℕ
held true = 1
held false = 0

pub held-le : (b : Bool) → held b ≤ 1
held-le b = ground arith

module _ {A : Type 0} where
  -- 1 for a thread between `lock` and `unlock`.
  abbrev pub inside : Point A → ℕ
  inside locked = 1
  inside popping = 1
  inside (testing e) = 1
  inside (finishing e) = 1
  inside leaving = 1
  inside (appending e) = 1
  inside _ = 0

  abbrev pub at_front : Point A → ℕ
  at_front popping = 1
  at_front _ = 0

  -- The weight of the entry that a thread has in hand.
  abbrev pub carried : (A → ℕ) → Point A → ℕ
  carried w (testing e) = w e
  carried w (finishing e) = w e
  carried w (signalling e) = w e
  carried w (adding e) = w e
  carried w (appending e) = w e
  carried w _ = 0

  -- The lock is held by exactly the thread inside, if any; a thread that goes to `front` finds an
  -- entry; and for the weight `w`, what was added is what is queued, in hand, or signalled.
  pub record IsSafe (w : A → ℕ) (s : Shared A) : Type 0 where
    pub exclusive : total inside s.threads ≡ held s.lock
    pub ready : total at_front s.threads ≤ length s.entries
    pub intact : s.crashed ≡ false
    pub conserved :
        total w s.entries + total (carried w) s.threads + total w s.signalled ≡ total w s.added

  pub at_front-le : (q : Point A) → at_front q ≤ inside q
  at_front-le q = ground arith

  -- A thread that only moves on, with nothing new in hand and still inside or still outside.
  pub goes-IsSafe :
      (w : A → ℕ) (i : ℕ) (q q' : Point A) (s : Shared A)
      → get_elem? s.threads i ≡ some q
      → inside q' ≡ inside q
      → at_front q' ≡ 0
      → carried w q' ≡ carried w q
      → IsSafe w s
      → IsSafe w (goes i q' s)
  goes-IsSafe w i q q' s at e f g h = record {
    exclusive = omega (arith, total-set inside s.threads i q' at, h.exclusive, e);
    ready = omega (arith, total-set at_front s.threads i q' at, h.ready, f);
    intact = h.intact;
    conserved = omega (arith, total-set (carried w) s.threads i q' at, h.conserved, g);
  }

  -- Both ways into the lock.
  pub enters-IsSafe :
      (w : A → ℕ) (i : ℕ) (q q' : Point A) (s : Shared A)
      → get_elem? s.threads i ≡ some q
      → s.lock ≡ false
      → inside q ≡ 0
      → inside q' ≡ 1
      → at_front q' ≡ 0
      → carried w q' ≡ carried w q
      → IsSafe w s
      → IsSafe w (record (goes i q' s) { lock = true })
  enters-IsSafe w i q q' s at free e e' f g h = record {
    exclusive = omega (
      arith,
      total-set inside s.threads i q' at,
      subst (λ l. total inside s.threads ≡ held l) free h.exclusive,
      e,
      e',
    );
    ready = omega (arith, total-set at_front s.threads i q' at, h.ready, f);
    intact = h.intact;
    conserved = omega (arith, total-set (carried w) s.threads i q' at, h.conserved, g);
  }

  -- Both ways out of it.
  pub leaves-IsSafe :
      (w : A → ℕ) (i : ℕ) (q q' : Point A) (s : Shared A)
      → get_elem? s.threads i ≡ some q
      → inside q ≡ 1
      → inside q' ≡ 0
      → at_front q' ≡ 0
      → carried w q' ≡ carried w q
      → IsSafe w s
      → IsSafe w (record (goes i q' s) { lock = false })
  leaves-IsSafe w i q q' s at e e' f g h = record {
    exclusive =
        omega (arith, total-set inside s.threads i q' at, h.exclusive, held-le s.lock, e, e');
    ready = omega (arith, total-set at_front s.threads i q' at, h.ready, f);
    intact = h.intact;
    conserved = omega (arith, total-set (carried w) s.threads i q' at, h.conserved, g);
  }

  -- push_back of the entry in hand.
  pub pushes-IsSafe :
      (w : A → ℕ) (i : ℕ) (q : Point A) (e : A) (s : Shared A)
      → get_elem? s.threads i ≡ some q
      → inside q ≡ 1
      → carried w q ≡ w e
      → IsSafe w s
      → IsSafe w (record (goes i leaving s) { entries = s.entries ++ e ∷ [] })
  pushes-IsSafe w i q e s at one g h = record {
    exclusive = omega (arith, total-set inside s.threads i leaving at, h.exclusive, one);
    ready = omega (
      arith,
      total-set at_front s.threads i leaving at,
      h.ready,
      length-append s.entries (e ∷ []),
    );
    intact = h.intact;
    conserved = omega (
      arith,
      total-set (carried w) s.threads i leaving at,
      h.conserved,
      g,
      total-append w s.entries (e ∷ []),
    );
  }

  -- With thread `i` outside, a thread at the front is inside.
  pub alone :
      (i : ℕ) (s : Shared A)
      → total at_front (set s.threads i idle) ≤ total inside (set s.threads i idle)
  alone i s = total-le at_front inside at_front-le (set s.threads i idle)
