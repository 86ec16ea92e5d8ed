-- ===== src/Mpi/Post/Race.antt =====
-- The limit on pending messages of send and put, src/backend/mpi/backend_mpi.cpp, under several
-- threads: the load of g_pending_msg, its fetch_add and the post are three steps, and others come in
-- between.
use lcw.Base.{
  ℕ, ℤ, pos, zero, suc, ◌+◌, ◌<◌, ◌≤◌, ◌≡◌, refl, ap, ◌∙◌, Bool, true, false, Option, none, some,
  List, [], ◌∷◌, arith, length, length-set, get_elem?, set, ltb_ℤ, lt→ltb, subst, total, total-set,
  int_max, if◌then◌else◌,
}
use lcw.Mpi.Types.{fetch_add, fetch_sub, fetch_add-pos}

-- Before the test, after a load that found room, and after the fetch_add or without a limit.
pub data Phase : Type 0 where
  outside admitted ready : Phase

-- `in_flight` is the number of sends and puts that were posted and have not been signalled.
pub record Pending : Type 0 where
  pub g_pending_msg : ℤ
  pub in_flight : ℕ
  pub threads : List Phase

pub data Event : Type 0 where
  posts : ℕ → Event  -- the thread's next step in send or put
  completes : Event  -- signal_comp of one message in flight

abbrev goes : ℕ → Phase → Pending → Pending
goes i q s = record s { threads = set s.threads i q }

-- g_pending_msg_max > 0
abbrev pub is_limited : ℤ → Bool
is_limited g_pending_msg_max = ltb_ℤ (pos 0) g_pending_msg_max

-- The two tests, and `return false`.
loads : ℕ → Bool → Bool → Pending → Pending
loads i false over s = goes i ready s
loads i true true s = s
loads i true false s = goes i admitted s

acquires : ℤ → ℕ → Option Phase → Pending → Pending
unfolding loads
acquires m i none s = s
acquires m i (some outside) s = loads i (is_limited m) (ltb_ℤ m s.g_pending_msg) s
acquires m i (some admitted) s = record (goes i ready s) {
  g_pending_msg = fetch_add s.g_pending_msg;
}
acquires m i (some ready) s = record (goes i outside s) { in_flight = suc s.in_flight }

releases : ℤ → ℕ → Pending → Pending
releases m zero s = s
releases m (suc n) s = record s {
  g_pending_msg = if is_limited m then fetch_sub s.g_pending_msg else s.g_pending_msg;
  in_flight = n;
}

-- One step with g_pending_msg_max.
unfoldable pub step : ℤ → Event → Pending → Pending
unfolding acquires releases
step g_pending_msg_max (posts i) s = acquires g_pending_msg_max i (get_elem? s.threads i) s
step g_pending_msg_max completes s = releases g_pending_msg_max s.in_flight s

unfoldable pub run : ℤ → List Event → Pending → Pending
unfolding step
run m [] s = s
run m (e ∷ es) s = run m es (step m e s)

abbrev pub is_admitted : Phase → ℕ
is_admitted admitted = 1
is_admitted outside = 0
is_admitted ready = 0

abbrev pub is_ready : Phase → ℕ
is_ready ready = 1
is_ready outside = 0
is_ready admitted = 0

-- With `k` threads: the counter is the number of messages in flight and of threads that have counted
-- theirs and not posted it, and with those that are about to count it stays within the limit and `k`.
pub record IsBounded (m k : ℕ) (s : Pending) : Type 0 where
  pub size : length s.threads ≡ k
  pub exact : s.g_pending_msg ≡ pos (s.in_flight + total is_ready s.threads)
  pub bound : s.in_flight + total is_ready s.threads + total is_admitted s.threads ≤ m + k

admitted-le : (qs : List Phase) → total is_admitted qs ≤ length qs
admitted-le [] = omega arith
admitted-le (outside ∷ qs) = omega (arith, admitted-le qs)
admitted-le (admitted ∷ qs) = omega (arith, admitted-le qs)
admitted-le (ready ∷ qs) = omega (arith, admitted-le qs)

room-le : (a : ℤ) (m n : ℕ) → a ≡ pos n → ltb_ℤ (pos m) a ≡ false → n ≤ m
room-le a m n e h = go (subst (λ b. ltb_ℤ (pos m) b ≡ false) e h)
  where
    go : ltb_ℤ (pos m) (pos n) ≡ false → n ≤ m
    go h = ground arith

module _ (m k : ℕ) (lt : 0 < m) (fits : m + k ≤ int_max) where
  loads-IsBounded :
      (i : ℕ) (b : Bool) (s : Pending)
      → get_elem? s.threads i ≡ some outside
      → ltb_ℤ (pos m) s.g_pending_msg ≡ b
      → IsBounded m k s
      → IsBounded m k (loads i true b s)
  unfolding loads
  loads-IsBounded i true s at e h = h
  loads-IsBounded i false s at e h =
      let same = total-set is_ready s.threads i admitted at in
      record {
        size = length-set s.threads i admitted ∙ h.size;
        exact = h.exact ∙ ap pos (omega (arith, same));
        bound = omega (
          arith,
          same,
          room-le s.g_pending_msg m _ h.exact e,
          admitted-le (set s.threads i admitted),
          length-set s.threads i admitted,
          h.size,
        );
      }

  acquires-IsBounded :
      (i : ℕ) (o : Option Phase) (s : Pending)
      → get_elem? s.threads i ≡ o
      → IsBounded m k s
      → IsBounded m k (acquires (pos m) i o s)
  unfolding acquires
  acquires-IsBounded i none s at h = h
  acquires-IsBounded i (some outside) s at h =
      rw (lt→ltb 0 m lt) (loads-IsBounded i (ltb_ℤ (pos m) s.g_pending_msg) s at refl h)
  acquires-IsBounded i (some admitted) s at h =
      let counted = total-set is_ready s.threads i ready at in
      let left = total-set is_admitted s.threads i ready at in
      record {
        size = length-set s.threads i ready ∙ h.size;
        exact =
            ap fetch_add h.exact
            ∙ fetch_add-pos _ (omega (arith, h.bound, fits, left))
            ∙ ap pos (omega (arith, counted));
        bound = omega (arith, h.bound, counted, left);
      }
  acquires-IsBounded i (some ready) s at h =
      let posted = total-set is_ready s.threads i outside at in
      let left = total-set is_admitted s.threads i outside at in
      record {
        size = length-set s.threads i outside ∙ h.size;
        exact = h.exact ∙ ap pos (omega (arith, posted));
        bound = omega (arith, h.bound, posted, left);
      }

  releases-IsBounded :
      (n : ℕ) (s : Pending)
      → s.in_flight ≡ n
      → IsBounded m k s
      → IsBounded m k (releases (pos m) n s)
  unfolding releases
  releases-IsBounded zero s e h = h
  releases-IsBounded (suc n) s e h = record {
    size = h.size;
    exact =
        rw (lt→ltb 0 m lt)
          (ap fetch_sub (h.exact ∙ ap pos (one_less n s.in_flight (total is_ready s.threads) e)));
    bound = omega (arith, h.bound, e);
  }
    where
      one_less : (n a b : ℕ) → a ≡ suc n → a + b ≡ suc (n + b)
      one_less n a b e = omega (arith, e)

  step-IsBounded : (e : Event) (s : Pending) → IsBounded m k s → IsBounded m k (step (pos m) e s)
  unfolding step
  step-IsBounded (posts i) s h = acquires-IsBounded i (get_elem? s.threads i) s refl h
  step-IsBounded completes s h = releases-IsBounded s.in_flight s refl h

  -- With a positive limit `m`, and `k` threads that send and put, where `m + k` is an int at most: however
  -- their loads, increments and posts interleave, with completions in between, the counter stays the
  -- number of messages in flight and of threads that have counted theirs and not posted it, and that
  -- number with the threads that have found room stays within the limit plus the number of threads, if
  -- this holds of the start.
  pub run-IsBounded :
      (es : List Event) (s : Pending) → IsBounded m k s → IsBounded m k (run (pos m) es s)
  unfolding run
  run-IsBounded [] s h = h
  run-IsBounded (e ∷ es) s h = run-IsBounded es (step (pos m) e s) (step-IsBounded e s h)
