-- ===== src/Pingpong/Spawn.antt =====
-- main of examples/pingpong_mt.cpp: which of its threads make progress and which are workers.
use native.Mathlib.Nat.{div-add-mod', mod-lt, div-eq_of_lt-le, mul_comm, le_of_mul-le-mul_left}
use lcw.Base.{
  ℕ, zero, suc, ◌+◌, ◌*◌, ◌/◌, ◌%◌, ◌≤◌, ◌<◌, ◌≡◌, ◌↔◌, refl, sym, ap, ◌∙◌, Bool, true, false, ◌&&◌,
  arith, ltb, lt→ltb, ◌==◌, ==_iff, if◌then◌else◌,
}
use lcw.Pingpong.Workers.{Config, nworkers, ceil_div}
use lcw.Pingpong.Workers.Division.{ceil_div-mul}

-- The sizes of the two pools. A thread's argument is the size of its pool before it.
pub record Pools : Type 0 where
  pub progress_pool : ℕ
  pub worker_pool : ℕ

nthreads_per_prg : Config → ℕ
nthreads_per_prg c = if c.nprgthreads == 0 then 0 else c.nthreads / c.nprgthreads

makes_progress : Config → ℕ → Bool
unfolding nthreads_per_prg
makes_progress c i = ltb 0 c.nprgthreads && (i % nthreads_per_prg c == 0)

spawn : Bool → Pools → Pools
spawn true s = record s { progress_pool = s.progress_pool + 1 }
spawn false s = record s { worker_pool = s.worker_pool + 1 }

-- The loop, from its `i`-th round on.
spawn_from : Config → ℕ → ℕ → Pools → Pools
unfolding makes_progress spawn
spawn_from c i zero s = s
spawn_from c i (suc n) s = spawn_from c (i + 1) n (spawn (makes_progress c i) s)

-- One thread runs as a worker, without a pool.
unfoldable pub spawn_all : Config → Pools
unfolding spawn_from
spawn_all c =
    if c.nthreads == 1
    then record { progress_pool = 0; worker_pool = 1 }
    else spawn_from c 0 c.nthreads (record { progress_pool = 0; worker_pool = 0 })

-- The ceiling is the `q` with (q - 1) * k < i and i ≤ q * k.
ceil_div_between : (i k q : ℕ) → q * k < i + k → i ≤ q * k → ceil_div i k ≡ q
unfolding ceil_div
ceil_div_between i k q h l = div-eq_of_lt-le {k = q} k (omega arith) (grind arith)

-- One more round, seen from the ceiling of the rounds so far over the distance `k`.
ceil_div-next :
    (i k : ℕ) (b : Bool)
    → 0 < k
    → (i % k == 0) ≡ b
    → ceil_div (i + 1) k ≡ ceil_div i k + (if b then 1 else 0)
ceil_div-next i k true h z =
    let m = div-add-mod' i k in
    let r = (==_iff (i % k) 0).0 z in
    ceil_div_between (i + 1) k (i / k + 1) (grind arith) (grind arith)
    ∙ ap (λ n. n + 1) (sym (ceil_div_between i k (i / k) (omega arith) (omega arith)))
ceil_div-next i k false h z =
    let m = div-add-mod' i k in
    let lt = mod-lt i h in
    let pos : 0 < i % k = ground arith in
    ceil_div_between (i + 1) k (i / k + 1) (grind arith) (grind arith)
    ∙ sym (ceil_div_between i k (i / k + 1) (grind arith) (grind arith))
    ∙ omega arith

spawn_from-total :
    (c : Config) (i n : ℕ) (s : Pools)
    → (spawn_from c i n s).progress_pool + (spawn_from c i n s).worker_pool
      ≡ s.progress_pool + s.worker_pool + n
unfolding spawn_from
spawn_from-total c i zero s = omega arith
spawn_from-total c i (suc n) s =
    spawn_from-total c (i + 1) n (spawn (makes_progress c i) s) ∙ go (makes_progress c i)
  where
    go :
        (b : Bool)
        → (spawn b s).progress_pool + (spawn b s).worker_pool + n
          ≡ s.progress_pool + s.worker_pool + suc n
    go true = omega arith
    go false = omega arith

module _ (c : Config) (some_progress : 0 < c.nprgthreads)
    (some_work : c.nprgthreads < c.nthreads) where
  distance : nthreads_per_prg c ≡ c.nthreads / c.nprgthreads
  unfolding nthreads_per_prg
  distance = ground arith

  distance_pos : 0 < nthreads_per_prg c
  distance_pos =
      rw distance (go (c.nthreads / c.nprgthreads) (div-add-mod' c.nthreads c.nprgthreads))
    where
      go : (q : ℕ) → q * c.nprgthreads + c.nthreads % c.nprgthreads ≡ c.nthreads → 0 < q
      go zero e = absurd (omega (arith, mod-lt c.nthreads some_progress, e))
      go (suc q) e = omega arith

  makes_progress-eq : (i : ℕ) → makes_progress c i ≡ (i % nthreads_per_prg c == 0)
  unfolding makes_progress
  makes_progress-eq i = rw (lt→ltb 0 c.nprgthreads some_progress) refl

  spawn-progress :
      (b : Bool) (s : Pools) → (spawn b s).progress_pool ≡ s.progress_pool + (if b then 1 else 0)
  unfolding spawn
  spawn-progress true s = refl
  spawn-progress false s = omega arith

  spawn_from-progress :
      (i n : ℕ) (s : Pools)
      → (spawn_from c i n s).progress_pool + ceil_div i (nthreads_per_prg c)
        ≡ s.progress_pool + ceil_div (i + n) (nthreads_per_prg c)
  unfolding spawn_from
  spawn_from-progress i zero s =
      ap (λ j. s.progress_pool + ceil_div j (nthreads_per_prg c)) (omega arith)
  spawn_from-progress i (suc n) s = omega (
    arith,
    spawn_from-progress (i + 1) n (spawn (makes_progress c i) s),
    spawn-progress (makes_progress c i) s,
    ceil_div-next i (nthreads_per_prg c) (makes_progress c i) distance_pos
        (sym (makes_progress-eq i)),
    ap (λ j. ceil_div j (nthreads_per_prg c)) next,
  )
    where
      next : i + 1 + n ≡ i + suc n
      next = omega arith

  -- With progress threads and at least one worker wanted, main spawns `nthreads` threads in all, and
  -- no fewer progress threads than wanted; as many as wanted, and so as many workers as the barrier
  -- of the workers waits for, exactly when `nprgthreads` divides `nthreads`.
  pub spawn_all-eq :
      ((spawn_all c).progress_pool + (spawn_all c).worker_pool ≡ c.nthreads)
      × (c.nprgthreads ≤ (spawn_all c).progress_pool)
      × (((spawn_all c).worker_pool ≡ nworkers c) ↔ (c.nthreads % c.nprgthreads ≡ 0))
  unfolding spawn_all nworkers
  spawn_all-eq =
      rw several (
        total,
        covers,
        (λ e. divides (omega (arith, e, total)), λ z. omega (arith, total, exact z)),
      )
    where
      pools : Pools
      pools = spawn_from c 0 c.nthreads (record { progress_pool = 0; worker_pool = 0 })

      several : (c.nthreads == 1) ≡ false
      several = ground arith

      total : pools.progress_pool + pools.worker_pool ≡ c.nthreads
      total =
          omega
            (arith, spawn_from-total c 0 c.nthreads (record { progress_pool = 0; worker_pool = 0 }))

      k : ℕ
      k = nthreads_per_prg c

      count : pools.progress_pool ≡ ceil_div c.nthreads k
      count = omega (
        arith,
        spawn_from-progress 0 c.nthreads (record { progress_pool = 0; worker_pool = 0 }),
        ceil_div_between 0 k 0 (omega (arith, distance_pos)) (omega arith),
        ap (λ j. ceil_div j k) zero_add,
      )
        where
          zero_add : 0 + c.nthreads ≡ c.nthreads
          zero_add = omega arith

      shares : k * c.nprgthreads + c.nthreads % c.nprgthreads ≡ c.nthreads
      shares = rw distance (div-add-mod' c.nthreads c.nprgthreads)

      enough : c.nthreads ≤ k * pools.progress_pool
      enough = rw count ((ceil_div-mul c.nthreads k distance_pos).0)

      covers : c.nprgthreads ≤ pools.progress_pool
      covers = le_of_mul-le-mul_left {k = k} (omega (arith, shares, enough)) distance_pos

      divides : pools.progress_pool ≡ c.nprgthreads → c.nthreads % c.nprgthreads ≡ 0
      divides e = omega (arith, shares, enough, ap (λ (t : ℕ). k * t) e)

      exact : c.nthreads % c.nprgthreads ≡ 0 → pools.progress_pool ≡ c.nprgthreads
      exact z =
          count
          ∙ ceil_div_between c.nthreads k c.nprgthreads
              (omega (arith, shares, z, mul_comm k c.nprgthreads, distance_pos))
              (omega (arith, shares, z, mul_comm k c.nprgthreads))
