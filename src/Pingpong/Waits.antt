-- ===== src/Pingpong/Waits.antt =====
-- examples/pingpong_mt.cpp: the loops in which a thread makes progress while it waits, and the simulated
-- computation's random times.
use lcw.Base.{
  ℕ, ℤ, zero, suc, ◌+◌, ◌-◌, ◌*◌, ltb, ◌≤◌, ◌<◌, ◌≡◌, refl, Bool, true, not, Option, none, some,
  pos, negsuc, ltb_ℤ, leb_ℤ, difference, int_max, inl, inr, Bool-cases, ◌==◌, if◌then◌else◌, arith,
}

-- normal_rand_generator_t::get, `sample` being what the distribution gives, cut to an int.
clamp_low : ℕ → ℕ → ℤ → ℤ
clamp_low mean std ret =
    if ltb_ℤ ret (difference mean (3 * std)) then difference mean (3 * std) else ret

clamp_high : ℕ → ℕ → ℤ → ℤ
clamp_high mean std ret = if ltb_ℤ (pos (mean + 3 * std)) ret then pos (mean + 3 * std) else ret

unfoldable pub get : ℕ → ℕ → ℤ → ℤ
unfolding clamp_low clamp_high
get mean std sample = clamp_high mean std (clamp_low mean std sample)

-- max_progress_steps, from 0 on, where 0 stands for no limit but that of int.
unfoldable pub progress_limit : ℕ → ℕ
progress_limit max_progress_steps = if max_progress_steps == 0 then int_max else max_progress_steps

module _ {W : Type 0} (progress : W → Bool × W) where
  -- `n` rounds of the loop, up to the `break`.
  unfoldable pub progress_loop : ℕ → W → W
  progress_loop zero w = w
  progress_loop (suc n) w =
      let next = progress_loop n (progress w).1 in if (progress w).0 then next else (progress w).1

  -- do_progress of the benchmark, over lcw::do_progress of a device.
  unfoldable pub do_progress : ℕ → W → W
  unfolding progress_loop progress_limit
  do_progress max_progress_steps w = progress_loop (progress_limit max_progress_steps) w

-- A loop that waits for `test` and makes progress in between, on fuel: those of poll_cq and
-- tbarrier_wait_progress.
module _ {W : Type 0} (test : W → Bool × W) (progress : W → W) where
  unfoldable pub wait_for : ℕ → W → Option W
  wait_for zero w = none
  wait_for (suc fuel) w =
      let rest = wait_for fuel (progress (test w).1) in if (test w).0 then some (test w).1 else rest

  -- The state before the test number `n`, if those before it fail.
  unfoldable pub rounds : ℕ → W → W
  rounds zero w = w
  rounds (suc n) w = rounds n (progress (test w).1)

-- tbarrier_wait_progress, with the functions of LCT_tbarrier and lcw::do_progress of the device.
unfoldable pub tbarrier_wait_progress :
    {W : Type 0} → (W → ℕ × W) → (ℕ → W → Bool × W) → (W → Bool × W) → ℕ → W → Option W
unfolding wait_for
tbarrier_wait_progress arrive test progress fuel w =
    wait_for (test (arrive w).0) (λ v. (progress v).1) fuel (arrive w).1

-- The empty loop of do_computation, from `start` on: LCT_now gives the time, LCT_time_to_us the
-- microseconds in a difference.
unfoldable pub busy_wait : {W : Type 0} → (W → ℕ × W) → (ℕ → ℕ) → ℕ → ℤ → ℕ → W → Option W
unfolding wait_for
busy_wait now to_us start compute_us fuel w =
    wait_for (λ v. (not (ltb_ℤ (pos (to_us ((now v).0 - start))) compute_us), (now v).1)) (λ v. v)
      fuel w

-- `sample` is what the generator's distribution gives; the two times are counts from 0 on.
unfoldable pub do_computation : {W : Type 0} → (W → ℕ × W) → (ℕ → ℕ) → ℤ → ℕ → ℕ → ℕ → W → Option W
unfolding busy_wait get
do_computation now to_us sample compute_us compute_us_std fuel w =
    let us =
      if ltb 0 compute_us_std then get compute_us compute_us_std sample else pos compute_us in
    let waited = busy_wait now to_us (now w).0 us fuel (now w).1 in
    if compute_us == 0 then some w else waited

-- What the distribution gives comes within three standard deviations of the mean.
pub get_within :
    (mean std : ℕ) (sample : ℤ)
    → (leb_ℤ (difference mean (3 * std)) (get mean std sample) ≡ true)
      × (leb_ℤ (get mean std sample) (pos (mean + 3 * std)) ≡ true)
unfolding get
get_within mean std (pos n) = (ground arith, ground arith)
get_within mean std (negsuc n) = (ground arith, ground arith)

module _ {W : Type 0} (test : W → Bool × W) (progress : W → W) where
  -- A waiting loop whose test succeeds within `n` rounds ends, on any fuel above `n`, at the first test
  -- that succeeds.
  pub wait_for_ends :
      (n fuel : ℕ) (w : W)
      → n < fuel
      → (test (rounds test progress n w)).0 ≡ true
      → (m : ℕ) × (m ≤ n)
        × ((test (rounds test progress m w)).0 ≡ true)
        × (wait_for test progress fuel w ≡ some (test (rounds test progress m w)).1)
  unfolding wait_for rounds
  wait_for_ends n zero w l h = absurd (omega arith)
  wait_for_ends zero (suc fuel) w l h = (0, omega arith, h, rw h refl)
  wait_for_ends (suc n) (suc fuel) w l h = elim (Bool-cases (test w).0) [
    | inl e ↦ (0, omega arith, e, rw e refl)
    | inr e ↦
        let (m, k, t, q) = wait_for_ends n fuel (progress (test w).1) (omega arith) h in
        (suc m, omega (arith, k), t, rw e q)
  ]
