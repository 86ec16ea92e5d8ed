-- ===== src/Pingpong/Exchange/Sizes.antt =====
-- The rounds of the loop over the message sizes.
use lcw.Base.{
  ℕ, zero, suc, ◌+◌, ◌*◌, ◌^◌, ◌≤◌, ◌<◌, ◌≡◌, refl, ap, true, false, List, [], ◌∷◌, some, arith,
  leb, int_max, Bool-cases, inl, inr,
}
use lcw.Pingpong.Exchange.{cons_some, sizes_from}

-- `n` sizes from `m` on, each twice the one before, and the size after them.
pub doubled : ℕ → ℕ → List ℕ
doubled m zero = []
doubled m (suc n) = m ∷ doubled (m * 2) n

pub after : ℕ → ℕ → ℕ
after m zero = m
after m (suc n) = after (m * 2) n

-- From a positive size the loop ends within max_size + 1 rounds, if max_size is below 2 ^ 30: it
-- goes through min_size, 2 * min_size, 4 * min_size and so on, up to the last that is at most
-- max_size.
pub sizes_from_ends :
    (fuel max_size min_size : ℕ)
    → 0 < min_size
    → max_size < 2 ^ 30
    → max_size < fuel + min_size
    → (n : ℕ) × (sizes_from (suc fuel) max_size min_size ≡ some (doubled min_size n))
      × (max_size < after min_size n)
      × ((k : ℕ) → k < n → after min_size k ≤ max_size)
unfolding sizes_from cons_some doubled after
sizes_from_ends zero max m pos small h =
    let over : leb m max ≡ false = ground arith in
    (0, rw over refl, omega arith, λ k lt. absurd (omega (arith, lt)))
sizes_from_ends (suc fuel) max m pos small h = elim (Bool-cases (leb m max)) [
  | inl within ↦
      longer (ground arith) (sizes_from_ends fuel max (m * 2) (omega arith) small (ground arith))
  | inr over ↦ (0, rw over refl, ground arith, λ k lt. absurd (omega (arith, lt)))
]
  where
    earlier :
        (n k : ℕ)
        → m ≤ max
        → ((k : ℕ) → k < n → after (m * 2) k ≤ max)
        → k < suc n
        → after m k ≤ max
    earlier n zero le each lt = le
    earlier n (suc k) le each lt = each k (omega arith)

    longer :
        m ≤ max
        → (n : ℕ) × (sizes_from (suc fuel) max (m * 2) ≡ some (doubled (m * 2) n))
          × (max < after (m * 2) n)
          × ((k : ℕ) → k < n → after (m * 2) k ≤ max)
        → (n : ℕ) × (sizes_from (suc (suc fuel)) max m ≡ some (doubled m n))
          × (max < after m n)
          × ((k : ℕ) → k < n → after m k ≤ max)
    longer le (n, e, past, each) =
        let within : leb m max ≡ true = ground arith in
        let fits : leb (m * 2) int_max ≡ true = ground arith in
        (suc n, rw (within, fits) (ap (cons_some m) e), past, λ k. earlier n k le each)
