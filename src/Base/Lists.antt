-- ===== src/Base/Lists.antt =====
-- Lists measured and indexed by native numbers, under the library's names.
use Prim.Native.Nat.{ℕ, zero, suc, ◌+◌, ◌<◌, ◌≤◌}
use mathlib.Core.Bool.{Bool, false, ◌||◌}
use mathlib.Core.Path.{◌≡◌, refl, ap}
use mathlib.Core.Logic.{◌≢◌, ◌⊎◌, inl, inr}
use mathlib.Core.List.{List, [], ◌∷◌, ◌++◌}
use mathlib.Core.Option.{Option, none, some}
use native.Mathlib.Omega.{arith}

module _ {ℓ} {A : Type ℓ} where
  abbrev pub length : List A → ℕ
  length [] = 0
  length (x ∷ xs) = suc (length xs)

  abbrev pub get_elem? : List A → ℕ → Option A
  get_elem? [] i = none
  get_elem? (x ∷ xs) zero = some x
  get_elem? (x ∷ xs) (suc i) = get_elem? xs i

  -- A write out of bounds changes nothing.
  abbrev pub set : List A → ℕ → A → List A
  set [] i v = []
  set (x ∷ xs) zero v = v ∷ xs
  set (x ∷ xs) (suc i) v = x ∷ set xs i v

  abbrev pub remove_at : ℕ → List A → List A
  remove_at i [] = []
  remove_at zero (x ∷ xs) = xs
  remove_at (suc i) (x ∷ xs) = x ∷ remove_at i xs

  abbrev pub any : (A → Bool) → List A → Bool
  any f [] = false
  any f (x ∷ xs) = f x || any f xs

  pub length-append : (xs ys : List A) → length (xs ++ ys) ≡ length xs + length ys
  length-append [] ys = omega arith
  length-append (x ∷ xs) ys = omega (arith, length-append xs ys)

module _ {ℓ} {A : Type ℓ} where
  pub length-set : (xs : List A) (i : ℕ) (v : A) → length (set xs i v) ≡ length xs
  length-set [] i v = refl
  length-set (x ∷ xs) zero v = refl
  length-set (x ∷ xs) (suc i) v = ap suc (length-set xs i v)

  pub get_elem?-set_self :
      (xs : List A) (i : ℕ) (v : A) → i < length xs → get_elem? (set xs i v) i ≡ some v
  get_elem?-set_self [] i v h = elim h [ ]
  get_elem?-set_self (x ∷ xs) zero v h = refl
  get_elem?-set_self (x ∷ xs) (suc i) v h = get_elem?-set_self xs i v (omega arith)

  pub get_elem?-set_ne :
      (xs : List A) {i j : ℕ} (v : A) → i ≢ j → get_elem? (set xs i v) j ≡ get_elem? xs j
  get_elem?-set_ne [] v h = refl
  get_elem?-set_ne (x ∷ xs) {i = zero} {j = zero} v h = absurd (h refl)
  get_elem?-set_ne (x ∷ xs) {i = zero} {j = suc j} v h = refl
  get_elem?-set_ne (x ∷ xs) {i = suc i} {j = zero} v h = refl
  get_elem?-set_ne (x ∷ xs) {i = suc i} {j = suc j} v h = get_elem?-set_ne xs v (λ e. h (ap suc e))

  -- A new element stands at the old length.
  pub get_elem?-append_length :
      (xs : List A) (v : A) → get_elem? (xs ++ v ∷ []) (length xs) ≡ some v
  get_elem?-append_length [] v = refl
  get_elem?-append_length (x ∷ xs) v = get_elem?-append_length xs v

  pub get_elem?-append_some :
      (xs ys : List A) (i : ℕ) {v : A} → get_elem? xs i ≡ some v → get_elem? (xs ++ ys) i ≡ some v
  get_elem?-append_some [] ys i h = cc
  get_elem?-append_some (x ∷ xs) ys zero h = h
  get_elem?-append_some (x ∷ xs) ys (suc i) h = get_elem?-append_some xs ys i h

  pub lt-length_of_some : (xs : List A) (i : ℕ) {v : A} → get_elem? xs i ≡ some v → i < length xs
  lt-length_of_some [] i h = absurd (cc)
  lt-length_of_some (x ∷ xs) zero h = omega arith
  lt-length_of_some (x ∷ xs) (suc i) h = omega (arith, lt-length_of_some xs i h)

-- A heap keeps `none` for an object that has been deleted.
abbrev pub deref {ℓ} : {A : Type ℓ} → Option (Option A) → Option A
deref none = none
deref (some o) = o

module _ {ℓ} {A : Type ℓ} where
  -- A second write at the same place covers the first.
  pub set-set : (xs : List A) (p : ℕ) (u v : A) → set (set xs p u) p v ≡ set xs p v
  set-set [] p u v = refl
  set-set (x ∷ xs) zero u v = refl
  set-set (x ∷ xs) (suc p) u v = ap (λ ys. x ∷ ys) (set-set xs p u v)

  pub deref-set_self :
      (xs : List (Option A)) (p : ℕ) (v : Option A) {u : A}
      → deref (get_elem? xs p) ≡ some u
      → deref (get_elem? (set xs p v) p) ≡ v
  deref-set_self [] p v h = absurd (cc)
  deref-set_self (x ∷ xs) zero v h = refl
  deref-set_self (x ∷ xs) (suc p) v h = deref-set_self xs p v h

  -- An object that stands in the heap after a write is the one written, or stood there before.
  pub deref-set :
      (xs : List (Option A)) (p q : ℕ) (v : Option A) {u : A}
      → deref (get_elem? (set xs p v) q) ≡ some u
      → ((q ≡ p) × (v ≡ some u)) ⊎ ((q ≢ p) × (deref (get_elem? xs q) ≡ some u))
  deref-set [] p q v h = absurd (cc)
  deref-set (x ∷ xs) zero zero v h = inl (refl, h)
  deref-set (x ∷ xs) zero (suc q) v h = inr ((λ e. omega arith), h)
  deref-set (x ∷ xs) (suc p) zero v h = inr ((λ e. omega arith), h)
  deref-set (x ∷ xs) (suc p) (suc q) v h = elim (deref-set xs p q v h) [
    | inl k ↦ inl (ap suc k.0, k.1)
    | inr k ↦ inr ((λ e. k.0 (omega arith)), k.1)
  ]

  -- The same for a new object at the end.
  pub deref-append :
      (xs : List (Option A)) (q : ℕ) (v : Option A) {u : A}
      → deref (get_elem? (xs ++ v ∷ []) q) ≡ some u
      → ((q ≡ length xs) × (v ≡ some u)) ⊎ ((q ≢ length xs) × (deref (get_elem? xs q) ≡ some u))
  deref-append [] zero v h = inl (refl, h)
  deref-append [] (suc q) v h = absurd (cc)
  deref-append (x ∷ xs) zero v h = inr ((λ e. omega arith), h)
  deref-append (x ∷ xs) (suc q) v h = elim (deref-append xs q v h) [
    | inl k ↦ inl (ap suc k.0, k.1)
    | inr k ↦ inr ((λ e. k.0 (omega arith)), k.1)
  ]

-- Sums of weights.
module _ {ℓ} {A : Type ℓ} (w : A → ℕ) where
  abbrev pub total : List A → ℕ
  total [] = 0
  total (x ∷ xs) = w x + total xs

  pub total-remove_at :
      (xs : List A) (i : ℕ) {u : A}
      → get_elem? xs i ≡ some u
      → w u + total (remove_at i xs) ≡ total xs
  total-remove_at [] i h = absurd (cc)
  total-remove_at (x ∷ xs) zero h = ground arith
  total-remove_at (x ∷ xs) (suc i) h = omega (arith, total-remove_at xs i h)

  pub total-append : (xs ys : List A) → total (xs ++ ys) ≡ total xs + total ys
  total-append [] ys = omega arith
  total-append (x ∷ xs) ys = omega (arith, total-append xs ys)

  pub total-set :
      (xs : List A) (i : ℕ) (v : A) {u : A}
      → get_elem? xs i ≡ some u
      → total (set xs i v) + w u ≡ total xs + w v
  total-set [] i v h = absurd (cc)
  total-set (x ∷ xs) zero v {u} h = ground arith
  total-set (x ∷ xs) (suc i) v h = omega (arith, total-set xs i v h)

pub total-le {ℓ} :
    {A : Type ℓ} (f g : A → ℕ) → ((x : A) → f x ≤ g x) → (xs : List A) → total f xs ≤ total g xs
total-le f g h [] = omega arith
total-le f g h (x ∷ xs) = omega (arith, h x, total-le f g h xs)
