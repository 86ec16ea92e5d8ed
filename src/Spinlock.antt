-- ===== src/Spinlock.antt =====
-- src/util/spinlock.cpp and src/env.cpp: which table of lock functions the library uses.
pub mod Pthread
pub mod Tables
pub mod Flag
use lcw.Base.{
  ℕ, ℤ, pos, negsuc, zero, suc, ◌≡◌, refl, Bool, true, false, not, ◌||◌, Option, none, some, List,
  [], ◌∷◌, ◌∙◌, if◌then◌else◌,
}

-- A custom_spinlock_op_t: one that the program passes in, or one of the library's.
pub data SpinlockOp : Type 0 where
  custom : ℕ → SpinlockOp
  pthread_spinlock pthread_mutex : SpinlockOp

-- `setuped`, `spinlock_op` (`none` before it is first assigned) and config.force_default_spinlock.
pub record Spinlock : Type 0 where
  pub setuped : Bool
  pub spinlock_op : Option SpinlockOp
  pub force_default_spinlock : Bool

-- The two branches of `#ifdef __APPLE__`.
unfoldable pub default_op : Bool → SpinlockOp
default_op true = pthread_mutex
default_op false = pthread_spinlock

unfoldable pub custom_spinlock_setup : SpinlockOp → Spinlock → Spinlock
custom_spinlock_setup op s = record s { setuped = true; spinlock_op = some op }

unfoldable pub custom_spinlock_init : Bool → Spinlock → Spinlock
unfolding default_op
custom_spinlock_init apple s =
    if not s.setuped || s.force_default_spinlock
    then record s { spinlock_op = some (default_op apple) }
    else s

-- An int as a bool.
is_nonzero : ℤ → Bool
is_nonzero (pos zero) = false
is_nonzero (pos (suc n)) = true
is_nonzero (negsuc n) = true

-- The flag after reading LCW_FORCE_PTHREAD_SPINLOCK.
flag_after : Option ℤ → Bool → Bool
unfolding is_nonzero
flag_after none f = f
flag_after (some n) f = is_nonzero n

unfoldable pub init_env : Option ℤ → Spinlock → Spinlock
unfolding flag_after
init_env p s = record s { force_default_spinlock = flag_after p s.force_default_spinlock }

-- The part of lcw::initialize that is about locks, with the variable's value at that time.
unfoldable pub start_up : Bool → Option ℤ → Spinlock → Spinlock
unfolding custom_spinlock_init init_env
start_up apple p s = init_env p (custom_spinlock_init apple s)

-- A process that initializes the library several times.
unfoldable pub start_ups : Bool → List (Option ℤ) → Spinlock → Spinlock
unfolding start_up
start_ups apple [] s = s
start_ups apple (p ∷ ps) s = start_ups apple ps (start_up apple p s)

abbrev pub at_load : Spinlock
at_load = record { setuped = false; spinlock_op = none; force_default_spinlock = false }

-- Whether one of the initializations finds the flag set, `f` being its value before them: an
-- initialization finds what the ones before it have read.
pub finds_forced : Bool → List (Option ℤ) → Bool
unfolding flag_after
finds_forced f [] = false
finds_forced f (p ∷ ps) = f || finds_forced (flag_after p f) ps

if_same : {A : Type 0} (b : Bool) (x : A) → (if b then x else x) ≡ x
if_same true x = refl
if_same false x = refl

abbrev with_fields : Bool → Bool → Option SpinlockOp → Spinlock
with_fields set force op = record {
  setuped = set;
  spinlock_op = op;
  force_default_spinlock = force;
}

start_ups-with_fields :
    (apple : Bool) (ps : List (Option ℤ)) (set force : Bool) (op : Option SpinlockOp)
    → set ≡ true
    → (start_ups apple ps (with_fields set force op)).spinlock_op
      ≡ (if finds_forced force ps then some (default_op apple) else op)
unfolding start_ups finds_forced
start_ups-with_fields apple [] set force op h = refl
start_ups-with_fields apple (p ∷ ps) false force op h = absurd (cc)
start_ups-with_fields apple (p ∷ ps) true true op h =
    start_ups-with_fields apple ps true (flag_after p true) (some (default_op apple)) refl
    ∙ if_same (finds_forced (flag_after p true) ps) (some (default_op apple))
start_ups-with_fields apple (p ∷ ps) true false op h =
    start_ups-with_fields apple ps true (flag_after p false) op refl

-- Once a program has set up its own lock functions, they stay in use through any number of
-- initializations, unless one of these finds the flag set; then the default ones are in use for good.
pub start_ups-spinlock_op :
    (apple : Bool) (ps : List (Option ℤ)) (s : Spinlock)
    → s.setuped ≡ true
    → (start_ups apple ps s).spinlock_op ≡ (
        if finds_forced s.force_default_spinlock ps then some (default_op apple) else s.spinlock_op)
start_ups-spinlock_op apple ps s h =
    start_ups-with_fields apple ps s.setuped s.force_default_spinlock s.spinlock_op h

-- The first initialization of a process does not use the variable that it reads: whatever
-- LCW_FORCE_PTHREAD_SPINLOCK says, the lock functions that the program has set up stay in use.
pub start_up_ignores_env :
    (apple : Bool) (p : Option ℤ) (op : SpinlockOp)
    → (start_up apple p (custom_spinlock_setup op at_load)).spinlock_op ≡ some op
unfolding start_up custom_spinlock_setup
start_up_ignores_env apple p op = refl
