-- ===== src/Checks/Spinlock.antt =====
-- Lock functions through two initializations, the first of which reads the variable.
use lcw.Base.{
  ℕ, ℤ, pos, ◌≡◌, refl, ap, Bool, true, false, Option, none, some, [], ◌∷◌, if◌then◌else◌, ok,
}
use lcw.Spinlock.{
  custom, custom_spinlock_setup, start_up, start_ups, at_load, finds_forced, default_op,
  start_ups-spinlock_op,
}
use lcw.Spinlock.Pthread.{LockApi, PthreadApi, Ops}
use lcw.Spinlock.Tables.{IsLock}
use lcw.Spinlock.Flag.{
  try_locks, locks, unlocks, flag, disciplined, lifetime, results, lifetime-flag,
}

start_ups-spinlock_op_example :
    (start_ups false
      (some (pos 1) ∷ none ∷ [])
      (custom_spinlock_setup (custom 3) at_load)).spinlock_op
    ≡ (if finds_forced false (some (pos 1) ∷ none ∷ [])
        then some (default_op false)
        else some (custom 3))
unfolding custom_spinlock_setup
start_ups-spinlock_op_example =
    start_ups-spinlock_op false (some (pos 1) ∷ none ∷ [])
      (custom_spinlock_setup (custom 3) at_load) refl

-- A world that is one lock: uninitialized, free or held.
abbrev toy_lock : Option Bool → Option (Option Bool)
toy_lock (some false) = some (some true)
toy_lock (some true) = none
toy_lock none = none

abbrev toy_trylock : Option Bool → ℤ × Option Bool
toy_trylock (some false) = (pos 0, some true)
toy_trylock (some true) = (pos 16, some true)
toy_trylock none = (pos 22, none)

abbrev toy : LockApi (Option Bool)
toy = record {
  new_lock = λ w. (0, w);
  init = λ l w. some false;
  destroy = λ l w. none;
  delete_lock = λ l w. w;
  lock = λ l. toy_lock;
  trylock = λ l. toy_trylock;
  unlock = λ l w. some false;
}

abbrev toy_api : PthreadApi (Option Bool)
toy_api = record { spin = toy; mutex = toy }

-- A program's own table, which is never set up here.
abbrev fakes : ℕ → Ops (Option Bool)
fakes n = record {
  alloc = λ w. ok (some 0, w);
  free = λ p w. ok (tt, w);
  lock = λ p w. ok (tt, w);
  trylock = λ p w. ok (true, w);
  unlock = λ p w. ok (tt, w);
}

toy-IsLock : IsLock toy (λ l w. w)
toy-IsLock = record {
  starts = λ w. refl;
  takes = λ l w h. rw h (some true, refl, refl);
  waits = λ l w h. ap toy_lock h;
  tries = λ l w h. rw h (refl, refl);
  fails = λ l w h. rw h ((λ e. cc), refl);
  lets_go = λ l w h. refl;
}

lifetime-flag_example :
    results (
      lifetime toy_api fakes
        (try_locks ∷ try_locks ∷ unlocks ∷ locks ∷ unlocks ∷ [])
        (record { spinlock = start_up false none at_load; world = none }))
    ≡ flag false (try_locks ∷ try_locks ∷ unlocks ∷ locks ∷ unlocks ∷ [])
unfolding disciplined
lifetime-flag_example =
    lifetime-flag toy_api fakes (λ l w. w) (λ l w. w) toy-IsLock toy-IsLock false none
      (try_locks ∷ try_locks ∷ unlocks ∷ locks ∷ unlocks ∷ []) none refl
