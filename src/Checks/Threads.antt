-- ===== src/Checks/Threads.antt =====
-- Two threads at one manager: while thread 0 tests the only entry, thread 1 adds another.
use lcw.Base.{ℕ, ◌≡◌, refl, true, false, List, [], ◌∷◌, arith}
use lcw.Mpi.Manager.Threads.{idle, Event, progresses, adds, tests, Shared, run}
use lcw.Mpi.Manager.Threads.Moves.{IsSafe}
use lcw.Mpi.Manager.Threads.Safety.{run-IsSafe}

abbrev start : Shared ℕ
start = record {
  entries = 4 ∷ [];
  lock = false;
  threads = idle ∷ idle ∷ [];
  added = 4 ∷ [];
  signalled = [];
  crashed = false;
}

-- Thread 1 waits for the lock until thread 0 has let it go.
abbrev schedule : List (ℕ × Event ℕ)
schedule =
    (0, progresses)
    ∷ (0, progresses)
    ∷ (1, adds 5)
    ∷ (0, progresses)
    ∷ (1, adds 5)
    ∷ (0, progresses)
    ∷ (0, tests true)
    ∷ (0, progresses)
    ∷ (1, progresses)
    ∷ (1, progresses)
    ∷ (0, progresses)
    ∷ []

abbrev weigh : ℕ → ℕ
weigh e = e

after_schedule : ((run schedule start).signalled ≡ 4 ∷ []) × ((run schedule start).entries ≡ 5 ∷ [])
unfolding run
after_schedule = (refl, refl)

run-IsSafe_example : IsSafe weigh (run schedule start)
run-IsSafe_example =
    run-IsSafe weigh schedule start
      (record { exclusive = refl; ready = omega arith; intact = refl; conserved = refl })
