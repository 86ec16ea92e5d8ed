-- ===== src/Checks/Race.antt =====
-- Two threads and a limit of one: both find room while one message is in flight.
use lcw.Base.{pos, ◌≡◌, refl, List, [], ◌∷◌, arith}
use lcw.Mpi.Post.Race.{outside, Pending, Event, posts, completes, run, IsBounded, run-IsBounded}

abbrev start : Pending
start = record { g_pending_msg = pos 0; in_flight = 0; threads = outside ∷ outside ∷ [] }

abbrev schedule : List Event
schedule =
    posts 0 ∷ posts 0 ∷ posts 0 ∷ posts 0 ∷ posts 1 ∷ posts 0 ∷ posts 1 ∷ posts 0 ∷ posts 1 ∷ []

-- Three are in flight, the limit and one for each thread.
after_schedule : (run (pos 1) schedule start).in_flight ≡ 3
unfolding run
after_schedule = refl

-- Without a limit nothing is counted.
unlimited : run (pos 0) (posts 0 ∷ posts 0 ∷ completes ∷ []) start ≡ start
unfolding run
unlimited = refl

run-IsBounded_example : IsBounded 1 2 (run (pos 1) schedule start)
run-IsBounded_example =
    run-IsBounded 1 2 (omega arith) (omega arith) schedule start
      (record { size = refl; exact = refl; bound = omega arith })
