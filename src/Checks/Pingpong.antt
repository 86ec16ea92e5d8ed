-- ===== src/Checks/Pingpong.antt =====
-- The ping-pong benchmark at concrete inputs.
use lcw.Base.{
  ℕ, ◌+◌, ◌%◌, ◌/◌, ◌≤◌, ◌<◌, ◌≡◌, ◌↔◌, refl, true, List, [], ◌∷◌, ◌++◌, some, arith, total, inl,
  ◌==◌, if◌then◌else◌,
}
use lcw.Pingpong.Buffer.{RandR, seed_bytes, fill, load_seed, write_buffer, check_buffer}
use lcw.Pingpong.Buffer.Roundtrip.{check_buffer-write_buffer, check_buffer_exact}
use lcw.Pingpong.Workers.{Config, served, nworkers, ndevices_per_prgthread}
use lcw.Pingpong.Workers.Division.{get_tag_injective, is_device, served_once}
use lcw.Pingpong.Sequence.{run, phase_from}
use lcw.Pingpong.Sequence.Order.{
  upto, control_after, run-in_turn, second_phase_frees, second_phase_stuck,
}
use lcw.Pingpong.Spawn.{spawn_all, spawn_all-eq}
use lcw.Pingpong.Exchange.{Exchange, sender, receiver, sizes_from}
use lcw.Pingpong.Exchange.Tags.{recv_tags, send_tags}
use lcw.Pingpong.Exchange.Match.{outgoing, awaited_scq, awaited_rcq, sender-receiver}
use lcw.Pingpong.Exchange.Sizes.{doubled, after, sizes_from_ends}
use lcw.Pingpong.CppBarrier
use lcw.Pingpong.CppBarrier.{
  Barrier, outside, asleep, arrives, wakes, is_asleep, IsFair, run-IsFair, run-wakes_all,
}

-- Ten threads of which two make progress, and three devices.
abbrev ten : Config
ten = record { ndevices = 3; nthreads = 10; nprgthreads = 2 }

-- Seven threads of which three should make progress.
abbrev seven : Config
seven = record { ndevices = 2; nthreads = 7; nprgthreads = 3 }

abbrev counting : RandR
counting s = (s + 7, s + 1)

abbrev old : List ℕ
old = 1 ∷ 2 ∷ 3 ∷ 4 ∷ 5 ∷ 6 ∷ 7 ∷ 8 ∷ []

six_written : write_buffer counting old 6 258 ≡ 2 ∷ 1 ∷ 0 ∷ 0 ∷ 9 ∷ 10 ∷ 7 ∷ 8 ∷ []
unfolding write_buffer seed_bytes fill
six_written = refl

-- Four threads make progress where three were asked for: the barrier of four workers gets three.
seven_spawned :
    ((spawn_all seven).progress_pool ≡ 4)
    × ((spawn_all seven).worker_pool ≡ 3)
    × (nworkers seven ≡ 4)
unfolding spawn_all nworkers
seven_spawned = (refl, refl, refl)

check_buffer-write_buffer_example : check_buffer counting (write_buffer counting old 6 258) 6 ≡ true
check_buffer-write_buffer_example = check_buffer-write_buffer counting old 6 258 (omega arith)

check_buffer_exact_example :
    2 ∷ 1 ∷ 0 ∷ 0 ∷ 9 ∷ 10 ∷ 7 ∷ 8 ∷ []
    ≡ write_buffer counting
        (2 ∷ 1 ∷ 0 ∷ 0 ∷ 9 ∷ 10 ∷ 7 ∷ 8 ∷ [])
        6
        (load_seed (2 ∷ 1 ∷ 0 ∷ 0 ∷ 9 ∷ 10 ∷ 7 ∷ 8 ∷ [])).0
unfolding check_buffer fill
check_buffer_exact_example =
    check_buffer_exact counting (2 ∷ 1 ∷ 0 ∷ 0 ∷ 9 ∷ 10 ∷ 7 ∷ 8 ∷ []) 6
      (
        omega arith,
        (
          omega arith,
          (
            omega arith,
            (omega arith, (omega arith, (omega arith, (omega arith, (omega arith, tt))))),
          ),
        ),
      )
      (omega arith) (omega arith) refl

get_tag_injective_example : (◌≡◌ {A = ℕ} 3 3) × (◌≡◌ {A = ℕ} 5 5)
unfolding nworkers
get_tag_injective_example =
    get_tag_injective ten 3 3 5 5 (omega arith) (omega arith) (omega arith) (omega arith) refl

served_once_example :
    (2 / ndevices_per_prgthread ten < 2)
    × (total (is_device 2) (served ten 1) ≡ (if 2 / ndevices_per_prgthread ten == 1 then 1 else 0))
served_once_example = served_once ten 1 2 (omega arith) (omega arith)

run-in_turn_example :
    ((n : ℕ) × (n ≤ 2) × ((run 3 (1 ∷ 0 ∷ 1 ∷ []) (phase_from 0 2)).order ≡ upto n))
    × ((run 3 ((1 ∷ 0 ∷ 1 ∷ []) ++ upto 2) (phase_from 0 2)).order ≡ upto 2)
    × ((run 3 ((1 ∷ 0 ∷ 1 ∷ []) ++ upto 2) (phase_from 0 2)).control ≡ (if 2 == 3 then 0 else 2))
run-in_turn_example = run-in_turn 3 2 (omega arith) (1 ∷ 0 ∷ 1 ∷ [])

second_phase_frees_example :
    (run 3 ((2 ∷ 0 ∷ []) ++ upto 3) (phase_from (control_after 3 3 (1 ∷ [])) 3)).order ≡ upto 3
second_phase_frees_example = second_phase_frees 3 (1 ∷ []) (2 ∷ 0 ∷ [])

second_phase_stuck_example :
    run 3 (0 ∷ 1 ∷ []) (phase_from (control_after 3 2 (1 ∷ [])) 2)
    ≡ phase_from (control_after 3 2 (1 ∷ [])) 2
second_phase_stuck_example = second_phase_stuck 3 2 (1 ∷ []) (0 ∷ 1 ∷ []) (omega arith)

spawn_all-eq_example :
    ((spawn_all seven).progress_pool + (spawn_all seven).worker_pool ≡ 7)
    × (3 ≤ (spawn_all seven).progress_pool)
    × (((spawn_all seven).worker_pool ≡ nworkers seven) ↔ (7 % 3 ≡ 0))
spawn_all-eq_example = spawn_all-eq seven (omega arith) (omega arith)

abbrev windows : Exchange
windows = record { is_send = true; send_window = 3; recv_window = 1; device = 4; peer_rank = 1 }

sender-receiver_example :
    (recv_tags (receiver ten windows 2 8 0) ≡ send_tags (sender ten windows 2 8 0))
    × (recv_tags (sender ten windows 2 8 0) ≡ send_tags (receiver ten windows 2 8 0))
    × (total awaited_scq (sender ten windows 2 8 0) ≡ total outgoing (sender ten windows 2 8 0))
    × (total awaited_scq (receiver ten windows 2 8 0) ≡ total outgoing (receiver ten windows 2 8 0))
    × (total awaited_rcq (sender ten windows 2 8 0) ≡ total outgoing (receiver ten windows 2 8 0))
    × (total awaited_rcq (receiver ten windows 2 8 0) ≡ total outgoing (sender ten windows 2 8 0))
sender-receiver_example = sender-receiver ten windows 2 8 0

sizes_from_ends_example :
    (n : ℕ) × (sizes_from 21 20 3 ≡ some (doubled 3 n))
    × (20 < after 3 n)
    × ((k : ℕ) → k < n → after 3 k ≤ 20)
sizes_from_ends_example = sizes_from_ends 20 20 3 (omega arith) (omega arith) (omega arith)

-- Three threads, of which one is asleep and one is about to come.
abbrev three : Barrier
three = record { count = 1; threads = asleep ∷ outside ∷ asleep ∷ [] }

three-IsFair : IsFair three
three-IsFair = record { count = refl; bound = omega arith; gate = inl refl }

run-IsFair_example : IsFair (CppBarrier.run (wakes 0 ∷ arrives 1 ∷ wakes 2 ∷ []) three)
run-IsFair_example = run-IsFair (wakes 0 ∷ arrives 1 ∷ wakes 2 ∷ []) three three-IsFair

run-wakes_all_example :
    total is_asleep (CppBarrier.run (wakes 0 ∷ arrives 1 ∷ wakes 2 ∷ []) three).threads ≡ 0
unfolding CppBarrier.run
run-wakes_all_example =
    run-wakes_all (wakes 0 ∷ arrives 1 ∷ wakes 2 ∷ []) three three-IsFair (λ z. absurd (cc)) refl
