-- ===== src/Pingpong/Sequence.antt =====
-- g_device_sequence_control of examples/pingpong_mt.cpp: the workers that are responsible for a
-- device allocate the devices in turn, and later free them in turn, waiting on one counter.
pub mod Order
use lcw.Base.{
  ℕ, zero, suc, ◌+◌, Bool, true, false, Option, none, some, List, [], ◌∷◌, ◌++◌, get_elem?, set,
  ◌==◌, if◌then◌else◌,
}

-- One phase. `waiting` says of each responsible worker, by its device, whether it still spins;
-- `order` lists the devices dealt with.
pub record Phase : Type 0 where
  pub control : ℕ  -- g_device_sequence_control
  pub waiting : List Bool
  pub order : List ℕ

-- if (++control == devices.size()) control = 0
abbrev pub next_control : ℕ → ℕ → ℕ
next_control ndevices control = if control + 1 == ndevices then 0 else control + 1

-- The worker of device `d` looks at the counter.
takes_turn : ℕ → ℕ → Bool → Phase → Phase
takes_turn ndevices d false s = s
takes_turn ndevices d true s = record s {
  control = next_control ndevices s.control;
  waiting = set s.waiting d false;
  order = s.order ++ d ∷ [];
}

looks : ℕ → ℕ → Option Bool → Phase → Phase
unfolding takes_turn
looks ndevices d none s = s
looks ndevices d (some false) s = s
looks ndevices d (some true) s = takes_turn ndevices d (s.control == d) s

unfoldable pub step : ℕ → ℕ → Phase → Phase
unfolding looks
step ndevices d s = looks ndevices d (get_elem? s.waiting d) s

-- The workers look in any order, as often as they like.
unfoldable pub run : ℕ → List ℕ → Phase → Phase
unfolding step
run ndevices [] s = s
run ndevices (d ∷ ds) s = run ndevices ds (step ndevices d s)

-- `n` workers that have not begun to look, at a counter that reads `control`.
unfoldable pub all_waiting : ℕ → List Bool
all_waiting zero = []
all_waiting (suc n) = true ∷ all_waiting n

unfoldable pub phase_from : ℕ → ℕ → Phase
unfolding all_waiting
phase_from control n = record { control = control; waiting = all_waiting n; order = [] }
