-- ===== src/Mpi/Manager/Threads.antt =====
-- manager_req_t of src/backend/mpi/comp_manager/manager_req.cpp under several threads: each step is
-- one access to the queue or to the lock by one thread, in any order.
pub mod Moves
pub mod Safety
use lcw.Base.{
  ℕ, Bool, true, false, Option, none, some, List, [], ◌∷◌, ◌++◌, get_elem?, set, if◌then◌else◌,
}

-- Where a thread stands in do_progress or add_entry.
pub data Point (A : Type 0) : Type 0 where
  idle : Point A  -- in neither call
  seen : Point A  -- before try_lock
  locked : Point A  -- before the second `empty`
  popping : Point A  -- before `front`
  testing : A → Point A  -- before MPI_Test
  finishing signalling : A → Point A  -- the request has completed: before `unlock`, after it
  leaving : Point A  -- before `unlock`
  adding appending : A → Point A  -- before `lock`, before push_back

-- What a step is told: which call an idle thread makes, and what MPI_Test reports.
pub data Event (A : Type 0) : Type 0 where
  progresses : Event A
  adds : A → Event A
  tests : Bool → Event A

-- `added` and `signalled` record what went in and came out; `crashed` is set by `front` of an empty
-- queue.
pub record Shared (A : Type 0) : Type 0 where
  pub entries : List A
  pub lock : Bool
  pub threads : List (Point A)
  pub added : List A
  pub signalled : List A
  pub crashed : Bool

module _ {A : Type 0} where
  abbrev pub goes : ℕ → Point A → Shared A → Shared A
  goes i q s = record s { threads = set s.threads i q }

  -- The first `empty`, without the lock.
  looks : ℕ → List A → Shared A → Shared A
  looks i [] s = s
  looks i (e ∷ es) s = goes i seen s

  begins : ℕ → Event A → Shared A → Shared A
  unfolding looks
  begins i progresses s = looks i s.entries s
  begins i (adds e) s = record (goes i (adding e) s) { added = e ∷ s.added }
  begins i (tests b) s = s

  try_lock : ℕ → Bool → Shared A → Shared A
  try_lock i true s = goes i idle s
  try_lock i false s = record (goes i locked s) { lock = true }

  checks : ℕ → List A → Shared A → Shared A
  checks i [] s = goes i leaving s
  checks i (e ∷ es) s = goes i popping s

  pops : ℕ → List A → Shared A → Shared A
  pops i [] s = record s { crashed = true }
  pops i (e ∷ es) s = record (goes i (testing e) s) { entries = es }

  reports : ℕ → A → Event A → Shared A → Shared A
  reports i e (tests true) s = goes i (finishing e) s
  reports i e (tests false) s = record (goes i leaving s) { entries = s.entries ++ e ∷ [] }
  reports i e progresses s = s
  reports i e (adds f) s = s

  -- `lock` waits.
  waits : ℕ → A → Bool → Shared A → Shared A
  waits i e true s = s
  waits i e false s = record (goes i (appending e) s) { lock = true }

  resume : ℕ → Event A → Point A → Shared A → Shared A
  unfolding begins try_lock checks pops reports waits
  resume i v idle s = begins i v s
  resume i v seen s = try_lock i s.lock s
  resume i v locked s = checks i s.entries s
  resume i v popping s = pops i s.entries s
  resume i v (testing e) s = reports i e v s
  resume i v (finishing e) s = record (goes i (signalling e) s) { lock = false }
  resume i v (signalling e) s = record (goes i idle s) { signalled = e ∷ s.signalled }
  resume i v leaving s = record (goes i idle s) { lock = false }
  resume i v (adding e) s = waits i e s.lock s
  resume i v (appending e) s = record (goes i leaving s) { entries = s.entries ++ e ∷ [] }

  at_point : ℕ → Event A → Option (Point A) → Shared A → Shared A
  unfolding resume
  at_point i v none s = s
  at_point i v (some q) s = resume i v q s

  -- A step of thread `i`.
  unfoldable pub step : ℕ → Event A → Shared A → Shared A
  unfolding at_point
  step i v s = at_point i v (get_elem? s.threads i) s

  unfoldable pub run : List (ℕ × Event A) → Shared A → Shared A
  unfolding step
  run [] s = s
  run ((i, v) ∷ vs) s = run vs (step i v s)
