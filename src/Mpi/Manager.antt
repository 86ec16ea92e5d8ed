-- ===== src/Mpi/Manager.antt =====
-- src/backend/mpi/comp_manager: the two completion managers.
pub mod Balance
pub mod Posted
pub mod Delivery
pub mod Threads
use lcw.Base.{
  ℕ, ℤ, pos, ◌++◌, List, [], ◌∷◌, Bool, true, false, Option, none, some, length, get_elem?,
  remove_at, Outcome, ok, fault, assertion, uninitialized, bad_pointer, blocked, Action, pure, fail,
  assert, or_fault, when, gets, modify, zoom, ◌>>=◌, ◌>>◌, if◌then◌else◌,
}
use lcw.Api.{Ptr, OpT, send, recv, put, put_signal}
use lcw.Comp.{Host}
use lcw.Mpi.Types.{
  Config, CompType, request, continue, Status, MpiApi, EntryT, ManagerT, req, cont, freed, State,
  in_world, manager_at, write_manager, enter_stream_cs, leave_stream_cs,
}
use lcw.Mpi.Bigcount.{safecall}
use lcw.Mpi.Signal.{signal_comp}

-- The result of MPI_Test on the front entry; a null request has completed, with no status.
pub data Tested : Type 0 where
  pending : Tested
  done : Option Status → Tested

module _ {W : Type 0} (host : Host W) (api : MpiApi W) where
  -- The constructor of manager_cont_t: cont_req is MPI_REQUEST_NULL unless `use_cont_req` is set.
  new_cont : Bool → Bool → Action (State W) ManagerT
  new_cont false poll_only = pure (cont none [] false)
  new_cont true poll_only = do
    r ← in_world (safecall (api.continue_init poll_only))
    in_world (safecall (api.start r))
    pure (cont (some r) [] false)

  -- make_shared, by the configured type.
  build : CompType → Config → Bool → Action (State W) ManagerT
  unfolding new_cont
  build request c have_cont = pure (req [] false)
  build continue c true = new_cont c.use_cont_req c.use_cont_poll_only
  build continue c false = fail assertion

  abbrev new_manager : ManagerT → State W → State W
  new_manager m s = record s { managers = s.managers ++ m ∷ [] }

  unfoldable pub make_manager : Action (State W) ℕ
  unfolding build
  make_manager = do
    c ← gets (λ s. s.config)
    m ← build c.comp_type c c.have_cont
    p ← gets (λ s. length s.managers)
    modify (new_manager m)
    pure p

  -- The destructors of the two classes: the queue of entries goes with a manager_req_t, while MPI keeps
  -- the continuations that it has not run yet.
  unfoldable pub destroy : ℕ → ManagerT → Action (State W) (Unit {0})
  destroy p (req es l) = write_manager p (freed es [])
  destroy p (cont none held l) = write_manager p (freed [] held)
  destroy p (cont (some r) held l) = do
    in_world (safecall (api.request_free r))
    write_manager p (freed [] held)
  destroy p (freed lost held) = fail bad_pointer

  -- A manager never changes its class while it lives. The entry stays with the manager until MPI runs its continuation, unless that ran at once.
  hold_on : ℕ → EntryT → ManagerT → Action (State W) (Unit {0})
  hold_on p entry (req es l) = fail bad_pointer
  hold_on p entry (cont r held l) = write_manager p (cont r (held ++ entry ∷ []) l)
  hold_on p entry (freed lost held) = fail bad_pointer

  keep_attached : ℕ → EntryT → Bool → Action (State W) (Unit {0})
  unfolding hold_on
  keep_attached p entry true = signal_comp host entry
  keep_attached p entry false = do m ← manager_at p; hold_on p entry m

  attach : ℕ → EntryT → Option ℕ → Action (State W) (Unit {0})
  unfolding keep_attached
  attach p entry cont_req = do
    c ← gets (λ s. s.config)
    enter_stream_cs entry.device
    now ← in_world (safecall (api.attach entry.mpi_req c.use_cont_imm c.use_cont_defer cont_req))
    keep_attached p entry now
    leave_stream_cs entry.device

  -- `lock` waits for a holder that, in a sequential run, never lets go.
  add_to : ℕ → EntryT → ManagerT → Action (State W) (Unit {0})
  unfolding attach
  add_to p entry (req es true) = λ s. blocked
  add_to p entry (req es false) = write_manager p (req (es ++ entry ∷ []) false)
  add_to p entry (cont r held l) = attach p entry r
  add_to p entry (freed lost held) = fail bad_pointer

  -- manager_base_t::add_entry of the manager at `p`.
  unfoldable pub add_entry : ℕ → EntryT → Action (State W) (Unit {0})
  unfolding add_to
  add_entry p entry = do m ← manager_at p; add_to p entry m

  test_entry : EntryT → Option ℕ → Action (State W) Tested
  test_entry e none = pure (done none)
  test_entry e (some r) = do
    enter_stream_cs e.device
    status ← in_world (safecall (api.test r))
    leave_stream_cs e.device
    pure (elim status [ none ↦ pending | some st ↦ done (some st) ])

  -- What a receive writes into its request.
  received : EntryT → Status → EntryT
  received e st = record e {
    request = record e.request { length = pos st.count; tag = st.tag; rank = st.source };
  }

  -- From the assertion on: the entry is out of the queue and the lock is released.
  complete : OpT → EntryT → Option Status → Action (State W) (Unit {0})
  unfolding received
  complete put_signal e st = fail assertion
  complete recv e none = fail uninitialized
  complete recv e (some st) = signal_comp host (received e st)
  complete send e st = signal_comp host e
  complete put e st = signal_comp host e

  after_test : ℕ → List EntryT → EntryT → Tested → Action (State W) Bool
  unfolding complete
  after_test p rest e pending = do write_manager p (req (rest ++ e ∷ []) false); pure false
  after_test p rest e (done st) = do
    write_manager p (req rest false)
    complete e.request.op e st
    pure true

  -- manager_req_t::do_progress. In one call nothing comes between its two tests of `empty`.
  progress_req : ℕ → List EntryT → Bool → Action (State W) Bool
  unfolding test_entry after_test
  progress_req p [] locked = pure false
  progress_req p (e ∷ rest) true = pure false
  progress_req p (e ∷ rest) false = do
    write_manager p (req rest true)
    tested ← test_entry e e.mpi_req
    after_test p rest e tested

  restart : ℕ → Option Status → Action (State W) (Unit {0})
  restart r none = pure tt
  restart r (some st) = in_world (safecall (api.start r))

  -- manager_cont_t::do_progress. Nothing reads its lock between the `try_lock` and the `unlock`.
  progress_cont : Option ℕ → Bool → Action (State W) Bool
  unfolding restart
  progress_cont none locked = pure false
  progress_cont (some r) true = pure false
  progress_cont (some r) false = do
    status ← in_world (safecall (api.test r))
    restart r status
    pure false

  progress_manager : ℕ → ManagerT → Action (State W) Bool
  unfolding progress_req progress_cont
  progress_manager p (req es l) = progress_req p es l
  progress_manager p (cont r held l) = progress_cont r l
  progress_manager p (freed lost held) = fail bad_pointer

  -- manager_base_t::do_progress of the manager at `p`.
  unfoldable pub do_progress : ℕ → Action (State W) Bool
  unfolding progress_manager
  do_progress p = do m ← manager_at p; progress_manager p m

  -- complete_cb, with the entry whose operation has completed; `m` is the manager without it.
  run_cb : ℕ → ManagerT → Option EntryT → Action (State W) (Unit {0})
  run_cb p m none = pure tt
  run_cb p m (some e) = do write_manager p m; signal_comp host e

  fire : ℕ → ℕ → ManagerT → Action (State W) (Unit {0})
  unfolding run_cb
  fire p i (req es l) = pure tt
  fire p i (cont r held l) = run_cb p (cont r (remove_at i held) l) (get_elem? held i)
  fire p i (freed lost held) = run_cb p (freed lost (remove_at i held)) (get_elem? held i)

  -- complete_cb, which MPI runs for the continuation at place `i` among those that were attached for
  -- manager `p` and have not run, in any order and also when the manager is gone.
  unfoldable pub complete_cb : ℕ → ℕ → Action (State W) (Unit {0})
  unfolding fire
  complete_cb p i = do m ← manager_at p; fire p i m
