-- ===== src/Mpi/Manager/Posted.antt =====
-- The completion managers do not touch the receives that the devices keep posted for puts.
use lcw.Base.{
  get_elem?, ℕ, Bool, true, false, Option, none, some, List, [], ◌∷◌, modify, Keeps, subst, sym,
}
use lcw.Api.{OpT, send, recv, put, put_signal}
use lcw.Comp.{Host}
use lcw.Mpi.Types.{
  MpiApi, EntryT, DeviceT, ManagerT, req, cont, freed, State, Status, CompType, request, continue,
  Config,
}
use lcw.Mpi.Signal.{account, account-devices, signal_comp}
use lcw.Mpi.Manager.{
  new_cont, build, new_manager, make_manager, hold_on, keep_attached, attach, add_to, add_entry,
  Tested, pending, done, test_entry, complete, after_test, progress_req, restart, progress_cont,
  progress_manager, do_progress, run_cb, fire, complete_cb,
}
use lcw.Mpi.Put.{Each, Ignores, Devices, put_rules}

module _ {W : Type 0} (host : Host W) (api : MpiApi W) (P : ℕ → DeviceT → Type 0)
    (i : Ignores P) where
  abbrev Kept : State W → Type 0
  Kept = Devices P

  account-Keeps : (op : OpT) → Keeps Kept (modify (account op))
  account-Keeps op = record { at = λ s h. subst (Each P) (sym (account-devices op s)) h }

  pub signal_comp-Keeps : (e : EntryT) → Keeps Kept (signal_comp host e)
  unfolding signal_comp
  signal_comp-Keeps e = search (put_rules, account-Keeps)

  hold_on-Keeps : (p : ℕ) (e : EntryT) (m : ManagerT) → Keeps Kept (hold_on host api p e m)
  unfolding hold_on
  hold_on-Keeps p e (req es l) = search put_rules
  hold_on-Keeps p e (cont r held l) = search put_rules
  hold_on-Keeps p e (freed lost held) = search put_rules

  keep_attached-Keeps :
      (p : ℕ) (e : EntryT) (now : Bool) → Keeps Kept (keep_attached host api p e now)
  unfolding keep_attached
  keep_attached-Keeps p e true = signal_comp-Keeps e
  keep_attached-Keeps p e false = search (put_rules, hold_on-Keeps)

  add_to-Keeps : (p : ℕ) (e : EntryT) (m : ManagerT) → Keeps Kept (add_to host api p e m)
  unfolding add_to attach
  add_to-Keeps p e (req es true) = record { at = λ s h. tt }
  add_to-Keeps p e (req es false) = search put_rules
  add_to-Keeps p e (cont r held l) = search (put_rules, keep_attached-Keeps) depth 16
  add_to-Keeps p e (freed lost held) = search put_rules

  pub add_entry-Keeps : (p : ℕ) (e : EntryT) → Keeps Kept (add_entry host api p e)
  unfolding add_entry
  add_entry-Keeps p e = search (put_rules, add_to-Keeps)

  complete-Keeps :
      (op : OpT) (e : EntryT) (st : Option Status) → Keeps Kept (complete host api op e st)
  unfolding complete
  complete-Keeps put_signal e st = search put_rules
  complete-Keeps recv e none = search put_rules
  complete-Keeps recv e (some st) = signal_comp-Keeps _
  complete-Keeps send e st = signal_comp-Keeps e
  complete-Keeps put e st = signal_comp-Keeps e

  after_test-Keeps :
      (p : ℕ) (rest : List EntryT) (e : EntryT) (t : Tested)
      → Keeps Kept (after_test host api p rest e t)
  unfolding after_test
  after_test-Keeps p rest e pending = search put_rules
  after_test-Keeps p rest e (done st) = search (put_rules, complete-Keeps)

  test_entry-Keeps : (e : EntryT) (r : Option ℕ) → Keeps Kept (test_entry host api e r)
  unfolding test_entry
  test_entry-Keeps e none = search put_rules
  test_entry-Keeps e (some r) = search put_rules depth 16

  progress_req-Keeps :
      (p : ℕ) (es : List EntryT) (l : Bool) → Keeps Kept (progress_req host api p es l)
  unfolding progress_req
  progress_req-Keeps p [] l = search put_rules
  progress_req-Keeps p (e ∷ rest) true = search put_rules
  progress_req-Keeps p (e ∷ rest) false = search (put_rules, test_entry-Keeps, after_test-Keeps)

  restart-Keeps : (r : ℕ) (st : Option Status) → Keeps Kept (restart host api r st)
  unfolding restart
  restart-Keeps r none = search put_rules
  restart-Keeps r (some st) = search put_rules

  progress_cont-Keeps : (r : Option ℕ) (l : Bool) → Keeps Kept (progress_cont host api r l)
  unfolding progress_cont
  progress_cont-Keeps none l = search put_rules
  progress_cont-Keeps (some r) true = search put_rules
  progress_cont-Keeps (some r) false = search (put_rules, restart-Keeps)

  progress_manager-Keeps : (p : ℕ) (m : ManagerT) → Keeps Kept (progress_manager host api p m)
  unfolding progress_manager
  progress_manager-Keeps p (req es l) = progress_req-Keeps p es l
  progress_manager-Keeps p (cont r held l) = progress_cont-Keeps r l
  progress_manager-Keeps p (freed lost held) = search put_rules

  pub do_progress-Keeps : (p : ℕ) → Keeps Kept (do_progress host api p)
  unfolding do_progress
  do_progress-Keeps p = search (put_rules, progress_manager-Keeps)

  run_cb-Keeps : (p : ℕ) (m : ManagerT) (o : Option EntryT) → Keeps Kept (run_cb host api p m o)
  unfolding run_cb
  run_cb-Keeps p m none = search put_rules
  run_cb-Keeps p m (some e) = search (put_rules, signal_comp-Keeps)

  fire-Keeps : (p i : ℕ) (m : ManagerT) → Keeps Kept (fire host api p i m)
  unfolding fire
  fire-Keeps p i (req es l) = search put_rules
  fire-Keeps p i (cont r held l) = run_cb-Keeps p _ (get_elem? held i)
  fire-Keeps p i (freed lost held) = run_cb-Keeps p _ (get_elem? held i)

  pub complete_cb-Keeps : (p i : ℕ) → Keeps Kept (complete_cb host api p i)
  unfolding complete_cb
  complete_cb-Keeps p i = search (put_rules, fire-Keeps)

  new_cont-Keeps : (r o : Bool) → Keeps Kept (new_cont host api r o)
  unfolding new_cont
  new_cont-Keeps false o = search put_rules
  new_cont-Keeps true o = search put_rules

  build-Keeps : (t : CompType) (c : Config) (h : Bool) → Keeps Kept (build host api t c h)
  unfolding build
  build-Keeps request c h = search put_rules
  build-Keeps continue c true = new_cont-Keeps c.use_cont_req c.use_cont_poll_only
  build-Keeps continue c false = search put_rules

  new_manager-Keeps : (m : ManagerT) → Keeps Kept (modify (new_manager host api m))
  new_manager-Keeps m = record { at = λ s h. h }

  pub make_manager-Keeps : Keeps Kept (make_manager host api)
  unfolding make_manager
  make_manager-Keeps = search (put_rules, build-Keeps, new_manager-Keeps)
