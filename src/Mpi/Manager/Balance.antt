-- ===== src/Mpi/Manager/Balance.antt =====
-- The ledger across add_entry and do_progress of the managers of src/backend/mpi/comp_manager:
-- no entry is lost or completed twice.
use lcw.Base.{
  length, subst, ℕ, ◌+◌, ◌≡◌, refl, Bool, true, false, Option, none, some, List, [], ◌∷◌, arith,
  total-append, total-remove_at, remove_at, Action, pure, modify, gets, Holds, Holds-bind,
  Holds-map, Holds-fail, Keeps, Keeps-pure,
}
use lcw.Api.{OpT, send, recv, put, put_signal}
use lcw.Comp.{Host}
use lcw.Mpi.Types.{
  CompType, request, continue, Config, Status, EntryT, ManagerT, req, cont, freed, MpiApi, State,
  write_manager,
}
use lcw.Mpi.Bigcount.{safecall}
use lcw.Mpi.Frame.{
  Core, Books, books, On, frame_rules, gets-Keeps, in_world-Keeps, enter_stream_cs-Keeps,
  leave_stream_cs-Keeps,
}
use lcw.Mpi.Ledger.{
  entries, weight, Hand, Inv, At, Settles, Hand-zero, Inv-Hand, manager_at-Holds,
  write_manager-Holds, signal_comp-Holds,
}
use lcw.Mpi.Manager.{
  new_cont, build, new_manager, make_manager, hold_on, keep_attached, attach, add_to, add_entry,
  Tested, pending, done, test_entry, received, complete, after_test, progress_req, restart,
  progress_cont, progress_manager, do_progress, run_cb, fire, complete_cb, destroy,
}

module _ {W : Type 0} (host : Host W) (api : MpiApi W) (w : OpT → ℕ) (L : ℕ → Books → Type 0)
    (settles : Settles W w L) where
  abbrev Ready : EntryT → State W → Type 0
  Ready e = On (Hand w L (w e.request.op))

  abbrev Kept : State W → Type 0
  Kept = On (Inv w L)

  -- To write a manager that has taken up what was in hand.
  store-Holds :
      (p x : ℕ) (m m' : ManagerT)
      → weight w (entries m') ≡ x + weight w (entries m)
      → Holds (On (At w L p m x)) (write_manager p m') (λ _. Kept)
  store-Holds p x m m' e =
      Holds-map (λ s h. h) (λ _ s h. Hand-zero w L _ h.1)
        (write_manager-Holds w L p x 0 m m' (omega arith))

  keep_attached-Holds :
      (p : ℕ) (e : EntryT) (now : Bool)
      → Holds (Ready e) (keep_attached host api p e now) (λ _. Kept)
  unfolding keep_attached hold_on
  keep_attached-Holds p e true = signal_comp-Holds host w L settles e
  keep_attached-Holds p e false =
      Holds-bind _ (λ m. On (At w L p m (w e.request.op))) _ _ (manager_at-Holds w L p _)
        λ m.
          elim m
            as (λ m.
              Holds (On (At w L p m (w e.request.op))) (hold_on host api p e m) (λ _. Kept)) [
                | req es l ↦ Holds-fail _ _
                | cont r held l ↦
                    store-Holds p _ _ _
                      (omega (arith, total-append (λ e. w e.request.op) held (e ∷ [])))
                | freed lost held ↦ Holds-fail _ _
              ]

  attach-Holds :
      (p : ℕ) (e : EntryT) (r : Option ℕ) → Holds (Ready e) (attach host api p e r) (λ _. Kept)
  unfolding attach
  attach-Holds p e r =
      Holds-bind _ (λ _. Ready e) _ _ (gets-Keeps hand (λ s. s.config))
        λ c.
          Holds-bind _ (λ _. Ready e) _ _ (enter_stream_cs-Keeps hand e.device)
            λ _.
              Holds-bind _ (λ _. Ready e) _ _ (in_world-Keeps hand (call c))
                λ now.
                  Holds-bind _ (λ _. Kept) _ _ (keep_attached-Holds p e now)
                    λ _. leave_stream_cs-Keeps (Inv w L) e.device
    where
      hand : Core → Type 0
      hand = Hand w L (w e.request.op)

      call : Config → Action W Bool
      call c = safecall (api.attach e.mpi_req c.use_cont_imm c.use_cont_defer r)

  add_to-Holds :
      (p : ℕ) (e : EntryT) (m : ManagerT)
      → Holds (On (At w L p m (w e.request.op))) (add_to host api p e m) (λ _. Kept)
  unfolding add_to
  add_to-Holds p e (req es true) = record { at = λ s h. tt }
  add_to-Holds p e (req es false) =
      store-Holds p _ _ _ (omega (arith, total-append (λ e. w e.request.op) es (e ∷ [])))
  add_to-Holds p e (cont r held l) = Holds-map (λ s h. h.1) (λ _ s h. h) (attach-Holds p e r)
  add_to-Holds p e (freed lost held) = Holds-fail _ _

  -- An entry that is added is held by a manager, or has been signalled.
  pub add_entry-Holds : (p : ℕ) (e : EntryT) → Holds (Ready e) (add_entry host api p e) (λ _. Kept)
  unfolding add_entry
  add_entry-Holds p e = Holds-bind _ _ _ _ (manager_at-Holds w L p _) (add_to-Holds p e)

  complete-Holds :
      (op : OpT) (e : EntryT) (st : Option Status)
      → Holds (Ready e) (complete host api op e st) (λ _. Kept)
  unfolding complete received
  complete-Holds put_signal e st = Holds-fail _ _
  complete-Holds recv e none = Holds-fail _ _
  complete-Holds recv e (some st) = signal_comp-Holds host w L settles (received host api e st)
  complete-Holds send e st = signal_comp-Holds host w L settles e
  complete-Holds put e st = signal_comp-Holds host w L settles e

  -- The manager with its front entry taken out, and the lock held.
  abbrev Popped : ℕ → List EntryT → EntryT → State W → Type 0
  Popped p rest e = On (At w L p (req rest true) (w e.request.op))

  after_test-Holds :
      (p : ℕ) (rest : List EntryT) (e : EntryT) (t : Tested)
      → Holds (Popped p rest e) (after_test host api p rest e t) (λ _. Kept)
  unfolding after_test
  after_test-Holds p rest e pending =
      Holds-bind _ (λ _. Kept) _ _
        (store-Holds p _ _ _ (omega (arith, total-append (λ e. w e.request.op) rest (e ∷ []))))
        λ _. Keeps-pure Kept false
  after_test-Holds p rest e (done st) =
      Holds-bind _ (λ _. Ready e) _ _
        (Holds-map (λ s h. h) (λ _ s h. h.1)
          (write_manager-Holds w L p _ _ _ (req rest false) refl))
        λ _.
          Holds-bind _ (λ _. Kept) _ _ (complete-Holds e.request.op e st) λ _. Keeps-pure Kept true

  test_entry-Keeps :
      (P : Core → Type 0) (e : EntryT) (r : Option ℕ) → Keeps (On P) (test_entry host api e r)
  unfolding test_entry
  test_entry-Keeps P e none = Keeps-pure (On P) _
  test_entry-Keeps P e (some r) = search frame_rules

  progress_req-Holds :
      (p : ℕ) (es : List EntryT) (l : Bool)
      → Holds (On (At w L p (req es l) 0)) (progress_req host api p es l) (λ _. Kept)
  unfolding progress_req
  progress_req-Holds p [] l =
      Holds-map (λ s h. Hand-zero w L _ h.1) (λ _ s h. h) (Keeps-pure Kept false)
  progress_req-Holds p (e ∷ rest) true =
      Holds-map (λ s h. Hand-zero w L _ h.1) (λ _ s h. h) (Keeps-pure Kept false)
  progress_req-Holds p (e ∷ rest) false =
      Holds-bind _ (λ _. Popped p rest e) _ _
        (write_manager-Holds w L p _ _ _ (req rest true) (omega arith))
        λ _.
          Holds-bind _ (λ _. Popped p rest e) _ _
            (test_entry-Keeps (At w L p (req rest true) (w e.request.op)) e e.mpi_req)
            (after_test-Holds p rest e)

  restart-Keeps : (r : ℕ) (st : Option Status) → Keeps Kept (restart host api r st)
  unfolding restart
  restart-Keeps r none = Keeps-pure Kept tt
  restart-Keeps r (some st) = in_world-Keeps (Inv w L) (safecall (api.start r))

  progress_cont-Keeps : (r : Option ℕ) (l : Bool) → Keeps Kept (progress_cont host api r l)
  unfolding progress_cont
  progress_cont-Keeps none l = Keeps-pure Kept false
  progress_cont-Keeps (some r) true = Keeps-pure Kept false
  progress_cont-Keeps (some r) false = search (frame_rules, restart-Keeps)

  progress_manager-Holds :
      (p : ℕ) (m : ManagerT) → Holds (On (At w L p m 0)) (progress_manager host api p m) (λ _. Kept)
  unfolding progress_manager
  progress_manager-Holds p (req es l) = progress_req-Holds p es l
  progress_manager-Holds p (cont r held l) =
      Holds-map (λ s h. Hand-zero w L _ h.1) (λ _ s h. h) (progress_cont-Keeps r l)
  progress_manager-Holds p (freed lost held) = Holds-fail _ _

  -- Progress on a manager keeps every ledger.
  pub do_progress-Keeps : (p : ℕ) → Keeps Kept (do_progress host api p)
  unfolding do_progress
  do_progress-Keeps p =
      Holds-map (λ s h. Inv-Hand w L _ h) (λ _ s h. h)
        (Holds-bind _ _ _ _ (manager_at-Holds w L p 0) (progress_manager-Holds p))

  idle : (p : ℕ) (m : ManagerT) → Holds (On (At w L p m 0)) (pure tt) (λ _. Kept)
  idle p m = Holds-map (λ s h. Hand-zero w L _ h.1) (λ _ s h. h) (Keeps-pure Kept tt)

  run_cb-Holds :
      (p : ℕ) (m m' : ManagerT) (o : Option EntryT)
      → ((e : EntryT) → o ≡ some e → w e.request.op + weight w (entries m') ≡ weight w (entries m))
      → Holds (On (At w L p m 0)) (run_cb host api p m' o) (λ _. Kept)
  unfolding run_cb
  run_cb-Holds p m m' none q = idle p m
  run_cb-Holds p m m' (some e) q =
      Holds-bind _ (λ _. Ready e) _ _
        (Holds-map (λ s h. h) (λ _ s h. h.1)
          (write_manager-Holds w L p 0 (w e.request.op) m m' (omega (arith, q e refl))))
        λ _. signal_comp-Holds host w L settles e

  fire-Holds :
      (p i : ℕ) (m : ManagerT) → Holds (On (At w L p m 0)) (fire host api p i m) (λ _. Kept)
  unfolding fire
  fire-Holds p i (req es l) = idle p _
  fire-Holds p i (cont r held l) =
      run_cb-Holds p _ _ _ λ e h. total-remove_at (λ e. w e.request.op) held i h
  fire-Holds p i (freed lost held) = run_cb-Holds p _ _ _ λ e h. omega (
    arith,
    total-remove_at (λ e. w e.request.op) held i h,
    total-append (λ e. w e.request.op) lost held,
    total-append (λ e. w e.request.op) lost (remove_at i held),
  )

  -- So does a continuation that MPI runs.
  pub complete_cb-Keeps : (p i : ℕ) → Keeps Kept (complete_cb host api p i)
  unfolding complete_cb
  complete_cb-Keeps p i =
      Holds-map (λ s h. Inv-Hand w L _ h) (λ _ s h. h)
        (Holds-bind _ _ _ _ (manager_at-Holds w L p 0) (fire-Holds p i))

module _ {W : Type 0} (host : Host W) (api : MpiApi W) (w : OpT → ℕ) (L : ℕ → Books → Type 0) where
  -- A new manager holds nothing.
  abbrev Empty : ManagerT → State W → Type 0
  Empty m s = On (Inv w L) s × (weight w (entries m) ≡ 0)

  idle-Holds : (m : ManagerT) → weight w (entries m) ≡ 0 → Holds (On (Inv w L)) (pure m) Empty
  idle-Holds m e = record { at = λ s h. (h, e) }

  new_cont-Holds : (r o : Bool) → Holds (On (Inv w L)) (new_cont host api r o) Empty
  unfolding new_cont
  new_cont-Holds false o = idle-Holds _ refl
  new_cont-Holds true o =
      Holds-bind _ (λ _. On (Inv w L)) _ _
        (in_world-Keeps (Inv w L) (safecall (api.continue_init o)))
        λ r.
          Holds-bind _ (λ _. On (Inv w L)) _ _ (in_world-Keeps (Inv w L) (safecall (api.start r)))
            λ _. idle-Holds _ refl

  build-Holds :
      (t : CompType) (c : Config) (b : Bool) → Holds (On (Inv w L)) (build host api t c b) Empty
  unfolding build
  build-Holds request c b = idle-Holds _ refl
  build-Holds continue c true = new_cont-Holds c.use_cont_req c.use_cont_poll_only
  build-Holds continue c false = Holds-fail _ _

  new_manager-Holds :
      (m : ManagerT) → Holds (Empty m) (modify (new_manager host api m)) (λ _. On (Inv w L))
  new_manager-Holds m = record {
    at = λ s h.
        subst (λ n. L n (books s))
          (omega (arith, total-append (λ m. weight w (entries m)) s.managers (m ∷ []), h.1)) h.0;
  }

  pub make_manager-Keeps : Keeps (On (Inv w L)) (make_manager host api)
  unfolding make_manager
  make_manager-Keeps =
      Holds-bind _ (λ _. On (Inv w L)) _ _ (gets-Keeps (Inv w L) (λ s. s.config))
        λ c. Holds-bind _ Empty _ _ (build-Holds c.comp_type c c.have_cont) λ m.
          Holds-bind (gets (λ s. length s.managers)) (λ _. Empty m) _ _ (record { at = λ s h. h })
            λ p.
              Holds-bind _ (λ _. On (Inv w L)) _ _ (new_manager-Holds m)
                λ _. Keeps-pure (On (Inv w L)) p

  -- A manager that is replaced by one which holds as much.
  becomes :
      (p : ℕ) (m m' : ManagerT)
      → weight w (entries m') ≡ weight w (entries m)
      → Holds {S = State W} (On (At w L p m 0)) (write_manager p m') (λ _. On (Inv w L))
  becomes p m m' e =
      Holds-map (λ s h. h) (λ _ s h. Hand-zero w L _ h.1)
        (write_manager-Holds w L p 0 0 m m' (omega (arith, e)))

  -- What a manager holds when it is destroyed stays in the ledger, as lost or with MPI.
  pub destroy-Holds :
      (p : ℕ) (m : ManagerT) → Holds (On (At w L p m 0)) (destroy host api p m) (λ _. On (Inv w L))
  unfolding destroy
  destroy-Holds p (req es l) =
      becomes p _ _ (omega (arith, total-append (λ e. w e.request.op) es []))
  destroy-Holds p (cont none held l) = becomes p _ _ refl
  destroy-Holds p (cont (some r) held l) =
      Holds-bind _ (λ _. On (At w L p (cont (some r) held l) 0)) _ _
        (in_world-Keeps (At w L p (cont (some r) held l) 0) (safecall (api.request_free r)))
        λ _. becomes p _ _ refl
  destroy-Holds p (freed lost held) = Holds-fail _ _
