-- ===== src/Mpi/Manager/Delivery.antt =====
-- manager_req_t of src/backend/mpi/comp_manager/manager_req.cpp serves its entries in turn: an
-- entry whose request has completed is signalled after one round at most.
use lcw.Base.{
  pos, ℕ, zero, suc, ◌≡◌, ◌≢◌, Bool, true, false, ◌&&◌, Option, none, some, List, [], ◌∷◌, ◌++◌,
  length, get_elem?, set, deref, ok, Action, pure, ◌>>=◌,
}
use lcw.Api.{OpT, recv, put_signal}
use lcw.Comp.{Host, CompT}
use lcw.Comp
use lcw.Mpi.Types.{Status, EntryT, req, MpiApi, State, with_world}
use lcw.Mpi.Signal.{signal_comp}
use lcw.Mpi.Manager.{do_progress, Tested, pending, done}

-- A request, a completion object that is there, and an operation that a manager may complete.
pub record IsServable (comps : List (Option CompT)) (e : EntryT) : Type 0 where
  pub request : ℕ
  pub holds : e.mpi_req ≡ some request
  pub handle : ℕ
  pub object : CompT
  pub points : e.completion ≡ some handle
  pub found : deref (get_elem? comps handle) ≡ some object
  pub allowed : e.request.op ≢ put_signal

-- What a completion reports: of a receive, what its status says; of a send or a put, what was posted.
abbrev pub reported : OpT → Status → EntryT → EntryT
reported recv st e = record e {
  request = record e.request { rank = st.source; tag = st.tag; length = pos st.count };
}
reported _ st e = e

-- One of `queue`, after which `s` is left as `s'`, has been signalled with what it reports. `before` has
-- the completion objects and the counters of `s`.
pub record Signalled {W : Type 0} (host : Host W) (queue : List EntryT) (s s' : State W)
    : Type 0 where
  pub place : ℕ
  pub entry : EntryT
  pub status : Status
  pub before : State W
  pub listed : get_elem? queue place ≡ some entry
  pub same : before.runtime ≡ record s.runtime { world = before.world }
  pub signals : signal_comp host (reported entry.request.op status entry) before ≡ ok (tt, s')

module _ {W : Type 0} (host : Host W) (api : MpiApi W) where
  tested_of : Option Status → Tested
  tested_of none = pending
  tested_of (some st) = done (some st)

  abbrev NoStreams : State W → Type 0
  NoStreams s = s.config.have_stream && s.config.use_stream ≡ false

  abbrev locked : ℕ → List EntryT → State W → State W
  locked p rest s = record s { managers = set s.managers p (req rest true) }

  abbrev rotated : ℕ → EntryT → List EntryT → W → State W → State W
  rotated p e rest w s =
      let t = with_world w (locked p rest s) in
      record t { managers = set t.managers p (req (rest ++ e ∷ []) false) }

  unless_done : Bool → Action (State W) Bool → Action (State W) Bool
  unless_done true m = pure true
  unless_done false m = m

  -- `while (!do_progress())`, for `n` calls at most; whether one of them found something.
  unfoldable pub try_progress : ℕ → ℕ → Action (State W) Bool
  unfolding unless_done
  try_progress p zero = pure false
  try_progress p (suc n) =
      let rest = try_progress p n in do_progress host api p >>= λ worked. unless_done worked rest

pub data AllServable (comps : List (Option CompT)) : List EntryT → Type 0 where
  nil : AllServable comps []
  cons :
      {e : EntryT} {es : List EntryT}
      → IsServable comps e
      → AllServable comps es
      → AllServable comps (e ∷ es)

-- What MPI documents of MPI_Test: it tells whether the request has completed, and a request that
-- has completed stays so while others are tested.
pub record TestLaws {W : Type 0} (api : MpiApi W) : Type 0 where
  pub has_completed : W → ℕ → Bool
  pub test_completed :
      (r : ℕ) (w : W)
      → has_completed w r ≡ true
      → (st : Status) × (w' : W) × (api.test r w ≡ some (some st, w'))
  pub test_pending :
      (r : ℕ) (w : W)
      → has_completed w r ≡ false
      → (w' : W) × (api.test r w ≡ some (none, w'))
        × ((q : ℕ) → has_completed w q ≡ true → has_completed w' q ≡ true)
