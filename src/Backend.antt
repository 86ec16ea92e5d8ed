-- ===== src/Backend.antt =====
-- src/backend/backend.hpp and backend.cpp: the interface of a backend, and the choice of one.
use lcw.Base.{
  arith, ◌⊎◌, inl, inr, ℕ, ℤ, ◌≡◌, Bool, true, false, Option, none, some, ◌≢◌, Action, Outcome, ok,
  fault, assertion, if◌then◌else◌,
}
use lcw.Api.{BackendT, auto, lci, mpi, lci2, gex, Ptr, RequestT}
use lcw.Pcounter.{Counters}

-- backend_base_t as a table of its virtual functions over the backend's state `S`. `counters` is
-- the part of the state that pcounter.cpp keeps for all backends.
pub record Backend (S : Type 0) : Type 0 where
  pub counters : S → Counters
  pub with_counters : Counters → S → S
  pub initialize : Action S (Unit {0})
  pub finalize : Action S (Unit {0})
  pub get_rank : Action S ℤ
  pub get_nranks : Action S ℤ
  pub alloc_device : ℤ → Ptr → Action S Ptr
  pub free_device : Ptr → Action S (Unit {0})
  pub do_progress : Ptr → Action S Bool
  pub send : Ptr → ℤ → ℤ → Ptr → ℤ → Ptr → ℕ → Action S Bool
  pub recv : Ptr → ℤ → ℤ → Ptr → ℤ → Ptr → ℕ → Action S Bool
  pub put : Ptr → ℤ → Ptr → ℤ → Ptr → ℕ → Action S Bool
  pub get_max_tag : Ptr → Action S ℤ
  pub barrier : Ptr → Action S (Unit {0})
  pub alloc_handler : ℕ → Action S Ptr
  pub free_handler : Ptr → Action S (Unit {0})
  pub alloc_cq : Action S Ptr
  pub free_cq : Ptr → Action S (Unit {0})
  pub poll_cq : Ptr → Action S (Option RequestT)
  pub set_custom_allocator : ℕ → Action S (Unit {0})

-- LCW_ENABLE_BACKEND_LCI and the like.
pub record Enabled : Type 0 where
  pub lci : Bool
  pub mpi : Bool
  pub lci2 : Bool
  pub gex : Bool

-- The value of LCW_BACKEND_AUTO, by the strings that the code compares it with.
pub data AutoVar : Type 0 where
  is_mpi is_lci is_lci2 is_gex is_other : AutoVar

-- The `#ifdef` chain.
default_backend : Enabled → BackendT
default_backend e = if e.mpi then mpi else if e.lci2 then lci2 else lci

from_env : BackendT → Option AutoVar → BackendT
from_env b none = b
from_env b (some is_mpi) = mpi
from_env b (some is_lci) = lci
from_env b (some is_lci2) = lci2
from_env b (some is_gex) = gex
from_env b (some is_other) = b

unfoldable pub resolve : Enabled → Option AutoVar → BackendT → BackendT
unfolding default_backend from_env
resolve e env auto = from_env (default_backend e) env
resolve e env lci = lci
resolve e env mpi = mpi
resolve e env lci2 = lci2
resolve e env gex = gex

available : Bool → BackendT → Outcome BackendT
available true b = ok b
available false b = fault assertion

-- The `switch`. A backend that is not built in ends in LCW_Assert(false), which does not return.
construct : Enabled → BackendT → Outcome BackendT
unfolding available
construct e lci = available e.lci lci
construct e mpi = available e.mpi mpi
construct e lci2 = available e.lci2 lci2
construct e gex = available e.gex gex
construct e auto = fault assertion

unfoldable pub alloc_backend : Enabled → Option AutoVar → BackendT → Outcome BackendT
unfolding resolve construct
alloc_backend e env b = construct e (resolve e env b)

abbrev pub IsBuilt : Enabled → BackendT → Type 0
IsBuilt e lci = e.lci ≡ true
IsBuilt e mpi = e.mpi ≡ true
IsBuilt e lci2 = e.lci2 ≡ true
IsBuilt e gex = e.gex ≡ true
IsBuilt e auto = ⊥

-- Whatever alloc_backend makes is built in, and is the backend asked for unless that is AUTO.
pub alloc_backend-IsBuilt :
    (e : Enabled) (env : Option AutoVar) (b c : BackendT)
    → alloc_backend e env b ≡ ok c
    → IsBuilt e c × (b ≢ auto → c ≡ b)
unfolding alloc_backend
alloc_backend-IsBuilt e env auto c h = ground arith
alloc_backend-IsBuilt e env lci c h = ground arith
alloc_backend-IsBuilt e env mpi c h = ground arith
alloc_backend-IsBuilt e env lci2 c h = ground arith
alloc_backend-IsBuilt e env gex c h = ground arith

-- AUTO with no usable variable: MPI, then LCI2, then LCI, by what is built in; never GEX. It fails
-- exactly when none of the three is built in.
pub alloc_backend-auto :
    (e : Enabled) (env : Option AutoVar)
    → (env ≡ none) ⊎ (env ≡ some is_other)
    → alloc_backend e env auto ≡ (
        if e.mpi
        then ok mpi
        else if e.lci2
        then ok lci2
        else if e.lci
        then ok lci
        else fault assertion)
unfolding alloc_backend
alloc_backend-auto e env (inl h) = rw h (ground arith)
alloc_backend-auto e env (inr h) = rw h (ground arith)
