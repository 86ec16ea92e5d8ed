-- ===== src/Contexts.antt =====
-- What src/backend/lci/backend_lci.cpp and src/backend/lci2/backend_lci2.cpp keep alike: devices,
-- which they never delete, and the requests that they make with `new` for each operation and pass
-- as its user context.
pub mod Ledger
pub mod Completion
use lcw.Base.{
  ℕ, ◌+◌, Option, none, some, List, [], ◌∷◌, ◌++◌, length, get_elem?, set, deref, ok, bad_pointer,
  fault, Action, or_fault, modify, zoom, ◌>>=◌,
}
use lcw.Api.{Ptr, RequestT}
use lcw.Comp.{Runtime}

-- The state of a backend with devices `D`. A device_t is an index into `devices`, a user context one
-- into `contexts`, where `none` is a request that has been deleted.
pub record State (D W : Type 0) : Type 0 where
  pub runtime : Runtime W
  pub open runtime use *
  pub g_ndevices : ℕ
  pub devices : List D
  pub contexts : List (Option RequestT)

module _ {D W : Type 0} where
  abbrev pub in_runtime : {A : Type 0} → Action (Runtime W) A → Action (State D W) A
  in_runtime = zoom (λ s. s.runtime) (λ r s. record s { runtime = r })

  abbrev pub with_world : W → State D W → State D W
  with_world w s = record s { runtime = record s.runtime { world = w } }

  abbrev pub in_world : {A : Type 0} → Action W A → Action (State D W) A
  in_world = zoom (λ s. s.world) with_world

  -- The first access through a device_t.
  unfoldable pub device_at : Ptr → Action (State D W) D
  device_at none s = fault bad_pointer
  device_at (some p) s = or_fault (get_elem? s.devices p) bad_pointer s

  unfoldable pub new_device : D → Action (State D W) Ptr
  new_device d s = ok (some (length s.devices), record s { devices = s.devices ++ d ∷ [] })

  -- g_ndevices++
  unfoldable pub next_id : Action (State D W) ℕ
  next_id s = ok (s.g_ndevices, record s { g_ndevices = s.g_ndevices + 1 })

  unfoldable pub new_request : RequestT → Action (State D W) ℕ
  new_request r s = ok (length s.contexts, record s { contexts = s.contexts ++ some r ∷ [] })

  -- `delete` of a request that is not there is a fault: it would be a double one.
  unfoldable pub delete_request : ℕ → Action (State D W) (Unit {0})
  delete_request p s =
      (or_fault (deref (get_elem? s.contexts p)) bad_pointer >>= λ r.
      modify (λ t. record t { contexts = set t.contexts p none }))
        s

  -- *ctx_p
  unfoldable pub request_at : ℕ → Action (State D W) RequestT
  request_at p s = or_fault (deref (get_elem? s.contexts p)) bad_pointer s

-- A call whose error code the source does not look at, or that has none.
abbrev pub run : {W A : Type 0} → (W → A × W) → Action W A
run call w = ok ((call w).0, (call w).1)
