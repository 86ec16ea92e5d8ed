-- ===== src/Mpi/Put.antt =====
-- The receive that a device of src/backend/mpi/backend_mpi.cpp keeps posted for incoming puts:
-- what changes of the state leave the devices as they are.
pub mod Receive
use lcw.Base.{
  ℕ, ◌≡◌, ◌≢◌, refl, sym, ap, ◌∙◌, Bool, true, false, ◌&&◌, Option, none, some, List, Outcome, ok,
  fault, blocked, Action, pure, fail, gets, modify, zoom, put_back, or_fault, bad_pointer, await,
  Holds-map, deref, get_elem?, set, deref-set, inl, inr, ◌>>=◌, ◌>>◌, Post, Holds, Holds-bind,
  Keeps, Keeps-bind, Keeps-when, Keeps-await, Keeps-pure, Keeps-fail, Keeps-assert, Keeps-or_fault,
}
use mathlib.Core.Option.{some-injective}
use lcw.Api.{Ptr}
use lcw.Comp.{Runtime}
use lcw.Mpi.Types.{
  in_runtime, DeviceT, ManagerT, MpiApi, pred_ℤ, State, in_world, with_world, device_at,
  write_device, manager_at, write_manager, enter_stream_cs, leave_stream_cs,
}
use lcw.Mpi.Device.{put_request, post_put_recv}

-- Every device that has not been deleted.
abbrev pub Each : (ℕ → DeviceT → Type 0) → List (Option DeviceT) → Type 0
Each P ds = (p : ℕ) (d : DeviceT) → deref (get_elem? ds p) ≡ some d → P p d

pub Each-set :
    (P : ℕ → DeviceT → Type 0) (ds : List (Option DeviceT)) (p : ℕ) (d : DeviceT)
    → ((q : ℕ) (e : DeviceT) → q ≢ p → deref (get_elem? ds q) ≡ some e → P q e)
    → P p d
    → Each P (set ds p (some d))
Each-set P ds p d h k q e l = elim (deref-set ds p q (some d) l) [
  | inl m ↦ rw (m.0, sym (some-injective d e m.1)) k
  | inr m ↦ h q e m.0 m.1
]

-- `lock` and `unlock` of the stream's lock do not touch what `P` speaks of.
abbrev pub Ignores : (ℕ → DeviceT → Type 0) → Type 0
Ignores P = (p : ℕ) (d : DeviceT) (b : Bool) → P p d → P p (record d { stream_locked = b })

module _ {W : Type 0} (P : ℕ → DeviceT → Type 0) where
  abbrev pub Devices : State W → Type 0
  Devices s = Each P s.devices

  pub gets-Keeps : {A : Type 0} (f : State W → A) → Keeps Devices (gets f)
  gets-Keeps f = record { at = λ s h. h }

  world-Post :
      {A : Type 0} (s : State W) (o : Outcome (A × W))
      → Devices s
      → Post (λ _. Devices) (put_back with_world s o)
  world-Post s (ok (a, w)) h = h
  world-Post s (fault e) h = tt
  world-Post s blocked h = tt

  pub in_world-Keeps : {A : Type 0} (m : Action W A) → Keeps Devices (in_world m)
  in_world-Keeps m = record { at = λ s h. world-Post s (m s.world) h }

  runtime-Post :
      {A : Type 0} (s : State W) (o : Outcome (A × Runtime W))
      → Devices s
      → Post (λ _. Devices) (put_back (λ r t. record t { runtime = r }) s o)
  runtime-Post s (ok (a, r)) h = h
  runtime-Post s (fault e) h = tt
  runtime-Post s blocked h = tt

  pub in_runtime-Keeps : {A : Type 0} (m : Action (Runtime W) A) → Keeps Devices (in_runtime m)
  in_runtime-Keeps m = record { at = λ s h. runtime-Post s (m s.runtime) h }

  pub manager_at-Keeps : (p : ℕ) → Keeps Devices (manager_at p)
  manager_at-Keeps p = record {
    at = λ s h. (Keeps-or_fault Devices (get_elem? s.managers p) _).at s h;
  }

  pub write_manager-Keeps : (p : ℕ) (m : ManagerT) → Keeps Devices (write_manager p m)
  write_manager-Keeps p m = record { at = λ s h. h }

  -- What is known of a device that has just been read.
  abbrev pub Found : Ptr → DeviceT → State W → Type 0
  Found none d s = ⊥
  Found (some p) d s = Devices s × (deref (get_elem? s.devices p) ≡ some d)

  pub device_at-Holds : (p : Ptr) → Holds Devices (device_at p) (Found p)
  unfolding device_at
  device_at-Holds none = record { at = λ s h. tt }
  device_at-Holds (some p) = record { at = λ s h. found s (deref (get_elem? s.devices p)) h refl }
    where
      found :
          (s : State W) (o : Option DeviceT)
          → Devices s
          → deref (get_elem? s.devices p) ≡ o
          → Post (Found (some p)) (or_fault o bad_pointer s)
      found s none h e = tt
      found s (some d) h e = (h, e)

  pub device_at-Keeps : (p : Ptr) → Keeps Devices (device_at p)
  device_at-Keeps none = Holds-map (λ _ h. h) (λ d s h. absurd h) (device_at-Holds none)
  device_at-Keeps (some p) = Holds-map (λ _ h. h) (λ d s h. h.0) (device_at-Holds (some p))

  -- A device is read, changed in a way that `P` allows, and written back.
  pub rewrite-Keeps :
      (p : Ptr) (f : DeviceT → DeviceT)
      → ((q : ℕ) (d : DeviceT) → p ≡ some q → P q d → P q (f d))
      → Keeps Devices (do d ← device_at p; write_device p (f d))
  rewrite-Keeps none f k =
      Holds-bind _ (Found none) _ _ (device_at-Holds none) λ d. record { at = λ s h. absurd h }
  rewrite-Keeps (some p) f k = Holds-bind _ (Found (some p)) _ _ (device_at-Holds (some p)) λ d.
      record {
        at = λ s h. Each-set P s.devices p (f d) (λ q e _ l. h.0 q e l) (k p d refl (h.0 p d h.1));
      }

  module _ (i : Ignores P) where
    pub enter_stream_cs-Keeps : (p : Ptr) → Keeps Devices (enter_stream_cs p)
    unfolding enter_stream_cs
    enter_stream_cs-Keeps p =
        Keeps-bind Devices _ _ (gets-Keeps _) λ used. Keeps-when Devices used _ (opened p)
      where
        opened :
            (p : Ptr)
            → Keeps Devices (do
              d ← device_at p
              await d.stream_locked
              write_device p (record d { stream_locked = true }))
        opened none =
            Holds-bind _ (Found none) _ _ (device_at-Holds none)
              λ d. record { at = λ s h. absurd h }
        opened (some p) = Holds-bind _ (Found (some p)) _ _ (device_at-Holds (some p)) λ d.
            Holds-bind _ (λ _. Found (some p) d) _ _
              (Keeps-await (Found (some p) d) d.stream_locked)
              λ _. record {
                at = λ s h.
                    Each-set P s.devices p _ (λ q e _ l. h.0 q e l) (i p d true (h.0 p d h.1));
              }

    pub leave_stream_cs-Keeps : (p : Ptr) → Keeps Devices (leave_stream_cs p)
    unfolding leave_stream_cs
    leave_stream_cs-Keeps p = Keeps-bind Devices _ _ (gets-Keeps _) λ used.
        Keeps-when Devices used _
          (rewrite-Keeps p (λ d. record d { stream_locked = false }) λ q d _ h. i q d false h)

pub ruleset put_rules = (
  Keeps-bind, Keeps-when, Keeps-assert, Keeps-await, Keeps-pure, Keeps-fail, Keeps-or_fault,
  gets-Keeps, in_world-Keeps, in_runtime-Keeps, manager_at-Keeps, write_manager-Keeps,
  device_at-Keeps, enter_stream_cs-Keeps, leave_stream_cs-Keeps,
)
