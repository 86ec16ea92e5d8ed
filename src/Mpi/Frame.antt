-- ===== src/Mpi/Frame.antt =====
-- What the backend's helpers leave alone: MPI's calls, the devices and the stream locks do not
-- touch the managers, the counters, the configuration or the number of pending messages.
use lcw.Base.{
  subst, sym, refl, ℕ, ℤ, ◌≡◌, Bool, true, false, ◌&&◌, Option, none, some, List, Outcome, ok,
  fault, blocked, Fault, Action, pure, fail, gets, modify, zoom, put_back, or_fault, deref,
  get_elem?, if◌then◌else◌, ◌>>=◌, ◌>>◌, Post, Holds, Keeps, Keeps-bind, Keeps-when, Keeps-assert,
  Keeps-or_fault, Keeps-await, Keeps-pure, Keeps-fail, Bool-cases,
}
use lcw.Api.{Ptr}
use lcw.Pcounter.{Counters}
use lcw.Comp.{Runtime}
use lcw.Mpi.Types.{
  in_runtime, Config, DeviceT, ManagerT, State, in_world, with_world, device_at, write_device,
  manager_at, enter_stream_cs, leave_stream_cs,
}

-- What signalling a completion reads and writes, beside the world.
pub record Books : Type 0 where
  pub counters : Counters
  pub config : Config
  pub g_pending_msg : ℤ

pub record Core : Type 0 where
  pub managers : List ManagerT
  pub books : Books

module _ {W : Type 0} where
  abbrev pub books : State W → Books
  books s = record { counters = s.counters; config = s.config; g_pending_msg = s.g_pending_msg }

  abbrev pub core : State W → Core
  core s = record { managers = s.managers; books = books s }

module _ {W : Type 0} (P : Core → Type 0) where
  abbrev pub On : State W → Type 0
  On s = P (core s)

  pub gets-Keeps : {A : Type 0} (f : State W → A) → Keeps On (gets f)
  gets-Keeps f = record { at = λ s h. h }

  world-Post :
      {A : Type 0} (s : State W) (o : Outcome (A × W))
      → On s
      → Post (λ _. On) (put_back with_world s o)
  world-Post s (ok (a, w)) h = h
  world-Post s (fault e) h = tt
  world-Post s blocked h = tt

  pub in_world-Keeps : {A : Type 0} (m : Action W A) → Keeps On (in_world m)
  in_world-Keeps m = record { at = λ s h. world-Post s (m s.world) h }

  runtime-Post :
      {A : Type 0} (s : State W) (o : Outcome (A × Runtime W))
      → Post (λ _ r. r.counters ≡ s.counters) o
      → On s
      → Post (λ _. On) (put_back (λ r t. record t { runtime = r }) s o)
  runtime-Post s (ok (a, r)) e h =
      subst (λ c. P (record { managers = s.managers; books = record (books s) { counters = c } }))
        (sym e) h
  runtime-Post s (fault f) e h = tt
  runtime-Post s blocked e h = tt

  -- An action on the completion objects that leaves the counters alone.
  pub in_runtime-Keeps :
      {A : Type 0} (m : Action (Runtime W) A)
      → ((c : Counters) → Keeps (λ r. r.counters ≡ c) m)
      → Keeps On (in_runtime m)
  in_runtime-Keeps m k = record {
    at = λ s h. runtime-Post s (m s.runtime) ((k s.counters).at s.runtime refl) h;
  }

  pub device_at-Keeps : (p : Ptr) → Keeps On (device_at p)
  unfolding device_at
  device_at-Keeps none = record { at = λ s h. tt }
  device_at-Keeps (some p) = record {
    at = λ s h. (Keeps-or_fault On (deref (get_elem? s.devices p)) _).at s h;
  }

  pub manager_at-Keeps : (p : ℕ) → Keeps On (manager_at p)
  manager_at-Keeps p = record { at = λ s h. (Keeps-or_fault On (get_elem? s.managers p) _).at s h }

  pub write_device-Keeps : (p : Ptr) (d : DeviceT) → Keeps On (write_device p d)
  write_device-Keeps none d = record { at = λ s h. tt }
  write_device-Keeps (some p) d = record { at = λ s h. h }

  pub enter_stream_cs-Keeps : (p : Ptr) → Keeps On (enter_stream_cs p)
  unfolding enter_stream_cs
  enter_stream_cs-Keeps p = Keeps-bind On _ _ (gets-Keeps _) λ used. Keeps-when On used _ (
      Keeps-bind On _ _ (device_at-Keeps p) λ d.
        Keeps-bind On _ _ (Keeps-await On d.stream_locked)
          λ _. write_device-Keeps p (record d { stream_locked = true }))

  pub leave_stream_cs-Keeps : (p : Ptr) → Keeps On (leave_stream_cs p)
  unfolding leave_stream_cs
  leave_stream_cs-Keeps p = Keeps-bind On _ _ (gets-Keeps _) λ used. Keeps-when On used _ (
      Keeps-bind On _ _ (device_at-Keeps p)
        λ d. write_device-Keeps p (record d { stream_locked = false }))

  -- A call on the world within the stream's critical section.
  pub streamed-Keeps :
      {A : Type 0} (p : Ptr) (m : Action W A)
      → Keeps On (do enter_stream_cs p; a ← in_world m; leave_stream_cs p; pure a)
  streamed-Keeps p m =
      search (Keeps-bind, enter_stream_cs-Keeps, leave_stream_cs-Keeps, in_world-Keeps, Keeps-pure)

pub ruleset frame_rules = (
  Keeps-bind, Keeps-when, Keeps-assert, Keeps-await, Keeps-pure, Keeps-fail, Keeps-fail,
  Keeps-or_fault, gets-Keeps, in_world-Keeps, manager_at-Keeps, device_at-Keeps, write_device-Keeps,
  enter_stream_cs-Keeps, leave_stream_cs-Keeps,
)
