-- ===== src/Mpi/Signal.antt =====
-- mpi::signal_comp of src/backend/mpi/backend_mpi.hpp.
use lcw.Base.{◌≡◌, arith, Bool, pos, ltb_ℤ, Action, modify, ◌>>◌, if◌then◌else◌}
use lcw.Api.{OpT, send, recv, put, put_signal}
use lcw.Pcounter.{add, Trend, send_end, recv_end, put_end, comp_produce}
use lcw.Comp.{Host, Runtime, count}
use lcw.Comp
use lcw.Mpi.Types.{State, EntryT, fetch_sub, in_runtime}

module _ {W : Type 0} where
  abbrev pub is_limited : State W → Bool
  is_limited s = ltb_ℤ (pos 0) s.config.g_pending_msg_max

  abbrev pub release_pending : State W → State W
  release_pending s =
      if is_limited s then record s { g_pending_msg = fetch_sub s.g_pending_msg } else s

  counted : Trend → State W → State W
  counted t s = record s { runtime = count t s.runtime }

  -- The `switch` over the operation.
  settle : OpT → State W → State W
  unfolding counted
  settle send s = counted send_end (release_pending s)
  settle recv s = counted recv_end s
  settle put s = counted put_end (release_pending s)
  settle put_signal s = counted Trend.put_signal s

  -- The bookkeeping of signal_comp.
  unfoldable pub account : OpT → State W → State W
  unfolding settle counted add
  account op s = counted comp_produce (settle op s)

  unfoldable pub signal_comp : Host W → EntryT → Action (State W) (Unit {0})
  signal_comp host entry = do
    modify (account entry.request.op)
    in_runtime (Comp.signal_comp host entry.completion entry.request)

  pub account-managers : (op : OpT) (s : State W) → (account op s).managers ≡ s.managers
  unfolding account
  account-managers send s = ground arith
  account-managers recv s = ground arith
  account-managers put s = ground arith
  account-managers put_signal s = ground arith

  pub account-comps : (op : OpT) (s : State W) → (account op s).comps ≡ s.comps
  unfolding account
  account-comps send s = ground arith
  account-comps recv s = ground arith
  account-comps put s = ground arith
  account-comps put_signal s = ground arith

  pub account-devices : (op : OpT) (s : State W) → (account op s).devices ≡ s.devices
  unfolding account
  account-devices send s = ground arith
  account-devices recv s = ground arith
  account-devices put s = ground arith
  account-devices put_signal s = ground arith
