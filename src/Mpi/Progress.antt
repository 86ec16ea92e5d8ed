-- ===== src/Mpi/Progress.antt =====
-- src/backend/mpi/backend_mpi.cpp: do_progress, which serves the device's incoming puts and its
-- completion manager.
pub mod Balance
pub mod Posted
pub mod Arrival
use lcw.Base.{
  ℕ, ℤ, pos, Bool, true, false, ◌||◌, Option, none, some, to_size_t, Outcome, ok, assertion, Action,
  pure, fail, assert, gets, modify, zoom, ◌>>=◌, ◌>>◌, if◌then◌else◌,
}
use lcw.Api.{Ptr, OpT, send, recv, put, put_signal}
use lcw.Comp.{Host}
use lcw.Comp
use lcw.Mpi.Types.{
  MpiApi, Status, EntryT, DeviceT, State, in_world, in_runtime, device_at, write_device,
  enter_stream_cs, leave_stream_cs,
}
use lcw.Mpi.Bigcount.{safecall, run}
use lcw.Mpi.Signal.{signal_comp}
use lcw.Mpi.Device.{post_put_recv}
use lcw.Mpi.Manager

module _ {W : Type 0} (host : Host W) (api : MpiApi W) where
  unlock_put : Ptr → Action (State W) (Unit {0})
  unlock_put device = do
    d ← device_at device
    write_device device (record d { put_entry_locked = false })

  is_put_signal : OpT → Bool
  is_put_signal put_signal = true
  is_put_signal send = false
  is_put_signal recv = false
  is_put_signal put = false

  allocated : Ptr → Bool
  allocated none = false
  allocated (some p) = true

  -- The entry that is signalled for a put that has arrived in `buffer`.
  taken : EntryT → Status → Ptr → EntryT
  taken entry st buffer = record entry {
    mpi_req = none;
    request = record entry.request {
      length = pos st.count;
      tag = st.tag;
      rank = st.source;
      buffer = buffer;
    };
  }

  -- Copy the data out and repost the receive.
  copy_put : EntryT → Status → Action (State W) EntryT
  unfolding allocated taken
  copy_put entry st = do
    buffer ← in_runtime (Comp.allocate host (to_size_t (pos st.count)))
    assert (allocated buffer)
    in_world (modify (host.memcpy buffer entry.request.buffer (to_size_t (pos st.count))))
    post_put_recv api entry.request.device entry.completion
    pure (taken entry st buffer)

  take_put : Ptr → Option Status → Action (State W) (Option EntryT)
  unfolding is_put_signal copy_put
  take_put device none = pure none
  take_put device (some st) = do
    d ← device_at device
    assert (is_put_signal d.put_entry.request.op)
    entry ← copy_put d.put_entry st
    pure (some entry)

  -- The block under `put_entry_lock`.
  poll_put : Ptr → ℕ → Action (State W) (Option EntryT)
  unfolding take_put unlock_put
  poll_put device r = do
    d ← device_at device
    write_device device (record d { put_entry_locked = true })
    enter_stream_cs device
    status ← in_world (safecall (api.test r))
    leave_stream_cs device
    entry ← take_put device status
    unlock_put device
    pure entry

  -- The condition of the `if`; `try_lock` fails where the lock is held.
  progress_put : Ptr → Bool → Option ℕ → Bool → Action (State W) (Option EntryT)
  unfolding poll_put
  progress_put device false mpi_req locked = pure none
  progress_put device true none locked = pure none
  progress_put device true (some r) true = pure none
  progress_put device true (some r) false = poll_put device r

  finish_put : Option EntryT → Action (State W) Bool
  finish_put none = pure false
  finish_put (some entry) = do signal_comp host entry; pure true

  unfoldable pub do_progress : Ptr → Action (State W) Bool
  unfolding progress_put finish_put
  do_progress device = do
    d ← device_at device
    entry ← progress_put device d.enable_put d.put_entry.mpi_req d.put_entry_locked
    succeed ← finish_put entry
    d' ← device_at device
    worked ← Manager.do_progress host api d'.comp_manager
    pure (worked || succeed)
