-- ===== src/Mpi/Post.antt =====
-- src/backend/mpi/backend_mpi.cpp: send, recv and put.
pub mod Balance
pub mod Posted
pub mod Race
use lcw.Base.{
  Post, ◌≡◌, refl, ℕ, ℤ, pos, Bool, true, false, Option, none, some, ltb_ℤ, to_size_t, to_int,
  Outcome, ok, assertion, Action, pure, assert, gets, modify, zoom, ◌>>=◌, ◌>>◌, if◌then◌else◌,
}
use lcw.Api.{Ptr, OpT, RequestT}
use lcw.Comp.{Host}
use lcw.Mpi.Types.{
  MpiApi, EntryT, DeviceT, State, fetch_add, in_world, device_at, enter_stream_cs, leave_stream_cs,
}
use lcw.Mpi.Bigcount.{isend, irecv}
use lcw.Mpi.Signal.{is_limited}
use lcw.Mpi.Manager.{add_entry}

module _ {W : Type 0} where
  -- g_pending_msg.load > g_pending_msg_max
  abbrev pub is_over : State W → Bool
  is_over s = ltb_ℤ s.config.g_pending_msg_max s.g_pending_msg

  abbrev pub one_more : State W → State W
  one_more s = record s { g_pending_msg = fetch_add s.g_pending_msg }

  -- The head of send and put: `false` when the call has to be retried.
  acquire : Bool → Bool → Action (State W) Bool
  acquire false over s = ok (true, s)
  acquire true true s = ok (false, s)
  acquire true false s = ok (true, one_more s)

  unfoldable pub acquire_pending : Action (State W) Bool
  unfolding acquire
  acquire_pending s = acquire (is_limited s) (is_over s) s

  -- The three ways through it.
  pub acquire_pending-Post :
      (Q : Bool → State W → Type 0) (s : State W)
      → (is_limited s ≡ false → Q true s)
      → (is_limited s ≡ true → is_over s ≡ true → Q false s)
      → (is_limited s ≡ true → is_over s ≡ false → Q true (one_more s))
      → Post Q (acquire_pending s)
  unfolding acquire_pending
  acquire_pending-Post Q s = go (is_limited s) (is_over s)
    where
      go :
          (a b : Bool)
          → (a ≡ false → Q true s)
          → (a ≡ true → b ≡ true → Q false s)
          → (a ≡ true → b ≡ false → Q true (one_more s))
          → Post Q (acquire a b s)
      go false b f g h = f refl
      go true true f g h = g refl refl
      go true false f g h = h refl refl

-- `new request_t` with the call's arguments.
abbrev pub request_of : OpT → Ptr → ℤ → ℤ → Ptr → ℤ → ℕ → RequestT
request_of op device rank tag buf length user_context = record {
  op = op;
  device = device;
  rank = rank;
  tag = tag;
  buffer = buf;
  length = length;
  user_context = user_context;
}

abbrev pub entry_of : RequestT → Ptr → Option ℕ → EntryT
entry_of request completion mpi_req = record {
  mpi_req = mpi_req;
  device = request.device;
  completion = completion;
  request = request;
}

module _ {W : Type 0} (host : Host W) (api : MpiApi W) where
  -- isend of the request's buffer in the stream's critical section, then add_entry.
  unfoldable pub post_send : DeviceT → RequestT → Ptr → Action (State W) Bool
  post_send d request completion = do
    enter_stream_cs request.device
    mpi_req ← in_world (
        isend api request.buffer (to_size_t request.length) (to_int request.rank)
          (to_int request.tag) d.comm)
    leave_stream_cs request.device
    add_entry host api d.comp_manager (entry_of request completion mpi_req)
    pure true

  unfoldable pub post_recv : DeviceT → RequestT → Ptr → Action (State W) Bool
  post_recv d request completion = do
    enter_stream_cs request.device
    mpi_req ← in_world (
        irecv api request.buffer (to_size_t request.length) (to_int request.rank)
          (to_int request.tag) d.comm)
    leave_stream_cs request.device
    add_entry host api d.comp_manager (entry_of request completion mpi_req)
    pure true

  send_after : Bool → RequestT → Ptr → Action (State W) Bool
  send_after false request completion = pure false
  send_after true request completion = do
    d ← device_at request.device
    post_send d request completion

  unfoldable pub send : Ptr → ℤ → ℤ → Ptr → ℤ → Ptr → ℕ → Action (State W) Bool
  unfolding send_after
  send device rank tag buf length completion user_context = do
    admitted ← acquire_pending
    send_after admitted (request_of OpT.send device rank tag buf length user_context) completion

  unfoldable pub recv : Ptr → ℤ → ℤ → Ptr → ℤ → Ptr → ℕ → Action (State W) Bool
  recv device rank tag buf length completion user_context = do
    d ← device_at device
    post_recv d (request_of OpT.recv device rank tag buf length user_context) completion

  put_after : Bool → DeviceT → RequestT → Ptr → Action (State W) Bool
  put_after false d request completion = pure false
  put_after true d request completion = post_send d request completion

  unfoldable pub put : Ptr → ℤ → Ptr → ℤ → Ptr → ℕ → Action (State W) Bool
  unfolding put_after
  put device rank buf length completion user_context = do
    d ← device_at device
    assert d.enable_put
    admitted ← acquire_pending
    put_after admitted d (request_of OpT.put device rank d.put_tag buf length user_context)
        completion
