-- ===== src/Pingpong/Exchange.antt =====
-- worker_thread_fn of examples/pingpong_mt.cpp: the calls that a worker makes in one iteration, and
-- the message sizes that it goes through. The contents of the messages are in Buffer.
pub mod Tags
pub mod Match
pub mod Sizes
pub mod Checked
use lcw.Base.{
  ℕ, zero, suc, ◌+◌, ◌-◌, ◌*◌, ◌&&◌, ◌||◌, ◌==◌, ℤ, eqb_ℤ, Bool, true, false, List, [], ◌∷◌, ◌++◌,
  Option, none, some, leb, int_max, if◌then◌else◌,
}
use lcw.Api.{OpT, send, recv, put, put_signal}
use lcw.Pingpong.Workers.{Config, get_tag}

-- The two buffers of a worker.
pub data BufferT : Type 0 where
  send_buffer recv_buffer : BufferT

-- What send, recv and put are called with, save the tag, which a put does not take. The buffer is
-- `base + offset`, and the completion queue rcq for a receive and scq for the others.
pub record Args : Type 0 where
  pub device : ℕ
  pub rank : ℕ
  pub base : BufferT
  pub offset : ℕ
  pub length : ℕ
  pub user_context : ℕ

pub data Call : Type 0 where
  recvs sends : (tag : ℤ) (args : Args) → Call
  puts : (args : Args) → Call
  polls_scq polls_rcq : Call

-- What an iteration reads: whether the operation is SEND, the two windows, and the worker's device and
-- peer.
pub record Exchange : Type 0 where
  pub is_send : Bool
  pub send_window : ℕ
  pub recv_window : ℕ
  pub device : ℕ
  pub peer_rank : ℕ

module _ (c : Config) (x : Exchange) (worker_id msg_size i : ℕ) where
  pub args_of : BufferT → ℕ → Args
  args_of base j = record {
    device = x.device;
    rank = x.peer_rank;
    base = base;
    offset = j * msg_size;
    length = msg_size;
    user_context = i + j;
  }

  -- A loop over j < window, from `j` on.
  post_recvs : BufferT → ℕ → ℕ → List Call
  unfolding args_of
  post_recvs base j zero = []
  post_recvs base j (suc n) =
      recvs (get_tag c worker_id j) (args_of base j) ∷ post_recvs base (j + 1) n

  send_or_put : BufferT → Bool → ℕ → Call
  unfolding args_of
  send_or_put base true j = sends (get_tag c worker_id j) (args_of base j)
  send_or_put base false j = puts (args_of base j)

  pub post_sends : BufferT → ℕ → ℕ → List Call
  unfolding send_or_put
  post_sends base j zero = []
  post_sends base j (suc n) = send_or_put base x.is_send j ∷ post_sends base (j + 1) n

  poll : Call → ℕ → List Call
  poll call zero = []
  poll call (suc n) = call ∷ poll call n

  pub recvs_of : BufferT → ℕ → List Call
  unfolding post_recvs
  recvs_of base window = if x.is_send then post_recvs base 0 window else []

  -- The two branches of the loop over i. A call that returns false is made again, with progress in
  -- between: only the successful one is listed.
  unfoldable pub sender : List Call
  unfolding recvs_of post_sends poll
  sender =
      recvs_of recv_buffer x.recv_window
      ++ (post_sends send_buffer 0 x.send_window
          ++ (poll polls_scq x.send_window ++ poll polls_rcq x.recv_window))

  unfoldable pub receiver : List Call
  unfolding recvs_of post_sends poll
  receiver =
      recvs_of send_buffer x.send_window
      ++ (poll polls_rcq x.send_window
          ++ (post_sends recv_buffer 0 x.recv_window ++ poll polls_scq x.recv_window))

abbrev pub is_same_op : OpT → OpT → Bool
is_same_op send send = true
is_same_op recv recv = true
is_same_op put put = true
is_same_op put_signal put_signal = true
is_same_op _ _ = false

abbrev pub is_same_buffer : BufferT → BufferT → Bool
is_same_buffer send_buffer send_buffer = true
is_same_buffer recv_buffer recv_buffer = true
is_same_buffer _ _ = false

abbrev pub has_tag : Option ℤ → ℤ → Bool
has_tag none tag = false
has_tag (some t) tag = eqb_ℤ t tag

module _ (c : Config) (x : Exchange) (worker_id msg_size i : ℕ) where
  -- What test mode asserts of a polled request with these arguments: of one from scq, with the buffer
  -- that is sent from, and of one from rcq, with the buffer that is received into. `real_j` is
  -- user_context - i.
  unfoldable pub sreq_passes : BufferT → OpT → Option ℤ → Args → Bool
  sreq_passes base op tag a =
      let real_j = a.user_context - i in
      a.device == x.device
      && a.length == msg_size
      && is_same_op op (if x.is_send then send else put)
      && is_same_buffer a.base base
      && a.offset == real_j * msg_size
      && a.rank == x.peer_rank
      && (if x.is_send then has_tag tag (get_tag c worker_id real_j) else true)

  unfoldable pub rreq_passes : BufferT → OpT → Option ℤ → Args → Bool
  rreq_passes base op tag a =
      let real_j = a.user_context - i in
      (a.device == x.device || is_same_op op put_signal)
      && a.length == msg_size
      && is_same_op op (if x.is_send then recv else put_signal)
      && a.rank == x.peer_rank
      && (if x.is_send
          then is_same_buffer a.base base
            && a.offset == real_j * msg_size
            && a.user_context == i + real_j
            && has_tag tag (get_tag c worker_id real_j)
          else true)

  -- Of an operation that comes back with the arguments it was posted with.
  unfoldable pub is_as_posted : BufferT → BufferT → Call → Bool
  unfolding sreq_passes rreq_passes
  is_as_posted sent received (recvs tag a) = rreq_passes received recv (some tag) a
  is_as_posted sent received (sends tag a) = sreq_passes sent send (some tag) a
  is_as_posted sent received (puts a) = sreq_passes sent put none a
  is_as_posted sent received polls_scq = true
  is_as_posted sent received polls_rcq = true

unfoldable cons_some : ℕ → Option (List ℕ) → Option (List ℕ)
cons_some n none = none
cons_some n (some ns) = some (n ∷ ns)

-- The loop over msg_size, on fuel; `none` where it runs out, or where the int overflows.
unfoldable pub sizes_from : ℕ → ℕ → ℕ → Option (List ℕ)
unfolding cons_some
sizes_from zero max_size msg_size = none
sizes_from (suc fuel) max_size msg_size =
    let rest = cons_some msg_size (sizes_from fuel max_size (msg_size * 2)) in
    let fits = leb (msg_size * 2) int_max in
    if leb msg_size max_size then (if fits then rest else none) else some []
