-- ===== src/Pingpong/Exchange/Checked.antt =====
-- What test mode asserts of the operations of an iteration.
use lcw.Base.{ℕ, if◌then◌else◌}
use lcw.Pingpong.Workers.{Config}
use lcw.Pingpong.Exchange.{BufferT, Call, Exchange, is_as_posted}

module _ (c : Config) (x : Exchange) (worker_id msg_size i : ℕ) where
  -- 1 for an operation whose completion would fail an assertion.
  abbrev pub fails : BufferT → BufferT → Call → ℕ
  fails sent received call =
      if is_as_posted c x worker_id msg_size i sent received call then 0 else 1
