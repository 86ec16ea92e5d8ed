-- ===== src/Mpi/Tally.antt =====
-- Operations started, operations ended and entries held: one ledger for each operation.
use lcw.Base.{ℕ, ◌+◌, ◌≡◌, true, arith, Holds}
use lcw.Api.{OpT, send, recv, put, put_signal}
use lcw.Pcounter.{Trend, put_end, send_end, recv_end}
use lcw.Mpi.Types.{State}
use lcw.Mpi.Signal.{account}
use lcw.Mpi.Frame.{Books, On}
use lcw.Mpi.Ledger.{Settles, Inv, Hand}
use lcw.Mpi.Post.{acquire_pending, acquire_pending-Post}
use lcw.Mpi.History.{start_of}
use lcw.Mpi.Post.Balance.{Entered}

-- 1 for the operation itself; an incoming put is nobody's operation.
abbrev pub one_of : OpT → OpT → ℕ
one_of send send = 1
one_of recv recv = 1
one_of put put = 1
one_of _ _ = 0

abbrev pub end_of : OpT → Trend
end_of send = send_end
end_of recv = recv_end
end_of put = put_end
end_of put_signal = Trend.put_signal

-- Held and ended operations of kind `k` exceed the started ones by `d`.
pub record Tally (k : OpT) (d x : ℕ) (b : Books) : Type 0 where
  pub enabled : b.counters.enabled ≡ true
  pub sum : x + b.counters.trend (end_of k) ≡ b.counters.trend (start_of k) + d

pub Tally-settles : {W : Type 0} (k : OpT) (d : ℕ) → Settles W (one_of k) (Tally k d)
unfolding account
Tally-settles send d send x s h = ground arith
Tally-settles send d recv x s h = ground arith
Tally-settles send d put x s h = ground arith
Tally-settles k d op x s h = ground arith

pub Tally-weigh :
    {W : Type 0} (k op : OpT) (d : ℕ) (s : State W)
    → On (Inv (one_of k) (Tally k d)) s
    → On (Hand (one_of k) (Tally k (d + one_of k op)) (one_of k op)) s
Tally-weigh k op d s h = record { enabled = h.enabled; sum = omega (arith, h.sum) }

pub Tally-opens :
    {W : Type 0} (k op : OpT) (d : ℕ)
    → Holds {S = State W}
        (On (Inv (one_of k) (Tally k d)))
        acquire_pending
        (λ b. On (Entered (one_of k) (Tally k d) (Tally k (d + one_of k op)) op b))
Tally-opens k op d = record {
  at = λ s h.
      acquire_pending-Post
        (λ b. On (Entered (one_of k) (Tally k d) (Tally k (d + one_of k op)) op b)) s
        (λ _. Tally-weigh k op d s h) (λ _ _. h)
        (λ _ _. record { enabled = h.enabled; sum = omega (arith, h.sum) });
}
