-- ===== src/Mpi/Produce.antt =====
-- Every completion that is signalled is counted once by its kind and once by comp_produce.
use lcw.Base.{ℕ, ◌+◌, ◌≡◌, arith, Holds}
use lcw.Api.{OpT, send}
use lcw.Pcounter.{Trend, comp_produce, send_end, recv_end, put_end}
use lcw.Mpi.Types.{State}
use lcw.Mpi.Signal.{account}
use lcw.Mpi.Frame.{Books, On}
use lcw.Mpi.Ledger.{Settles, Inv}
use lcw.Mpi.Post.{acquire_pending, acquire_pending-Post}
use lcw.Mpi.Post.Balance.{Entered}

abbrev pub nothing : OpT → ℕ
nothing _ = 0

-- The weights play no part.
pub record Produce (x : ℕ) (b : Books) : Type 0 where
  pub sum :
      b.counters.trend comp_produce
      ≡ b.counters.trend send_end
        + b.counters.trend recv_end
        + b.counters.trend put_end
        + b.counters.trend Trend.put_signal

pub Produce-settles : {W : Type 0} → Settles W nothing Produce
unfolding account
Produce-settles send x s h = ground arith
Produce-settles op x s h = ground arith

pub Produce-opens :
    {W : Type 0} (op : OpT)
    → Holds {S = State W}
        (On (Inv nothing Produce))
        acquire_pending
        (λ b. On (Entered nothing Produce Produce op b))
Produce-opens op = record {
  at = λ s h.
      acquire_pending-Post (λ b. On (Entered nothing Produce Produce op b)) s
        (λ _. record { sum = h.sum }) (λ _ _. h) (λ _ _. record { sum = h.sum });
}
