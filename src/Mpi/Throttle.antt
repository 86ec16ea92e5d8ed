-- ===== src/Mpi/Throttle.antt =====
-- LCW_MPI_MAX_PENDING_MSG: g_pending_msg counts the sends and puts that the managers hold.
use lcw.Base.{
  ap, int_max, subst, sym, ◌∙◌, ltb, lt→ltb, ℕ, ℤ, pos, ◌+◌, ◌≤◌, ◌<◌, ◌≡◌, true, false, arith,
  Holds, ltb_ℤ,
}
use mathlib.Core.Bool.{true≢false}
use lcw.Api.{OpT, send, recv, put, put_signal}
use lcw.Mpi.Types.{State, fetch_add, fetch_add-pos}
use lcw.Mpi.Signal.{account}
use lcw.Mpi.Frame.{Books, On}
use lcw.Mpi.Ledger.{Settles, Inv}
use lcw.Mpi.Post.{acquire_pending, acquire_pending-Post}
use lcw.Mpi.Post.Balance.{Entered}

-- Sends and puts are limited, receives are not.
abbrev pub is_counted : OpT → ℕ
is_counted send = 1
is_counted put = 1
is_counted recv = 0
is_counted put_signal = 0

-- With the limit `m`, the counter is exact and passes the limit by one at most.
pub record Throttle (m x : ℕ) (b : Books) : Type 0 where
  pub limit : b.config.g_pending_msg_max ≡ pos m
  pub exact : b.g_pending_msg ≡ pos x
  pub bound : x ≤ m + 1

pub Throttle-settles : {W : Type 0} (m : ℕ) → 0 < m → Settles W is_counted (Throttle m)
unfolding account
Throttle-settles m lt send x s h = ground arith
Throttle-settles m lt op x s h = ground arith

limited : (a : ℤ) (m : ℕ) → a ≡ pos m → 0 < m → ltb_ℤ (pos 0) a ≡ true
limited a m e lt = rw e (lt→ltb 0 m lt)

not_over : (a b : ℤ) (m x : ℕ) → a ≡ pos m → b ≡ pos x → ltb_ℤ a b ≡ false → x ≤ m
not_over a b m x e f h =
    go m x (subst (λ c. ltb_ℤ c (pos x) ≡ false) e (subst (λ c. ltb_ℤ a c ≡ false) f h))
  where
    go : (m x : ℕ) → ltb m x ≡ false → x ≤ m
    go m x h = ground arith

one_more-pos : (b : ℤ) (n x : ℕ) → n ≡ 1 → x < int_max → b ≡ pos x → fetch_add b ≡ pos (n + x)
one_more-pos b n x e lt f = rw f (fetch_add-pos x lt ∙ ap pos (omega (arith, e)))

-- An acquired slot is weighed; a refusal means that the limit has been passed.
pub Throttle-opens :
    {W : Type 0} (m : ℕ) (op : OpT)
    → 0 < m
    → m < int_max
    → is_counted op ≡ 1
    → Holds {S = State W}
        (On (Inv is_counted (Throttle m)))
        acquire_pending
        (λ b. On (Entered is_counted (Throttle m) (Throttle m) op b))
Throttle-opens m op lt top one = record {
  at = λ s h.
      acquire_pending-Post (λ b. On (Entered is_counted (Throttle m) (Throttle m) op b)) s
        (λ e. absurd (true≢false (sym (limited _ m h.limit lt) ∙ e))) (λ _ _. h)
        (λ _ e. record {
          limit = h.limit;
          exact =
              one_more-pos s.g_pending_msg (is_counted op) _ one
                (omega (arith, not_over _ _ m _ h.limit h.exact e, top)) h.exact;
          bound = omega (arith, not_over _ _ m _ h.limit h.exact e);
        });
}
