-- ===== src/Contexts/Completion.antt =====
-- What a caller of poll_cq, or a handler, should get for a request of its own once it has completed.
use lcw.Base.{ℕ, pos, ◌≡◌, refl, ap, ◌∙◌, Bool, true, false, if◌then◌else◌}
use lcw.Api.{OpT, send, recv, put, RequestT}
use lcw.Pcounter.{Trend, send_end, recv_end, put_end}

-- `q` is `r` as it has completed, `n` bytes having arrived: a receive has its length replaced, a send and
-- a put are as they were posted.
pub record IsCompleted (n : ℕ) (r q : RequestT) : Type 0 where
  pub sent : r.op ≡ send → q ≡ r
  pub was_put : r.op ≡ put → q ≡ r
  pub received : r.op ≡ recv → q ≡ record r { length = pos n }

-- The counter of the operation's end.
pub record IsEnd (op : OpT) (t : Trend) : Type 0 where
  pub sent : op ≡ send → t ≡ send_end
  pub was_put : op ≡ put → t ≡ put_end
  pub received : op ≡ recv → t ≡ recv_end

-- The request that a backend makes with a test of the operation.
pub choice-IsCompleted :
    (f : OpT → Bool) (n : ℕ) (r : RequestT)
    → f send ≡ false
    → f put ≡ false
    → f recv ≡ true
    → IsCompleted n r (if f r.op then record r { length = pos n } else r)
choice-IsCompleted f n r a b c = record {
  sent = λ e. taken (f r.op) (ap f e ∙ a);
  was_put = λ e. taken (f r.op) (ap f e ∙ b);
  received = λ e. replaced (f r.op) (ap f e ∙ c);
}
  where
    taken : (x : Bool) → x ≡ false → (if x then record r { length = pos n } else r) ≡ r
    taken false e = refl
    taken true e = absurd cc

    replaced :
        (x : Bool)
        → x ≡ true
        → (if x then record r { length = pos n } else r) ≡ record r { length = pos n }
    replaced true e = refl
    replaced false e = absurd cc

pub choice-op :
    (x : Bool) (n : ℕ) (r : RequestT) → (if x then record r { length = pos n } else r).op ≡ r.op
choice-op true n r = refl
choice-op false n r = refl

-- The counter that a backend chooses by the operation of the request that it returns.
pub choice-IsEnd :
    (g : OpT → Trend) (op op' : OpT)
    → op' ≡ op
    → g send ≡ send_end
    → g put ≡ put_end
    → g recv ≡ recv_end
    → IsEnd op (g op')
choice-IsEnd g op op' e a b c = record {
  sent = λ q. ap g (e ∙ q) ∙ a;
  was_put = λ q. ap g (e ∙ q) ∙ b;
  received = λ q. ap g (e ∙ q) ∙ c;
}
