-- ===== src/Frontend.antt =====
-- src/lcw.cpp: the public functions, in front of the backend that `initialize` chose.
pub mod Rules
use lcw.Base.{
  ℕ, ℤ, ◌≡◌, refl, Bool, true, false, not, Option, none, some, Outcome, ok, fault, blocked,
  assertion, Action, pure, fail, assert, gets, modify, zoom, ◌>>=◌, ◌>>◌, if◌then◌else◌,
}
use lcw.Api.{BackendT, Ptr, RequestT}
use lcw.Pcounter.{
  Trend, Timer, put_start, put_retry, send_start, send_retry, recv_start, recv_retry, comp_consume,
  comp_poll, progress, put_timer, send_timer, recv_timer,
}
use lcw.Pcounter
use lcw.Backend.{Backend, Enabled, AutoVar, alloc_backend}

-- `backend_p`, with the state of the backends that it points into.
pub record Process (S : Type 0) : Type 0 where
  pub backend_p : Option BackendT
  pub state : S

module _ {S : Type 0} (table : BackendT → Backend S) where
  -- Each function asserts that `backend_p` is set, and calls through it.
  unfoldable pub backend : Action (Process S) (Backend S)
  backend p = elim p.backend_p [ none ↦ fault assertion | some b ↦ ok (table b, p) ]

  abbrev pub on_backend : {A : Type 0} → Action S A → Action (Process S) A
  on_backend = zoom (λ p. p.state) (λ s p. record p { state = s })

  unfoldable pub count : Backend S → Trend → Action (Process S) (Unit {0})
  count b t = on_backend (modify λ s. b.with_counters (Pcounter.add t (b.counters s)) s)

  unfoldable pub start : Backend S → Timer → Action (Process S) (Unit {0})
  start b t = on_backend (modify λ s. b.with_counters (Pcounter.start t (b.counters s)) s)

  unfoldable pub end : Backend S → Timer → Action (Process S) (Unit {0})
  end b t = on_backend (modify λ s. b.with_counters (Pcounter.finish t (b.counters s)) s)

  -- `abort` where a backend is there already. LCT, the log, the spinlocks and the environment are
  -- set up by calls that leave the backends alone.
  choose : Enabled → Option AutoVar → BackendT → Option BackendT → Outcome BackendT
  choose e env b none = alloc_backend e env b
  choose e env b (some c) = fault assertion

  install : Outcome BackendT → Action (Process S) (Unit {0})
  install (ok b) p = ok (tt, record p { backend_p = some b })
  install (fault e) p = fault e
  install blocked p = blocked

  unfoldable pub initialize : Enabled → Option AutoVar → BackendT → Action (Process S) (Unit {0})
  unfolding choose install backend
  initialize e env b = do
    held ← gets (λ p. p.backend_p)
    install (choose e env b held)
    v ← backend
    on_backend v.initialize
    rank ← on_backend v.get_rank  -- for LCT_set_rank
    pure tt

  unfoldable pub finalize : Action (Process S) (Unit {0})
  unfolding backend
  finalize = do v ← backend; on_backend v.finalize; modify (λ p. record p { backend_p = none })

  unfoldable pub is_initialized : Process S → Bool
  is_initialized p = elim p.backend_p [ none ↦ false | some b ↦ true ]

  pub get_rank : Action (Process S) ℤ
  unfolding backend
  get_rank = do v ← backend; on_backend v.get_rank

  pub get_nranks : Action (Process S) ℤ
  unfolding backend
  get_nranks = do v ← backend; on_backend v.get_nranks

  unfoldable pub alloc_device : ℤ → Ptr → Action (Process S) Ptr
  unfolding backend
  alloc_device max_put_length put_comp = do
    v ← backend
    on_backend (v.alloc_device max_put_length put_comp)

  unfoldable pub free_device : Ptr → Action (Process S) (Unit {0})
  unfolding backend
  free_device device = do v ← backend; on_backend (v.free_device device)

  unfoldable pub do_progress : Ptr → Action (Process S) Bool
  unfolding backend count
  do_progress device = do v ← backend; count v progress; on_backend (v.do_progress device)

  unfoldable pub alloc_handler : ℕ → Action (Process S) Ptr
  unfolding backend
  alloc_handler handler = do v ← backend; on_backend (v.alloc_handler handler)

  unfoldable pub free_handler : Ptr → Action (Process S) (Unit {0})
  unfolding backend
  free_handler handler = do v ← backend; on_backend (v.free_handler handler)

  unfoldable pub alloc_cq : Action (Process S) Ptr
  unfolding backend
  alloc_cq = do v ← backend; on_backend v.alloc_cq

  unfoldable pub free_cq : Ptr → Action (Process S) (Unit {0})
  unfolding backend
  free_cq completion = do v ← backend; on_backend (v.free_cq completion)

  unfoldable pub consumed : Backend S → Option RequestT → Action (Process S) (Unit {0})
  unfolding count
  consumed v none = pure tt
  consumed v (some request) = count v comp_consume

  unfoldable pub poll_cq : Ptr → Action (Process S) (Option RequestT)
  unfolding backend count consumed
  poll_cq completion = do
    v ← backend
    count v comp_poll
    ret ← on_backend (v.poll_cq completion)
    consumed v ret
    pure ret

  -- send, recv and put: the call between the two ends of its timer, then its counter.
  unfoldable pub timed :
      Timer → Trend → Trend → (Backend S → Action S Bool) → Action (Process S) Bool
  unfolding backend count start end
  timed timer started retry call = do
    v ← backend
    start v timer
    ret ← on_backend (call v)
    end v timer
    count v (if ret then started else retry)
    pure ret

  unfoldable pub send : Ptr → ℤ → ℤ → Ptr → ℤ → Ptr → ℕ → Action (Process S) Bool
  unfolding timed
  send device rank tag buf length completion user_context =
      timed send_timer send_start send_retry
        λ v. v.send device rank tag buf length completion user_context

  unfoldable pub recv : Ptr → ℤ → ℤ → Ptr → ℤ → Ptr → ℕ → Action (Process S) Bool
  unfolding timed
  recv device rank tag buf length completion user_context =
      timed recv_timer recv_start recv_retry
        λ v. v.recv device rank tag buf length completion user_context

  unfoldable pub put : Ptr → ℤ → Ptr → ℤ → Ptr → ℕ → Action (Process S) Bool
  unfolding timed
  put device rank buf length completion user_context =
      timed put_timer put_start put_retry λ v. v.put device rank buf length completion user_context

  pub get_max_tag : Ptr → Action (Process S) ℤ
  unfolding backend
  get_max_tag device = do v ← backend; on_backend (v.get_max_tag device)

  unfoldable pub barrier : Ptr → Action (Process S) (Unit {0})
  unfolding backend
  barrier device = do v ← backend; on_backend (v.barrier device)

  unfoldable pub set_custom_allocator : ℕ → Action (Process S) (Unit {0})
  unfolding backend
  set_custom_allocator a = do v ← backend; on_backend (v.set_custom_allocator a)
