-- ===== src/Pcounter/Registry.antt =====
-- src/util/pcounter.cpp: the counters as handles that LCT gives out. LCT is a parameter.
use lcw.Base.{ℕ, ℤ, negsuc, difference, ◌+◌, ◌==◌, Bool, List, [], ◌∷◌, map, if◌then◌else◌, pos}
use lcw.Pcounter.{
  Trend, put_start, put_end, put_retry, send_start, send_end, send_retry, recv_start, recv_end,
  recv_retry, put_signal, comp_produce, comp_consume, comp_poll, progress, Timer, put_timer,
  send_timer, recv_timer, trend_id, timer_id,
}

-- LCT_PCOUNTER_TREND and LCT_PCOUNTER_TIMER.
pub data Kind : Type 0 where
  trend_kind timer_kind : Kind

-- The name of a counter, `#name`, which is also that of the global that holds its handle.
pub data Name : Type 0 where
  trend : Trend → Name
  timer : Timer → Name

abbrev pub kind_of : Name → Kind
kind_of (trend t) = trend_kind
kind_of (timer t) = timer_kind

abbrev pub name_id : Name → ℕ
name_id (trend t) = trend_id t
name_id (timer t) = 14 + timer_id t

-- LCT's functions over the world `W`; contexts and handles are numbers.
pub record LctApi (W : Type 0) : Type 0 where
  pub ctx_alloc : W → ℕ × W
  pub ctx_free : ℕ → W → W
  pub register : ℕ → Name → Kind → W → ℕ × W
  pub add : ℕ → ℕ → ℕ → W → W
  pub start : ℕ → ℕ → W → W
  pub finish : ℕ → ℕ → W → W
  pub now : W → ℕ × W

-- The globals of namespace pcounter, LCW_ENABLE_PCOUNTER, and the world.
pub record State (W : Type 0) : Type 0 where
  pub enabled : Bool
  pub pcounter_ctx : ℕ
  pub handle : Name → ℕ
  pub world : W

-- The two lists of the header, in their order.
abbrev pub trends : List Trend
trends =
    put_start ∷ put_end ∷ put_retry ∷ send_start ∷ send_end ∷ send_retry ∷ recv_start ∷ recv_end
    ∷ recv_retry ∷ put_signal ∷ comp_produce ∷ comp_consume ∷ comp_poll ∷ progress ∷ []

abbrev pub timers : List Timer
timers = put_timer ∷ send_timer ∷ recv_timer ∷ []

-- `now - then`
minus : ℕ → ℤ → ℤ
minus t (pos a) = difference t a
minus t (negsuc a) = pos (t + (a + 1))

module _ {W : Type 0} (lct : LctApi W) where
  abbrev alloc_ctx : State W → State W
  alloc_ctx s = let (c, w) = lct.ctx_alloc s.world in record s { pcounter_ctx = c; world = w }

  -- name = LCT_pcounter_register(pcounter_ctx, #name, kind)
  unfoldable pub register : Name → State W → State W
  register n s =
      let (h, w) = lct.register s.pcounter_ctx n (kind_of n) s.world in
      record s { handle = λ m. if name_id n == name_id m then h else s.handle m; world = w }

  unfoldable pub register_all : List Name → State W → State W
  register_all [] s = s
  register_all (n ∷ ns) s = register_all ns (register n s)

  unfoldable pub initialize : State W → State W
  initialize s =
      if s.enabled
      then register_all (map timer timers) (register_all (map trend trends) (alloc_ctx s))
      else s

  -- LCT_pcounter_ctx_free also clears the context, which nothing reads any more.
  unfoldable pub finalize : State W → State W
  finalize s = if s.enabled then record s { world = lct.ctx_free s.pcounter_ctx s.world } else s

  unfoldable pub add : Name → ℕ → State W → State W
  add n val s =
      if s.enabled then record s { world = lct.add s.pcounter_ctx (s.handle n) val s.world } else s

  unfoldable pub start : Name → State W → State W
  start n s =
      if s.enabled then record s { world = lct.start s.pcounter_ctx (s.handle n) s.world } else s

  unfoldable pub finish : Name → State W → State W
  finish n s =
      if s.enabled then record s { world = lct.finish s.pcounter_ctx (s.handle n) s.world } else s

  unfoldable pub now : State W → ℤ × State W
  now s =
      let (t, w) = lct.now s.world in
      if s.enabled then (pos t, record s { world = w }) else (pos 0, s)

  unfoldable pub since : ℤ → State W → ℤ × State W
  unfolding minus
  since earlier s =
      let (t, w) = lct.now s.world in
      if s.enabled then (minus t earlier, record s { world = w }) else (pos 0, s)
