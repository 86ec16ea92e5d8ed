-- ===== src/Pcounter.antt =====
-- src/util/pcounter.hpp and pcounter.cpp. What the program hands to LCT_pcounter_add, start and end
-- is added up here, by the counter's name; Registry has the calls of LCT.
pub mod Registry
pub mod Handles
pub mod Reading
use lcw.Base.{ℕ, ◌+◌, Bool, ◌==◌, if◌then◌else◌}

-- LCW_PCOUNTER_TREND_FOR_EACH
pub data Trend : Type 0 where
  put_start put_end put_retry send_start send_end send_retry : Trend
  recv_start recv_end recv_retry put_signal : Trend
  comp_produce comp_consume comp_poll progress : Trend

-- LCW_PCOUNTER_TIMER_FOR_EACH
pub data Timer : Type 0 where
  put_timer send_timer recv_timer : Timer

abbrev trend_id : Trend → ℕ
trend_id put_start = 0
trend_id put_end = 1
trend_id put_retry = 2
trend_id send_start = 3
trend_id send_end = 4
trend_id send_retry = 5
trend_id recv_start = 6
trend_id recv_end = 7
trend_id recv_retry = 8
trend_id put_signal = 9
trend_id comp_produce = 10
trend_id comp_consume = 11
trend_id comp_poll = 12
trend_id progress = 13

abbrev timer_id : Timer → ℕ
timer_id put_timer = 0
timer_id send_timer = 1
timer_id recv_timer = 2

pub record Counters : Type 0 where
  pub enabled : Bool  -- LCW_ENABLE_PCOUNTER
  pub trend : Trend → ℕ
  pub started : Timer → ℕ
  pub ended : Timer → ℕ

unfoldable pub add : Trend → Counters → Counters
add t c =
    if c.enabled
    then record c { trend = λ u. if trend_id t == trend_id u then c.trend u + 1 else c.trend u }
    else c

unfoldable pub start : Timer → Counters → Counters
start t c =
    if c.enabled
    then record c {
      started = λ u. if timer_id t == timer_id u then c.started u + 1 else c.started u;
    }
    else c

unfoldable pub finish : Timer → Counters → Counters
finish t c =
    if c.enabled
    then record c { ended = λ u. if timer_id t == timer_id u then c.ended u + 1 else c.ended u }
    else c
