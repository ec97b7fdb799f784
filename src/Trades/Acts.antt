-- ===== src/Trades/Acts.antt =====
-- cpp/src/trade_feed_handler.cpp: what the handler does, one after the other.
use t2s.Base.{ℕ, Option, String, List, [], ◌∷◌}
use t2s.Gap.{TradeGap, EventResult}
use t2s.Book.Double.{Double}
use t2s.Backfill.{Request, BackfillPage, deliver}
use t2s.Json.{Json, Strtod}
use t2s.Trades.Message.{receive_message}
use t2s.Trades.{TradeHandler, Timing, flush_waiting, pump_backfill, take_trade_state}

-- The health row itself goes past the publisher and is left out.
unfoldable pub publish_health : List EventResult → TradeHandler → TradeHandler
unfolding flush_waiting
publish_health answers h = flush_waiting answers h

-- A message, a pump of the backfill, TP's trade state, and what the worker's thread and the clock bring.
pub data Act : Type 0 where
  -- `none` is no JSON
  message : Option Json → Timing → Act
  -- with what the worker's thread does meanwhile
  pumps :
      (now_ms now : ℕ)
      → (ℕ → ℕ)
      → (ℕ → Option (Request → BackfillPage Double))
      → List (List EventResult)
      → Act
  -- TP's trade state at the start
  trade_state : List (String × ℕ) → List TradeGap → Act
  -- the worker's thread, with the exchange's answers
  fetches : (Request → BackfillPage Double) → Act
  -- the health row is due; TP's answers to the events that wait
  health : List EventResult → Act

unfoldable pub act : (String → Strtod) → Act → TradeHandler → TradeHandler
unfolding publish_health
act strtod (message doc t) h = receive_message strtod doc t h
act strtod (pumps now_ms now draw works answers) h = pump_backfill now_ms now draw works answers h
act strtod (trade_state ids gaps) h = take_trade_state ids gaps h
act strtod (fetches answer) h = record h { backfill = deliver answer h.backfill }
act strtod (health answers) h = publish_health answers h

unfoldable pub acts : (String → Strtod) → List Act → TradeHandler → TradeHandler
unfolding act
acts strtod [] h = h
acts strtod (a ∷ as_) h = acts strtod as_ (act strtod a h)
