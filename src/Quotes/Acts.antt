-- ===== src/Quotes/Acts.antt =====
-- cpp/src/quote_feed_handler.cpp: what the handler does, one after the other.
use t2s.Base.{ℕ, Bool, Option, String, List, [], ◌∷◌}
use t2s.Json.{Json, Strtod}
use t2s.Worker.{work}
use t2s.Quotes.{QuoteHandler, apply_snapshot_results, begin_connection, check_publish_timeouts}
use t2s.Rest.{SnapshotData}
use t2s.Quotes.Message.{process_message}

-- A message, the results of the worker, the heartbeats, and a new connection.
pub data Act : Type 0 where
  -- `none` is no JSON
  message : Option Json → (recv now draw : ℕ) → Act
  results : (now : ℕ) → (expired answered : ℕ → ℕ) → Act
  timeouts : (recv now : ℕ) → Act
  connection : (tp_connected : Bool) → (recv now : ℕ) → Act
  -- the worker's thread, with the exchange's answer
  works : (String → SnapshotData) → Act

unfoldable pub act : (String → Strtod) → Act → QuoteHandler → QuoteHandler
act strtod (message doc recv now draw) h = process_message strtod doc recv now draw h
act strtod (results now expired answered) h = apply_snapshot_results now expired answered h
act strtod (timeouts recv now) h = check_publish_timeouts recv now h
act strtod (connection tp_connected recv now) h = begin_connection tp_connected recv now h
act strtod (works fetch) h = record h { worker = work fetch h.worker }

unfoldable pub acts : (String → Strtod) → List Act → QuoteHandler → QuoteHandler
unfolding act
acts strtod [] h = h
acts strtod (a ∷ as_) h = acts strtod as_ (act strtod a h)
