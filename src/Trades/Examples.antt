-- ===== src/Trades/Examples.antt =====
-- cpp/src/trade_feed_handler.cpp: concrete runs of the trade handler.
use t2s.Base.{◌≡◌, String, pos, ℕ, true, false, none, some, List, [], ◌∷◌, refl}
use t2s.Market.{spot_trade, default_market}
use t2s.Trades.Setup.{new_trade_handler, new_trade_handler-IsNumbered}
use t2s.Book.Double.{above}
use t2s.Gap.{acked, connection_lost}
use t2s.Gap.Tracker.{feed}
use t2s.Backfill.{BackfillPage}
use t2s.Book.Double.{Double}
use t2s.Json.{
  Json, Strtod, boolean, integer, text, object, end, member, find, access, read_found, reader_of,
  obj, as_string, as_price, as_int64, as_bool, as_object,
}
use t2s.Json.Examples.{reads}
use t2s.Trades.Message.{read_trade, read_ids, read_nq}
use t2s.Trades.{TradeMessage, TradeHandler, Timing}
use t2s.Trades.Run.{Stream, run_trades, run-IsNumbered}
use t2s.Reconnect.Loop.{threw, stopped}
use t2s.Trades.Numbering.{IsNumbered}
use t2s.Trades.Gaps.{Handles, all_gaps, process_all, process_all-Handles, ids}

abbrev fresh : TradeHandler
fresh = new_trade_handler (record default_market { backfill_enabled = true })

abbrev trade : ℕ → TradeMessage
trade id = record {
  sym = "BTCUSDT";
  price = above 100;
  qty = above 7;
  buyer_is_maker = false;
  exch_event_time_ms = 1000;
  exch_trade_time_ms = 999;
  primary_id = id;
  first_agg_id = 0;
  last_agg_id = 0;
  nq = none;
}

abbrev read_text : String → Strtod
read_text = reads (("64.5", above 100) ∷ ("0.7", above 7) ∷ [])

abbrev trade_text : ℕ → Json
trade_text id = object (
    member "stream" (text "btcusdt@trade") (
      member "data"
        (object (
          member "E" (integer (pos 1000)) (
            member "s" (text "BTCUSDT") (
              member "t" (integer (pos id)) (
                member "p" (text "64.5") (
                  member "q" (text "0.7")
                    (member "T" (integer (pos 999)) (member "m" (boolean false) end))))))))
        end))

-- The text is the trade.
trade_text_read : read_trade read_text spot_trade (trade_text 5) ≡ some (trade 5)
unfolding read_trade read_ids read_nq obj reader_of access find read_found as_string as_price
    as_int64 as_bool as_object
trade_text_read = refl

abbrev timing : Timing
timing = record {
  recv = 1000000000;
  parse_us = 5;
  send_us = 6;
  now = 1000000000;
  answers = connection_lost ∷ [];
  late_answers = acked ∷ [];
}

abbrev page : BackfillPage Double
page = record {
  ok = true;
  too_old = false;
  http_status = 200;
  retry_after_sec = 0;
  used_weight1m = none;
  recv_time_utc_ns = 2000000000;
  trades =
      record {
        id = 6;
        price = above 100;
        qty = above 2;
        qty_ex_rpi = none;
        first_trade_id = 0;
        last_trade_id = 0;
        trade_time_ms = 998;
        buyer_is_maker = true;
      }
      ∷ [];
}

-- TP knows trade 4; 5 comes before the first connection is lost, then 7, so 6 is missing, and it is fetched.
abbrev streams : List Stream
streams =
    record {
      established = true;
      rounds =
          record {
            answers = [];
            doc = some (trade_text 5);
            timing = timing;
            now_ms = 4;
            now = 900000000;
            draw = λ i. 0;
            works = λ i. none;
            event_answers = [];
            health_due = none;
          }
          ∷ [];
      ending = threw;
      waited = λ t. true;
    }
    ∷ record {
      established = true;
      rounds =
          record {
            answers = [];
            doc = some (trade_text 7);
            timing = timing;
            now_ms = 5;
            now = 1000000000;
            draw = λ i. 0;
            works = λ i. none;
            event_answers = [];
            health_due = some (connection_lost ∷ []);
          }
          ∷ record {
            answers = (λ r. page) ∷ [];
            doc = none;
            timing = timing;
            now_ms = 6;
            now = 2000000000;
            draw = λ i. 0;
            works = λ i. none;
            event_answers = (acked ∷ []) ∷ [];
            health_due = none;
          }
          ∷ [];
      ending = stopped;
      waited = λ t. true;
    }
    ∷ []

run-IsNumbered_example :
    IsNumbered 0 (run_trades read_text true (some (("BTCUSDT", 4) ∷ [], [])) streams fresh).handler
run-IsNumbered_example =
    run-IsNumbered read_text 0 true (some (("BTCUSDT", 4) ∷ [], [])) streams fresh
      (new_trade_handler-IsNumbered (record default_market { backfill_enabled = true }))

abbrev morning : List (TradeMessage × Timing)
morning = (trade 5, timing) ∷ (trade 7, timing) ∷ (trade 6, timing) ∷ []

process_all-Handles_example :
    Handles
      (all_gaps (feed (ids morning) (("BTCUSDT", 4) ∷ [])).1)
      (record fresh { id_tracker = ("BTCUSDT", 4) ∷ [] })
      (process_all morning (record fresh { id_tracker = ("BTCUSDT", 4) ∷ [] }))
process_all-Handles_example =
    process_all-Handles morning (record fresh { id_tracker = ("BTCUSDT", 4) ∷ [] })
