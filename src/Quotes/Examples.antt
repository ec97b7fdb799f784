-- ===== src/Quotes/Examples.antt =====
-- cpp/src/quote_feed_handler.cpp: a concrete handler of two symbols.
use t2s.Base.{
  ℕ, zero, suc, true, false, none, some, String, List, [], ◌∷◌, ◌≡◌, refl, sym, ap, ◌∙◌, map,
  to_upper, arith, All,
}
use mathlib.Core.Path.{subst}
use mathlib.Core.Option.{some-injective}
use Prim.Native.String.{char_at}
use t2s.Market.{spot, futures, QuoteMarketConfig, default_quote_market}
use t2s.Book.Double.{Double, nan, num, above}
use t2s.Book.Types.{BookConfig, BufferedDelta, PriceLevel}
use t2s.Book.Slot.{capped}
use t2s.Book.Apply.Exact.{History, IsFaithful}
use t2s.Book.Examples.{history, event, event-IsFaithful, snapshot_bids, reply-IsDepthReply}
use t2s.Json.{
  Json, Items, Strtod, text, array, null, nil, cons, parse_levels, parse_level_pair, reader_of, obj,
  access, find, read_found, as_string, as_int64, as_array, as_object,
}
use t2s.Json.Examples.{reads}
use t2s.Json.Levels.{ReadsBack, level, done, malformed, level_json}
use t2s.Quotes.{QuoteHandler}
use t2s.Rest.{SnapshotData}
use t2s.Quotes.Message.{read_delta, read_futures_fields, make_delta}
use t2s.Quotes.Message.RoundTrip.{Event, event_json, event_delta, read_delta-event_json}
use t2s.Quotes.Acts.{Act, message, results, timeouts, connection, works, acts}
use t2s.Quotes.Run.{
  Results, Stream, stream_acts, connection_of, round_acts, last_acts, results_acts,
}
use t2s.Reconnect.Loop.{threw, stopped, acts_of, acts_on, flat}
use t2s.Quotes.Sequence.{numbers, IsNumbered}
use t2s.Quotes.Numbering.{acts-IsNumbered}
use t2s.Quotes.Setup.{book_config, new_quote_handler, new_quote_handler-IsTrue}
use t2s.Quotes.Truth.{IsTrue}
use t2s.Quotes.Truth.Acts.{IsHonest, acts-IsTrue}

abbrev market : QuoteMarketConfig
market = record default_quote_market { depth = 1; snapshot_limit = 2 }

abbrev symbols : List String
symbols = "btcusdt" ∷ "ethusdt" ∷ []

abbrev fresh : QuoteHandler
fresh = new_quote_handler symbols market 0

fresh-IsNumbered : IsNumbered 0 fresh
unfolding numbers new_quote_handler
fresh-IsNumbered = record { run = refl; last = refl }

-- Reads the texts of the events.
abbrev pub read_text : String → Strtod
read_text = reads (("100", above 100) ∷ ("7", above 7) ∷ [])

abbrev event_101 : Event
event_101 = record { first = 101; final = 101; event_time = 1; previous = 0; transact_time = 0 }

abbrev bids : Items
bids = cons (array (cons (text "100") (cons (text "7") nil))) nil

abbrev event_text : Json
event_text = event_json spot "btcusdt@depth@100ms" "BTCUSDT" event_101 bids nil

abbrev reply : SnapshotData
reply = record {
  success = true;
  error = none;
  http_status = 200;
  retry_after_sec = 0;
  used_weight1m = none;
  last_update_id = 100;
  bids = snapshot_bids;
  asks = [];
}

-- A message asks for the snapshot, the worker fetches it, and it is applied; a text that is no JSON, a
-- heartbeat and a repeated event follow.
abbrev pub day : List Act
day =
    connection true 1 1
    ∷ message (some event_text) 1000000 5 0
    ∷ works (λ s. reply)
    ∷ results 6 (λ i. 0) (λ r. 0)
    ∷ message none 1500000 7 0
    ∷ timeouts 2000000 100
    ∷ message (some event_text) 3000000 110 0
    ∷ []

acts-IsNumbered_example : IsNumbered 0 (acts read_text day fresh)
acts-IsNumbered_example = acts-IsNumbered 0 read_text day fresh fresh-IsNumbered

abbrev pub truth : String → History
truth s = history

abbrev cfg : BookConfig
cfg = capped (book_config market)

-- The message is the event of the book's history.
event_text_read : read_delta read_text spot event_text ≡ some ("BTCUSDT", event)
unfolding read_delta read_futures_fields make_delta parse_levels parse_level_pair reader_of obj
    access find read_found as_string as_int64 as_array as_object
event_text_read = refl

pub event_text-IsFaithful :
    (name : String) (d : BufferedDelta)
    → read_delta read_text spot event_text ≡ some (name, d)
    → IsFaithful spot (truth name) d
event_text-IsFaithful name d e =
    subst (λ (p : String × BufferedDelta). IsFaithful spot history p.1)
      (some-injective _ _ (sym event_text_read ∙ e)) event-IsFaithful

pub day-IsHonest : (cfg : BookConfig) → cfg.sync ≡ spot → All (IsHonest truth cfg read_text) day
day-IsHonest k e =
    let heard =
      subst
        (λ sync.
          (name : String) (d : BufferedDelta)
          → read_delta read_text sync event_text ≡ some (name, d)
          → IsFaithful sync (truth name) d)
        (sym e) event_text-IsFaithful in
    (tt, (heard, ((λ name _. reply-IsDepthReply k), (tt, (tt, (tt, (heard, tt)))))))

-- The first connection fails; on the second a message asks for the snapshot, which comes before a text
-- that is no JSON.
abbrev no_results : Results
no_results = record { answers = []; now = 4; expired = λ i. 0; answered = λ r. 0 }

abbrev pub streams : List Stream
streams =
    record {
      tp_connected = true;
      recv = 1;
      now = 1;
      established = false;
      rounds = [];
      last = some no_results;
      ending = threw;
      waited = λ t. true;
    }
    ∷ record {
      tp_connected = true;
      recv = 2;
      now = 2;
      established = true;
      rounds =
          record {
            results_in = no_results;
            doc = some event_text;
            recv = 1000000;
            now = 5;
            draw = 0;
            checked_at = 6;
          }
          ∷ record {
            results_in = record {
              answers = (λ s. reply) ∷ [];
              now = 7;
              expired = λ i. 0;
              answered = λ r. 0;
            };
            doc = none;
            recv = 2000000;
            now = 8;
            draw = 0;
            checked_at = 9;
          }
          ∷ [];
      last = some no_results;
      ending = stopped;
      waited = λ t. true;
    }
    ∷ []

pub streams-IsHonest :
    (cfg : BookConfig) → cfg.sync ≡ spot → All (IsHonest truth cfg read_text) (stream_acts streams)
unfolding stream_acts acts_of acts_on flat connection_of round_acts last_acts results_acts
streams-IsHonest k e =
    let heard =
      subst
        (λ sync.
          (name : String) (d : BufferedDelta)
          → read_delta read_text sync event_text ≡ some (name, d)
          → IsFaithful sync (truth name) d)
        (sym e) event_text-IsFaithful in
    (tt, (tt, (tt, (heard, (tt, ((λ name _. reply-IsDepthReply k), (tt, (tt, (tt, (tt, tt))))))))))

acts-IsTrue_example : IsTrue truth cfg (map to_upper symbols) (acts read_text day fresh)
unfolding capped
acts-IsTrue_example =
    acts-IsTrue truth cfg (map to_upper symbols) (omega arith) (omega arith) read_text day fresh
      (day-IsHonest cfg refl) (new_quote_handler-IsTrue truth symbols market 0)

-- Numbers written in unary, by their place.
render_place : ℕ → String
render_place zero = String.[]
render_place (suc n) = String.◌∷◌ (char_at "i" 0) (render_place n)

count : String → ℕ
count String.[] = zero
count (String.◌∷◌ c s) = suc (count s)

count-render_place : (n : ℕ) → count (render_place n) ≡ n
unfolding count render_place
count-render_place zero = refl
count-render_place (suc n) = ap suc (count-render_place n)

abbrev render : Double → String
render nan = "nan"
render (num n) = render_place n

abbrev read_unary : String → Strtod
read_unary s = record { value = num (count s); converted = true; range_error = false; whole = true }

render-ReadsBack : ReadsBack read_unary render
render-ReadsBack nan n = absurd n
render-ReadsBack (num n) i =
    ap (λ k. record { value = num k; converted = true; range_error = false; whole = true })
      (count-render_place n)

abbrev small : PriceLevel
small = record { price = num 3; qty = num 2 }

-- A futures event, with an element among its bids that is no level.
read_delta-event_json_example :
    read_delta read_unary futures (
      event_json futures "btcusdt@depth" "BTCUSDT" event_101
        (cons null (cons (level_json render small) nil))
        nil)
    ≡ some ("BTCUSDT", event_delta futures event_101 (small ∷ []) [])
read_delta-event_json_example =
    read_delta-event_json read_unary render futures "btcusdt@depth" "BTCUSDT" event_101 (small ∷ [])
      [] (cons null (cons (level_json render small) nil)) nil render-ReadsBack
      (omega arith, omega arith, omega arith, omega arith, omega arith)
      (malformed null (unfold parse_level_pair in refl) (level small (tt, tt) done)) done
