-- ===== src/Quotes/Message.antt =====
-- cpp/src/quote_feed_handler.cpp: processMessage, from a parsed document to handleDelta. An id or a time below
-- 0, which the exchange does not send, is read as 0.
pub mod RoundTrip
use t2s.Base.{
  ℕ, suc, ◌+◌, ℤ, pos, pos_part, Bool, true, false, Option, none, some, String, List, [], ◌∷◌,
  if◌then◌else◌,
}
use t2s.Market.{DepthSync, spot, futures}
use t2s.Book.Types.{BufferedDelta, PriceLevel}
use t2s.Book.Manager.{get_symbol_index}
use t2s.Clock.{note_event}
use t2s.Json.{
  deref, Json, Items, nil, Strtod, JsonReader, has_error, reader_of, string, int64, array_of, obj,
  parse_levels,
}
use t2s.Quotes.{QuoteHandler, handle_delta}

abbrev pub id_of : Option ℤ → ℕ
id_of o = pos_part (deref (pos 0) o)

-- `pu` and `T`, which only futures events carry.
unfoldable pub read_futures_fields : DepthSync → JsonReader → JsonReader × Option ℤ × Option ℤ
read_futures_fields spot d = (d, none, none)
read_futures_fields futures d = let pu = int64 "pu" d in let t = int64 "T" pu.0 in (t.0, pu.1, t.1)

unfoldable pub make_delta :
    (String → Strtod)
    → DepthSync
    → (first final event_time : Option ℤ) → (bids asks : Option Items) → (pu t : Option ℤ)
    → BufferedDelta
make_delta strtod sync first final event_time bids asks pu t = record {
  first_update_id = id_of first;
  final_update_id = id_of final;
  event_time_ms = id_of event_time;
  bids = parse_levels strtod (deref nil bids);
  asks = parse_levels strtod (deref nil asks);
  prev_final_update_id = elim sync [ futures ↦ some (id_of pu) | spot ↦ none ];
  transact_time_ms = elim sync [ futures ↦ id_of t | spot ↦ 0 ];
}

-- The symbol and the delta of a combined-stream message; none is a schema error.
unfoldable pub read_delta : (String → Strtod) → DepthSync → Json → Option (String × BufferedDelta)
unfolding read_futures_fields make_delta
read_delta strtod sync doc =
    let root = obj "data" (reader_of doc) in
    let s = string "s" root.1 in
    let first = int64 "U" s.0 in
    let final = int64 "u" first.0 in
    let event_time = int64 "E" final.0 in
    let bids = array_of "b" event_time.0 in
    let asks = array_of "a" bids.0 in
    let more = read_futures_fields sync asks.0 in
    if has_error more.0
    then none
    else some (
      deref "" s.1,
      make_delta strtod sync first.1 final.1 event_time.1 bids.1 asks.1 more.1 more.2,
    )

-- Once the fields are read: an unknown symbol is left alone, and every event tells the row clock the time.
unfoldable pub process_delta : Option ℕ → BufferedDelta → ℕ → ℕ → ℕ → QuoteHandler → QuoteHandler
process_delta none delta recv now draw h = h
process_delta (some i) delta recv now draw h =
    handle_delta i delta recv now draw
      (record h { row_clock = note_event delta.event_time_ms h.row_clock })

abbrev pub count_failure : QuoteHandler → QuoteHandler
count_failure h = record h { parse_failures = h.parse_failures + 1 }

-- `none` is a message that is no JSON.
unfoldable pub process_message :
    (String → Strtod) → Option Json → ℕ → ℕ → ℕ → QuoteHandler → QuoteHandler
unfolding read_delta process_delta
process_message strtod none recv now draw h = count_failure h
process_message strtod (some doc) recv now draw h =
    elim (read_delta strtod h.book_mgr.cfg.sync doc) [
      | none ↦ count_failure h
      | some (name, delta) ↦ process_delta (get_symbol_index name h.book_mgr) delta recv now draw h
    ]
