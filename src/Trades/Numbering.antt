-- ===== src/Trades/Numbering.antt =====
-- cpp/src/trade_feed_handler.cpp: what the published rows look like, live and backfilled.
use t2s.Base.{
  ℕ, ◌+◌, Option, none, some, String, List, [], ◌∷◌, ◌++◌, length, length-append, get_elem?, ltb,
  if◌then◌else◌, if_cases, ◌≡◌, refl, arith,
}
use t2s.Market.{TradeSchema, spot_trade, futures_agg_trade}
use t2s.Gap.{
  TradeGap, EventResult, Kind, first, in_order, gap, duplicate, out_of_order, on_id, flush,
}
use t2s.Book.Double.{Double}
use t2s.Backfill.{Published, GapEvent, pump, Request, BackfillPage}
use t2s.Clock.{stamp}
use t2s.Rows.{
  Atom, nat_long, trade_row_width, trade_row_send_us_idx, agg_trade_row_width,
  agg_trade_row_send_us_idx, build_trade_row, build_agg_trade_row,
}
use t2s.Json.{Json, Strtod}
use t2s.Trades.Message.{read_trade, receive_message}
use t2s.Trades.Acts.{publish_health, Act, message, pumps, trade_state, fetches, health, act, acts}
use t2s.Trades.{
  TradeMessage, TradeHandler, Timing, record_gap, note_gap, heed_kind, validate_trade_id, publish,
  backfilled_row, publish_backfilled, live_row, publish_live, lacks_nq, flush_waiting,
  process_message, reason_name, publish_all_backfilled, record_events, pump_backfill, seed_all,
  resume_gaps, take_trade_state,
}

abbrev pub row_width : TradeSchema → ℕ
row_width spot_trade = trade_row_width
row_width futures_agg_trade = agg_trade_row_width

abbrev pub send_us_idx : TradeSchema → ℕ
send_us_idx spot_trade = trade_row_send_us_idx
send_us_idx futures_agg_trade = agg_trade_row_send_us_idx

-- The row has the schema's width, and its own fhSeqNo behind fhSendUs, as its last column.
abbrev pub IsRowOf : TradeSchema → ℕ → List Atom → Type 0
IsRowOf schema n row =
    (length row ≡ row_width schema)
    × (send_us_idx schema + 2 ≡ row_width schema)
    × (get_elem? row (send_us_idx schema + 1) ≡ some (nat_long n))

-- Rows that are numbered from `n` on, without a hole, each a row of the schema.
unfoldable pub AreRowsFrom : TradeSchema → ℕ → List (ℕ × List Atom) → Type 0
AreRowsFrom schema n [] = Unit
AreRowsFrom schema n ((k, row) ∷ rows) =
    (k ≡ n) × IsRowOf schema k row × AreRowsFrom schema (n + 1) rows

-- The rows published since the number was `start` have the numbers from start + 1 to fhSeqNo.
unfoldable pub IsNumbered : ℕ → TradeHandler → Type 0
unfolding AreRowsFrom
IsNumbered start h =
    AreRowsFrom h.schema (start + 1) h.outbox × (h.fh_seq_no ≡ start + length h.outbox)

AreRowsFrom-snoc :
    (schema : TradeSchema) (n k : ℕ) (row : List Atom) (rows : List (ℕ × List Atom))
    → AreRowsFrom schema n rows
    → k ≡ n + length rows
    → IsRowOf schema k row
    → AreRowsFrom schema n (rows ++ ((k, row) ∷ []))
unfolding AreRowsFrom
AreRowsFrom-snoc schema n k row [] all e r = (omega (arith, e), r, tt)
AreRowsFrom-snoc schema n k row ((j, x) ∷ rows) (same, is_row, more) e r =
    (same, is_row, AreRowsFrom-snoc schema (n + 1) k row rows more (omega (arith, e)) r)

backfilled_row-IsRowOf :
    (schema : TradeSchema) (p : Published Double) (time n : ℕ)
    → IsRowOf schema n (backfilled_row schema p time n)
unfolding backfilled_row build_trade_row build_agg_trade_row
backfilled_row-IsRowOf spot_trade p time n = (refl, refl, refl)
backfilled_row-IsRowOf futures_agg_trade p time n = (refl, refl, refl)

live_row-IsRowOf :
    (schema : TradeSchema) (m : TradeMessage) (time recv parse_us send_us n : ℕ)
    → IsRowOf schema n (live_row schema m time recv parse_us send_us n)
unfolding live_row build_trade_row build_agg_trade_row
live_row-IsRowOf spot_trade m time recv parse_us send_us n = (refl, refl, refl)
live_row-IsRowOf futures_agg_trade m time recv parse_us send_us n = (refl, refl, refl)

publish-IsNumbered :
    (start : ℕ) (row : ℕ → List Atom) (h : TradeHandler)
    → ((n : ℕ) → IsRowOf h.schema n (row n))
    → IsNumbered start h
    → IsNumbered start (publish row h)
unfolding publish IsNumbered
publish-IsNumbered start row h good (rows, last) = (
  AreRowsFrom-snoc h.schema (start + 1) (h.fh_seq_no + 1) (row (h.fh_seq_no + 1)) h.outbox rows
      (omega (arith, last)) (good (h.fh_seq_no + 1)),
  let e = length-append h.outbox ((h.fh_seq_no + 1, row (h.fh_seq_no + 1)) ∷ []) in
      rw e (omega (arith, last)),
)

publish_backfilled-IsNumbered :
    (start : ℕ) (p : Published Double) (h : TradeHandler)
    → IsNumbered start h
    → IsNumbered start (publish_backfilled p h)
unfolding publish_backfilled IsNumbered
publish_backfilled-IsNumbered start p h n =
    let stamped = stamp p.recv_time_utc_ns 0 h.row_clock in
    let h' = record h { row_clock = stamped.0; ctr_backfilled = h.ctr_backfilled + 1 } in
    publish-IsNumbered start (backfilled_row h.schema p stamped.1.time_utc_ns) h'
      (backfilled_row-IsRowOf h.schema p stamped.1.time_utc_ns) n

publish_all_backfilled-IsNumbered :
    (start : ℕ) (ps : List (Published Double)) (h : TradeHandler)
    → IsNumbered start h
    → IsNumbered start (publish_all_backfilled ps h)
unfolding publish_all_backfilled
publish_all_backfilled-IsNumbered start [] h n = n
publish_all_backfilled-IsNumbered start (p ∷ ps) h n =
    publish_all_backfilled-IsNumbered start ps (publish_backfilled p h)
      (publish_backfilled-IsNumbered start p h n)

publish_live-IsNumbered :
    (start : ℕ) (m : TradeMessage) (recv parse_us send_us : ℕ) (h : TradeHandler)
    → IsNumbered start h
    → IsNumbered start (publish_live m recv parse_us send_us h)
unfolding publish_live IsNumbered
publish_live-IsNumbered start m recv parse_us send_us h n =
    let stamped = stamp recv m.exch_event_time_ms h.row_clock in
    publish-IsNumbered start (live_row h.schema m stamped.1.time_utc_ns recv parse_us send_us)
      (record h { row_clock = stamped.0 })
      (live_row-IsRowOf h.schema m stamped.1.time_utc_ns recv parse_us send_us) n

heed_kind-IsNumbered :
    (start : ℕ) (k : Kind) (name : String) (now : ℕ) (answers : List EventResult) (h : TradeHandler)
    → IsNumbered start h
    → IsNumbered start (heed_kind k name now answers h)
unfolding heed_kind note_gap record_gap IsNumbered
heed_kind-IsNumbered start first name now answers h n = n
heed_kind-IsNumbered start in_order name now answers h n = n
heed_kind-IsNumbered start (gap a b) name now answers h n = n
heed_kind-IsNumbered start duplicate name now answers h n = n
heed_kind-IsNumbered start out_of_order name now answers h n = n

validate_trade_id-IsNumbered :
    (start : ℕ) (name : String) (id now : ℕ) (answers : List EventResult) (h : TradeHandler)
    → IsNumbered start h
    → IsNumbered start (validate_trade_id name id now answers h)
unfolding validate_trade_id IsNumbered
validate_trade_id-IsNumbered start name id now answers h n =
    let r = on_id name id h.id_tracker in
    heed_kind-IsNumbered start r.1.kind name now answers (record h { id_tracker = r.0 }) n

flush_waiting-IsNumbered :
    (start : ℕ) (answers : List EventResult) (h : TradeHandler)
    → IsNumbered start h
    → IsNumbered start (flush_waiting answers h)
unfolding flush_waiting IsNumbered
flush_waiting-IsNumbered start answers h n =
    if_cases (IsNumbered start) (ltb 0 (length h.gap_events.pending))
      (record h { gap_events = (flush answers h.gap_events).queue }) h (λ e. n) (λ e. n)

process_message-IsNumbered :
    (start : ℕ) (m : Option TradeMessage) (t : Timing) (h : TradeHandler)
    → IsNumbered start h
    → IsNumbered start (process_message m t h)
unfolding process_message IsNumbered
process_message-IsNumbered start none t h n = n
process_message-IsNumbered start (some m) t h n =
    let counted = record h {
      msgs_received = h.msgs_received + 1;
      ctr_nq_missing = if lacks_nq h.schema m.nq then h.ctr_nq_missing + 1 else h.ctr_nq_missing;
    } in
    let checked = validate_trade_id m.sym m.primary_id t.now t.answers counted in
    flush_waiting-IsNumbered start t.late_answers
      (publish_live m t.recv t.parse_us t.send_us checked)
      (publish_live-IsNumbered start m t.recv t.parse_us t.send_us checked
        (validate_trade_id-IsNumbered start m.sym m.primary_id t.now t.answers counted n))

record_events-IsNumbered :
    (start : ℕ) (es : List GapEvent) (now : ℕ) (answers : List (List EventResult))
    (h : TradeHandler)
    → IsNumbered start h
    → IsNumbered start (record_events es now answers h)
unfolding record_events record_gap IsNumbered
record_events-IsNumbered start [] now answers h n = n
record_events-IsNumbered start (e ∷ es) now [] h n =
    record_events-IsNumbered start es now []
      (record_gap now [] e.gap e.status (reason_name e.reason) h) n
record_events-IsNumbered start (e ∷ es) now (a ∷ answers) h n =
    record_events-IsNumbered start es now answers
      (record_gap now a e.gap e.status (reason_name e.reason) h) n

pump_backfill-IsNumbered :
    (start now_ms now : ℕ) (draw : ℕ → ℕ) (works : ℕ → Option (Request → BackfillPage Double))
    (answers : List (List EventResult)) (h : TradeHandler)
    → IsNumbered start h
    → IsNumbered start (pump_backfill now_ms now draw works answers h)
unfolding pump_backfill IsNumbered
pump_backfill-IsNumbered start now_ms now draw works answers h n =
    let b = pump now_ms draw works (record h.backfill { published = []; events = [] }) in
    let h' = record h { backfill = b } in
    record_events-IsNumbered start b.events now answers (publish_all_backfilled b.published h')
      (publish_all_backfilled-IsNumbered start b.published h' n)

seed_all-IsNumbered :
    (start : ℕ) (ids : List (String × ℕ)) (h : TradeHandler)
    → IsNumbered start h
    → IsNumbered start (seed_all ids h)
unfolding seed_all IsNumbered
seed_all-IsNumbered start [] h n = n
seed_all-IsNumbered start ((name, id) ∷ ids) h n = seed_all-IsNumbered start ids _ n

resume_gaps-IsNumbered :
    (start : ℕ) (gs : List TradeGap) (h : TradeHandler)
    → IsNumbered start h
    → IsNumbered start (resume_gaps gs h)
unfolding resume_gaps IsNumbered
resume_gaps-IsNumbered start [] h n = n
resume_gaps-IsNumbered start (g ∷ gs) h n = resume_gaps-IsNumbered start gs _ n

receive_message-IsNumbered :
    (strtod : String → Strtod) (start : ℕ) (doc : Option Json) (t : Timing) (h : TradeHandler)
    → IsNumbered start h
    → IsNumbered start (receive_message strtod doc t h)
unfolding receive_message
receive_message-IsNumbered strtod start none t h n = process_message-IsNumbered start none t h n
receive_message-IsNumbered strtod start (some doc) t h n =
    process_message-IsNumbered start (read_trade strtod h.schema doc) t h n

act-IsNumbered :
    (strtod : String → Strtod) (start : ℕ) (a : Act) (h : TradeHandler)
    → IsNumbered start h
    → IsNumbered start (act strtod a h)
unfolding act publish_health take_trade_state IsNumbered
act-IsNumbered strtod start (message doc t) h n = receive_message-IsNumbered strtod start doc t h n
act-IsNumbered strtod start (pumps now_ms now draw works answers) h n =
    pump_backfill-IsNumbered start now_ms now draw works answers h n
act-IsNumbered strtod start (trade_state ids gaps) h n =
    resume_gaps-IsNumbered start gaps (seed_all ids h) (seed_all-IsNumbered start ids h n)
act-IsNumbered strtod start (fetches answer) h n = n
act-IsNumbered strtod start (health answers) h n = flush_waiting-IsNumbered start answers h n

-- From a handler whose rows are in order, over any sequence of messages, good or bad, pumps of the
-- backfill, trade states of TP, answers of the exchange and flushes of gap events, they still are: the published rows, live
-- and backfilled together, have consecutive fhSeqNos without a hole, and each has the width that its
-- schema announces to TP, with fhSeqNo in the last column behind fhSendUs.
pub trade_acts-IsNumbered :
    (strtod : String → Strtod) (start : ℕ) (as_ : List Act) (h : TradeHandler)
    → IsNumbered start h
    → IsNumbered start (acts strtod as_ h)
unfolding acts
trade_acts-IsNumbered strtod start [] h n = n
trade_acts-IsNumbered strtod start (a ∷ as_) h n =
    trade_acts-IsNumbered strtod start as_ (act strtod a h) (act-IsNumbered strtod start a h n)
