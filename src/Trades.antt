-- ===== src/Trades.antt =====
-- cpp/src/trade_feed_handler.cpp: the trade handler's own logic on top of the id tracker, the gap event
-- queue, the backfill and the row clock. The websocket and the logs are left out. `process_message` takes
-- the fields that were read (Trades.Message reads them), or none when reading failed. What is given to
-- the TP publisher is appended to `outbox`, the row with its fhSeqNo. `now` is the system clock of a gap
-- event, and TP's answers to the events that a flush sends are arguments.
pub mod Acts
pub mod Numbering
pub mod Run
pub mod Examples
pub mod Gaps
pub mod Message
pub mod Setup
use t2s.Base.{
  ℕ, ◌+◌, ◌-◌, Bool, true, false, not, Option, none, some, String, List, [], ◌∷◌, ◌++◌, length, set,
  str_eq, ltb, ◌==◌, if◌then◌else◌, ◌||◌,
}
use t2s.Market.{TradeSchema, spot_trade, futures_agg_trade}
use t2s.Book.Double.{Double, nan}
use t2s.Gap.{
  TradeGap, GapStatus, detected, Kind, first, in_order, gap, duplicate, out_of_order, missing, seed,
  on_id, GapEventQueue, EventResult, push, flush,
}
use t2s.Backfill.{
  TradeBackfill, BackfillTrade, Published, GapEvent, Reason, no_reason, backfill_disabled,
  too_large, too_old, not_served, rest_failed, add_gap, pump, Request, BackfillPage,
}
use t2s.Clock.{RowClock, stamp}
use t2s.Rows.{
  Atom, TradeFields, nat_long, build_trade_row, build_agg_trade_row, build_gap_row,
  trade_row_send_us_idx, agg_trade_row_send_us_idx,
}

-- The fields that processMessage reads: `primary_id` is `t` on spot and `a` on futures, the next two
-- are `f` and `l`, and `nq` is none when it is missing or malformed.
pub record TradeMessage : Type 0 where
  pub sym : String
  pub price : Double
  pub qty : Double
  pub buyer_is_maker : Bool
  pub exch_event_time_ms : ℕ
  pub exch_trade_time_ms : ℕ
  pub primary_id : ℕ
  pub first_agg_id : ℕ
  pub last_agg_id : ℕ
  pub nq : Option Double

pub record TradeHandler : Type 0 where
  pub schema : TradeSchema
  pub tp_table : String
  pub id_tracker : List (String × ℕ)
  pub seeded_syms : List String
  pub gap_events : GapEventQueue (List Atom)
  pub backfill : TradeBackfill Double
  pub row_clock : RowClock
  pub fh_seq_no : ℕ
  pub outbox : List (ℕ × List Atom)
  pub msgs_received : ℕ
  pub msgs_published : ℕ
  pub parse_failures : ℕ
  pub ctr_exch_out_of_order : ℕ
  pub ctr_exch_duplicates : ℕ
  pub ctr_exch_gaps : ℕ
  pub ctr_exch_missed : ℕ
  pub ctr_nq_missing : ℕ
  pub ctr_backfilled : ℕ

-- seededSyms_.count(sym) > 0
pub is_seeded : String → List String → Bool
is_seeded sym [] = false
is_seeded sym (s ∷ ss) = str_eq s sym || is_seeded sym ss

-- seededSyms_.erase(sym)
pub erase : String → List String → List String
erase sym [] = []
erase sym (s ∷ ss) = if str_eq s sym then erase sym ss else s ∷ erase sym ss

pub record_gap : ℕ → List EventResult → TradeGap → GapStatus → String → TradeHandler → TradeHandler
record_gap now answers g status reason h = record h {
  gap_events =
      (flush answers (push (build_gap_row now g h.tp_table status reason) h.gap_events)).queue;
}

-- A gap that the tracker found: counted, recorded, and queued for the backfill.
pub note_gap : TradeGap → ℕ → List EventResult → TradeHandler → TradeHandler
unfolding record_gap is_seeded
note_gap g now answers h0 =
    let after_restart = is_seeded g.sym h0.seeded_syms in
    let counted = record h0 {
      ctr_exch_gaps = h0.ctr_exch_gaps + 1;
      ctr_exch_missed = h0.ctr_exch_missed + missing g;
    } in
    let h =
      record_gap now answers g detected (if after_restart then "handlerRestart" else "") counted in
    record h { backfill = add_gap g h.backfill }

-- The switch of validateTradeId.
pub heed_kind : Kind → String → ℕ → List EventResult → TradeHandler → TradeHandler
unfolding note_gap
heed_kind first name now answers h = h
heed_kind in_order name now answers h = h
heed_kind out_of_order name now answers h = record h {
  ctr_exch_out_of_order = h.ctr_exch_out_of_order + 1;
}
heed_kind duplicate name now answers h = record h {
  ctr_exch_duplicates = h.ctr_exch_duplicates + 1;
}
heed_kind (gap a b) name now answers h =
    note_gap
      (record { sym = name; first_id = a; last_id = b; recovered = 0; recovered_through_id = 0 })
      now answers h

pub validate_trade_id : String → ℕ → ℕ → List EventResult → TradeHandler → TradeHandler
unfolding heed_kind erase
validate_trade_id name trade_id now answers h0 =
    let r = on_id name trade_id h0.id_tracker in
    let h = heed_kind r.1.kind name now answers (record h0 { id_tracker = r.0 }) in
    record h { seeded_syms = erase name h.seeded_syms }

abbrev pub or_nan : Option Double → Double
or_nan none = nan
or_nan (some v) = v

-- tp_->publish(row, ++fhSeqNo_)
pub publish : (ℕ → List Atom) → TradeHandler → TradeHandler
publish row h = record h {
  fh_seq_no = h.fh_seq_no + 1;
  outbox = h.outbox ++ ((h.fh_seq_no + 1, row (h.fh_seq_no + 1)) ∷ []);
  msgs_published = h.msgs_published + 1;
}

-- The row of a backfilled trade; its event time, which REST does not give, is the null long.
pub backfilled_row : TradeSchema → Published Double → ℕ → ℕ → List Atom
backfilled_row schema p time seq_no =
    let t = p.trade in
    let fields : TradeFields = record {
      time_utc_ns = time;
      fh_recv_time_utc_ns = p.recv_time_utc_ns;
      sym = p.sym;
      price = t.price;
      qty = t.qty;
      buyer_is_maker = t.buyer_is_maker;
      exch_event_time_ms = none;
      exch_trade_time_ms = t.trade_time_ms;
      fh_parse_us = 0;
      fh_send_us = 0;
      fh_seq_no = seq_no;
    } in
    elim schema [
      | spot_trade ↦ build_trade_row fields t.id
      | futures_agg_trade ↦
          build_agg_trade_row fields t.id t.first_trade_id t.last_trade_id (or_nan t.qty_ex_rpi)
    ]

pub publish_backfilled : Published Double → TradeHandler → TradeHandler
unfolding publish backfilled_row
publish_backfilled p h0 =
    let stamped = stamp p.recv_time_utc_ns 0 h0.row_clock in
    let h = record h0 { row_clock = stamped.0; ctr_backfilled = h0.ctr_backfilled + 1 } in
    publish (backfilled_row h.schema p stamped.1.time_utc_ns) h

-- The row of a live trade, with fhSendUs patched in its slot.
pub live_row : TradeSchema → TradeMessage → ℕ → ℕ → ℕ → ℕ → ℕ → List Atom
live_row schema m time recv parse_us send_us seq_no =
    let fields : TradeFields = record {
      time_utc_ns = time;
      fh_recv_time_utc_ns = recv;
      sym = m.sym;
      price = m.price;
      qty = m.qty;
      buyer_is_maker = m.buyer_is_maker;
      exch_event_time_ms = some m.exch_event_time_ms;
      exch_trade_time_ms = m.exch_trade_time_ms;
      fh_parse_us = parse_us;
      fh_send_us = 0;
      fh_seq_no = seq_no;
    } in
    elim schema [
      | spot_trade ↦
          set (build_trade_row fields m.primary_id) trade_row_send_us_idx (nat_long send_us)
      | futures_agg_trade ↦
          set (build_agg_trade_row fields m.primary_id m.first_agg_id m.last_agg_id (or_nan m.nq))
            agg_trade_row_send_us_idx (nat_long send_us)
    ]

pub publish_live : TradeMessage → ℕ → ℕ → ℕ → TradeHandler → TradeHandler
unfolding publish live_row
publish_live m recv parse_us send_us h0 =
    let stamped = stamp recv m.exch_event_time_ms h0.row_clock in
    let h = record h0 { row_clock = stamped.0 } in
    publish (live_row h.schema m stamped.1.time_utc_ns recv parse_us send_us) h

abbrev pub lacks_nq : TradeSchema → Option Double → Bool
lacks_nq futures_agg_trade none = true
lacks_nq schema nq = false

-- if (gapEvents_.size() > 0) gapEvents_.flush(*tp_)
pub flush_waiting : List EventResult → TradeHandler → TradeHandler
flush_waiting answers h =
    if ltb 0 (length h.gap_events.pending)
    then record h { gap_events = (flush answers h.gap_events).queue }
    else h

-- The receive time, the two latencies, the clock of a gap event, and TP's answers to the flush of the
-- gap event and to the flush at the end.
pub record Timing : Type 0 where
  pub recv : ℕ
  pub parse_us : ℕ
  pub send_us : ℕ
  pub now : ℕ
  pub answers : List EventResult
  pub late_answers : List EventResult

pub process_message : Option TradeMessage → Timing → TradeHandler → TradeHandler
unfolding validate_trade_id publish_live flush_waiting
process_message none t h = record h {
  msgs_received = h.msgs_received + 1;
  parse_failures = h.parse_failures + 1;
}
process_message (some m) t h0 =
    let counted = record h0 {
      msgs_received = h0.msgs_received + 1;
      ctr_nq_missing = if lacks_nq h0.schema m.nq then h0.ctr_nq_missing + 1 else h0.ctr_nq_missing;
    } in
    let checked = validate_trade_id m.sym m.primary_id t.now t.answers counted in
    flush_waiting t.late_answers (publish_live m t.recv t.parse_us t.send_us checked)

pub reason_name : Reason → String
reason_name no_reason = ""
reason_name backfill_disabled = "backfillDisabled"
reason_name too_large = "tooLarge"
reason_name too_old = "tooOld"
reason_name not_served = "notServed"
reason_name rest_failed = "restFailed"

pub publish_all_backfilled : List (Published Double) → TradeHandler → TradeHandler
unfolding publish_backfilled
publish_all_backfilled [] h = h
publish_all_backfilled (p ∷ ps) h = publish_all_backfilled ps (publish_backfilled p h)

-- The gap events of a pump, with TP's answers to each flush.
pub record_events : List GapEvent → ℕ → List (List EventResult) → TradeHandler → TradeHandler
unfolding record_gap reason_name
record_events [] now answers h = h
record_events (e ∷ es) now [] h =
    record_events es now [] (record_gap now [] e.gap e.status (reason_name e.reason) h)
record_events (e ∷ es) now (a ∷ answers) h =
    record_events es now answers (record_gap now a e.gap e.status (reason_name e.reason) h)

-- The rows and the events of a pump go to two logs, each in the pump's order.
pub pump_backfill :
    ℕ
    → ℕ
    → (ℕ → ℕ)
    → (ℕ → Option (Request → BackfillPage Double))
    → List (List EventResult)
    → TradeHandler
    → TradeHandler
unfolding publish_all_backfilled record_events
pump_backfill now_ms now draw works answers h =
    let b = pump now_ms draw works (record h.backfill { published = []; events = [] }) in
    record_events b.events now answers
      (publish_all_backfilled b.published (record h { backfill = b }))

-- run(): the last logged id per symbol and the open gaps, as TP knows them.
pub seed_all : List (String × ℕ) → TradeHandler → TradeHandler
seed_all [] h = h
seed_all ((name, id) ∷ ids) h =
    seed_all ids
      (record h { id_tracker = seed name id h.id_tracker; seeded_syms = name ∷ h.seeded_syms })

pub resume_gaps : List TradeGap → TradeHandler → TradeHandler
resume_gaps [] h = h
resume_gaps (g ∷ gs) h = resume_gaps gs (record h { backfill = add_gap g h.backfill })

pub take_trade_state : List (String × ℕ) → List TradeGap → TradeHandler → TradeHandler
unfolding seed_all resume_gaps
take_trade_state last_ids open_gaps h = resume_gaps open_gaps (seed_all last_ids h)
