-- ===== src/Quotes.antt =====
-- cpp/src/quote_feed_handler.cpp: the quote handler's own logic on top of the books, the scheduler, the
-- worker and the row clock; Quotes.Message reads a message. The websocket and the logging are left out. What
-- publishQuote gives to the TP publisher is appended to `outbox`, a quote with its stamp. A time `now` is
-- the steady clock in milliseconds, `recv` the receive time in nanoseconds, and `draw` the jitter's.
pub mod Sequence
pub mod Message
pub mod Acts
pub mod Run
pub mod Numbering
pub mod Truth
pub mod Setup
pub mod Examples
use t2s.Base.{
  ℕ, zero, suc, ◌+◌, ◌-◌, Bool, true, false, not, ◌&&◌, Option, none, some, String, List, [], ◌∷◌,
  ◌++◌, length, get_or, set, ltb, ◌==◌, if◌then◌else◌,
}
use t2s.Book.Types.{
  BookConfig, BookQuote, BufferedDelta, BookState, PriceLevel, SnapshotOutcome, empty_quote, init,
  syncing, valid, invalid, synced, awaiting_bridge, sync_failed, refreshed, refresh_awaiting_bridge,
  refresh_failed, ignored,
}
use t2s.Book.Slot.{
  Slot, Cell, new_slot, needs_snapshot, set_snapshot_requested, wants_refresh, begin_refresh,
  cancel_refresh, reset, is_valid,
}
use t2s.Book.Apply.{buffer_delta, apply_delta}
use t2s.Book.Snapshot.{on_snapshot}
use t2s.Book.Publish.{get_quote, should_publish, record_publish, last_published_valid}
use t2s.Book.Manager.{Manager, reset_all, get_timeout_publish_needed}
use t2s.Scheduler.{Scheduler, try_acquire, on_fetch_ok, on_failure, on_synced}
use t2s.Rest.{SnapshotData}
use t2s.Clock.{RowClock, RowStamp, stamp}
use t2s.Worker.{SnapshotWorker, SnapshotResult, enqueue_request, drain_results}

pub record Sent : Type 0 where
  pub quote : BookQuote
  pub row_stamp : RowStamp

pub record QuoteHandler : Type 0 where
  pub book_mgr : Manager
  pub scheduler : Scheduler
  pub worker : SnapshotWorker SnapshotData
  pub row_clock : RowClock
  -- per symbol; 0 in the second is no request in flight
  pub latest_request_id : List ℕ
  pub snapshot_requested_at_ms : List ℕ
  pub fh_seq_no : ℕ
  pub parse_failures : ℕ
  pub ctr_sequence_gaps : ℕ
  pub ctr_resyncs : ℕ
  pub ctr_snapshot_failures : ℕ
  pub outbox : List Sent

abbrev pub snapshot_timeout_ms : ℕ
snapshot_timeout_ms = 30000

-- The books' view of a symbol, and its replacement. The source indexes without a check; an index out
-- of range reads a new slot and writes nothing.
abbrev pub cell_of : ℕ → QuoteHandler → Cell
cell_of i h = record { slot = get_or h.book_mgr.slots i (new_slot 0); stats = h.book_mgr.stats }

abbrev pub put_cell : ℕ → Cell → QuoteHandler → QuoteHandler
put_cell i c h = record h {
  book_mgr = record h.book_mgr { slots = set h.book_mgr.slots i c.slot; stats = c.stats };
}

abbrev pub put_slot : ℕ → Slot → QuoteHandler → QuoteHandler
put_slot i s h = put_cell i (record (cell_of i h) { slot = s }) h

abbrev pub name_of : ℕ → QuoteHandler → String
name_of i h = get_or h.book_mgr.idx_to_sym i ""

pub publish_quote : BookQuote → QuoteHandler → QuoteHandler
publish_quote q h =
    let stamped = stamp q.fh_recv_time_utc_ns q.exch_event_time_ms h.row_clock in
    record h {
      row_clock = stamped.0;
      outbox = h.outbox ++ (record { quote = q; row_stamp = stamped.1 } ∷ []);
    }

-- The number is taken, the row goes out, and the book remembers it.
pub publish_next : ℕ → ℕ → BookQuote → QuoteHandler → QuoteHandler
unfolding publish_quote
publish_next i now quote h0 =
    let q = record quote { fh_seq_no = h0.fh_seq_no + 1 } in
    let h = publish_quote q (record h0 { fh_seq_no = h0.fh_seq_no + 1 }) in
    put_slot i (record_publish now q (cell_of i h).slot) h

pub maybe_publish : ℕ → ℕ → ℕ → QuoteHandler → QuoteHandler
unfolding publish_next
maybe_publish i recv now h =
    let s = (cell_of i h).slot in
    let quote = get_quote h.book_mgr.cfg (name_of i h) s recv (h.fh_seq_no + 1) in
    if should_publish now s quote then publish_next i now quote h else h

pub publish_invalid : ℕ → ℕ → ℕ → QuoteHandler → QuoteHandler
unfolding publish_next
publish_invalid i recv now h =
    publish_next i now
      (record (empty_quote h.book_mgr.cfg.depth) {
        sym = name_of i h;
        is_valid = false;
        fh_recv_time_utc_ns = recv;
      })
      h

pub request_snapshot : ℕ → ℕ → QuoteHandler → QuoteHandler
request_snapshot i now h0 =
    let h = put_slot i (set_snapshot_requested true (cell_of i h0).slot) h0 in
    let asked = enqueue_request i (name_of i h) h.worker in
    record h {
      snapshot_requested_at_ms = set h.snapshot_requested_at_ms i now;
      worker = asked.0;
      latest_request_id = set h.latest_request_id i asked.1;
    }

-- tryAcquire, and what follows on yes.
pub request_if_allowed : ℕ → ℕ → (QuoteHandler → QuoteHandler) → QuoteHandler → QuoteHandler
unfolding request_snapshot
request_if_allowed i now before h =
    let asked = try_acquire i now h.scheduler in
    let h' = record h { scheduler = asked.0 } in
    if asked.1 then request_snapshot i now (before h') else h'

pub handle_in_init : ℕ → BufferedDelta → ℕ → QuoteHandler → QuoteHandler
unfolding request_if_allowed
handle_in_init i delta now h0 =
    let h = put_cell i (buffer_delta delta (cell_of i h0)).0 h0 in
    if needs_snapshot (cell_of i h).slot then request_if_allowed i now (λ x. x) h else h

-- A sequence gap, or a snapshot too old to bridge: one invalid row, and the book starts again.
pub handle_gap : Bool → ℕ → ℕ → ℕ → ℕ → QuoteHandler → QuoteHandler
unfolding publish_invalid
handle_gap was_valid i recv now draw h0 =
    let counted =
      if was_valid
      then record h0 { ctr_sequence_gaps = h0.ctr_sequence_gaps + 1 }
      else record h0 { scheduler = on_failure i now 0 0 none draw h0.scheduler } in
    let h = publish_invalid i recv now (record counted { ctr_resyncs = counted.ctr_resyncs + 1 }) in
    put_slot i (reset (cell_of i h).slot) h

-- The delta went into the live book, or was stale.
pub handle_applied : Bool → ℕ → ℕ → ℕ → QuoteHandler → QuoteHandler
unfolding maybe_publish request_if_allowed
handle_applied was_syncing i recv now h0 =
    let synced_now =
      if was_syncing then record h0 { scheduler = on_synced i h0.scheduler } else h0 in
    let h = maybe_publish i recv now synced_now in
    if not (is_valid (cell_of i h0).slot)
    then h0
    else if wants_refresh h.book_mgr.cfg (cell_of i h).slot
    then request_if_allowed i now (λ x. put_slot i (begin_refresh (cell_of i x).slot) x) h
    else h

pub handle_in_sync : Bool → ℕ → BufferedDelta → ℕ → ℕ → ℕ → QuoteHandler → QuoteHandler
unfolding handle_gap handle_applied
handle_in_sync was_valid i delta recv now draw h0 =
    let done = apply_delta h0.book_mgr.cfg delta (cell_of i h0) in
    let h = put_cell i done.0 h0 in
    if done.1
    then handle_applied (not was_valid) i recv now h
    else handle_gap was_valid i recv now draw h

pub handle_delta : ℕ → BufferedDelta → ℕ → ℕ → ℕ → QuoteHandler → QuoteHandler
unfolding handle_in_init handle_in_sync
handle_delta i delta recv now draw h = elim (cell_of i h).slot.state [
  | init ↦ handle_in_init i delta now h
  | syncing ↦ handle_in_sync false i delta recv now draw h
  | valid ↦ handle_in_sync true i delta recv now draw h
  | invalid ↦ put_slot i (reset (cell_of i h).slot) h
]

-- The book lets a request go: cancelRefresh and setSnapshotRequested(false).
abbrev pub forget_request : ℕ → QuoteHandler → QuoteHandler
forget_request i h =
    let c = cancel_refresh (cell_of i h) in
    put_cell i (record c { slot = set_snapshot_requested false c.slot }) h

-- A request without a result in time: a late result is stale, and the symbol may ask again.
pub expire_one : ℕ → ℕ → ℕ → QuoteHandler → QuoteHandler
expire_one i now draw h = forget_request i (record h {
  latest_request_id = set h.latest_request_id i (get_or h.latest_request_id i 0 + 1);
  snapshot_requested_at_ms = set h.snapshot_requested_at_ms i 0;
  scheduler = on_failure i now 0 0 none draw h.scheduler;
  ctr_snapshot_failures = h.ctr_snapshot_failures + 1;
})

-- applySnapshotResults, first loop: `n` symbols from `i` on, with a jitter draw for each.
pub expire_requests : ℕ → ℕ → ℕ → (ℕ → ℕ) → QuoteHandler → QuoteHandler
unfolding expire_one
expire_requests i zero now draw h = h
expire_requests i (suc n) now draw h =
    let at = get_or h.snapshot_requested_at_ms i 0 in
    let late = not (at == 0) && ltb snapshot_timeout_ms (now - at) in
    expire_requests (suc i) n now draw (if late then expire_one i now (draw i) h else h)

-- What the handler does with the outcome of onSnapshot.
pub heed_outcome : SnapshotOutcome → ℕ → ℕ → ℕ → QuoteHandler → QuoteHandler
heed_outcome synced i now draw h = record h { scheduler = on_synced i h.scheduler }
heed_outcome awaiting_bridge i now draw h = h
heed_outcome sync_failed i now draw h = record h {
  ctr_resyncs = h.ctr_resyncs + 1;
  scheduler = on_failure i now 0 0 none draw h.scheduler;
}
heed_outcome refreshed i now draw h = record h { scheduler = on_synced i h.scheduler }
heed_outcome refresh_awaiting_bridge i now draw h = record h { scheduler = on_synced i h.scheduler }
heed_outcome refresh_failed i now draw h = record h {
  scheduler = on_failure i now 0 0 none draw h.scheduler;
}
heed_outcome ignored i now draw h = h

pub take_snapshot : SnapshotResult SnapshotData → ℕ → ℕ → QuoteHandler → QuoteHandler
unfolding heed_outcome
take_snapshot r now draw h0 =
    let i = r.sym_idx in
    let fetched = record h0 { scheduler = on_fetch_ok now r.reply.used_weight1m h0.scheduler } in
    let done =
      on_snapshot h0.book_mgr.cfg r.reply.last_update_id r.reply.bids r.reply.asks
        (cell_of i fetched) in
    heed_outcome done.1 i now draw (put_cell i done.0 fetched)

pub take_failure : SnapshotResult SnapshotData → ℕ → ℕ → QuoteHandler → QuoteHandler
take_failure r now draw h =
    let d = r.reply in
    forget_request r.sym_idx (record h {
      ctr_snapshot_failures = h.ctr_snapshot_failures + 1;
      scheduler =
          on_failure r.sym_idx now d.http_status d.retry_after_sec d.used_weight1m draw h.scheduler;
    })

-- One result: a stale one is discarded.
pub take_result : SnapshotResult SnapshotData → ℕ → ℕ → QuoteHandler → QuoteHandler
unfolding take_snapshot take_failure
take_result r now draw h =
    let settled = record h {
      snapshot_requested_at_ms = set h.snapshot_requested_at_ms r.sym_idx 0;
    } in
    if ltb r.request_id (get_or h.latest_request_id r.sym_idx 0)
    then h
    else if not r.reply.success
    then take_failure r now draw settled
    else take_snapshot r now draw settled

pub take_results : List (SnapshotResult SnapshotData) → ℕ → (ℕ → ℕ) → QuoteHandler → QuoteHandler
unfolding take_result
take_results [] now draw h = h
take_results (r ∷ rs) now draw h =
    take_results rs now draw (take_result r now (draw r.request_id) h)

-- applySnapshotResults, with the draws of the expired and of the answered requests.
pub apply_snapshot_results : ℕ → (ℕ → ℕ) → (ℕ → ℕ) → QuoteHandler → QuoteHandler
unfolding expire_requests take_results
apply_snapshot_results now expired answered h0 =
    let h = expire_requests 0 (length h0.snapshot_requested_at_ms) now expired h0 in
    let drained = drain_results h.worker in
    take_results drained.1 now answered (record h { worker = drained.0 })

-- The start of runWebSocketLoop: one invalid row per symbol whose last row was valid, …
pub mark_holes : ℕ → ℕ → ℕ → ℕ → QuoteHandler → QuoteHandler
unfolding publish_invalid
mark_holes i zero recv now h = h
mark_holes i (suc n) recv now h =
    mark_holes (suc i) n recv now
      (if last_published_valid (cell_of i h).slot then publish_invalid i recv now h else h)

-- … and a snapshot in flight is stale.
pub outdate_one : ℕ → QuoteHandler → QuoteHandler
outdate_one i h = record h {
  latest_request_id = set h.latest_request_id i (get_or h.latest_request_id i 0 + 1);
  snapshot_requested_at_ms = set h.snapshot_requested_at_ms i 0;
}

pub outdate_requests : ℕ → ℕ → QuoteHandler → QuoteHandler
unfolding outdate_one
outdate_requests i zero h = h
outdate_requests i (suc n) h =
    outdate_requests (suc i) n
      (if get_or h.snapshot_requested_at_ms i 0 == 0 then h else outdate_one i h)

pub begin_connection : Bool → ℕ → ℕ → QuoteHandler → QuoteHandler
unfolding mark_holes outdate_requests
begin_connection tp_connected recv now h0 =
    let marked = if tp_connected then mark_holes 0 (length h0.book_mgr.slots) recv now h0 else h0 in
    let h = record marked { book_mgr = reset_all marked.book_mgr } in
    outdate_requests 0 (length h.latest_request_id) h

-- The heartbeats of checkPublishTimeouts, for valid quotes only.
pub heartbeats : List ℕ → ℕ → ℕ → QuoteHandler → QuoteHandler
unfolding publish_next
heartbeats [] recv now h = h
heartbeats (i ∷ is_) recv now h =
    let quote = get_quote h.book_mgr.cfg (name_of i h) (cell_of i h).slot recv (h.fh_seq_no + 1) in
    heartbeats is_ recv now (if quote.is_valid then publish_next i now quote h else h)

pub check_publish_timeouts : ℕ → ℕ → QuoteHandler → QuoteHandler
unfolding heartbeats
check_publish_timeouts recv now h =
    heartbeats (get_timeout_publish_needed now h.book_mgr) recv now h
