-- ===== src/Quotes/Numbering.antt =====
-- cpp/src/quote_feed_handler.cpp: the numbers of the published rows over every sequence of what the handler does.
use t2s.Base.{
  Option, none, some, String, ℕ, zero, suc, ◌+◌, ◌-◌, Bool, not, List, [], ◌∷◌, length, get_or, set,
  ltb, ◌==◌, ◌&&◌, if◌then◌else◌, if_cases, refl,
}
use t2s.Book.Types.{
  BufferedDelta, SnapshotOutcome, synced, awaiting_bridge, sync_failed, refreshed,
  refresh_awaiting_bridge, refresh_failed, ignored,
}
use t2s.Book.Snapshot.{on_snapshot}
use t2s.Book.Publish.{get_quote, last_published_valid}
use t2s.Book.Manager.{reset_all, get_timeout_publish_needed}
use t2s.Scheduler.{on_fetch_ok}
use t2s.Worker.{SnapshotResult, drain_results, work}
use t2s.Quotes.{
  QuoteHandler, cell_of, put_cell, name_of, publish_next, publish_invalid, expire_requests,
  heed_outcome, take_snapshot, take_failure, take_result, take_results, apply_snapshot_results,
  mark_holes, outdate_requests, begin_connection, heartbeats, check_publish_timeouts,
  snapshot_timeout_ms, expire_one, outdate_one,
}
use t2s.Rest.{SnapshotData}
use t2s.Json.{Json, Strtod}
use t2s.Book.Manager.{get_symbol_index}
use t2s.Clock.{note_event}
use t2s.Quotes.Message.{read_delta, process_delta, process_message, count_failure}
use t2s.Quotes.Acts.{Act, message, results, timeouts, connection, works, act, acts}
use t2s.Quotes.Sequence.{
  IsNumbered, same_rows, publish_next-IsNumbered, publish_invalid-IsNumbered,
  handle_delta-IsNumbered,
}

module _ (start : ℕ) where
  expire_requests-IsNumbered :
      (i n now : ℕ) (draw : ℕ → ℕ) (h : QuoteHandler)
      → IsNumbered start h
      → IsNumbered start (expire_requests i n now draw h)
  unfolding expire_requests expire_one
  expire_requests-IsNumbered i zero now draw h k = k
  expire_requests-IsNumbered i (suc n) now draw h k =
      let at = get_or h.snapshot_requested_at_ms i 0 in
      let late = not (at == 0) && ltb snapshot_timeout_ms (now - at) in
      expire_requests-IsNumbered (suc i) n now draw
        (if late then expire_one i now (draw i) h else h)
        (if_cases (IsNumbered start) late (expire_one i now (draw i) h) h
          (λ e. same_rows start h (expire_one i now (draw i) h) refl refl k) (λ e. k))

  heed_outcome-IsNumbered :
      (o : SnapshotOutcome) (i now draw : ℕ) (h : QuoteHandler)
      → IsNumbered start h
      → IsNumbered start (heed_outcome o i now draw h)
  unfolding heed_outcome
  heed_outcome-IsNumbered synced i now draw h n = same_rows start h _ refl refl n
  heed_outcome-IsNumbered awaiting_bridge i now draw h n = n
  heed_outcome-IsNumbered sync_failed i now draw h n = same_rows start h _ refl refl n
  heed_outcome-IsNumbered refreshed i now draw h n = same_rows start h _ refl refl n
  heed_outcome-IsNumbered refresh_awaiting_bridge i now draw h n = same_rows start h _ refl refl n
  heed_outcome-IsNumbered refresh_failed i now draw h n = same_rows start h _ refl refl n
  heed_outcome-IsNumbered ignored i now draw h n = n

  take_result-IsNumbered :
      (r : SnapshotResult SnapshotData) (now draw : ℕ) (h : QuoteHandler)
      → IsNumbered start h
      → IsNumbered start (take_result r now draw h)
  unfolding take_result take_failure take_snapshot
  take_result-IsNumbered r now draw h n =
      let i = r.sym_idx in
      let settled = record h { snapshot_requested_at_ms = set h.snapshot_requested_at_ms i 0 } in
      let fetched = record settled {
        scheduler = on_fetch_ok now r.reply.used_weight1m settled.scheduler;
      } in
      let done =
        on_snapshot h.book_mgr.cfg r.reply.last_update_id r.reply.bids r.reply.asks
          (cell_of i fetched) in
      let snapped = take_snapshot r now draw settled in
      let failed = take_failure r now draw settled in
      if_cases (IsNumbered start) (ltb r.request_id (get_or h.latest_request_id i 0)) h
        (if not r.reply.success then failed else snapped) (λ e. n)
        (λ e.
          if_cases (IsNumbered start) (not r.reply.success) failed snapped
            (λ f. same_rows start h failed refl refl n)
            (λ f.
              heed_outcome-IsNumbered done.1 i now draw (put_cell i done.0 fetched)
                (same_rows start h (put_cell i done.0 fetched) refl refl n)))

  take_results-IsNumbered :
      (rs : List (SnapshotResult SnapshotData)) (now : ℕ) (draw : ℕ → ℕ) (h : QuoteHandler)
      → IsNumbered start h
      → IsNumbered start (take_results rs now draw h)
  unfolding take_results
  take_results-IsNumbered [] now draw h n = n
  take_results-IsNumbered (r ∷ rs) now draw h n =
      take_results-IsNumbered rs now draw (take_result r now (draw r.request_id) h)
        (take_result-IsNumbered r now (draw r.request_id) h n)

  mark_holes-IsNumbered :
      (i k recv now : ℕ) (h : QuoteHandler)
      → IsNumbered start h
      → IsNumbered start (mark_holes i k recv now h)
  unfolding mark_holes
  mark_holes-IsNumbered i zero recv now h n = n
  mark_holes-IsNumbered i (suc k) recv now h n =
      let was = last_published_valid (cell_of i h).slot in
      let marked = publish_invalid i recv now h in
      mark_holes-IsNumbered (suc i) k recv now (if was then marked else h) (
        if_cases (IsNumbered start) was marked h
          (λ e. publish_invalid-IsNumbered start i recv now h n) (λ e. n))

  outdate_requests-IsNumbered :
      (i k : ℕ) (h : QuoteHandler) → IsNumbered start h → IsNumbered start (outdate_requests i k h)
  unfolding outdate_requests outdate_one
  outdate_requests-IsNumbered i zero h n = n
  outdate_requests-IsNumbered i (suc k) h n =
      let idle = get_or h.snapshot_requested_at_ms i 0 == 0 in
      outdate_requests-IsNumbered (suc i) k (if idle then h else outdate_one i h) (
        if_cases (IsNumbered start) idle h (outdate_one i h) (λ e. n)
          (λ e. same_rows start h (outdate_one i h) refl refl n))

  begin_connection-IsNumbered :
      (on : Bool) (recv now : ℕ) (h : QuoteHandler)
      → IsNumbered start h
      → IsNumbered start (begin_connection on recv now h)
  unfolding begin_connection
  begin_connection-IsNumbered on recv now h0 n =
      let holes = mark_holes 0 (length h0.book_mgr.slots) recv now h0 in
      let marked = if on then holes else h0 in
      let h = record marked { book_mgr = reset_all marked.book_mgr } in
      outdate_requests-IsNumbered 0 (length h.latest_request_id) h (
        same_rows start marked h refl refl (
          if_cases (IsNumbered start) on holes h0
            (λ e. mark_holes-IsNumbered 0 (length h0.book_mgr.slots) recv now h0 n) (λ e. n)))

  heartbeats-IsNumbered :
      (is_ : List ℕ) (recv now : ℕ) (h : QuoteHandler)
      → IsNumbered start h
      → IsNumbered start (heartbeats is_ recv now h)
  unfolding heartbeats
  heartbeats-IsNumbered [] recv now h n = n
  heartbeats-IsNumbered (i ∷ is_) recv now h n =
      let quote =
        get_quote h.book_mgr.cfg (name_of i h) (cell_of i h).slot recv (h.fh_seq_no + 1) in
      let sent = publish_next i now quote h in
      heartbeats-IsNumbered is_ recv now (if quote.is_valid then sent else h) (
        if_cases (IsNumbered start) quote.is_valid sent h
          (λ e. publish_next-IsNumbered start i now quote h n) (λ e. n))

  process_delta-IsNumbered :
      (o : Option ℕ) (d : BufferedDelta) (recv now draw : ℕ) (h : QuoteHandler)
      → IsNumbered start h
      → IsNumbered start (process_delta o d recv now draw h)
  unfolding process_delta
  process_delta-IsNumbered none d recv now draw h n = n
  process_delta-IsNumbered (some i) d recv now draw h n =
      let told = record h { row_clock = note_event d.event_time_ms h.row_clock } in
      handle_delta-IsNumbered start i d recv now draw told (same_rows start h told refl refl n)

  process_message-IsNumbered :
      (strtod : String → Strtod) (doc : Option Json) (recv now draw : ℕ) (h : QuoteHandler)
      → IsNumbered start h
      → IsNumbered start (process_message strtod doc recv now draw h)
  unfolding process_message
  process_message-IsNumbered strtod none recv now draw h n =
      same_rows start h (count_failure h) refl refl n
  process_message-IsNumbered strtod (some doc) recv now draw h n =
      go (read_delta strtod h.book_mgr.cfg.sync doc)
    where
      go :
          (o : Option (String × BufferedDelta))
          → IsNumbered start (elim o as (λ _. QuoteHandler) [
            | none ↦ count_failure h
            | some (name, delta) ↦
                process_delta (get_symbol_index name h.book_mgr) delta recv now draw h
          ])
      go none = same_rows start h (count_failure h) refl refl n
      go (some (name, delta)) =
          process_delta-IsNumbered (get_symbol_index name h.book_mgr) delta recv now draw h n

  act-IsNumbered :
      (strtod : String → Strtod) (a : Act) (h : QuoteHandler)
      → IsNumbered start h
      → IsNumbered start (act strtod a h)
  unfolding act apply_snapshot_results check_publish_timeouts
  act-IsNumbered strtod (message doc recv now draw) h n =
      process_message-IsNumbered strtod doc recv now draw h n
  act-IsNumbered strtod (results now expired answered) h0 n =
      let h = expire_requests 0 (length h0.snapshot_requested_at_ms) now expired h0 in
      let k = expire_requests-IsNumbered 0 (length h0.snapshot_requested_at_ms) now expired h0 n in
      let drained = drain_results h.worker in
      take_results-IsNumbered drained.1 now answered (record h { worker = drained.0 })
        (same_rows start h (record h { worker = drained.0 }) refl refl k)
  act-IsNumbered strtod (timeouts recv now) h n =
      heartbeats-IsNumbered (get_timeout_publish_needed now h.book_mgr) recv now h n
  act-IsNumbered strtod (connection on recv now) h n = begin_connection-IsNumbered on recv now h n
  act-IsNumbered strtod (works fetch) h n =
      same_rows start h (record h { worker = work fetch h.worker }) refl refl n

  -- Over any sequence of messages, good or bad, results of the worker, heartbeats and new connections, from a handler
  -- whose published rows are numbered without a hole: they still are. Each published row has the number
  -- after the one before it, invalid rows and heartbeats included, and a quote that is not published
  -- takes no number.
  pub acts-IsNumbered :
      (strtod : String → Strtod) (as_ : List Act) (h : QuoteHandler)
      → IsNumbered start h
      → IsNumbered start (acts strtod as_ h)
  unfolding acts
  acts-IsNumbered strtod [] h n = n
  acts-IsNumbered strtod (a ∷ as_) h n =
      acts-IsNumbered strtod as_ (act strtod a h) (act-IsNumbered strtod a h n)
