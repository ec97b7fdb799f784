-- ===== src/Quotes/Truth/Deltas.antt =====
-- cpp/src/quote_feed_handler.cpp, handleDelta and what it calls: a delta keeps every book and row true.
use t2s.Base.{
  ℕ, ◌+◌, ◌<◌, sym, ap, Bool, true, false, not, none, String, List, get_or, if_cases, if◌then◌else◌,
}
use mathlib.Core.Path.{subst}
use t2s.Book.Types.{BookConfig, BufferedDelta, BookState, init, syncing, valid, invalid}
use t2s.Book.Slot.{
  needs_snapshot, set_snapshot_requested, begin_refresh, wants_refresh, reset, is_valid,
}
use t2s.Book.Apply.{buffer_delta, apply_delta}
use t2s.Book.Apply.Exact.{History, IsFaithful}
use t2s.Book.Apply.Invariant.{IsCoherent}
use t2s.Book.Lifecycle.{buffers, applies, requests, refreshes, resets, Step-IsCoherent}
use t2s.Book.Publish.{get_quote, should_publish}
use t2s.Scheduler.{try_acquire, on_failure, on_synced}
use t2s.Worker.Each.{enqueue_request-HoldEach}
use t2s.Quotes.{
  QuoteHandler, cell_of, put_cell, put_slot, name_of, publish_next, maybe_publish, publish_invalid,
  request_snapshot, request_if_allowed, handle_in_init, handle_gap, handle_applied, handle_in_sync,
  handle_delta,
}
use t2s.Quotes.Truth.{
  history, IsTrueReply, IsNamed, IsTrue, put_cell-IsTrue, Step-IsTrue, publish_next-IsTrue,
  quote-IsTrue, publish_invalid-IsTrue,
}

module _ (truth : String → History) (cfg : BookConfig) (names : List String)
    (pos : 0 < cfg.snapshot_limit) (cap : 0 < cfg.max_levels) where
  abbrev Holds : QuoteHandler → Type 0
  Holds = IsTrue truth cfg names

  abbrev told_by : ℕ → History
  told_by = history truth cfg names

  maybe_publish-IsTrue :
      (i recv now : ℕ) (h : QuoteHandler) → Holds h → Holds (maybe_publish i recv now h)
  unfolding maybe_publish
  maybe_publish-IsTrue i recv now h t =
      let s = (cell_of i h).slot in
      let quote = get_quote h.book_mgr.cfg (name_of i h) s recv (h.fh_seq_no + 1) in
      if_cases Holds (should_publish now s quote) (publish_next i now quote h) h
        (λ e.
          publish_next-IsTrue truth cfg names pos cap i now quote h
            (quote-IsTrue truth cfg names pos cap i recv (h.fh_seq_no + 1) h t) t)
        (λ e. t)

  request_snapshot-IsTrue :
      (i now : ℕ) (h : QuoteHandler) → Holds h → Holds (request_snapshot i now h)
  unfolding request_snapshot
  request_snapshot-IsTrue i now h t =
      let marked =
        Step-IsTrue truth cfg names pos cap i
          (record (cell_of i h) { slot = set_snapshot_requested true (cell_of i h).slot }) h
          (requests true (cell_of i h)) t in
      record {
        cfg_is = marked.cfg_is;
        names_are = marked.names_are;
        indexed = marked.indexed;
        coherent = marked.coherent;
        true_rows = marked.true_rows;
        waiting =
            enqueue_request-HoldEach (IsNamed truth cfg names) (IsTrueReply truth cfg names) i
              (name_of i h) h.worker (λ id. ap (λ (l : List String). get_or l i "") t.names_are)
              t.waiting;
      }

  request_if_allowed-IsTrue :
      (i now : ℕ) (before : QuoteHandler → QuoteHandler) (h : QuoteHandler)
      → ((x : QuoteHandler) → Holds x → Holds (before x))
      → Holds h
      → Holds (request_if_allowed i now before h)
  unfolding request_if_allowed
  request_if_allowed-IsTrue i now before h keeps t =
      let h' = record h { scheduler = (try_acquire i now h.scheduler).0 } in
      if_cases Holds (try_acquire i now h.scheduler).1 (request_snapshot i now (before h')) h'
        (λ e. request_snapshot-IsTrue i now (before h') (keeps h' t)) (λ e. t)

  handle_in_init-IsTrue :
      (i : ℕ) (d : BufferedDelta) (now : ℕ) (h : QuoteHandler)
      → IsFaithful cfg.sync (told_by i) d
      → Holds h
      → Holds (handle_in_init i d now h)
  unfolding handle_in_init
  handle_in_init-IsTrue i d now h0 f t0 =
      let h = put_cell i (buffer_delta d (cell_of i h0)).0 h0 in
      let t =
        Step-IsTrue truth cfg names pos cap i (buffer_delta d (cell_of i h0)).0 h0
          (buffers d (cell_of i h0) f) t0 in
      if_cases Holds (needs_snapshot (cell_of i h).slot) (request_if_allowed i now (λ x. x) h) h
        (λ e. request_if_allowed-IsTrue i now (λ x. x) h (λ x k. k) t) (λ e. t)

  reset-IsTrue :
      (i : ℕ) (h : QuoteHandler) → Holds h → Holds (put_slot i (reset (cell_of i h).slot) h)
  reset-IsTrue i h t =
      Step-IsTrue truth cfg names pos cap i
        (record (cell_of i h) { slot = reset (cell_of i h).slot }) h (resets (cell_of i h)) t

  handle_gap-IsTrue :
      (was_valid : Bool) (i recv now draw : ℕ) (h : QuoteHandler)
      → Holds h
      → Holds (handle_gap was_valid i recv now draw h)
  unfolding handle_gap
  handle_gap-IsTrue true i recv now draw h t =
      let counted = record h {
        ctr_sequence_gaps = h.ctr_sequence_gaps + 1;
        ctr_resyncs = h.ctr_resyncs + 1;
      } in
      reset-IsTrue i (publish_invalid i recv now counted)
        (publish_invalid-IsTrue truth cfg names pos cap i recv now counted t)
  handle_gap-IsTrue false i recv now draw h t =
      let counted = record h {
        scheduler = on_failure i now 0 0 none draw h.scheduler;
        ctr_resyncs = h.ctr_resyncs + 1;
      } in
      reset-IsTrue i (publish_invalid i recv now counted)
        (publish_invalid-IsTrue truth cfg names pos cap i recv now counted t)

  handle_applied-IsTrue :
      (was_syncing : Bool) (i recv now : ℕ) (h : QuoteHandler)
      → Holds h
      → Holds (handle_applied was_syncing i recv now h)
  unfolding handle_applied
  handle_applied-IsTrue was_syncing i recv now h0 t0 =
      let told = record h0 { scheduler = on_synced i h0.scheduler } in
      let synced_now = if was_syncing then told else h0 in
      let t1 = if_cases Holds was_syncing told h0 (λ e. t0) (λ e. t0) in
      let h = maybe_publish i recv now synced_now in
      let t = maybe_publish-IsTrue i recv now synced_now t1 in
      let begin : QuoteHandler → QuoteHandler =
        λ x. put_slot i (begin_refresh (cell_of i x).slot) x in
      let keeps = λ (x : QuoteHandler) (k : Holds x).
        Step-IsTrue truth cfg names pos cap i
          (record (cell_of i x) { slot = begin_refresh (cell_of i x).slot }) x
          (refreshes (cell_of i x)) k in
      let asked = request_if_allowed i now begin h in
      let wants = wants_refresh h.book_mgr.cfg (cell_of i h).slot in
      if_cases Holds (not (is_valid (cell_of i h0).slot)) h0 (if wants then asked else h) (λ e. t0)
        (λ e.
          if_cases Holds wants asked h (λ f. request_if_allowed-IsTrue i now begin h keeps t)
            (λ f. t))

  handle_in_sync-IsTrue :
      (was_valid : Bool) (i : ℕ) (d : BufferedDelta) (recv now draw : ℕ) (h : QuoteHandler)
      → IsFaithful cfg.sync (told_by i) d
      → Holds h
      → Holds (handle_in_sync was_valid i d recv now draw h)
  unfolding handle_in_sync
  handle_in_sync-IsTrue was_valid i d recv now draw h0 f t0 =
      let done = apply_delta h0.book_mgr.cfg d (cell_of i h0) in
      let h = put_cell i done.0 h0 in
      let t =
        put_cell-IsTrue truth cfg names pos cap i done.0 h0
          (subst
            (λ (k : BookConfig). IsCoherent cfg (told_by i) (apply_delta k d (cell_of i h0)).0.slot)
            (sym t0.cfg_is)
            (Step-IsCoherent cfg (told_by i) pos cap (applies d (cell_of i h0) f) (t0.coherent i)))
          t0 in
      if_cases Holds done.1 (handle_applied (not was_valid) i recv now h)
        (handle_gap was_valid i recv now draw h)
        (λ e. handle_applied-IsTrue (not was_valid) i recv now h t)
        (λ e. handle_gap-IsTrue was_valid i recv now draw h t)

  pub handle_delta-IsTrue :
      (i : ℕ) (d : BufferedDelta) (recv now draw : ℕ) (h : QuoteHandler)
      → IsFaithful cfg.sync (told_by i) d
      → Holds h
      → Holds (handle_delta i d recv now draw h)
  unfolding handle_delta
  handle_delta-IsTrue i d recv now draw h f t = go (cell_of i h).slot.state
    where
      go :
          (b : BookState)
          → Holds (elim b as (λ _. QuoteHandler) [
            | init ↦ handle_in_init i d now h
            | syncing ↦ handle_in_sync false i d recv now draw h
            | valid ↦ handle_in_sync true i d recv now draw h
            | invalid ↦ put_slot i (reset (cell_of i h).slot) h
          ])
      go init = handle_in_init-IsTrue i d now h f t
      go syncing = handle_in_sync-IsTrue false i d recv now draw h f t
      go valid = handle_in_sync-IsTrue true i d recv now draw h f t
      go invalid = reset-IsTrue i h t
