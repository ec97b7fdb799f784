-- ===== src/Quotes/Sequence.antt =====
-- cpp/src/quote_feed_handler.cpp: the numbers of the published rows have no holes, whatever happens.
use t2s.Base.{
  ℕ, ◌+◌, Bool, true, false, not, List, [], ◌∷◌, ◌++◌, length, length-append, range, range-++,
  if◌then◌else◌, if_cases, ◌≡◌, refl, sym, ap, ◌∙◌, none, arith,
}
use t2s.Book.Types.{BookQuote, BufferedDelta, BookState, init, syncing, valid, invalid, empty_quote}
use t2s.Book.Slot.{begin_refresh, reset, needs_snapshot, wants_refresh, is_valid}
use t2s.Book.Apply.{buffer_delta, apply_delta}
use t2s.Book.Publish.{get_quote, should_publish}
use t2s.Scheduler.{try_acquire, on_failure, on_synced}
use t2s.Clock.{stamp}
use t2s.Quotes.{
  Sent, QuoteHandler, cell_of, put_cell, put_slot, name_of, publish_quote, publish_next,
  maybe_publish, publish_invalid, request_snapshot, request_if_allowed, handle_in_init, handle_gap,
  handle_applied, handle_in_sync, handle_delta,
}

unfoldable pub numbers : List Sent → List ℕ
numbers [] = []
numbers (s ∷ ss) = s.quote.fh_seq_no ∷ numbers ss

numbers-++ : (xs ys : List Sent) → numbers (xs ++ ys) ≡ numbers xs ++ numbers ys
unfolding numbers
numbers-++ [] ys = refl
numbers-++ (x ∷ xs) ys = ap (λ l. x.quote.fh_seq_no ∷ l) (numbers-++ xs ys)

-- The rows published since the number was `start` are numbered start + 1, start + 2, … up to fhSeqNo.
pub record IsNumbered (start : ℕ) (h : QuoteHandler) : Type 0 where
  pub run : numbers h.outbox ≡ range (start + 1) (length h.outbox)
  pub last : h.fh_seq_no ≡ start + length h.outbox

module _ (start : ℕ) where
  -- The property speaks of two fields only.
  pub same_rows :
      (h h' : QuoteHandler)
      → h'.outbox ≡ h.outbox
      → h'.fh_seq_no ≡ h.fh_seq_no
      → IsNumbered start h
      → IsNumbered start h'
  same_rows h h' e f n = record {
    run = ap numbers e ∙ n.run ∙ ap (λ (l : List Sent). range (start + 1) (length l)) (sym e);
    last = f ∙ n.last ∙ ap (λ (l : List Sent). start + length l) (sym e);
  }

  pub publish_next-IsNumbered :
      (i now : ℕ) (q : BookQuote) (h : QuoteHandler)
      → IsNumbered start h
      → IsNumbered start (publish_next i now q h)
  unfolding publish_next publish_quote numbers
  publish_next-IsNumbered i now q h n =
      let q' = record q { fh_seq_no = h.fh_seq_no + 1 } in
      let stamped = stamp q'.fh_recv_time_utc_ns q'.exch_event_time_ms h.row_clock in
      let sent : Sent = record { quote = q'; row_stamp = stamped.1 } in
      let size = length-append h.outbox (sent ∷ []) in
      let next : h.fh_seq_no + 1 ≡ start + 1 + length h.outbox = ground (arith, n.last) in
      record {
        run =
            numbers-++ h.outbox (sent ∷ [])
            ∙ ap (λ l. l ++ ((h.fh_seq_no + 1) ∷ [])) n.run
            ∙ rw (size, range-++ (start + 1) (length h.outbox) 1, next) refl;
        last = ground (arith, n.last, size);
      }

  maybe_publish-IsNumbered :
      (i recv now : ℕ) (h : QuoteHandler)
      → IsNumbered start h
      → IsNumbered start (maybe_publish i recv now h)
  unfolding maybe_publish
  maybe_publish-IsNumbered i recv now h n =
      let s = (cell_of i h).slot in
      let quote = get_quote h.book_mgr.cfg (name_of i h) s recv (h.fh_seq_no + 1) in
      if_cases (IsNumbered start) (should_publish now s quote) (publish_next i now quote h) h
        (λ e. publish_next-IsNumbered i now quote h n) (λ e. n)

  pub publish_invalid-IsNumbered :
      (i recv now : ℕ) (h : QuoteHandler)
      → IsNumbered start h
      → IsNumbered start (publish_invalid i recv now h)
  unfolding publish_invalid
  publish_invalid-IsNumbered i recv now h n =
      publish_next-IsNumbered i now
        (record (empty_quote h.book_mgr.cfg.depth) {
          sym = name_of i h;
          is_valid = false;
          fh_recv_time_utc_ns = recv;
        })
        h n

  request_if_allowed-IsNumbered :
      (i now : ℕ) (before : QuoteHandler → QuoteHandler) (h : QuoteHandler)
      → ((x : QuoteHandler) → IsNumbered start x → IsNumbered start (before x))
      → IsNumbered start h
      → IsNumbered start (request_if_allowed i now before h)
  unfolding request_if_allowed request_snapshot
  request_if_allowed-IsNumbered i now before h keeps n =
      let asked = try_acquire i now h.scheduler in
      let h' = record h { scheduler = asked.0 } in
      if_cases (IsNumbered start) asked.1 (request_snapshot i now (before h')) h'
        (λ e.
          same_rows (before h') (request_snapshot i now (before h')) refl refl
            (keeps h' (same_rows h h' refl refl n)))
        (λ e. same_rows h h' refl refl n)

  handle_in_init-IsNumbered :
      (i : ℕ) (d : BufferedDelta) (now : ℕ) (h : QuoteHandler)
      → IsNumbered start h
      → IsNumbered start (handle_in_init i d now h)
  unfolding handle_in_init
  handle_in_init-IsNumbered i d now h0 n =
      let h = put_cell i (buffer_delta d (cell_of i h0)).0 h0 in
      let n' = same_rows h0 h refl refl n in
      if_cases (IsNumbered start) (needs_snapshot (cell_of i h).slot)
        (request_if_allowed i now (λ x. x) h) h
        (λ e. request_if_allowed-IsNumbered i now (λ x. x) h (λ x k. k) n') (λ e. n')

  handle_gap-IsNumbered :
      (was_valid : Bool) (i recv now draw : ℕ) (h : QuoteHandler)
      → IsNumbered start h
      → IsNumbered start (handle_gap was_valid i recv now draw h)
  unfolding handle_gap
  handle_gap-IsNumbered true i recv now draw h n =
      let counted = record h {
        ctr_sequence_gaps = h.ctr_sequence_gaps + 1;
        ctr_resyncs = h.ctr_resyncs + 1;
      } in
      let marked = publish_invalid i recv now counted in
      same_rows marked (put_slot i (reset (cell_of i marked).slot) marked) refl refl
        (publish_invalid-IsNumbered i recv now counted (same_rows h counted refl refl n))
  handle_gap-IsNumbered false i recv now draw h n =
      let counted = record h {
        scheduler = on_failure i now 0 0 none draw h.scheduler;
        ctr_resyncs = h.ctr_resyncs + 1;
      } in
      let marked = publish_invalid i recv now counted in
      same_rows marked (put_slot i (reset (cell_of i marked).slot) marked) refl refl
        (publish_invalid-IsNumbered i recv now counted (same_rows h counted refl refl n))

  handle_applied-IsNumbered :
      (was_syncing : Bool) (i recv now : ℕ) (h : QuoteHandler)
      → IsNumbered start h
      → IsNumbered start (handle_applied was_syncing i recv now h)
  unfolding handle_applied
  handle_applied-IsNumbered was_syncing i recv now h0 n0 =
      let told = record h0 { scheduler = on_synced i h0.scheduler } in
      let synced_now = if was_syncing then told else h0 in
      let n1 =
        if_cases (IsNumbered start) was_syncing told h0 (λ e. same_rows h0 told refl refl n0)
          (λ e. n0) in
      let h = maybe_publish i recv now synced_now in
      let n = maybe_publish-IsNumbered i recv now synced_now n1 in
      let begin : QuoteHandler → QuoteHandler =
        λ x. put_slot i (begin_refresh (cell_of i x).slot) x in
      let asked = request_if_allowed i now begin h in
      if_cases (IsNumbered start) (not (is_valid (cell_of i h0).slot)) h0
        (if wants_refresh h.book_mgr.cfg (cell_of i h).slot then asked else h) (λ e. n0)
        (λ e.
          if_cases (IsNumbered start) (wants_refresh h.book_mgr.cfg (cell_of i h).slot) asked h
            (λ f.
              request_if_allowed-IsNumbered i now begin h (λ x k. same_rows x (begin x) refl refl k)
                n)
            (λ f. n))

  handle_in_sync-IsNumbered :
      (was_valid : Bool) (i : ℕ) (d : BufferedDelta) (recv now draw : ℕ) (h : QuoteHandler)
      → IsNumbered start h
      → IsNumbered start (handle_in_sync was_valid i d recv now draw h)
  unfolding handle_in_sync
  handle_in_sync-IsNumbered was_valid i d recv now draw h0 n =
      let done = apply_delta h0.book_mgr.cfg d (cell_of i h0) in
      let h = put_cell i done.0 h0 in
      let n' = same_rows h0 h refl refl n in
      if_cases (IsNumbered start) done.1 (handle_applied (not was_valid) i recv now h)
        (handle_gap was_valid i recv now draw h)
        (λ e. handle_applied-IsNumbered (not was_valid) i recv now h n')
        (λ e. handle_gap-IsNumbered was_valid i recv now draw h n')

  pub handle_delta-IsNumbered :
      (i : ℕ) (d : BufferedDelta) (recv now draw : ℕ) (h : QuoteHandler)
      → IsNumbered start h
      → IsNumbered start (handle_delta i d recv now draw h)
  unfolding handle_delta
  handle_delta-IsNumbered i d recv now draw h n = go (cell_of i h).slot.state
    where
      go :
          (b : BookState)
          → IsNumbered start (elim b as (λ _. QuoteHandler) [
            | init ↦ handle_in_init i d now h
            | syncing ↦ handle_in_sync false i d recv now draw h
            | valid ↦ handle_in_sync true i d recv now draw h
            | invalid ↦ put_slot i (reset (cell_of i h).slot) h
          ])
      go init = handle_in_init-IsNumbered i d now h n
      go syncing = handle_in_sync-IsNumbered false i d recv now draw h n
      go valid = handle_in_sync-IsNumbered true i d recv now draw h n
      go invalid = same_rows h (put_slot i (reset (cell_of i h).slot) h) refl refl n
