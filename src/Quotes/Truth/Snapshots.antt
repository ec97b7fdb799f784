-- ===== src/Quotes/Truth/Snapshots.antt =====
-- cpp/src/quote_feed_handler.cpp, applySnapshotResults: the snapshots that come back keep every book and row
-- true.
use t2s.Base.{
  none, ℕ, zero, suc, ◌+◌, ◌-◌, ◌<◌, ◌≡◌, refl, sym, Bool, true, false, not, String, List, [], ◌∷◌,
  get_or, set, ltb, ◌==◌, ◌&&◌, All, if_cases, if◌then◌else◌,
}
use mathlib.Core.Path.{subst}
use t2s.Book.Types.{
  BookConfig, SnapshotOutcome, synced, awaiting_bridge, sync_failed, refreshed,
  refresh_awaiting_bridge, refresh_failed, ignored,
}
use t2s.Book.Slot.{set_snapshot_requested, cancel_refresh}
use t2s.Book.Apply.Exact.{History, IsDepthReply}
use t2s.Book.Apply.Invariant.{IsCoherent}
use t2s.Book.Lifecycle.{answers, requests, cancels, Step-IsCoherent}
use t2s.Book.Snapshot.{on_snapshot}
use t2s.Scheduler.{on_fetch_ok, on_failure}
use t2s.Worker.{SnapshotResult}
use t2s.Quotes.{
  QuoteHandler, cell_of, put_cell, forget_request, expire_requests, heed_outcome, take_snapshot,
  take_failure, take_result, take_results, snapshot_timeout_ms, expire_one,
}
use t2s.Rest.{SnapshotData}
use t2s.Quotes.Truth.{history, IsTrueReply, IsTrue, put_cell-IsTrue}

module _ (truth : String → History) (cfg : BookConfig) (names : List String)
    (pos : 0 < cfg.snapshot_limit) (cap : 0 < cfg.max_levels) where
  abbrev Holds : QuoteHandler → Type 0
  Holds = IsTrue truth cfg names

  abbrev told_by : ℕ → History
  told_by = history truth cfg names

  forget_request-IsTrue : (i : ℕ) (h : QuoteHandler) → Holds h → Holds (forget_request i h)
  forget_request-IsTrue i h t =
      let c = cancel_refresh (cell_of i h) in
      let k = Step-IsCoherent cfg (told_by i) pos cap (cancels (cell_of i h)) (t.coherent i) in
      put_cell-IsTrue truth cfg names pos cap i
        (record c { slot = set_snapshot_requested false c.slot }) h
        (Step-IsCoherent cfg (told_by i) pos cap (requests false c) k) t

  pub expire_requests-IsTrue :
      (i n now : ℕ) (draw : ℕ → ℕ) (h : QuoteHandler)
      → Holds h
      → Holds (expire_requests i n now draw h)
  unfolding expire_requests expire_one
  expire_requests-IsTrue i zero now draw h t = t
  expire_requests-IsTrue i (suc n) now draw h t =
      let at = get_or h.snapshot_requested_at_ms i 0 in
      let late = not (at == 0) && ltb snapshot_timeout_ms (now - at) in
      let counted = record h {
        latest_request_id = set h.latest_request_id i (get_or h.latest_request_id i 0 + 1);
        snapshot_requested_at_ms = set h.snapshot_requested_at_ms i 0;
        scheduler = on_failure i now 0 0 none (draw i) h.scheduler;
        ctr_snapshot_failures = h.ctr_snapshot_failures + 1;
      } in
      expire_requests-IsTrue (suc i) n now draw (if late then forget_request i counted else h) (
        if_cases Holds late (forget_request i counted) h (λ e. forget_request-IsTrue i counted t)
          (λ e. t))

  heed_outcome-IsTrue :
      (o : SnapshotOutcome) (i now draw : ℕ) (h : QuoteHandler)
      → Holds h
      → Holds (heed_outcome o i now draw h)
  unfolding heed_outcome
  heed_outcome-IsTrue synced i now draw h t = t
  heed_outcome-IsTrue awaiting_bridge i now draw h t = t
  heed_outcome-IsTrue sync_failed i now draw h t = t
  heed_outcome-IsTrue refreshed i now draw h t = t
  heed_outcome-IsTrue refresh_awaiting_bridge i now draw h t = t
  heed_outcome-IsTrue refresh_failed i now draw h t = t
  heed_outcome-IsTrue ignored i now draw h t = t

  take_snapshot-IsTrue :
      (r : SnapshotResult SnapshotData) (now draw : ℕ) (h : QuoteHandler)
      → IsDepthReply cfg (told_by r.sym_idx) r.reply.last_update_id r.reply.bids r.reply.asks
      → Holds h
      → Holds (take_snapshot r now draw h)
  unfolding take_snapshot
  take_snapshot-IsTrue r now draw h0 d t0 =
      let i = r.sym_idx in
      let h = record h0 { scheduler = on_fetch_ok now r.reply.used_weight1m h0.scheduler } in
      let done = λ (k : BookConfig).
        on_snapshot k r.reply.last_update_id r.reply.bids r.reply.asks (cell_of i h) in
      let c = (done h0.book_mgr.cfg).0 in
      let t =
        put_cell-IsTrue truth cfg names pos cap i c h
          (subst (λ (k : BookConfig). IsCoherent cfg (told_by i) (done k).0.slot) (sym t0.cfg_is)
            (Step-IsCoherent cfg (told_by i) pos cap
              (answers r.reply.last_update_id r.reply.bids r.reply.asks (cell_of i h) d)
              (t0.coherent i)))
          t0 in
      heed_outcome-IsTrue (done h0.book_mgr.cfg).1 i now draw (put_cell i c h) t

  take_result-IsTrue :
      (r : SnapshotResult SnapshotData) (now draw : ℕ) (h : QuoteHandler)
      → IsTrueReply truth cfg names r
      → Holds h
      → Holds (take_result r now draw h)
  unfolding take_result take_failure
  take_result-IsTrue r now draw h d t =
      let i = r.sym_idx in
      let settled = record h { snapshot_requested_at_ms = set h.snapshot_requested_at_ms i 0 } in
      let counted = record settled {
        ctr_snapshot_failures = h.ctr_snapshot_failures + 1;
        scheduler =
            on_failure i now r.reply.http_status r.reply.retry_after_sec r.reply.used_weight1m draw
              h.scheduler;
      } in
      let snapped = take_snapshot r now draw settled in
      let failed = forget_request i counted in
      if_cases Holds (ltb r.request_id (get_or h.latest_request_id i 0)) h
        (if not r.reply.success then failed else snapped) (λ e. t)
        (λ e.
          if_cases Holds (not r.reply.success) failed snapped
            (λ f. forget_request-IsTrue i counted t)
            (λ f. take_snapshot-IsTrue r now draw settled (d (succeeded r.reply.success f)) t))
    where
      succeeded : (b : Bool) → not b ≡ false → b ≡ true
      succeeded true e = refl
      succeeded false e = cc

  pub take_results-IsTrue :
      (rs : List (SnapshotResult SnapshotData)) (now : ℕ) (draw : ℕ → ℕ) (h : QuoteHandler)
      → All (IsTrueReply truth cfg names) rs
      → Holds h
      → Holds (take_results rs now draw h)
  unfolding take_results
  take_results-IsTrue [] now draw h d t = t
  take_results-IsTrue (r ∷ rs) now draw h d t =
      take_results-IsTrue rs now draw (take_result r now (draw r.request_id) h) d.1
        (take_result-IsTrue r now (draw r.request_id) h d.0 t)
