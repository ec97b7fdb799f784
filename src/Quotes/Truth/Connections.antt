-- ===== src/Quotes/Truth/Connections.antt =====
-- cpp/src/quote_feed_handler.cpp, the start of runWebSocketLoop: a new connection keeps every book and row
-- true.
use t2s.Base.{
  ℕ, zero, suc, ◌<◌, Bool, String, List, get_or, map-keeps, length, ◌==◌, if_cases, if◌then◌else◌,
}
use t2s.Book.Types.{BookConfig}
use t2s.Book.Slot.{new_slot, reset}
use t2s.Book.Apply.Exact.{History}
use t2s.Book.Apply.Invariant.{IsCoherent}
use t2s.Book.Lifecycle.{resets, Step-IsCoherent}
use t2s.Book.Publish.{last_published_valid}
use t2s.Book.Manager.{reset_all}
use t2s.Quotes.{
  QuoteHandler, cell_of, publish_invalid, mark_holes, outdate_requests, begin_connection,
  outdate_one,
}
use t2s.Quotes.Truth.{history, IsTrue, publish_invalid-IsTrue}

module _ (truth : String → History) (cfg : BookConfig) (names : List String)
    (pos : 0 < cfg.snapshot_limit) (cap : 0 < cfg.max_levels) where
  abbrev Holds : QuoteHandler → Type 0
  Holds = IsTrue truth cfg names

  abbrev told_by : ℕ → History
  told_by = history truth cfg names

  mark_holes-IsTrue :
      (i k recv now : ℕ) (h : QuoteHandler) → Holds h → Holds (mark_holes i k recv now h)
  unfolding mark_holes
  mark_holes-IsTrue i zero recv now h t = t
  mark_holes-IsTrue i (suc k) recv now h t =
      let was = last_published_valid (cell_of i h).slot in
      let marked = publish_invalid i recv now h in
      mark_holes-IsTrue (suc i) k recv now (if was then marked else h) (
        if_cases Holds was marked h
          (λ e. publish_invalid-IsTrue truth cfg names pos cap i recv now h t) (λ e. t))

  outdate_requests-IsTrue : (i k : ℕ) (h : QuoteHandler) → Holds h → Holds (outdate_requests i k h)
  unfolding outdate_requests outdate_one
  outdate_requests-IsTrue i zero h t = t
  outdate_requests-IsTrue i (suc k) h t =
      let idle = get_or h.snapshot_requested_at_ms i 0 == 0 in
      outdate_requests-IsTrue (suc i) k (if idle then h else outdate_one i h)
        (if_cases Holds idle h (outdate_one i h) (λ e. t) (λ e. t))

  reset_all-IsTrue :
      (h : QuoteHandler) → Holds h → Holds (record h { book_mgr = reset_all h.book_mgr })
  unfolding reset_all
  reset_all-IsTrue h t = record {
    cfg_is = t.cfg_is;
    names_are = t.names_are;
    indexed = t.indexed;
    coherent =
        map-keeps (λ j s. IsCoherent cfg (told_by j) s) reset h.book_mgr.slots (new_slot 0)
          (λ j s k.
            Step-IsCoherent cfg (told_by j) pos cap
              (resets (record { slot = s; stats = h.book_mgr.stats })) k)
          t.coherent;
    true_rows = t.true_rows;
    waiting = t.waiting;
  }

  pub begin_connection-IsTrue :
      (on : Bool) (recv now : ℕ) (h : QuoteHandler)
      → Holds h
      → Holds (begin_connection on recv now h)
  unfolding begin_connection
  begin_connection-IsTrue on recv now h0 t =
      let holes = mark_holes 0 (length h0.book_mgr.slots) recv now h0 in
      let marked = if on then holes else h0 in
      let h = record marked { book_mgr = reset_all marked.book_mgr } in
      outdate_requests-IsTrue 0 (length h.latest_request_id) h (
        reset_all-IsTrue marked (
          if_cases Holds on holes h0
            (λ e. mark_holes-IsTrue 0 (length h0.book_mgr.slots) recv now h0 t) (λ e. t)))
