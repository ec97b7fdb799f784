-- ===== src/Quotes/Truth.antt =====
-- cpp/src/quote_feed_handler.cpp with its books: what the handler keeps true of every symbol's book and of
-- every row that it publishes.
pub mod Deltas
pub mod Snapshots
pub mod Connections
pub mod Acts
use t2s.Base.{
  ℕ, zero, suc, ◌+◌, ◌<◌, ◌≡◌, refl, sym, ap, Bool, true, false, not, none, some, String, List, [],
  ◌∷◌, ◌++◌, get_or, set, set-keeps, leb, length, All, All-append, if_cases, if◌then◌else◌,
}
use mathlib.Core.Path.{subst}
use t2s.Book.Types.{
  BookConfig, BookQuote, BufferedDelta, BookState, PriceLevel, empty_quote, init, syncing, valid,
  invalid,
}
use t2s.Book.Slot.{
  Slot, Cell, new_slot, needs_snapshot, set_snapshot_requested, begin_refresh, wants_refresh, reset,
  is_valid,
}
use t2s.Book.Apply.{buffer_delta, apply_delta}
use t2s.Book.Apply.Exact.{History, IsFaithful, IsDepthReply}
use t2s.Book.Apply.Invariant.{IsCoherent}
use t2s.Book.Lifecycle.{
  Step, buffers, applies, requests, refreshes, publishes, resets, Step-IsCoherent,
}
use t2s.Book.Publish.{get_quote, should_publish, record_publish}
use t2s.Book.Publish.Quote.{IsTopOfBook, get_quote-IsTopOfBook, get_quote-sym}
use t2s.Book.Manager.{Manager, find_index}
use t2s.Scheduler.{try_acquire, on_failure, on_synced}
use t2s.Clock.{stamp}
use t2s.Worker.{SnapshotRequest, SnapshotResult, SnapshotWorker, enqueue_request}
use t2s.Worker.Each.{HoldEach, enqueue_request-HoldEach}
use t2s.Quotes.{
  Sent, QuoteHandler, cell_of, put_cell, put_slot, name_of, publish_quote, publish_next,
  maybe_publish, publish_invalid, request_snapshot, request_if_allowed, handle_in_init, handle_gap,
  handle_applied, handle_in_sync, handle_delta,
}
use t2s.Rest.{SnapshotData}

-- `truth` gives the exchange's book of each symbol; `cfg` and `names` are the handler's own.
module _ (truth : String → History) (cfg : BookConfig) (names : List String) where
  abbrev pub history : ℕ → History
  history i = truth (get_or names i "")

  -- A valid row shows the exchange's best levels for its symbol, at the update id that it carries.
  abbrev pub IsTrueRow : Sent → Type 0
  IsTrueRow s = s.quote.is_valid ≡ true → IsTopOfBook (truth s.quote.sym) cfg.depth s.quote

  abbrev pub IsTrueReply : SnapshotResult SnapshotData → Type 0
  IsTrueReply r =
      r.reply.success ≡ true
      → IsDepthReply cfg (history r.sym_idx) r.reply.last_update_id r.reply.bids r.reply.asks

  abbrev pub IsNamed : SnapshotRequest → Type 0
  IsNamed r = r.sym ≡ get_or names r.sym_idx ""

  -- Every symbol's book is coherent against its exchange's, every published row is true, and so is
  -- every result that waits; a request that waits names its symbol.
  pub record IsTrueOf (m : Manager) (rows : List Sent) (w : SnapshotWorker SnapshotData)
      : Type 0 where
    pub cfg_is : m.cfg ≡ cfg
    pub names_are : m.idx_to_sym ≡ names
    -- an index that a name has is one at which that name stands
    pub indexed :
        (name : String) (i : ℕ) → find_index name m.sym_to_idx ≡ some i → get_or names i "" ≡ name
    pub coherent : (i : ℕ) → IsCoherent cfg (history i) (get_or m.slots i (new_slot 0))
    pub true_rows : All IsTrueRow rows
    pub waiting : HoldEach IsNamed IsTrueReply w

  abbrev pub IsTrue : QuoteHandler → Type 0
  IsTrue h = IsTrueOf h.book_mgr h.outbox h.worker

  module _ (pos : 0 < cfg.snapshot_limit) (cap : 0 < cfg.max_levels) where
    -- A step of a symbol's book, written back.
    pub put_cell-IsTrue :
        (i : ℕ) (c : Cell) (h : QuoteHandler)
        → IsCoherent cfg (history i) c.slot
        → IsTrue h
        → IsTrue (put_cell i c h)
    put_cell-IsTrue i c h k t = record {
      cfg_is = t.cfg_is;
      names_are = t.names_are;
      indexed = t.indexed;
      coherent =
          set-keeps (λ j s. IsCoherent cfg (history j) s) h.book_mgr.slots i c.slot (new_slot 0) k
            t.coherent;
      true_rows = t.true_rows;
      waiting = t.waiting;
    }

    pub Step-IsTrue :
        (i : ℕ) (c : Cell) (h : QuoteHandler)
        → Step cfg (history i) (cell_of i h) c
        → IsTrue h
        → IsTrue (put_cell i c h)
    Step-IsTrue i c h s t =
        put_cell-IsTrue i c h (Step-IsCoherent cfg (history i) pos cap s (t.coherent i)) t

    pub publish_next-IsTrue :
        (i now : ℕ) (q : BookQuote) (h : QuoteHandler)
        → (q.is_valid ≡ true → IsTopOfBook (truth q.sym) cfg.depth q)
        → IsTrue h
        → IsTrue (publish_next i now q h)
    unfolding publish_next publish_quote
    publish_next-IsTrue i now q h good t =
        let numbered = record q { fh_seq_no = h.fh_seq_no + 1 } in
        let sent = publish_quote numbered (record h { fh_seq_no = h.fh_seq_no + 1 }) in
        let row : Sent = record {
          quote = numbered;
          row_stamp = (stamp q.fh_recv_time_utc_ns q.exch_event_time_ms h.row_clock).1;
        } in
        let is_true : IsTrueRow row = λ e.
          let b = good e in
          record {
            bids = b.bids;
            asks = b.asks;
            bid_prices = b.bid_prices;
            bid_qtys = b.bid_qtys;
            ask_prices = b.ask_prices;
            ask_qtys = b.ask_qtys;
            bid_best = b.bid_best;
            ask_best = b.ask_best;
          } in
        let told : IsTrue sent = record {
          cfg_is = t.cfg_is;
          names_are = t.names_are;
          indexed = t.indexed;
          coherent = t.coherent;
          true_rows = All-append IsTrueRow h.outbox (row ∷ []) t.true_rows (is_true, tt);
          waiting = t.waiting;
        } in
        Step-IsTrue i _ sent (publishes now numbered (cell_of i sent)) told

    -- A valid quote of a symbol's book is true.
    pub quote-IsTrue :
        (i recv seq_no : ℕ) (h : QuoteHandler)
        → IsTrue h
        → let q = get_quote h.book_mgr.cfg (name_of i h) (cell_of i h).slot recv seq_no in
          q.is_valid ≡ true → IsTopOfBook (truth q.sym) cfg.depth q
    quote-IsTrue i recv seq_no h t =
        subst
          (λ (k : BookConfig).
            let q = get_quote k (name_of i h) (cell_of i h).slot recv seq_no in
            q.is_valid ≡ true → IsTopOfBook (truth q.sym) cfg.depth q)
          (sym t.cfg_is)
          (subst
            (λ (l : List String).
              let q = get_quote cfg (get_or l i "") (cell_of i h).slot recv seq_no in
              q.is_valid ≡ true → IsTopOfBook (truth q.sym) cfg.depth q)
            (sym t.names_are)
            (λ e.
              let name = get_or names i "" in
              let q = get_quote cfg name (cell_of i h).slot recv seq_no in
              subst (λ n. IsTopOfBook (truth n) cfg.depth q)
                (sym (get_quote-sym cfg name (cell_of i h).slot recv seq_no))
                (get_quote-IsTopOfBook cfg (history i) name (cell_of i h).slot recv seq_no
                  (t.coherent i) e)))

    pub publish_invalid-IsTrue :
        (i recv now : ℕ) (h : QuoteHandler) → IsTrue h → IsTrue (publish_invalid i recv now h)
    unfolding publish_invalid
    publish_invalid-IsTrue i recv now h t =
        publish_next-IsTrue i now
          (record (empty_quote h.book_mgr.cfg.depth) {
            sym = name_of i h;
            is_valid = false;
            fh_recv_time_utc_ns = recv;
          })
          h (λ e. cc) t
