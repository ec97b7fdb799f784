-- ===== src/Book/Publish/Quote.antt =====
-- getQuote on every branch: what a valid quote shows of the exchange's book at the update id that it
-- carries, and what the other quotes carry.
use t2s.Base.{ℕ, ◌<◌, ◌≡◌, refl, sym, ◌∙◌, true, false, String, List, arith, reverse}
use t2s.Book.Types.{BookConfig, BookQuote, PriceLevel, empty_quote, valid}
use t2s.Book.Side.{below}
use t2s.Book.Slot.{Slot, Cell, depth_exhausted}
use t2s.Book.Apply.Exact.{History}
use t2s.Book.Apply.Invariant.{IsCoherent}
use t2s.Book.Lifecycle.{Reach, fresh_cell, Reach-IsCoherent}
use t2s.Book.Publish.{fill_slots, prices, qtys, quote_is_valid, quote_header, get_quote}
use t2s.Book.Publish.Ranked.{ShowsBest}
use t2s.Book.Publish.Padded.{pad_take}
use t2s.Book.Publish.Depth.{fill_slots-ShowsBest}

module _ (cfg : BookConfig) (sym_ : String) (s : Slot) (recv seq_no : ℕ) where
  -- A quote is valid in the state VALID only, with both sides deep enough.
  quote_parts :
      quote_is_valid cfg s ≡ true
      → (s.state ≡ valid)
        × (below s.book.bid cfg.depth ≡ false)
        × (below s.book.ask cfg.depth ≡ false)
  unfolding quote_is_valid depth_exhausted
  quote_parts e = ground arith

  get_quote-is_valid : (get_quote cfg sym_ s recv seq_no).is_valid ≡ quote_is_valid cfg s
  unfolding get_quote quote_header
  get_quote-is_valid = ground arith

  -- The four vectors that `getQuote` fills, and the update id.
  quote_fields :
      quote_is_valid cfg s ≡ true
      → let q = get_quote cfg sym_ s recv seq_no in
        let bids = fill_slots s.book.bid.levels 0 cfg.depth in
        let asks = fill_slots s.book.ask.levels 0 cfg.depth in
        (q.bid_prices ≡ prices bids)
        × (q.bid_qtys ≡ qtys bids)
        × (q.ask_prices ≡ prices asks)
        × (q.ask_qtys ≡ qtys asks)
        × (q.exch_update_id ≡ s.seq.last_id)
  unfolding get_quote quote_header
  quote_fields e = let v = (quote_parts e).0 in rw (e, v) (refl, refl, refl, refl, refl)

  pub get_quote-sym : (get_quote cfg sym_ s recv seq_no).sym ≡ sym_
  unfolding get_quote quote_header
  get_quote-sym = ground arith

-- The levels behind a quote's four vectors show the exchange's best levels on both sides.
pub record IsTopOfBook (h : History) (depth : ℕ) (q : BookQuote) : Type 0 where
  pub bids : List PriceLevel
  pub asks : List PriceLevel
  pub bid_prices : q.bid_prices ≡ prices bids
  pub bid_qtys : q.bid_qtys ≡ qtys bids
  pub ask_prices : q.ask_prices ≡ prices asks
  pub ask_qtys : q.ask_qtys ≡ qtys asks
  pub bid_best : ShowsBest true (h.bid q.exch_update_id) depth bids
  pub ask_best : ShowsBest false (h.ask q.exch_update_id) depth asks

-- A quote of a coherent slot that says it is valid shows the exchange's own best levels, best first
-- and none missing, as they were at the update id that the quote carries.
pub get_quote-IsTopOfBook :
    (cfg : BookConfig) (h : History) (name : String) (s : Slot) (recv seq_no : ℕ)
    → IsCoherent cfg h s
    → (get_quote cfg name s recv seq_no).is_valid ≡ true
    → IsTopOfBook h cfg.depth (get_quote cfg name s recv seq_no)
get_quote-IsTopOfBook cfg h name s recv seq_no i ok =
    let e = sym (get_quote-is_valid cfg name s recv seq_no) ∙ ok in
    let (v, deep_bid, deep_ask) = quote_parts cfg name s recv seq_no e in
    let (bp, bq, ap_, aq, id) = quote_fields cfg name s recv seq_no e in
    let x = (i.live (cc v)).exact in
    record {
      bids = fill_slots s.book.bid.levels 0 cfg.depth;
      asks = fill_slots s.book.ask.levels 0 cfg.depth;
      bid_prices = bp;
      bid_qtys = bq;
      ask_prices = ap_;
      ask_qtys = aq;
      bid_best = rw id (
          fill_slots-ShowsBest true (h.bid s.seq.last_id) cfg.max_levels cfg.depth s.book.bid
            x.bid_valid x.bid_exact deep_bid);
      ask_best = rw id (
          fill_slots-ShowsBest false (h.ask s.seq.last_id) cfg.max_levels cfg.depth s.book.ask
            x.ask_valid x.ask_exact deep_ask);
    }

-- Every valid quote that a book can publish, whatever the events, snapshots, refreshes, resets and
-- publishes before it, shows the exchange's own best `depth` levels of both sides at the update id it
-- carries: best first, each real, and no level of the exchange missing between them. The stream and
-- the snapshots are the exchange's (hypotheses of the steps), and the limits are not 0.
pub published-IsTopOfBook :
    {cfg : BookConfig} {h : History} {now : ℕ} {c : Cell} (name : String) (recv seq_no : ℕ)
    → 0 < cfg.snapshot_limit
    → 0 < cfg.max_levels
    → Reach cfg h (fresh_cell now) c
    → (get_quote cfg name c.slot recv seq_no).is_valid ≡ true
    → IsTopOfBook h cfg.depth (get_quote cfg name c.slot recv seq_no)
published-IsTopOfBook {cfg} {h} {c = c} name recv seq_no pos cap r ok =
    get_quote-IsTopOfBook cfg h name c.slot recv seq_no (Reach-IsCoherent cfg h pos cap r) ok

-- A quote with nothing in it: both sides empty, and the update ids 0.
abbrev pub blank_quote : BookConfig → String → Slot → ℕ → ℕ → BookQuote
blank_quote cfg name s recv seq_no = record (empty_quote cfg.depth) {
  sym = name;
  exch_event_time_ms = s.exch_event_time_ms;
  exch_transact_time_ms = s.exch_transact_time_ms;
  fh_recv_time_utc_ns = recv;
  fh_seq_no = seq_no;
}

-- A side's levels from the best one on, as many as are published, with empty slots behind them.
abbrev pub best_first : BookConfig → List PriceLevel → List PriceLevel
best_first cfg levels = pad_take cfg.depth (reverse levels)
