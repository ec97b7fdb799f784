-- ===== src/Book/Publish.antt =====
-- cpp/include/order_book_manager.hpp: getQuote, shouldPublish and recordPublish.
pub mod Padded
pub mod Ranked
pub mod Depth
pub mod Quote
pub mod Widths
use t2s.Base.{
  ℕ, zero, suc, ◌-◌, ◌+◌, ◌≡◌, Bool, true, false, not, ◌&&◌, ◌||◌, Option, none, some, String, List,
  [], ◌∷◌, map, length, get_elem?, leb, ltb, if◌then◌else◌, reverse,
}
use t2s.Market.{DepthSync, spot, futures}
use t2s.Book.Double.{Double, nought}
use t2s.Book.Types.{
  BookConfig, BookQuote, PriceLevel, empty_quote, same_prices_as, publish_timeout_ms,
}
use t2s.Book.Slot.{Slot, depth_exhausted, is_syncing, is_valid_state}

-- The i-th slot of a side: levels[size - 1 - i], and 0/0 where the book has no level.
abbrev pub slot_level : List PriceLevel → ℕ → PriceLevel
slot_level levels i =
    let none_there : PriceLevel = record { price = nought; qty = nought } in
    if ltb i (length levels)
    then elim (get_elem? levels (length levels - 1 - i)) [ none ↦ none_there | some l ↦ l ]
    else none_there

-- The loop that fills the `n` slots from `i`.
unfoldable pub fill_slots : List PriceLevel → ℕ → ℕ → List PriceLevel
fill_slots levels i zero = []
fill_slots levels i (suc n) = slot_level levels i ∷ fill_slots levels (suc i) n

abbrev pub prices : List PriceLevel → List Double
prices = map (λ l. l.price)

abbrev pub qtys : List PriceLevel → List Double
qtys = map (λ l. l.qty)

-- A sequence-valid book whose sides guarantee the published levels.
unfoldable pub quote_is_valid : BookConfig → Slot → Bool
quote_is_valid cfg s = is_valid_state s.state && not (depth_exhausted cfg s.book)

-- The quote before its levels are filled in.
unfoldable pub quote_header : BookConfig → String → Slot → ℕ → ℕ → BookQuote
quote_header cfg sym s fh_recv_time_utc_ns fh_seq_no =
    let ok = quote_is_valid cfg s in
    record (empty_quote cfg.depth) {
      sym = sym;
      is_valid = ok;
      exch_event_time_ms = s.exch_event_time_ms;
      exch_transact_time_ms = s.exch_transact_time_ms;
      fh_recv_time_utc_ns = fh_recv_time_utc_ns;
      fh_seq_no = fh_seq_no;
      exch_first_update_id = if ok then s.range_first_u else 0;
      exch_update_id = if ok then s.seq.last_id else 0;
      exch_prev_update_id =
          if ok then (elim cfg.sync [ futures ↦ s.range_prev_u | spot ↦ some 0 ]) else some 0;
    }

unfoldable pub get_quote : BookConfig → String → Slot → ℕ → ℕ → BookQuote
get_quote cfg sym s fh_recv_time_utc_ns fh_seq_no =
    let q = quote_header cfg sym s fh_recv_time_utc_ns fh_seq_no in
    let bids = fill_slots s.book.bid.levels 0 cfg.depth in
    let asks = fill_slots s.book.ask.levels 0 cfg.depth in
    if not (is_valid_state s.state) && not (is_syncing s.state)
    then q
    else if is_valid_state s.state && not q.is_valid
    then q
    else record q {
      bid_prices = prices bids;
      bid_qtys = qtys bids;
      ask_prices = prices asks;
      ask_qtys = qtys asks;
    }

abbrev pub xor_bool : Bool → Bool → Bool
xor_bool true b = not b
xor_bool false b = b

-- First, validity change, change of the levels, heartbeat; `now` is the steady clock in milliseconds.
unfoldable pub should_publish : ℕ → Slot → BookQuote → Bool
should_publish now s current =
    if not s.has_published
    then true
    else if xor_bool current.is_valid s.last_published.is_valid
    then true
    else if not current.is_valid
    then false
    else if not (same_prices_as current s.last_published)
    then true
    else leb publish_timeout_ms (now - s.last_publish_time)

unfoldable pub record_publish : ℕ → BookQuote → Slot → Slot
record_publish now quote s = record s {
  last_published = quote;
  last_publish_time = now;
  has_published = true;
  range_closed = true;
}

-- lastPublishedValid(idx)
unfoldable pub last_published_valid : Slot → Bool
last_published_valid s = s.has_published && s.last_published.is_valid

-- The test of getTimeoutPublishNeeded for one symbol.
unfoldable pub timeout_publish_needed : ℕ → Slot → Bool
timeout_publish_needed now s =
    is_valid_state s.state && s.has_published && leb publish_timeout_ms (now - s.last_publish_time)
