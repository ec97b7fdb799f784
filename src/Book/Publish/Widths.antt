-- ===== src/Book/Publish/Widths.antt =====
-- getQuote: each of a quote's vectors has the configured depth's number of entries.
use t2s.Base.{
  ℕ, zero, suc, not, ◌&&◌, String, List, [], ◌∷◌, map, length, length-replicate, if◌then◌else◌, ◌≡◌,
  refl, ap, ◌∙◌, if_cases,
}
use t2s.Book.Double.{Double, nought}
use t2s.Book.Types.{BookConfig, BookQuote, PriceLevel}
use t2s.Book.Slot.{Slot, is_valid_state, is_syncing}
use t2s.Book.Publish.{fill_slots, prices, qtys, get_quote, quote_header}

length-fill_slots : (levels : List PriceLevel) (i n : ℕ) → length (fill_slots levels i n) ≡ n
unfolding fill_slots
length-fill_slots levels i zero = refl
length-fill_slots levels i (suc n) = ap suc (length-fill_slots levels (suc i) n)

length-map : (f : PriceLevel → Double) (xs : List PriceLevel) → length (map f xs) ≡ length xs
length-map f [] = refl
length-map f (x ∷ xs) = ap suc (length-map f xs)

AreLong : ℕ → BookQuote → Type 0
AreLong depth q =
    (length q.bid_prices ≡ depth)
    × (length q.bid_qtys ≡ depth)
    × (length q.ask_prices ≡ depth)
    × (length q.ask_qtys ≡ depth)

pub get_quote-lengths :
    (cfg : BookConfig) (name : String) (s : Slot) (recv seq_no : ℕ)
    → let q = get_quote cfg name s recv seq_no in
      (length q.bid_prices ≡ cfg.depth)
      × (length q.bid_qtys ≡ cfg.depth)
      × (length q.ask_prices ≡ cfg.depth)
      × (length q.ask_qtys ≡ cfg.depth)
unfolding get_quote quote_header AreLong
get_quote-lengths cfg name s recv seq_no =
    let q = quote_header cfg name s recv seq_no in
    let bids = fill_slots s.book.bid.levels 0 cfg.depth in
    let asks = fill_slots s.book.ask.levels 0 cfg.depth in
    let none = length-replicate cfg.depth nought in
    let filled : BookQuote = record q {
      bid_prices = prices bids;
      bid_qtys = qtys bids;
      ask_prices = prices asks;
      ask_qtys = qtys asks;
    } in
    let deep : (f : PriceLevel → Double) (ls : List PriceLevel)
        → length (map f (fill_slots ls 0 cfg.depth)) ≡ cfg.depth =
      λ f ls. length-map f (fill_slots ls 0 cfg.depth) ∙ length-fill_slots ls 0 cfg.depth in
    if_cases (AreLong cfg.depth) (not (is_valid_state s.state) && not (is_syncing s.state)) q
      (if is_valid_state s.state && not q.is_valid then q else filled)
      (λ e. (none, none, none, none))
      (λ e.
        if_cases (AreLong cfg.depth) (is_valid_state s.state && not q.is_valid) q filled
          (λ f. (none, none, none, none))
          (λ f. (
            deep (λ l. l.price) s.book.bid.levels,
            deep (λ l. l.qty) s.book.bid.levels,
            deep (λ l. l.price) s.book.ask.levels,
            deep (λ l. l.qty) s.book.ask.levels,
          )))
