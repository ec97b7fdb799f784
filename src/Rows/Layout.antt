-- ===== src/Rows/Layout.antt =====
-- cpp/include/quote_row.hpp and cpp/include/trade_gap.hpp: the rows' widths and what is read back from them.
use t2s.Base.{
  ℕ, suc, ◌+◌, ◌-◌, ◌*◌, Bool, true, false, some, String, List, [], ◌∷◌, ◌++◌, map, length,
  length-append, sub_ℕ, get_elem?, if◌then◌else◌, ◌≡◌, refl, ap, ◌∙◌, arith,
}
use t2s.Book.Types.{BookConfig, BookQuote}
use t2s.Book.Slot.{Slot}
use t2s.Book.Publish.{get_quote}
use t2s.Book.Publish.Widths.{get_quote-lengths}
use t2s.Rows.{
  Atom, timestamp, symbol, boolean, float, null_long, kdb_epoch_offset_ns, prev_long,
  quote_row_width, quote_send_us_index, futures_only, floats, build_quote_row, nat_long,
}

length-map {ℓ κ} :
    {A : Type ℓ} {B : Type κ} (f : A → B) (xs : List A) → length (map f xs) ≡ length xs
length-map f [] = refl
length-map f (x ∷ xs) = ap suc (length-map f xs)

-- Every vector of a quote has one entry for each of the depth's levels.
pub record IsDeep (depth : ℕ) (q : BookQuote) : Type 0 where
  pub bid_prices : length q.bid_prices ≡ depth
  pub bid_qtys : length q.bid_qtys ≡ depth
  pub ask_prices : length q.ask_prices ≡ depth
  pub ask_qtys : length q.ask_qtys ≡ depth

length-futures_only : (b : Bool) (a : Atom) → length (futures_only b a) ≡ (if b then 1 else 0)
length-futures_only true a = refl
length-futures_only false a = refl

get_elem?-++ {ℓ} :
    {A : Type ℓ} (xs ys : List A) (i : ℕ) → get_elem? (xs ++ ys) (length xs + i) ≡ get_elem? ys i
get_elem?-++ [] ys i = ap (get_elem? ys) (omega arith)
get_elem?-++ (x ∷ xs) ys i =
    let e : suc (length xs) + i ≡ suc (length xs + i) = omega arith in rw e (get_elem?-++ xs ys i)

length-four :
    (x y : Atom) (a b c d tail : List Atom)
    → length (x ∷ (y ∷ (a ++ (b ++ (c ++ (d ++ tail))))))
      ≡ 2 + length a + length b + length c + length d + length tail
length-four x y a b c d tail = ground (
  arith,
  length-append a (b ++ (c ++ (d ++ tail))),
  length-append b (c ++ (d ++ tail)),
  length-append c (d ++ tail),
  length-append d tail,
)

-- An index behind the head and four blocks.
get_elem?-four :
    (x y : Atom) (a b c d tail : List Atom) (i : ℕ)
    → get_elem?
        (x ∷ (y ∷ (a ++ (b ++ (c ++ (d ++ tail))))))
        (suc (suc (length a + (length b + (length c + (length d + i))))))
      ≡ get_elem? tail i
get_elem?-four x y a b c d tail i =
    get_elem?-++ a _ (length b + (length c + (length d + i)))
    ∙ get_elem?-++ b _ (length c + (length d + i))
    ∙ get_elem?-++ c _ (length d + i)
    ∙ get_elem?-++ d tail i

-- The head and the four vectors of a quote row, before any other columns.
layout_of :
    (depth : ℕ) (q : BookQuote) (time : ℕ) (tail : List Atom)
    → IsDeep depth q
    → let row =
        timestamp (sub_ℕ time kdb_epoch_offset_ns)
        ∷ (symbol q.sym
            ∷ (floats q.bid_prices
                ++ (floats q.bid_qtys ++ (floats q.ask_prices ++ (floats q.ask_qtys ++ tail))))) in
      (length row ≡ 4 * depth + 2 + length tail)
      × ((i n : ℕ) → n ≡ 4 * depth + 2 + i → get_elem? row n ≡ get_elem? tail i)
layout_of depth q time tail d =
    let x = timestamp (sub_ℕ time kdb_epoch_offset_ns) in
    let a = floats q.bid_prices in
    let b = floats q.bid_qtys in
    let c = floats q.ask_prices in
    let e = floats q.ask_qtys in
    let la : length a ≡ depth = length-map (λ v. float v) q.bid_prices ∙ d.bid_prices in
    let lb : length b ≡ depth = length-map (λ v. float v) q.bid_qtys ∙ d.bid_qtys in
    let lc : length c ≡ depth = length-map (λ v. float v) q.ask_prices ∙ d.ask_prices in
    let le : length e ≡ depth = length-map (λ v. float v) q.ask_qtys ∙ d.ask_qtys in
    (
      length-four x (symbol q.sym) a b c e tail ∙ ground arith,
      λ i n at.
          let place : n ≡ suc (suc (length a + (length b + (length c + (length e + i))))) =
            ground arith in
          ap (get_elem? (x ∷ (symbol q.sym ∷ (a ++ (b ++ (c ++ (e ++ tail))))))) place
          ∙ get_elem?-four x (symbol q.sym) a b c e tail i,
    )

-- A quote row of either layout has exactly the width that the handler announces for the depth, and
-- its second to last column, the one that the handler patches, is fhSendUs, with fhSeqNo behind it.
pub build_quote_row-layout :
    (depth : ℕ) (q : BookQuote) (time parse send : ℕ) (futures : Bool)
    → IsDeep depth q
    → let row = build_quote_row q time parse send futures in
      (length row ≡ quote_row_width depth futures)
      × (get_elem? row (quote_send_us_index depth futures) ≡ some (nat_long send))
      × (get_elem? row (quote_send_us_index depth futures + 1) ≡ some (nat_long q.fh_seq_no))
unfolding build_quote_row quote_row_width quote_send_us_index
build_quote_row-layout depth q time parse send true d =
    let id : Atom → Atom = λ v. if q.is_valid then v else null_long in
    let tail =
      boolean q.is_valid
      ∷ (nat_long q.exch_event_time_ms
          ∷ (nat_long q.exch_transact_time_ms
              ∷ (id (nat_long q.exch_first_update_id)
                  ∷ (id (nat_long q.exch_update_id)
                      ∷ (id (prev_long q.exch_prev_update_id)
                          ∷ (nat_long q.fh_recv_time_utc_ns
                              ∷ (nat_long parse
                                  ∷ (nat_long send ∷ (nat_long q.fh_seq_no ∷ []))))))))) in
    let l = layout_of depth q time tail d in
    (
      l.0 ∙ ground arith,
      l.1 8 (4 * depth + 10 + 2 - 2) ground arith,
      l.1 9 (4 * depth + 10 + 2 - 2 + 1) ground arith,
    )
build_quote_row-layout depth q time parse send false d =
    let id : Atom → Atom = λ v. if q.is_valid then v else null_long in
    let tail =
      boolean q.is_valid
      ∷ (nat_long q.exch_event_time_ms
          ∷ (id (nat_long q.exch_first_update_id)
              ∷ (id (nat_long q.exch_update_id)
                  ∷ (nat_long q.fh_recv_time_utc_ns
                      ∷ (nat_long parse ∷ (nat_long send ∷ (nat_long q.fh_seq_no ∷ []))))))) in
    let l = layout_of depth q time tail d in
    (
      l.0 ∙ ground arith,
      l.1 6 (4 * depth + 10 + 0 - 2) ground arith,
      l.1 7 (4 * depth + 10 + 0 - 2 + 1) ground arith,
    )

-- Every quote of a book has the depth's number of entries in each vector.
pub get_quote-IsDeep :
    (cfg : BookConfig) (name : String) (s : Slot) (recv seq_no : ℕ)
    → IsDeep cfg.depth (get_quote cfg name s recv seq_no)
get_quote-IsDeep cfg name s recv seq_no =
    let l = get_quote-lengths cfg name s recv seq_no in
    record { bid_prices = l.0; bid_qtys = l.1; ask_prices = l.2; ask_qtys = l.3 }

-- The row of any quote that a book gives, valid or not, has exactly the width that the handler
-- announces to TP for its depth and layout, with fhSendUs second to last, where the handler patches
-- it, and fhSeqNo last.
pub published_row-layout :
    (cfg : BookConfig) (name : String) (s : Slot) (recv seq_no time parse send : ℕ) (futures : Bool)
    → let q = get_quote cfg name s recv seq_no in
      let row = build_quote_row q time parse send futures in
      (length row ≡ quote_row_width cfg.depth futures)
      × (get_elem? row (quote_send_us_index cfg.depth futures) ≡ some (nat_long send))
      × (get_elem? row (quote_send_us_index cfg.depth futures + 1) ≡ some (nat_long q.fh_seq_no))
published_row-layout cfg name s recv seq_no time parse send futures =
    build_quote_row-layout cfg.depth (get_quote cfg name s recv seq_no) time parse send futures
      (get_quote-IsDeep cfg name s recv seq_no)
