-- ===== src/Rows.antt =====
-- cpp/include/quote_row.hpp, cpp/include/trade_row.hpp and the gap row of cpp/include/trade_gap.hpp: the
-- rows that go to the tickerplant, as lists of kdb+ atoms. A long is an integer or the null long.
pub mod Examples
pub mod Layout
use t2s.Base.{
  ℕ, ◌+◌, ◌-◌, ◌*◌, ℤ, pos, negsuc, sub_ℕ, Bool, true, false, Option, none, some, String, List, [],
  ◌∷◌, ◌++◌, map, length, ltb, if◌then◌else◌,
}
use t2s.Book.Double.{Double}
use t2s.Book.Types.{BookQuote}
use t2s.Gap.{TradeGap, GapStatus, detected, partial, recovered, unrecoverable, missing}

pub data Atom : Type 0 where
  timestamp : ℤ → Atom
  symbol : String → Atom
  long : ℤ → Atom
  null_long : Atom
  float : Double → Atom
  boolean : Bool → Atom

abbrev pub kdb_epoch_offset_ns : ℕ
kdb_epoch_offset_ns = 946684800000000000

abbrev pub nat_long : ℕ → Atom
nat_long n = long (pos n)

pub quote_row_width : ℕ → Bool → ℕ
quote_row_width depth futures_layout = 4 * depth + 10 + (if futures_layout then 2 else 0)

pub quote_send_us_index : ℕ → Bool → ℕ
unfolding quote_row_width
quote_send_us_index depth futures_layout = quote_row_width depth futures_layout - 2

-- `none` is -1.
abbrev pub prev_long : Option ℕ → Atom
prev_long none = long (negsuc 0)
prev_long (some n) = nat_long n

abbrev pub floats : List Double → List Atom
floats = map (λ v. float v)

-- A column that only the futures layout has.
abbrev pub futures_only : Bool → Atom → List Atom
futures_only true a = a ∷ []
futures_only false a = []

pub build_quote_row : BookQuote → ℕ → ℕ → ℕ → Bool → List Atom
build_quote_row q time_utc_ns fh_parse_us fh_send_us futures_layout =
    let id : Atom → Atom = λ v. if q.is_valid then v else null_long in
    timestamp (sub_ℕ time_utc_ns kdb_epoch_offset_ns)
    ∷ (symbol q.sym
        ∷ (floats q.bid_prices
            ++ (floats q.bid_qtys
                ++ (floats q.ask_prices
                    ++ (floats q.ask_qtys
                        ++ (boolean q.is_valid
                            ∷ (nat_long q.exch_event_time_ms
                                ∷ (futures_only futures_layout (nat_long q.exch_transact_time_ms)
                                    ++ (id (nat_long q.exch_first_update_id)
                                        ∷ (id (nat_long q.exch_update_id)
                                            ∷ (futures_only futures_layout
                                                  (id (prev_long q.exch_prev_update_id))
                                                ++ (nat_long q.fh_recv_time_utc_ns
                                                    ∷ (nat_long fh_parse_us
                                                        ∷ (nat_long fh_send_us
                                                            ∷ (nat_long q.fh_seq_no
                                                            ∷ [])))))))))))))))

pub record TradeFields : Type 0 where
  pub time_utc_ns : ℕ
  pub fh_recv_time_utc_ns : ℕ
  pub sym : String
  pub price : Double
  pub qty : Double
  pub buyer_is_maker : Bool
  -- `none` is the null long of a backfilled trade
  pub exch_event_time_ms : Option ℕ
  pub exch_trade_time_ms : ℕ
  pub fh_parse_us : ℕ
  pub fh_send_us : ℕ
  pub fh_seq_no : ℕ

abbrev pub optional_long : Option ℕ → Atom
optional_long none = null_long
optional_long (some n) = nat_long n

-- The columns from exchEventTimeMs on, the same in both trade layouts.
abbrev pub trade_tail : TradeFields → List Atom
trade_tail t =
    optional_long t.exch_event_time_ms
    ∷ (nat_long t.exch_trade_time_ms
        ∷ (nat_long t.fh_recv_time_utc_ns
            ∷ (nat_long t.fh_parse_us ∷ (nat_long t.fh_send_us ∷ (nat_long t.fh_seq_no ∷ [])))))

unfoldable pub build_trade_row : TradeFields → ℕ → List Atom
build_trade_row t trade_id =
    timestamp (sub_ℕ t.time_utc_ns kdb_epoch_offset_ns)
    ∷ (symbol t.sym
        ∷ (nat_long trade_id
            ∷ (float t.price ∷ (float t.qty ∷ (boolean t.buyer_is_maker ∷ trade_tail t)))))

unfoldable pub build_agg_trade_row : TradeFields → ℕ → ℕ → ℕ → Double → List Atom
build_agg_trade_row t agg_trade_id first_trade_id last_trade_id qty_ex_rpi =
    timestamp (sub_ℕ t.time_utc_ns kdb_epoch_offset_ns)
    ∷ (symbol t.sym
        ∷ (nat_long agg_trade_id
            ∷ (nat_long first_trade_id
                ∷ (nat_long last_trade_id
                    ∷ (float t.price
                        ∷ (float t.qty
                            ∷ (float qty_ex_rpi ∷ (boolean t.buyer_is_maker ∷ trade_tail t))))))))

abbrev pub trade_row_width : ℕ
trade_row_width = 12

abbrev pub trade_row_send_us_idx : ℕ
trade_row_send_us_idx = 10

abbrev pub agg_trade_row_width : ℕ
agg_trade_row_width = 15

abbrev pub agg_trade_row_send_us_idx : ℕ
agg_trade_row_send_us_idx = 13

pub gap_status_name : GapStatus → String
gap_status_name detected = "detected"
gap_status_name partial = "partial"
gap_status_name recovered = "recovered"
gap_status_name unrecoverable = "unrecoverable"

pub build_gap_row : ℕ → TradeGap → String → GapStatus → String → List Atom
unfolding gap_status_name
build_gap_row time_utc_ns g src_table status reason =
    timestamp (sub_ℕ time_utc_ns kdb_epoch_offset_ns)
    ∷ (symbol g.sym
        ∷ (symbol src_table
            ∷ (nat_long g.first_id
                ∷ (nat_long g.last_id
                    ∷ (nat_long (missing g)
                        ∷ (symbol (gap_status_name status)
                            ∷ (nat_long g.recovered
                                ∷ ((if ltb 0 g.recovered_through_id
                                      then nat_long g.recovered_through_id
                                      else null_long)
                                    ∷ (symbol reason ∷ [])))))))))
