-- ===== src/Book/Types.antt =====
-- cpp/include/order_book_manager.hpp: the data that the book exchanges with its callers.
use t2s.Base.{ℕ, Bool, true, false, ◌&&◌, Option, some, List, [], ◌∷◌, String, replicate}
use t2s.Market.{DepthSync, spot}
use t2s.Book.Double.{Double, nought, eq}

abbrev pub default_book_depth : ℕ
default_book_depth = 5

abbrev pub publish_timeout_ms : ℕ
publish_timeout_ms = 50

abbrev pub max_delta_buffer_size : ℕ
max_delta_buffer_size = 1000

pub record BookConfig : Type 0 where
  pub depth : ℕ
  pub snapshot_limit : ℕ
  pub refresh_low_water : ℕ
  pub max_levels : ℕ
  pub sync : DepthSync

abbrev pub default_book_config : BookConfig
default_book_config = record {
  depth = default_book_depth;
  snapshot_limit = 1000;
  refresh_low_water = 500;
  max_levels = 4000;
  sync = spot;
}

pub data SnapshotOutcome : Type 0 where
  synced awaiting_bridge sync_failed refreshed : SnapshotOutcome
  refresh_awaiting_bridge refresh_failed ignored : SnapshotOutcome

pub record PriceLevel : Type 0 where
  pub price : Double
  pub qty : Double

-- Two vectors of doubles are equal when they have one length and equal elements.
abbrev pub same_doubles : List Double → List Double → Bool
same_doubles [] [] = true
same_doubles [] (y ∷ ys) = false
same_doubles (x ∷ xs) [] = false
same_doubles (x ∷ xs) (y ∷ ys) = eq x y && same_doubles xs ys

pub record BookQuote : Type 0 where
  pub sym : String
  pub bid_prices : List Double
  pub bid_qtys : List Double
  pub ask_prices : List Double
  pub ask_qtys : List Double
  pub is_valid : Bool
  pub exch_event_time_ms : ℕ
  pub exch_transact_time_ms : ℕ
  pub fh_recv_time_utc_ns : ℕ
  pub fh_seq_no : ℕ
  pub exch_first_update_id : ℕ
  pub exch_update_id : ℕ
  -- `none` is -1, the id that a delta without `pu` carries
  pub exch_prev_update_id : Option ℕ

-- BookQuote(int depth): every slot is 0/0.
abbrev pub empty_quote : ℕ → BookQuote
empty_quote depth = record {
  sym = "";
  bid_prices = replicate depth nought;
  bid_qtys = replicate depth nought;
  ask_prices = replicate depth nought;
  ask_qtys = replicate depth nought;
  is_valid = false;
  exch_event_time_ms = 0;
  exch_transact_time_ms = 0;
  fh_recv_time_utc_ns = 0;
  fh_seq_no = 0;
  exch_first_update_id = 0;
  exch_update_id = 0;
  exch_prev_update_id = some 0;
}

abbrev pub same_prices_as : BookQuote → BookQuote → Bool
same_prices_as q r =
    same_doubles q.bid_prices r.bid_prices
    && same_doubles q.bid_qtys r.bid_qtys
    && same_doubles q.ask_prices r.ask_prices
    && same_doubles q.ask_qtys r.ask_qtys

pub record BufferedDelta : Type 0 where
  pub first_update_id : ℕ
  pub final_update_id : ℕ
  pub event_time_ms : ℕ
  pub bids : List PriceLevel
  pub asks : List PriceLevel
  -- `none` is -1: no `pu` (spot)
  pub prev_final_update_id : Option ℕ
  pub transact_time_ms : ℕ

pub data BookState : Type 0 where
  init syncing valid invalid : BookState
