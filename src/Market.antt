-- ===== src/Market.antt =====
-- cpp/include/market_config.hpp: the per-market wiring of the handlers and the stream path.
pub mod Examples
use t2s.Base.{ℕ, Bool, true, false, String, List, [], ◌∷◌, if◌then◌else◌, join}

pub data TradeSchema : Type 0 where
  spot_trade futures_agg_trade : TradeSchema

pub record MarketConfig : Type 0 where
  pub host : String
  pub port : String
  pub stream_suffix : String
  pub tp_table : String
  pub schema : TradeSchema
  pub backfill_enabled : Bool
  pub backfill_rest_host : String
  pub backfill_rest_port : String
  pub backfill_rest_path : String
  pub backfill_weight : ℕ
  pub backfill_weight_limit : ℕ
  pub backfill_max_gap_ids : ℕ
  pub clock_lag_ms : ℕ

abbrev pub default_market : MarketConfig
default_market = record {
  host = "stream.binance.com";
  port = "9443";
  stream_suffix = "@trade";
  tp_table = "trade_binance";
  schema = spot_trade;
  backfill_enabled = false;
  backfill_rest_host = "api.binance.com";
  backfill_rest_port = "443";
  backfill_rest_path = "/api/v3/historicalTrades";
  backfill_weight = 25;
  backfill_weight_limit = 6000;
  backfill_max_gap_ids = 500000;
  clock_lag_ms = 2000;
}

-- Which exchange rule keeps the local book in step with the diff stream.
pub data DepthSync : Type 0 where
  spot futures : DepthSync

pub record QuoteMarketConfig : Type 0 where
  pub ws_host : String
  pub ws_port : String
  pub ws_path_prefix : String
  pub stream_suffix : String
  pub rest_host : String
  pub rest_port : String
  pub rest_path : String
  pub snapshot_limit : ℕ
  pub snapshot_weight : ℕ
  pub weight_limit_per_min : ℕ
  pub tp_table : String
  pub health_name : String
  pub sync : DepthSync
  pub depth : ℕ
  pub publish_transact_time : Bool
  pub clock_lag_ms : ℕ

abbrev pub default_quote_market : QuoteMarketConfig
default_quote_market = record {
  ws_host = "stream.binance.com";
  ws_port = "9443";
  ws_path_prefix = "";
  stream_suffix = "@depth@100ms";
  rest_host = "api.binance.com";
  rest_port = "443";
  rest_path = "/api/v3/depth";
  snapshot_limit = 1000;
  snapshot_weight = 50;
  weight_limit_per_min = 6000;
  tp_table = "quote_binance";
  health_name = "quote_fh";
  sync = spot;
  depth = 5;
  publish_transact_time = false;
  clock_lag_ms = 2000;
}

-- The loop over the symbols, from the i-th on.
abbrev pub streams_from : Bool → List String → String → String
streams_from first [] stream_suffix = ""
streams_from first (s ∷ ss) stream_suffix =
    join (if first then "" else "/")
      (join (join s stream_suffix) (streams_from false ss stream_suffix))

unfoldable pub build_stream_path : List String → String → String
unfolding join
build_stream_path symbols stream_suffix =
    join "/stream?streams=" (streams_from true symbols stream_suffix)

-- QuoteFeedHandler::buildDepthStreamPath
unfoldable pub build_depth_stream_path : QuoteMarketConfig → List String → String
unfolding build_stream_path join
build_depth_stream_path cfg symbols_lower =
    join cfg.ws_path_prefix (build_stream_path symbols_lower cfg.stream_suffix)
