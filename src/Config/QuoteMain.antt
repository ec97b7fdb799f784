-- ===== src/Config/QuoteMain.antt =====
-- cpp/include/quote_fh_main_common.hpp: a quote handler's program, from its configuration to the handler.
pub mod Sound
pub mod Delivered
pub mod Run
use t2s.Base.{
  ℕ, ℤ, pos_part, Bool, true, false, not, ◌||◌, Option, String, List, if◌then◌else◌, str_eq,
  is_empty,
}
use t2s.Market.{DepthSync, spot, futures, QuoteMarketConfig}
use t2s.Config.{ConfigError, Loaded, ok, err, File, FeedHandlerConfig, default_config}
use t2s.Config.Blocks.{load, is_positive}
use t2s.Quotes.{QuoteHandler}
use t2s.Quotes.Setup.{new_quote_handler}

pub data MarketError : Type 0 where
  no_market_block : MarketError
  unknown_schema : String → MarketError
  no_rest_endpoint no_rest_numbers : MarketError

pub data Built : Type 0 where
  built : QuoteMarketConfig → Built
  unbuilt : MarketError → Built

abbrev pub health_name_of : DepthSync → String
health_name_of futures = "quote_fh_fut"
health_name_of spot = "quote_fh"

abbrev pub is_futures : DepthSync → Bool
is_futures futures = true
is_futures spot = false

-- The assignments, once the configuration has passed. The numbers are above 0.
abbrev pub market_of : DepthSync → FeedHandlerConfig → QuoteMarketConfig
market_of sync config = record {
  ws_host = config.market_host;
  ws_port = config.market_port;
  ws_path_prefix = config.market_path_prefix;
  stream_suffix = config.market_stream_suffix;
  rest_host = config.rest_host;
  rest_port = config.rest_port;
  rest_path = config.rest_path;
  snapshot_limit = pos_part config.snapshot_limit;
  snapshot_weight = pos_part config.snapshot_weight;
  weight_limit_per_min = pos_part config.weight_limit_per_min;
  tp_table = config.market_tp_table;
  health_name = health_name_of sync;
  sync = sync;
  depth = pos_part config.quote_depth;
  publish_transact_time = is_futures sync;
  clock_lag_ms = pos_part config.clock_lag_ms;
}

-- The tests after the schema's.
unfoldable pub build_for : DepthSync → FeedHandlerConfig → Built
build_for sync config =
    if is_empty config.rest_host || is_empty config.rest_path
    then unbuilt no_rest_endpoint
    else if not (is_positive config.snapshot_limit)
        || not (is_positive config.snapshot_weight)
        || not (is_positive config.weight_limit_per_min)
    then unbuilt no_rest_numbers
    else built (market_of sync config)

unfoldable pub build_market_config : FeedHandlerConfig → Built
unfolding build_for
build_market_config config =
    if not config.has_market_block
    then unbuilt no_market_block
    else if str_eq config.market_schema "spot_depth"
    then build_for spot config
    else if str_eq config.market_schema "futures_depth"
    then build_for futures config
    else unbuilt (unknown_schema config.market_schema)

-- Why run returns 1 before there is a handler.
pub data Refusal : Type 0 where
  bad_config : ConfigError → Refusal
  wrong_schema : (got : String) → Refusal
  bad_market : MarketError → Refusal

pub data Started : Type 0 where
  refused : Refusal → Started
  running : QuoteHandler → Started

unfoldable pub start_market : FeedHandlerConfig → ℕ → Built → Started
unfolding new_quote_handler
start_market config now (built market) = running (new_quote_handler config.symbols market now)
start_market config now (unbuilt e) = refused (bad_market e)

unfoldable pub start_config : String → ℕ → Loaded FeedHandlerConfig → Started
unfolding build_market_config start_market
start_config required_schema now (err e) = refused (bad_config e)
start_config required_schema now (ok config) =
    if not (str_eq config.market_schema required_schema)
    then refused (wrong_schema config.market_schema)
    else start_market config now (build_market_config config)

-- run, up to the handler's own run. `now` is the steady clock at the start.
unfoldable pub start : String → (String → Option File) → Option String → String → ℕ → Started
unfolding load start_config
start required_schema open_file env path now =
    start_config required_schema now (load open_file env path default_config)
