-- ===== src/Config/TradeMain.antt =====
-- cpp/src/trade_fh_main.cpp and trade_fh_fut_main.cpp: the market of a trade handler.
use t2s.Base.{String, Option, [], ◌∷◌, pos_part, if◌then◌else◌, str_eq}
use t2s.Market.{MarketConfig, default_market, spot_trade, futures_agg_trade}
use t2s.Config.{ConfigError, Loaded, ok, err, File, FeedHandlerConfig, default_config}
use t2s.Config.Blocks.{load}
use t2s.Trades.{TradeHandler}
use t2s.Trades.Setup.{new_trade_handler}

abbrev pub with_endpoint : FeedHandlerConfig → MarketConfig → MarketConfig
with_endpoint config m = record m {
  backfill_rest_host = config.backfill_rest_host;
  backfill_rest_path = config.backfill_rest_path;
  backfill_weight = pos_part config.backfill_weight;
  backfill_weight_limit = pos_part config.backfill_weight_limit;
  backfill_max_gap_ids = pos_part config.backfill_max_gap_ids;
}

-- A schema that is not the futures' is spot. The numbers that are cast are above 0 in a configuration that
-- loads.
unfoldable pub build_market_config : FeedHandlerConfig → MarketConfig
build_market_config config =
    let m = record default_market {
      host = config.market_host;
      port = config.market_port;
      stream_suffix = config.market_stream_suffix;
      tp_table = config.market_tp_table;
      schema =
          if str_eq config.market_schema "futures_agg_trade" then futures_agg_trade else spot_trade;
      clock_lag_ms = pos_part config.clock_lag_ms;
      backfill_enabled = config.backfill_enabled;
    } in
    if config.backfill_enabled then with_endpoint config m else m

pub data Started : Type 0 where
  -- the load's error
  refused : ConfigError → Started
  no_symbols : Started
  running : TradeHandler → Started

unfoldable pub start_config : Loaded FeedHandlerConfig → Started
unfolding build_market_config new_trade_handler
start_config (err e) = refused e
start_config (ok config) = elim config.symbols [
  | [] ↦ no_symbols
  | s ∷ ss ↦ running (new_trade_handler (build_market_config config))
]

-- main, up to the handler's own run; the futures' main warns of another schema and runs all the same.
unfoldable pub start : (String → Option File) → Option String → String → Started
unfolding load start_config
start open_file env path = start_config (load open_file env path default_config)
