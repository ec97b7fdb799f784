-- ===== src/Trades/Setup.antt =====
-- cpp/src/trade_feed_handler.cpp: the constructor, and the defaults of TradeBackfillConfig.
use t2s.Base.{false, refl, []}
use t2s.Market.{MarketConfig}
use t2s.Scheduler.{default_scheduler_config, new_scheduler}
use t2s.Clock.{new_clock}
use t2s.Book.Double.{Double}
use t2s.Backfill.{TradeBackfillConfig, TradeBackfill}
use t2s.Trades.{TradeHandler}
use t2s.Trades.Numbering.{IsNumbered, AreRowsFrom}

abbrev pub backfill_config : MarketConfig → TradeBackfillConfig
backfill_config market = record {
  enabled = market.backfill_enabled;
  max_gap_ids = market.backfill_max_gap_ids;
  page_limit = 1000;
  max_failures = 10;
  sched = record default_scheduler_config {
    weight_per_request = market.backfill_weight;
    weight_limit_per_min = market.backfill_weight_limit;
  };
}

abbrev pub new_backfill : TradeBackfillConfig → TradeBackfill Double
new_backfill cfg = record {
  cfg = cfg;
  sched = new_scheduler 1 cfg.sched;
  queue = [];
  in_flight = false;
  requests = [];
  results = [];
  pages_requested = 0;
  pages_failed = 0;
  trades_backfilled = 0;
  gaps_recovered = 0;
  gaps_unrecoverable = 0;
  published = [];
  events = [];
}

unfoldable pub new_trade_handler : MarketConfig → TradeHandler
new_trade_handler market = record {
  schema = market.schema;
  tp_table = market.tp_table;
  id_tracker = [];
  seeded_syms = [];
  gap_events = record { pending = []; acked_rows = 0; rejected_rows = 0 };
  backfill = new_backfill (backfill_config market);
  row_clock = new_clock market.clock_lag_ms;
  fh_seq_no = 0;
  outbox = [];
  msgs_received = 0;
  msgs_published = 0;
  parse_failures = 0;
  ctr_exch_out_of_order = 0;
  ctr_exch_duplicates = 0;
  ctr_exch_gaps = 0;
  ctr_exch_missed = 0;
  ctr_nq_missing = 0;
  ctr_backfilled = 0;
}

-- A new handler has published nothing.
pub new_trade_handler-IsNumbered : (market : MarketConfig) → IsNumbered 0 (new_trade_handler market)
unfolding new_trade_handler IsNumbered AreRowsFrom
new_trade_handler-IsNumbered market = (tt, refl)
