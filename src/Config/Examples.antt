-- ===== src/Config/Examples.antt =====
-- Concrete configuration files, and the quote handler that starts with them.
use t2s.Base.{
  to_lower, c_string, sym, pos, true, none, some, Option, String, List, [], ◌∷◌, ◌++◌, map, All,
  Bool, ◌≢◌, ◌≡◌, refl, ap, if◌then◌else◌, str_eq,
}
use t2s.Json.{Items, Json, Members, nil, cons, integer, text, array, object, end, member, find}
use t2s.Book.Slot.{capped}
use t2s.Config.{
  File, document, FeedHandlerConfig, default_config, ok, load_shared, read_shared, shared_path_for,
  members_of, symbols_in, symbols_of, quote_depth_in, clock_lag_in,
}
use t2s.Config.Blocks.{
  load, load_blocks, handler_members, load_tickerplant, load_reconnect, load_market, load_backfill,
  load_logging, block, text_or, int_or, int64_or, enabled_in,
}
use mathlib.Core.Path.{subst}
use t2s.Config.Names.{IsStreamName, NoneIsNul}
use t2s.Config.Loading.{IsUsable, load-IsUsable}
use t2s.Book.Manager.{new_manager}
use t2s.Market.{spot}
use t2s.Config.QuoteMain.{
  market_of, wrong_schema, running, refused, start, start_config, start_market, build_market_config,
  build_for,
}
use t2s.Config.TradeMain
use t2s.Trades.Setup.{new_trade_handler}
use t2s.Config.QuoteMain.Sound.{IsSound}
use t2s.Quotes.{Sent, QuoteHandler}
use t2s.Quotes.Truth.{IsTrueRow}
use t2s.Config.QuoteMain.Delivered.{with_number, log_shows_truth}
use t2s.Publisher.Delivery.{Link, reconnect, run, drain, new_link}
use t2s.Publisher.Delivery.Steady.{
  publish_all, first_contact, quiet_plant, IsSteady, published-publish_all, publish_all-IsSteady,
  first_contact-IsSteady,
}
use t2s.Quotes.Setup.{new_quote_handler}
use t2s.Quotes.Acts.{acts}
use t2s.Quotes.Examples.{read_text, day, day-IsHonest, streams, streams-IsHonest, truth}
use t2s.Quotes.Run.{run_quotes}
use t2s.Config.QuoteMain.Run.{run-IsSound}

abbrev market_block : Members
market_block = member "schema" (text "spot_depth") (
    member "rest_host" (text "api.binance.com") (
      member "rest_path" (text "/api/v3/depth") (
        member "snapshot_limit" (integer (pos 2)) (
          member "snapshot_weight" (integer (pos 50))
            (member "weight_limit_per_min" (integer (pos 6000)) end)))))

abbrev backfill_block : Members
backfill_block = member "rest_host" (text "api.binance.com") (
    member "rest_path" (text "/api/v3/historicalTrades") (
      member "request_weight" (integer (pos 25))
        (member "weight_limit_per_min" (integer (pos 6000)) end)))

abbrev handler_file : Json
handler_file =
    object (member "market" (object market_block) (member "backfill" (object backfill_block) end))

abbrev shared_members : Members
shared_members =
    member "symbols" (array (cons (text "BTCUSDT") (cons (text "ethusdt") nil)))
      (member "quote_depth" (integer (pos 1)) end)

abbrev shared_file : Json
shared_file = object shared_members

abbrev open_file : String → Option File
open_file path =
    if str_eq path "config/quote.json"
    then some (document handler_file)
    else if str_eq path "config/shared.json"
    then some (document shared_file)
    else none

abbrev loaded_config : FeedHandlerConfig
loaded_config = record default_config {
  symbols = "btcusdt" ∷ "ethusdt" ∷ [];
  quote_depth = pos 1;
  shared_config_path = "config/shared.json";
  has_market_block = true;
  market_schema = "spot_depth";
  rest_host = "api.binance.com";
  rest_path = "/api/v3/depth";
  snapshot_limit = pos 2;
  snapshot_weight = pos 50;
  weight_limit_per_min = pos 6000;
  backfill_enabled = true;
  backfill_rest_host = "api.binance.com";
  backfill_rest_path = "/api/v3/historicalTrades";
  backfill_weight = pos 25;
  backfill_weight_limit = pos 6000;
}

loads : load open_file none "config/quote.json" default_config ≡ ok loaded_config
unfolding c_string load load_shared read_shared load_blocks shared_path_for members_of
    handler_members symbols_in symbols_of quote_depth_in clock_lag_in load_tickerplant
    load_reconnect load_market load_backfill load_logging block text_or int_or int64_or enabled_in
    find
loads = refl

-- Neither symbol of the shared file.
shared_names :
    (ms : Members) (vs : Items)
    → open_file "config/shared.json" ≡ some (document (object ms))
    → find "symbols" ms ≡ some (array vs)
    → NoneIsNul vs
unfolding find NoneIsNul
shared_names ms vs e f =
    let same : shared_members ≡ ms = cc in
    let given : find "symbols" shared_members ≡ some (array vs) =
      subst (λ m. find "symbols" m ≡ some (array vs)) (sym same) f in
    let all : cons (text "BTCUSDT") (cons (text "ethusdt") nil) ≡ vs = cc in
    subst NoneIsNul all (refl, (refl, tt))

load-IsUsable_example : IsUsable IsStreamName loaded_config
unfolding shared_path_for
load-IsUsable_example =
    load-IsUsable open_file none "config/quote.json" loaded_config shared_names loads

-- A symbol that is a NUL loads as the empty text.
nul_symbol : symbols_of (cons (text "\0") nil) ≡ ok ("" ∷ [])
unfolding symbols_of to_lower c_string
nul_symbol = refl

abbrev started : QuoteHandler
started = new_quote_handler loaded_config.symbols (market_of spot loaded_config) 0

starts : start "spot_depth" open_file none "config/quote.json" 0 ≡ running started
unfolding start start_config start_market build_market_config build_for
starts = ap (start_config "spot_depth" 0) loads

-- The other program refuses the same files.
other_program :
    start "futures_depth" open_file none "config/quote.json" 0 ≡ refused (wrong_schema "spot_depth")
unfolding start start_config
other_program = ap (start_config "futures_depth" 0) loads

run-IsSound_example :
    IsSound truth "spot_depth" started (run_quotes read_text true streams started).handler
unfolding new_quote_handler new_manager capped
run-IsSound_example =
    run-IsSound truth read_text "spot_depth" open_file none "config/quote.json" 0 started true
      streams starts (streams-IsHonest started.book_mgr.cfg refl)

-- The trade program takes any schema that is not the futures' for spot.
trade_starts :
    TradeMain.start open_file none "config/quote.json"
    ≡ TradeMain.running (new_trade_handler (TradeMain.build_market_config loaded_config))
unfolding TradeMain.start TradeMain.start_config
trade_starts = ap TradeMain.start_config loads

-- The rows of the day, on a link on which nothing goes wrong.
abbrev rows : List Sent
rows = (acts read_text day started).outbox

abbrev first : Link Sent × Bool
first = reconnect first_contact (new_link 4096 7 12 quiet_plant)

first_stands : (first.1 ≡ true) × IsSteady first.0
first_stands = first_contact-IsSteady Sent

rows_stand :
    ((run (publish_all rows) first.0).alive ≡ true)
    × ((run (publish_all rows) first.0).handler.rows_unresendable ≡ 0)
unfolding IsSteady
rows_stand = let steady = publish_all-IsSteady rows first.0 first_stands.1 in (steady.0, steady.2)

quiet_plant_other : (quiet_plant {R = Sent}).session ≢ some 7
quiet_plant_other = λ e. absurd cc

log_shows_truth_example :
    ((drain (run (publish_all rows) first.0).pipe (run (publish_all rows) first.0)).tp.log
      ≡ [] ++ map with_number rows)
    × All (IsTrueRow truth started.book_mgr.cfg started.book_mgr.idx_to_sym) rows
unfolding new_quote_handler
log_shows_truth_example =
    log_shows_truth truth read_text "spot_depth" open_file none "config/quote.json" 0 started day
      starts (day-IsHonest started.book_mgr.cfg refl) 4096 7 12 quiet_plant first_contact
      (publish_all rows) quiet_plant_other first_stands.0 (published-publish_all rows) rows_stand.0
      rows_stand.1
