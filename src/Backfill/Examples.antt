-- ===== src/Backfill/Examples.antt =====
-- cpp/include/trade_backfill.hpp: a concrete gap and its first page.
use t2s.Base.{
  ℕ, ◌+◌, ◌*◌, pos, Option, some, true, false, if◌then◌else◌, none, [], ◌∷◌, ◌≡◌, refl, arith,
}
use t2s.Scheduler.{default_scheduler_config, new_scheduler}
use t2s.Backfill.{
  BackfillTrade, BackfillPage, Job, TradeBackfill, on_page, settle_heads, request_next, pump_pass,
  meanwhile, Request, pump,
}
use t2s.Market.{futures_agg_trade}
use t2s.Book.Double.{Double, above}
use t2s.Json.{
  Json, Items, Members, nil, cons, boolean, integer, text, array, object, end, member, find,
}
use t2s.Json.Examples.{reads}
use t2s.Rest.{Outside, RestClient, get}
use t2s.Backfill.Fetch.{
  fetch_page, page_target, page_of, parse_backfill_body, trades_of, trade_at, futures_trade_at,
  num_at, i64_at, flag_at,
}
use t2s.Backfill.Fetch.Sound.{TellsPage, fetch_page-TellsPage}
use t2s.Backfill.SameTask.{HasOneInFlight}
use t2s.Backfill.Passes.{pump-stops}
use t2s.Backfill.Page.{on_page-IsPaged}
use t2s.Backfill.Page.Head.{IsPaged}
use t2s.Backfill.Requests.{IsAsked, asks_within_gap}

abbrev trade : ℕ → BackfillTrade ℕ
trade id = record {
  id = id;
  price = 100;
  qty = 1;
  qty_ex_rpi = none;
  first_trade_id = 0;
  last_trade_id = 0;
  trade_time_ms = 5;
  buyer_is_maker = false;
}

abbrev job : Job
job = record {
  gap = record {
    sym = "btcusdt";
    first_id = 5;
    last_id = 8;
    recovered = 1;
    recovered_through_id = 5;
  };
  failures = 0;
}

-- The reply starts before the ids asked for, as the oldest trades served may.
abbrev page : BackfillPage ℕ
page = record {
  ok = true;
  too_old = false;
  http_status = 200;
  retry_after_sec = 0;
  used_weight1m = none;
  recv_time_utc_ns = 9;
  trades = trade 5 ∷ trade 6 ∷ trade 7 ∷ [];
}

abbrev backfill : TradeBackfill ℕ
backfill = record {
  cfg = record {
    enabled = true;
    max_gap_ids = 500000;
    page_limit = 1000;
    max_failures = 10;
    sched = default_scheduler_config;
  };
  sched = new_scheduler 1 default_scheduler_config;
  queue = job ∷ [];
  in_flight = false;
  requests = [];
  results = [];
  pages_requested = 1;
  pages_failed = 0;
  trades_backfilled = 1;
  gaps_recovered = 0;
  gaps_unrecoverable = 0;
  published = [];
  events = [];
}

on_page-IsPaged_example : IsPaged page job [] backfill (on_page page 0 0 backfill)
on_page-IsPaged_example =
    on_page-IsPaged page 0 0 job [] backfill refl
      (record { positive = omega arith; needs = omega arith; counted = refl })

asks_within_gap_example :
    let settled = settle_heads backfill.queue backfill in
    IsAsked backfill (request_next 0 settled.queue settled)
    × ((request_next 0 settled.queue settled).published ≡ [])
asks_within_gap_example = asks_within_gap 0 backfill (omega arith)

-- The page is there, and a second gap waits behind the first.
abbrev answered : TradeBackfill ℕ
answered = record backfill { in_flight = true; results = page ∷ []; queue = job ∷ job ∷ [] }

-- A worker that answers each request at once.
abbrev at_once : ℕ → Option (Request → BackfillPage ℕ)
at_once k = some (λ r. page)

pump-stops_example :
    let first = pump_pass 0 0 (meanwhile (at_once 0) answered) in
    let second = pump_pass 0 0 first.0 in
    (first.1 ≡ true → first.0.in_flight ≡ false)
    × (first.1 ≡ true → (pump_pass 0 0 (meanwhile (at_once 0) first.0)).1 ≡ false)
    × (pump 0 (λ k. 0) at_once answered ≡ (if first.1 then second.0 else first.0))
    × HasOneInFlight (pump 0 (λ k. 0) at_once answered)
pump-stops_example = pump-stops 0 (λ k. 0) at_once answered (omega arith)

abbrev agg_trade : ℕ → Members → Json
agg_trade id more = object (
    member "a" (integer (pos id)) (
      member "p" (text "100") (
        member "q" (text "2") (
          member "f" (integer (pos (id * 10))) (
            member "l" (integer (pos (id * 10 + 9)))
              (member "T" (integer (pos 1000)) (member "m" (boolean true) more)))))))

abbrev agg_read : ℕ → Option Double → BackfillTrade Double
agg_read id ex_rpi = record {
  id = id;
  price = above 100;
  qty = above 2;
  qty_ex_rpi = ex_rpi;
  first_trade_id = id * 10;
  last_trade_id = id * 10 + 9;
  trade_time_ms = 1000;
  buyer_is_maker = true;
}

-- A page of futures trades, the second without `nq`.
abbrev futures_page : Items
futures_page = cons (agg_trade 5 (member "nq" (text "2") end)) (cons (agg_trade 6 end) nil)

abbrev outside : Outside
outside = record {
  http = λ host port target. record {
    status = 200;
    body = target;
    retry_after_sec = 0;
    used_weight1m = some 20;
    error = "";
  };
  parse = λ body. some (array futures_page);
  strtod = reads (("2", above 2) ∷ ("100", above 100) ∷ []);
}

abbrev client : RestClient
client = record { host = "fapi.binance.com"; port = "443"; path = "/fapi/v1/aggTrades" }

both_read :
    (fetch_page outside client futures_agg_trade 9 "BTCUSDT" 5 1000).trades
    ≡ agg_read 5 (some (above 2)) ∷ agg_read 6 none ∷ []
unfolding fetch_page get page_target page_of parse_backfill_body trades_of trade_at futures_trade_at
    num_at i64_at flag_at find
both_read = refl

fetch_page-TellsPage_example :
    TellsPage outside futures_agg_trade 9
      (get outside client (page_target client "BTCUSDT" 5 1000))
      (fetch_page outside client futures_agg_trade 9 "BTCUSDT" 5 1000)
fetch_page-TellsPage_example =
    fetch_page-TellsPage outside client futures_agg_trade 9 "BTCUSDT" 5 1000
