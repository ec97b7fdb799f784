-- ===== src/Backfill/Fetch.antt =====
-- cpp/include/trade_backfill.hpp: parseBackfillBody and RestTradeFetcher. Prices and quantities are doubles. An
-- id or a time below 0, which the exchange does not send, is read as 0.
pub mod Sound
use t2s.Base.{
  ℕ, ℤ, pos, pos_part, Bool, true, false, not, ◌&&◌, ◌||◌, Option, none, some, String, List, [],
  ◌∷◌, ◌==◌, ltb, if◌then◌else◌, join, is_empty, contains,
}
use t2s.Market.{TradeSchema, spot_trade, futures_agg_trade}
use t2s.Book.Double.{Double}
use t2s.Json.{
  Json, Items, Members, nil, cons, null, boolean, integer, real, text, array, object, find,
  is_int64, Strtod,
}
use t2s.Rest.{HttpResult, RestClient, Outside, get, to_string}
use t2s.Backfill.{BackfillTrade, BackfillPage}

infixl 5 ◌>>=◌
abbrev ◌>>=◌ {ℓ κ} : {A : Type ℓ} {B : Type κ} → Option A → (A → Option B) → Option B
none >>= f = none
some a >>= f = f a

-- The lambda `num`: all of the text is the number.
unfoldable pub num_at : (String → Strtod) → String → Members → Option Double
num_at strtod key v = elim (find key v) [
  | some (text s) ↦ if (strtod s).converted && (strtod s).whole then some (strtod s).value else none
  | _ ↦ none
]

unfoldable pub i64_at : String → Members → Option ℕ
i64_at key v = elim (find key v) [
  | some (integer n) ↦ if is_int64 n then some (pos_part n) else none
  | _ ↦ none
]

unfoldable pub flag_at : String → Members → Option Bool
flag_at key v = elim (find key v) [ some (boolean b) ↦ some b | _ ↦ none ]

-- `good` for an element of the spot endpoint's reply, and of the futures'.
unfoldable pub spot_trade_at : (String → Strtod) → Members → Option (BackfillTrade Double)
unfolding num_at i64_at flag_at
spot_trade_at strtod v = do
  id ← i64_at "id" v
  price ← num_at strtod "price" v
  qty ← num_at strtod "qty" v
  time ← i64_at "time" v
  maker ← flag_at "isBuyerMaker" v
  some (record {
    id = id;
    price = price;
    qty = qty;
    qty_ex_rpi = none;
    first_trade_id = 0;
    last_trade_id = 0;
    trade_time_ms = time;
    buyer_is_maker = maker;
  })

-- `nq` is optional.
unfoldable pub futures_trade_at : (String → Strtod) → Members → Option (BackfillTrade Double)
unfolding num_at i64_at flag_at
futures_trade_at strtod v = do
  id ← i64_at "a" v
  price ← num_at strtod "p" v
  qty ← num_at strtod "q" v
  first ← i64_at "f" v
  last ← i64_at "l" v
  time ← i64_at "T" v
  maker ← flag_at "m" v
  some (record {
    id = id;
    price = price;
    qty = qty;
    qty_ex_rpi = num_at strtod "nq" v;
    first_trade_id = first;
    last_trade_id = last;
    trade_time_ms = time;
    buyer_is_maker = maker;
  })

unfoldable pub trade_at : (String → Strtod) → TradeSchema → Json → Option (BackfillTrade Double)
unfolding spot_trade_at futures_trade_at
trade_at strtod spot_trade (object v) = spot_trade_at strtod v
trade_at strtod futures_agg_trade (object v) = futures_trade_at strtod v
trade_at strtod schema v = none

-- The loop over the elements: what is pushed before a bad one stays, and false is returned.
unfoldable pub trades_of :
    (String → Strtod) → TradeSchema → Items → Bool × List (BackfillTrade Double)
unfolding trade_at
trades_of strtod schema nil = (true, [])
trades_of strtod schema (cons v vs) =
    let rest = trades_of strtod schema vs in
    elim (trade_at strtod schema v) [ none ↦ (false, []) | some t ↦ (rest.0, t ∷ rest.1) ]

unfoldable pub parse_backfill_body :
    (String → Strtod) → TradeSchema → Option Json → Bool × List (BackfillTrade Double)
unfolding trades_of
parse_backfill_body strtod schema (some (array vs)) = trades_of strtod schema vs
parse_backfill_body strtod schema doc = (false, [])

-- The page of a response, at the time that it arrives.
unfoldable pub page_of : Outside → TradeSchema → ℕ → HttpResult → BackfillPage Double
unfolding parse_backfill_body contains
page_of outside schema recv r =
    let page : BackfillPage Double = record {
      ok = false;
      too_old = false;
      http_status = r.status;
      retry_after_sec = r.retry_after_sec;
      used_weight1m = r.used_weight1m;
      recv_time_utc_ns = recv;
      trades = [];
    } in
    let parsed = parse_backfill_body outside.strtod schema (outside.parse r.body) in
    if not (is_empty r.error)
    then page
    else if not (r.status == 200)
    then record page { too_old = r.status == 400 && contains "-4166" r.body }
    else record page { ok = parsed.0; trades = parsed.1 }

unfoldable pub page_target : RestClient → String → ℕ → ℕ → String
unfolding join to_string
page_target client sym from_id limit = join client.path (
    join "?symbol="
      (join sym (join "&fromId=" (join (to_string from_id) (join "&limit=" (to_string limit))))))

unfoldable pub fetch_page :
    Outside → RestClient → TradeSchema → ℕ → String → ℕ → ℕ → BackfillPage Double
unfolding page_target page_of
fetch_page outside client schema recv sym from_id limit =
    page_of outside schema recv (get outside client (page_target client sym from_id limit))
