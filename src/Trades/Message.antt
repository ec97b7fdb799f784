-- ===== src/Trades/Message.antt =====
-- cpp/src/trade_feed_handler.cpp: processMessage, from a parsed document to the fields of a trade. An id or a
-- time below 0, which the exchange does not send, is read as 0.
use t2s.Base.{ℕ, ℤ, pos, pos_part, false, Option, none, some, String, if◌then◌else◌}
use t2s.Market.{TradeSchema, spot_trade, futures_agg_trade}
use t2s.Book.Double.{Double, nan}
use t2s.Json.{
  Json, Members, Strtod, JsonReader, has_error, reader_of, string, int64, bool, price_string, obj,
  deref,
}
use t2s.Backfill.Fetch.{num_at}
use t2s.Trades.{TradeMessage, TradeHandler, Timing, process_message}

-- The three ids: `t` on spot, and `a`, `f` and `l` on futures.
pub record TradeIds : Type 0 where
  pub primary_id : Option ℤ
  pub first_agg_id : Option ℤ
  pub last_agg_id : Option ℤ

unfoldable pub read_ids : TradeSchema → JsonReader → JsonReader × TradeIds
read_ids spot_trade d =
    let t = int64 "t" d in
    (t.0, record { primary_id = t.1; first_agg_id = some (pos 0); last_agg_id = some (pos 0) })
read_ids futures_agg_trade d =
    let a = int64 "a" d in
    let f = int64 "f" a.0 in
    let l = int64 "l" f.0 in
    (l.0, record { primary_id = a.1; first_agg_id = f.1; last_agg_id = l.1 })

-- `nq` of a futures trade, which may be missing or malformed.
unfoldable pub read_nq : (String → Strtod) → TradeSchema → Option Members → Option Double
unfolding num_at
read_nq strtod futures_agg_trade (some ms) = num_at strtod "nq" ms
read_nq strtod schema v = none

abbrev id_of : Option ℤ → ℕ
id_of o = pos_part (deref (pos 0) o)

-- none is a schema error.
unfoldable pub read_trade : (String → Strtod) → TradeSchema → Json → Option TradeMessage
unfolding read_ids read_nq
read_trade strtod schema doc =
    let d = (obj "data" (reader_of doc)).1 in
    let sym = string "s" d in
    let price = price_string strtod "p" sym.0 in
    let qty = price_string strtod "q" price.0 in
    let maker = bool "m" qty.0 in
    let event_time = int64 "E" maker.0 in
    let trade_time = int64 "T" event_time.0 in
    let ids = read_ids schema trade_time.0 in
    if has_error ids.0
    then none
    else some (record {
      sym = deref "" sym.1;
      price = deref nan price.1;
      qty = deref nan qty.1;
      buyer_is_maker = deref false maker.1;
      exch_event_time_ms = id_of event_time.1;
      exch_trade_time_ms = id_of trade_time.1;
      primary_id = id_of ids.1.primary_id;
      first_agg_id = id_of ids.1.first_agg_id;
      last_agg_id = id_of ids.1.last_agg_id;
      nq = read_nq strtod schema d.value;
    })

-- `none` is a message that is no JSON.
unfoldable pub receive_message :
    (String → Strtod) → Option Json → Timing → TradeHandler → TradeHandler
unfolding read_trade
receive_message strtod none t h = process_message none t h
receive_message strtod (some doc) t h = process_message (read_trade strtod h.schema doc) t h
