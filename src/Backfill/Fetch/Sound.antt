-- ===== src/Backfill/Fetch/Sound.antt =====
-- cpp/include/trade_backfill.hpp: what RestTradeFetcher tells, whatever comes back.
use t2s.Base.{
  ℕ, Bool, true, false, not, ◌&&◌, Option, none, some, String, List, [], ◌∷◌, ◌==◌, ◌≡◌, refl, sym,
  ap, arith, if_cases, if◌then◌else◌, is_empty, contains,
}
use t2s.Market.{TradeSchema}
use t2s.Book.Double.{Double}
use t2s.Json.{Json, Items, nil, cons, null, boolean, integer, real, text, array, object, Strtod}
use t2s.Rest.{HttpResult, RestClient, Outside, get}
use t2s.Backfill.{BackfillTrade, BackfillPage}
use t2s.Backfill.Fetch.{trade_at, trades_of, parse_backfill_body, page_of, page_target, fetch_page}

-- Every element is a trade, and these are the trades, in order.
pub data AreRead (strtod : String → Strtod) (schema : TradeSchema)
    : Items → List (BackfillTrade Double) → Type 0 where
  none_left : AreRead strtod schema nil []
  one_read :
      {v : Json} {vs : Items} {t : BackfillTrade Double} {ts : List (BackfillTrade Double)}
      → trade_at strtod schema v ≡ some t
      → AreRead strtod schema vs ts
      → AreRead strtod schema (cons v vs) (t ∷ ts)

module _ (strtod : String → Strtod) (schema : TradeSchema) where
  trades_of-AreRead :
      (vs : Items)
      → (trades_of strtod schema vs).0 ≡ true
      → AreRead strtod schema vs (trades_of strtod schema vs).1
  unfolding trades_of
  trades_of-AreRead nil e = none_left
  trades_of-AreRead (cons v vs) e = go (trade_at strtod schema v) refl e (trades_of-AreRead vs)
    where
      rest : Bool × List (BackfillTrade Double)
      rest = trades_of strtod schema vs

      out : Option (BackfillTrade Double) → Bool × List (BackfillTrade Double)
      out none = (false, [])
      out (some t) = (rest.0, t ∷ rest.1)

      go :
          (o : Option (BackfillTrade Double))
          → trade_at strtod schema v ≡ o
          → (out o).0 ≡ true
          → (rest.0 ≡ true → AreRead strtod schema vs rest.1)
          → AreRead strtod schema (cons v vs) (out o).1
      go none k e ih = cc
      go (some t) k e ih = one_read k (ih e)

  AreRead-trades_of :
      {vs : Items} {ts : List (BackfillTrade Double)}
      → AreRead strtod schema vs ts
      → trades_of strtod schema vs ≡ (true, ts)
  unfolding trades_of
  AreRead-trades_of none_left = refl
  AreRead-trades_of (one_read {t = t} {ts = ts} k r) = rw (trades_of, k, AreRead-trades_of r) refl

-- What is told of a response.
pub record TellsPage (outside : Outside) (schema : TradeSchema) (recv : ℕ) (r : HttpResult)
    (p : BackfillPage Double) : Type 0 where
  pub status : p.http_status ≡ r.status
  pub retry_after : p.retry_after_sec ≡ r.retry_after_sec
  pub used_weight : p.used_weight1m ≡ r.used_weight1m
  pub received : p.recv_time_utc_ns ≡ recv
  pub good :
      p.ok ≡ true
      → (is_empty r.error ≡ true)
        × (r.status ≡ 200)
        × ((vs : Items) × (outside.parse r.body ≡ some (array vs))
            × AreRead outside.strtod schema vs p.trades)
  pub complete :
      (vs : Items) (ts : List (BackfillTrade Double))
      → is_empty r.error ≡ true
      → r.status ≡ 200
      → outside.parse r.body ≡ some (array vs)
      → AreRead outside.strtod schema vs ts
      → (p.ok ≡ true) × (p.trades ≡ ts)
  pub old : p.too_old ≡ true → (p.ok ≡ false) × (p.trades ≡ []) × (r.status ≡ 400)

module _ (outside : Outside) (schema : TradeSchema) (recv : ℕ) (r : HttpResult) where
  parsed-array :
      (doc : Option Json)
      → (parse_backfill_body outside.strtod schema doc).0 ≡ true
      → (vs : Items) × (doc ≡ some (array vs))
        × AreRead outside.strtod schema vs (parse_backfill_body outside.strtod schema doc).1
  unfolding parse_backfill_body
  parsed-array (some (array vs)) e = (vs, refl, trades_of-AreRead outside.strtod schema vs e)
  parsed-array none e = cc
  parsed-array (some null) e = cc
  parsed-array (some (boolean b)) e = cc
  parsed-array (some (integer n)) e = cc
  parsed-array (some (real d)) e = cc
  parsed-array (some (text s)) e = cc
  parsed-array (some (object ms)) e = cc

  array-parsed :
      (vs : Items) (ts : List (BackfillTrade Double))
      → outside.parse r.body ≡ some (array vs)
      → AreRead outside.strtod schema vs ts
      → parse_backfill_body outside.strtod schema (outside.parse r.body) ≡ (true, ts)
  unfolding parse_backfill_body
  array-parsed vs ts e a = rw e (AreRead-trades_of outside.strtod schema a)

  page_of-TellsPage : TellsPage outside schema recv r (page_of outside schema recv r)
  unfolding page_of
  page_of-TellsPage =
      let page : BackfillPage Double = record {
        ok = false;
        too_old = false;
        http_status = r.status;
        retry_after_sec = r.retry_after_sec;
        used_weight1m = r.used_weight1m;
        recv_time_utc_ns = recv;
        trades = [];
      } in
      let parsed = parse_backfill_body outside.strtod schema (outside.parse r.body) in
      let refused = record page { too_old = r.status == 400 && contains "-4166" r.body } in
      let read = record page { ok = parsed.0; trades = parsed.1 } in
      if_cases (TellsPage outside schema recv r) (not (is_empty r.error)) page
        (if not (r.status == 200) then refused else read)
        (λ e. record {
          status = refl;
          retry_after = refl;
          used_weight = refl;
          received = refl;
          good = λ k. cc;
          complete = λ vs ts a. cc;
          old = λ k. cc;
        })
        (λ e.
          if_cases (TellsPage outside schema recv r) (not (r.status == 200)) refused read
            (λ f. record {
              status = refl;
              retry_after = refl;
              used_weight = refl;
              received = refl;
              good = λ k. cc;
              complete = λ vs ts a s. absurd (ground arith);
              old = λ k. (refl, refl, ground arith);
            })
            (λ f. record {
              status = refl;
              retry_after = refl;
              used_weight = refl;
              received = refl;
              good = λ k. (ground arith, ground arith, parsed-array (outside.parse r.body) k);
              complete = λ vs ts a s p q.
                  (ap (λ x. x.0) (array-parsed vs ts p q), ap (λ x. x.1) (array-parsed vs ts p q));
              old = λ k. cc;
            }))

-- Whatever the exchange answers to the request for a page: the status, the rate-limit headers and the time
-- are handed on; the page is ok exactly if the response arrived with status 200 and its body is an array of
-- which every element is a trade of the schema, and then it has all of these trades, in order; and it is too
-- old only with status 400, and then it is not ok and has no trade.
pub fetch_page-TellsPage :
    (outside : Outside) (client : RestClient) (schema : TradeSchema) (recv : ℕ) (sym : String)
    (from_id limit : ℕ)
    → TellsPage outside schema recv
        (get outside client (page_target client sym from_id limit))
        (fetch_page outside client schema recv sym from_id limit)
unfolding fetch_page
fetch_page-TellsPage outside client schema recv sym from_id limit =
    page_of-TellsPage outside schema recv
      (get outside client (page_target client sym from_id limit))
