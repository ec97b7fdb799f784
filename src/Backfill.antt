-- ===== src/Backfill.antt =====
-- cpp/include/trade_backfill.hpp: TradeBackfill, with the worker thread (`inlineFetch` is for tests).
-- Prices and quantities are any type V. What `pump` hands to the exchange of rows is logged: the rows
-- published and the gap events recorded, in order. The queues to and from the worker are lists;
-- at most one request is in flight, so their bounds of 4 are not reached.
pub mod Examples
pub mod Page
pub mod Requests
pub mod SameTask
pub mod Passes
pub mod Fetch
use t2s.Base.{
  ℕ, zero, suc, ◌+◌, ◌-◌, min, Bool, true, false, Option, none, some, String, List, [], ◌∷◌, ◌++◌,
  length, ltb, leb, ◌==◌, if◌then◌else◌, ◌||◌, not, ◌&&◌,
}
use t2s.Gap.{TradeGap, GapStatus, partial, recovered, unrecoverable, missing, next_needed_id}
use t2s.Scheduler.{
  Scheduler, SnapshotSchedulerConfig, new_scheduler, try_acquire, on_fetch_ok, on_failure,
  on_synced,
}

pub record BackfillTrade (V : Type 0) : Type 0 where
  pub id : ℕ
  pub price : V
  pub qty : V
  -- futures `nq`; `none` is NaN
  pub qty_ex_rpi : Option V
  pub first_trade_id : ℕ
  pub last_trade_id : ℕ
  pub trade_time_ms : ℕ
  pub buyer_is_maker : Bool

pub record BackfillPage (V : Type 0) : Type 0 where
  pub ok : Bool
  pub too_old : Bool
  pub http_status : ℕ
  pub retry_after_sec : ℕ
  pub used_weight1m : Option ℕ
  pub recv_time_utc_ns : ℕ
  pub trades : List (BackfillTrade V)

pub record TradeBackfillConfig : Type 0 where
  pub enabled : Bool
  pub max_gap_ids : ℕ
  pub page_limit : ℕ
  pub max_failures : ℕ
  pub sched : SnapshotSchedulerConfig

pub record Job : Type 0 where
  pub gap : TradeGap
  pub failures : ℕ

pub record Request : Type 0 where
  pub sym : String
  pub from_id : ℕ
  pub limit : ℕ

pub data Reason : Type 0 where
  no_reason : Reason
  backfill_disabled : Reason
  too_large : Reason
  too_old : Reason
  not_served : Reason
  rest_failed : Reason

pub record Published (V : Type 0) : Type 0 where
  pub sym : String
  pub trade : BackfillTrade V
  pub recv_time_utc_ns : ℕ

pub record GapEvent : Type 0 where
  pub gap : TradeGap
  pub status : GapStatus
  pub reason : Reason

pub record TradeBackfill (V : Type 0) : Type 0 where
  pub cfg : TradeBackfillConfig
  pub sched : Scheduler
  pub queue : List Job
  pub in_flight : Bool
  pub requests : List Request
  pub results : List (BackfillPage V)
  pub pages_requested : ℕ
  pub pages_failed : ℕ
  pub trades_backfilled : ℕ
  pub gaps_recovered : ℕ
  pub gaps_unrecoverable : ℕ
  -- the calls of publishRow and recordEvent
  pub published : List (Published V)
  pub events : List GapEvent

unfoldable pub add_gap : {V : Type 0} → TradeGap → TradeBackfill V → TradeBackfill V
add_gap g b = record b { queue = b.queue ++ (record { gap = g; failures = 0 } ∷ []) }

-- finish(): the head's last event; `job` is the head and `rest` the others.
pub finish_recovered : {V : Type 0} → Job → List Job → TradeBackfill V → TradeBackfill V
finish_recovered job rest b = record b {
  events = b.events ++ (record { gap = job.gap; status = recovered; reason = no_reason } ∷ []);
  gaps_recovered = b.gaps_recovered + 1;
  queue = rest;
}

pub finish_unrecoverable :
    {V : Type 0} → Reason → Job → List Job → TradeBackfill V → TradeBackfill V
finish_unrecoverable why job rest b = record b {
  events = b.events ++ (record { gap = job.gap; status = unrecoverable; reason = why } ∷ []);
  gaps_unrecoverable = b.gaps_unrecoverable + 1;
  queue = rest;
}

-- fail(): one failure more, and the gap is given up when there are too many. `draw` is the jitter's.
pub fail :
    {V : Type 0}
    → BackfillPage V
    → ℕ
    → ℕ
    → Reason
    → Job
    → List Job
    → TradeBackfill V
    → TradeBackfill V
unfolding finish_unrecoverable
fail page now draw why job rest b =
    let counted = record job { failures = job.failures + 1 } in
    let noted = record b {
      pages_failed = b.pages_failed + 1;
      sched =
          on_failure 0 now page.http_status page.retry_after_sec page.used_weight1m draw b.sched;
      queue = counted ∷ rest;
    } in
    if leb b.cfg.max_failures (job.failures + 1)
    then finish_unrecoverable why counted rest noted
    else noted

-- The loop over a page: the trades published, from `expected` on.
pub wanted : {V : Type 0} → ℕ → ℕ → List (BackfillTrade V) → List (BackfillTrade V)
wanted expected last_id [] = []
wanted expected last_id (t ∷ ts) =
    let next = t ∷ wanted (expected + 1) last_id ts in
    if ltb t.id expected
    then wanted expected last_id ts
    else if not (t.id == expected) || ltb last_id t.id
    then []
    else next

pub publish_all : {V : Type 0} → String → ℕ → List (BackfillTrade V) → List (Published V)
publish_all sym recv [] = []
publish_all sym recv (t ∷ ts) =
    record { sym = sym; trade = t; recv_time_utc_ns = recv } ∷ publish_all sym recv ts

abbrev first_id_of : {V : Type 0} → List (BackfillTrade V) → Option ℕ
first_id_of [] = none
first_id_of (t ∷ ts) = some t.id

-- onPage's last part, when the page brought n > 0 trades.
pub advance_head :
    {V : Type 0}
    → BackfillPage V
    → List (BackfillTrade V)
    → Job
    → List Job
    → TradeBackfill V
    → TradeBackfill V
unfolding publish_all finish_recovered
advance_head page news job rest b =
    let g = job.gap in
    let n = length news in
    let g' : TradeGap = record g {
      recovered = g.recovered + n;
      recovered_through_id = next_needed_id g + n - 1;
    } in
    let job' : Job = record { gap = g'; failures = 0 } in
    let moved = record b {
      trades_backfilled = b.trades_backfilled + n;
      sched = on_synced 0 b.sched;
      queue = job' ∷ rest;
      published = b.published ++ publish_all g.sym page.recv_time_utc_ns news;
    } in
    if leb g.last_id g'.recovered_through_id
    then finish_recovered job' rest moved
    else record moved {
      events = moved.events ++ (record { gap = g'; status = partial; reason = no_reason } ∷ []);
    }

-- A page of trades for the head of the queue.
pub on_trades :
    {V : Type 0} → BackfillPage V → ℕ → ℕ → Job → List Job → TradeBackfill V → TradeBackfill V
unfolding wanted fail finish_unrecoverable advance_head
on_trades page now draw job rest b0 =
    let b = record b0 { sched = on_fetch_ok now page.used_weight1m b0.sched } in
    let expected = next_needed_id job.gap in
    let news = wanted expected job.gap.last_id page.trades in
    elim (first_id_of page.trades) [
      | none ↦ fail page now draw not_served job rest b
      | some id ↦
          if ltb expected id
          then finish_unrecoverable not_served job rest
              (record b { pages_failed = b.pages_failed + 1 })
          else if length news == 0
          then fail page now draw not_served job rest b
          else advance_head page news job rest b
    ]

-- onPage(): there is a head, since its request was in flight.
pub on_page : {V : Type 0} → BackfillPage V → ℕ → ℕ → TradeBackfill V → TradeBackfill V
unfolding on_trades fail finish_unrecoverable
on_page page now draw b = elim b.queue [
  | [] ↦ b
  | job ∷ rest ↦
      if page.ok
      then on_trades page now draw job rest b
      else if page.too_old
      then finish_unrecoverable too_old job rest (record b {
        pages_failed = b.pages_failed + 1;
        sched = on_fetch_ok now page.used_weight1m b.sched;
      })
      else fail page now draw rest_failed job rest b
]

-- pump's step 2, with nothing in flight: the gaps at the head that need no request.
pub settle_heads : {V : Type 0} → List Job → TradeBackfill V → TradeBackfill V
unfolding finish_recovered finish_unrecoverable
settle_heads [] b = b
settle_heads (job ∷ rest) b =
    let disabled = settle_heads rest (finish_unrecoverable backfill_disabled job rest b) in
    let large = settle_heads rest (finish_unrecoverable too_large job rest b) in
    let complete = settle_heads rest (finish_recovered job rest b) in
    if not b.cfg.enabled
    then disabled
    else if ltb b.cfg.max_gap_ids (missing job.gap)
    then large
    else if ltb job.gap.last_id (next_needed_id job.gap)
    then complete
    else b

-- pump's step 3: the next request, if the rate limits allow.
pub request_next : {V : Type 0} → ℕ → List Job → TradeBackfill V → TradeBackfill V
request_next now [] b = b
request_next now (job ∷ rest) b =
    let asked = try_acquire 0 now b.sched in
    let from = next_needed_id job.gap in
    let limit = min b.cfg.page_limit (job.gap.last_id + 1 - from) in
    if asked.1
    then record b {
      sched = asked.0;
      pages_requested = b.pages_requested + 1;
      in_flight = true;
      requests = b.requests ++ (record { sym = job.gap.sym; from_id = from; limit = limit } ∷ []);
    }
    else record b { sched = asked.0 }

-- pump's step 1: a finished page, if there is one.
pub take_page : {V : Type 0} → ℕ → ℕ → TradeBackfill V → TradeBackfill V
unfolding on_page
take_page now draw b = elim b.results [
  | [] ↦ b
  | page ∷ results ↦ on_page page now draw (record b { results = results; in_flight = false })
]

abbrev has_page : {V : Type 0} → TradeBackfill V → Bool
has_page b = b.in_flight && ltb 0 (length b.results)

-- The worker: one request answered.
pub deliver : {V : Type 0} → (Request → BackfillPage V) → TradeBackfill V → TradeBackfill V
deliver fetch b = elim b.requests [
  | [] ↦ b
  | r ∷ requests ↦ record b { requests = requests; results = b.results ++ (fetch r ∷ []) }
]

-- What the worker does before a pass looks for a page, if anything.
pub meanwhile : {V : Type 0} → Option (Request → BackfillPage V) → TradeBackfill V → TradeBackfill V
unfolding deliver
meanwhile none b = b
meanwhile (some fetch) b = deliver fetch b

-- cfg_.inlineFetch: off with the worker.
abbrev pub inline_fetch : Bool
inline_fetch = false

-- One pass of pump's loop, and whether it progressed: it took a page or settled a head, and then asked
-- for no page, since a request that the worker is to answer sets `progressed` back.
pub pump_pass : {V : Type 0} → ℕ → ℕ → TradeBackfill V → TradeBackfill V × Bool
unfolding take_page settle_heads request_next
pump_pass now draw b =
    let taken = if b.in_flight then take_page now draw b else b in
    let settled = settle_heads taken.queue taken in
    let progressed = has_page b || not (length settled.queue == length taken.queue) in
    let asking = request_next now settled.queue settled in
    if taken.in_flight
    then (taken, has_page b)
    else (asking, if asking.in_flight then inline_fetch else progressed)

-- The loop, with the passes left; the jitter's draws and the worker's doings are numbered by them.
pub pump_passes :
    {V : Type 0}
    → ℕ
    → ℕ
    → (ℕ → ℕ)
    → (ℕ → Option (Request → BackfillPage V))
    → TradeBackfill V
    → TradeBackfill V
unfolding pump_pass meanwhile
pump_passes zero now draw works b = b
pump_passes (suc guard) now draw works b =
    let pass = pump_pass now (draw guard) (meanwhile (works guard) b) in
    let more = pump_passes guard now draw works pass.0 in if pass.1 then more else pass.0

pub pump :
    {V : Type 0}
    → ℕ
    → (ℕ → ℕ)
    → (ℕ → Option (Request → BackfillPage V))
    → TradeBackfill V
    → TradeBackfill V
pump now draw works b = pump_passes 100000 now draw works b
