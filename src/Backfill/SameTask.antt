-- ===== src/Backfill/SameTask.antt =====
-- cpp/include/trade_backfill.hpp: what a page and the settling of heads leave alone.
use t2s.Base.{
  Option, none, some, ℕ, ◌+◌, ◌-◌, ◌≤◌, not, ltb, leb, ◌==◌, if◌then◌else◌, if_cases, List, [], ◌∷◌,
  length, ◌≡◌, refl, ◌∙◌,
}
use t2s.Gap.{missing, next_needed_id}
use t2s.Scheduler.{on_fetch_ok}
use t2s.Backfill.{
  Job, BackfillPage, TradeBackfill, finish_recovered, finish_unrecoverable, fail, advance_head,
  on_trades, on_page, settle_heads, backfill_disabled, too_large, first_id_of, wanted, not_served,
  too_old, rest_failed, BackfillTrade,
}

-- With a request in flight one request or page at most waits, and none otherwise.
abbrev pub HasOneInFlight : {V : Type 0} → TradeBackfill V → Type 0
HasOneInFlight b = length b.requests + length b.results ≤ (if b.in_flight then 1 else 0)

-- What a page, and settled heads, leave as they are.
pub record IsSameTask {V : Type 0} (b b' : TradeBackfill V) : Type 0 where
  pub cfg_is : b'.cfg ≡ b.cfg
  pub in_flight_is : b'.in_flight ≡ b.in_flight
  pub results_are : b'.results ≡ b.results
  pub requests_are : b'.requests ≡ b.requests

module _ {V : Type 0} where
  same_task : {b : TradeBackfill V} → IsSameTask b b
  same_task = record { cfg_is = refl; in_flight_is = refl; results_are = refl; requests_are = refl }

  pub IsSameTask-HasOneInFlight :
      {b b' : TradeBackfill V} → IsSameTask b b' → HasOneInFlight b → HasOneInFlight b'
  IsSameTask-HasOneInFlight t one = rw (t.requests_are, t.results_are, t.in_flight_is) one

  after :
      (a b c : TradeBackfill V)
      → b.cfg ≡ a.cfg
      → b.in_flight ≡ a.in_flight
      → b.results ≡ a.results
      → b.requests ≡ a.requests
      → IsSameTask b c
      → IsSameTask a c
  after a b c e f g h t = record {
    cfg_is = t.cfg_is ∙ e;
    in_flight_is = t.in_flight_is ∙ f;
    results_are = t.results_are ∙ g;
    requests_are = t.requests_are ∙ h;
  }

  fail-IsSameTask :
      (page : BackfillPage V) (now draw : ℕ) (why : _) (job : Job) (rest : List Job)
      (b : TradeBackfill V)
      → IsSameTask b (fail page now draw why job rest b)
  unfolding fail finish_unrecoverable
  fail-IsSameTask page now draw why job rest b =
      if_cases (IsSameTask b) (leb b.cfg.max_failures (job.failures + 1)) _ _
        (λ _. record {
          cfg_is = refl;
          in_flight_is = refl;
          results_are = refl;
          requests_are = refl;
        })
        (λ _. record {
          cfg_is = refl;
          in_flight_is = refl;
          results_are = refl;
          requests_are = refl;
        })

  advance_head-IsSameTask :
      (page : BackfillPage V) (news : _) (job : Job) (rest : List Job) (b : TradeBackfill V)
      → IsSameTask b (advance_head page news job rest b)
  unfolding advance_head finish_recovered
  advance_head-IsSameTask page news job rest b =
      if_cases (IsSameTask b) (leb job.gap.last_id (next_needed_id job.gap + length news - 1)) _ _
        (λ _. record {
          cfg_is = refl;
          in_flight_is = refl;
          results_are = refl;
          requests_are = refl;
        })
        (λ _. record {
          cfg_is = refl;
          in_flight_is = refl;
          results_are = refl;
          requests_are = refl;
        })

  on_trades-IsSameTask :
      (page : BackfillPage V) (now draw : ℕ) (job : Job) (rest : List Job) (b : TradeBackfill V)
      → IsSameTask b (on_trades page now draw job rest b)
  unfolding on_trades finish_unrecoverable
  on_trades-IsSameTask page now draw job rest b0 = go (first_id_of page.trades)
    where
      b : TradeBackfill V
      b = record b0 { sched = on_fetch_ok now page.used_weight1m b0.sched }

      news : List (BackfillTrade V)
      news = wanted (next_needed_id job.gap) job.gap.last_id page.trades

      failed : TradeBackfill V
      failed = fail page now draw not_served job rest b

      go :
          (o : Option ℕ)
          → IsSameTask b0 (elim o as (λ _. TradeBackfill V) [
            | none ↦ failed
            | some id ↦
                if ltb (next_needed_id job.gap) id
                then finish_unrecoverable not_served job rest
                    (record b { pages_failed = b.pages_failed + 1 })
                else if length news == 0
                then failed
                else advance_head page news job rest b
          ])
      go none =
          after b0 b failed refl refl refl refl
            (fail-IsSameTask page now draw not_served job rest b)
      go (some id) =
          if_cases (IsSameTask b0) (ltb (next_needed_id job.gap) id) _
            (if length news == 0 then failed else advance_head page news job rest b)
            (λ _. record {
              cfg_is = refl;
              in_flight_is = refl;
              results_are = refl;
              requests_are = refl;
            })
            (λ _.
              if_cases (IsSameTask b0) (length news == 0) failed (advance_head page news job rest b)
                (λ _.
                  after b0 b failed refl refl refl refl
                    (fail-IsSameTask page now draw not_served job rest b))
                (λ _.
                  after b0 b (advance_head page news job rest b) refl refl refl refl
                    (advance_head-IsSameTask page news job rest b)))

  pub on_page-IsSameTask :
      (page : BackfillPage V) (now draw : ℕ) (b : TradeBackfill V)
      → IsSameTask b (on_page page now draw b)
  unfolding on_page finish_unrecoverable
  on_page-IsSameTask page now draw b = go b.queue
    where
      old : Job → List Job → TradeBackfill V
      old job rest = finish_unrecoverable too_old job rest (record b {
        pages_failed = b.pages_failed + 1;
        sched = on_fetch_ok now page.used_weight1m b.sched;
      })

      go :
          (q : List Job)
          → IsSameTask b (elim q as (λ _. TradeBackfill V) [
            | [] ↦ b
            | job ∷ rest ↦
                if page.ok
                then on_trades page now draw job rest b
                else if page.too_old
                then old job rest
                else fail page now draw rest_failed job rest b
          ])
      go [] = same_task
      go (job ∷ rest) =
          if_cases (IsSameTask b) page.ok (on_trades page now draw job rest b)
            (if page.too_old then old job rest else fail page now draw rest_failed job rest b)
            (λ _. on_trades-IsSameTask page now draw job rest b)
            (λ _.
              if_cases (IsSameTask b) page.too_old (old job rest)
                (fail page now draw rest_failed job rest b)
                (λ _. record {
                  cfg_is = refl;
                  in_flight_is = refl;
                  results_are = refl;
                  requests_are = refl;
                })
                (λ _. fail-IsSameTask page now draw rest_failed job rest b))

  pub settle_heads-IsSameTask :
      (jobs : List Job) (b : TradeBackfill V) → IsSameTask b (settle_heads jobs b)
  unfolding settle_heads finish_recovered finish_unrecoverable
  settle_heads-IsSameTask [] b = same_task
  settle_heads-IsSameTask (job ∷ rest) b =
      let disabled = finish_unrecoverable backfill_disabled job rest b in
      let large = finish_unrecoverable too_large job rest b in
      let complete = finish_recovered job rest b in
      let third =
        if ltb job.gap.last_id (next_needed_id job.gap) then settle_heads rest complete else b in
      let second =
        if ltb b.cfg.max_gap_ids (missing job.gap) then settle_heads rest large else third in
      if_cases (IsSameTask b) (not b.cfg.enabled) (settle_heads rest disabled) second
        (λ _.
          after b disabled (settle_heads rest disabled) refl refl refl refl
            (settle_heads-IsSameTask rest disabled))
        (λ _.
          if_cases (IsSameTask b) (ltb b.cfg.max_gap_ids (missing job.gap))
            (settle_heads rest large) third
            (λ _.
              after b large (settle_heads rest large) refl refl refl refl
                (settle_heads-IsSameTask rest large))
            (λ _.
              if_cases (IsSameTask b) (ltb job.gap.last_id (next_needed_id job.gap))
                (settle_heads rest complete) b
                (λ _.
                  after b complete (settle_heads rest complete) refl refl refl refl
                    (settle_heads-IsSameTask rest complete))
                (λ _. same_task)))
