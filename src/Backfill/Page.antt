-- ===== src/Backfill/Page.antt =====
-- cpp/include/trade_backfill.hpp: what a page does to the gap at the head of the queue.
pub mod Head
use t2s.Base.{
  ℕ, suc, ◌+◌, ◌-◌, ◌≤◌, ◌<◌, Option, none, some, List, [], ◌∷◌, ◌++◌, ++-[], length, range, ltb,
  leb, ◌==◌, ◌||◌, not, if◌then◌else◌, ◌≡◌, refl, sym, ◌∙◌, ap, if_cases, arith,
}
use mathlib.Core.Path.{subst}
use t2s.Gap.{TradeGap, partial, recovered, unrecoverable, missing, next_needed_id}
use t2s.Scheduler.{on_fetch_ok, on_failure, on_synced}
use t2s.Backfill.{
  BackfillTrade, BackfillPage, Job, Reason, TradeBackfill, wanted, publish_all, finish_recovered,
  finish_unrecoverable, fail, advance_head, on_trades, on_page, first_id_of, not_served, no_reason,
  too_old, rest_failed,
}
use t2s.Backfill.Page.Head.{
  IsOpenGap, IsPaged, given_up, wanted-consecutive, nothing_new, fail-IsPaged, advance_head-IsPaged,
}

module _ {V : Type 0} where
  on_trades-IsPaged :
      (page : BackfillPage V) (now draw : ℕ) (job : Job) (rest : List Job) (b : TradeBackfill V)
      → IsOpenGap job.gap
      → IsPaged page job rest b (on_trades page now draw job rest b)
  unfolding on_trades finish_unrecoverable
  on_trades-IsPaged page now draw job rest b0 h = go (first_id_of page.trades)
    where
      b : TradeBackfill V
      b = record b0 { sched = on_fetch_ok now page.used_weight1m b0.sched }

      news : List (BackfillTrade V)
      news = wanted (next_needed_id job.gap) job.gap.last_id page.trades

      late : TradeBackfill V
      late =
          finish_unrecoverable not_served job rest (record b { pages_failed = b.pages_failed + 1 })

      go :
          (o : Option ℕ)
          → IsPaged page job rest b0 (elim o as (λ _. TradeBackfill V) [
            | none ↦ fail page now draw not_served job rest b
            | some id ↦
                if ltb (next_needed_id job.gap) id
                then late
                else if length news == 0
                then fail page now draw not_served job rest b
                else advance_head page news job rest b
          ])
      go none = fail-IsPaged page now draw not_served job rest b0 b refl refl refl h
      go (some id) =
          let P : TradeBackfill V → Type 0 = λ r. IsPaged page job rest b0 r in
          let (run, bound) =
            wanted-consecutive (next_needed_id job.gap) job.gap.last_id page.trades
              (ground (arith, h.needs)) in
          if_cases P (ltb (next_needed_id job.gap) id) late
            (if length news == 0
              then fail page now draw not_served job rest b
              else advance_head page news job rest b)
            (λ e.
              nothing_new page job rest b0 late refl refl h (given_up not_served refl refl refl))
            (λ e.
              if_cases P (length news == 0) (fail page now draw not_served job rest b)
                (advance_head page news job rest b)
                (λ f. fail-IsPaged page now draw not_served job rest b0 b refl refl refl h)
                (λ f.
                  advance_head-IsPaged page news job rest b0 b refl refl refl h ground arith run
                    bound))

  -- A reply for the open gap at the head, good or bad: the rows it publishes are the gap's next ids,
  -- consecutive, each once, never past the gap's end, and counted; and then the gap is open with
  -- exactly those ids more, or it is reported recovered in full, or it is given up with a reason and
  -- nothing published from this reply. The gaps behind it stay.
  pub on_page-IsPaged :
      (page : BackfillPage V) (now draw : ℕ) (job : Job) (rest : List Job) (b : TradeBackfill V)
      → b.queue ≡ job ∷ rest
      → IsOpenGap job.gap
      → IsPaged page job rest b (on_page page now draw b)
  unfolding on_page finish_unrecoverable
  on_page-IsPaged page now draw job rest b e h =
      let P : TradeBackfill V → Type 0 = λ r. IsPaged page job rest b r in
      let old = finish_unrecoverable too_old job rest (record b {
        pages_failed = b.pages_failed + 1;
        sched = on_fetch_ok now page.used_weight1m b.sched;
      }) in
      let failed = fail page now draw rest_failed job rest b in
      let bad = if page.too_old then old else failed in
      subst
        (λ q. P (elim q as (λ _. TradeBackfill V) [
          | [] ↦ b
          | j ∷ r ↦
              if page.ok
              then on_trades page now draw j r b
              else if page.too_old
              then finish_unrecoverable too_old j r (record b {
                pages_failed = b.pages_failed + 1;
                sched = on_fetch_ok now page.used_weight1m b.sched;
              })
              else fail page now draw rest_failed j r b
        ]))
        (sym e)
        (if_cases P page.ok (on_trades page now draw job rest b) bad
          (λ f. on_trades-IsPaged page now draw job rest b h)
          (λ f.
            if_cases P page.too_old old failed
              (λ g. nothing_new page job rest b old refl refl h (given_up too_old refl refl refl))
              (λ g. fail-IsPaged page now draw rest_failed job rest b b refl refl refl h)))
