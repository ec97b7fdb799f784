-- ===== src/Backfill/Passes.antt =====
-- cpp/include/trade_backfill.hpp: how many passes pump's loop makes.
pub mod Quiet
use t2s.Base.{
  Option, none, some, Bool-cases, length-append, ℕ, suc, Bool, true, false, not, ◌||◌, ltb, ◌==◌,
  if◌then◌else◌, if_cases, List, [], ◌∷◌, ◌++◌, length, ◌≡◌, refl, sym, ap, ◌∙◌, inl, inr, arith,
}
use mathlib.Core.Path.{subst}
use t2s.Gap.{missing, next_needed_id}
use t2s.Scheduler.{try_acquire}
use t2s.Backfill.{
  Job, BackfillPage, TradeBackfill, on_page, take_page, has_page, Request, deliver, settle_heads,
  request_next, pump_pass, pump_passes, pump, meanwhile, inline_fetch,
}
use t2s.Backfill.Requests.{IsReady, settle_heads-IsReady}
use t2s.Backfill.SameTask.{
  HasOneInFlight, IsSameTask-HasOneInFlight, on_page-IsSameTask, settle_heads-IsSameTask,
}
use t2s.Backfill.Passes.Quiet.{no_items, IsQuiet, taken, pump_pass-quiet, pump_pass-IsQuiet}

module _ {V : Type 0} where
  -- A page that is taken ends the request.
  has_page-frees :
      (now draw : ℕ) (b : TradeBackfill V)
      → has_page b ≡ true
      → (taken now draw b).in_flight ≡ false
  unfolding taken take_page
  has_page-frees now draw b e = go b.in_flight b.results refl refl
    where
      go :
          (f : Bool) (rs : List (BackfillPage V))
          → b.in_flight ≡ f
          → b.results ≡ rs
          → let left =
              if f
              then (elim rs as (λ _. TradeBackfill V) [
                | [] ↦ b
                | page ∷ results ↦
                    on_page page now draw (record b { results = results; in_flight = false })
              ])
              else b in
            left.in_flight ≡ false
      go true [] f r = absurd (ground (arith, ap length r))
      go true (page ∷ results) f r =
          (on_page-IsSameTask page now draw
            (record b { results = results; in_flight = false })).in_flight_is
      go false rs f r = f

  -- A pass that progressed has no request in flight.
  pump_pass-frees :
      (now draw : ℕ) (b : TradeBackfill V)
      → (pump_pass now draw b).1 ≡ true
      → (pump_pass now draw b).0.in_flight ≡ false
  unfolding pump_pass taken
  pump_pass-frees now draw b =
      let tk = taken now draw b in
      let settled = settle_heads tk.queue tk in
      let asking = request_next now settled.queue settled in
      if_cases (λ (r : TradeBackfill V × Bool). r.1 ≡ true → r.0.in_flight ≡ false) tk.in_flight
        (tk, has_page b)
        (
          asking,
          if asking.in_flight
              then inline_fetch
              else has_page b || not (length settled.queue == length tk.queue),
        )
        (λ _. has_page-frees now draw b) (λ _ e. ground arith)

  -- With nothing in flight there is nothing for the worker to do.
  meanwhile-idle :
      (w : Option (Request → BackfillPage V)) (b : TradeBackfill V)
      → HasOneInFlight b
      → b.in_flight ≡ false
      → meanwhile w b ≡ b
  unfolding meanwhile deliver
  meanwhile-idle none b one free = refl
  meanwhile-idle (some fetch) b one free = rw (no_items b.requests (ground arith)) refl

  -- The worker's answer keeps it so.
  deliver-HasOneInFlight :
      (fetch : Request → BackfillPage V) (b : TradeBackfill V)
      → HasOneInFlight b
      → HasOneInFlight (deliver fetch b)
  unfolding deliver
  deliver-HasOneInFlight fetch b one = go b.requests refl
    where
      go :
          (rs : List Request)
          → b.requests ≡ rs
          → HasOneInFlight (elim rs as (λ _. TradeBackfill V) [
            | [] ↦ b
            | r ∷ requests ↦ record b { requests = requests; results = b.results ++ (fetch r ∷ []) }
          ])
      go [] e = one
      go (r ∷ requests) e =
          rw (length-append b.results (fetch r ∷ [])) (ground (arith, ap length e))

  meanwhile-HasOneInFlight :
      (w : Option (Request → BackfillPage V)) (b : TradeBackfill V)
      → HasOneInFlight b
      → HasOneInFlight (meanwhile w b)
  unfolding meanwhile
  meanwhile-HasOneInFlight none b one = one
  meanwhile-HasOneInFlight (some fetch) b one = deliver-HasOneInFlight fetch b one

  -- A pass after the first makes no progress, whatever the worker does before it.
  second-quiet :
      (now draw draw' : ℕ) (w : Option (Request → BackfillPage V)) (b : TradeBackfill V)
      → HasOneInFlight b
      → let first = pump_pass now draw b in
        first.1 ≡ true
        → (meanwhile w first.0 ≡ first.0) × ((pump_pass now draw' (meanwhile w first.0)).1 ≡ false)
  second-quiet now draw draw' w b one e =
      let first = pump_pass now draw b in
      let q = pump_pass-IsQuiet now draw b one in
      let idle = meanwhile-idle w first.0 q.one (pump_pass-frees now draw b e) in
      (
        idle,
        subst (λ x. (pump_pass now draw' x).1 ≡ false) (sym idle)
            (pump_pass-quiet now draw' first.0 q),
      )

  pump_passes-two :
      (n now : ℕ) (draw : ℕ → ℕ) (works : ℕ → Option (Request → BackfillPage V))
      (b : TradeBackfill V)
      → HasOneInFlight b
      → let first = pump_pass now (draw (suc n)) (meanwhile (works (suc n)) b) in
        let second = pump_pass now (draw n) first.0 in
        pump_passes (suc (suc n)) now draw works b ≡ (if first.1 then second.0 else first.0)
  unfolding pump_passes
  pump_passes-two n now draw works b one =
      let start = meanwhile (works (suc n)) b in
      let first = pump_pass now (draw (suc n)) start in
      let kept = meanwhile-HasOneInFlight (works (suc n)) b one in
      elim (Bool-cases first.1) [
        | inl e ↦
            let (idle, quiet) = second-quiet now (draw (suc n)) (draw n) (works n) start kept e in
            let quiet' : (pump_pass now (draw n) first.0).1 ≡ false =
              subst (λ x. (pump_pass now (draw n) x).1 ≡ false) idle quiet in
            rw (e, idle, quiet') refl
        | inr e ↦ rw e refl
      ]

-- With at most one request in flight, whose page may have come, and a worker that may answer at any time
-- also while pump runs: whatever the pages hold, however many gaps wait and whatever the limits allow,
-- pump's loop ends by itself in its first or second pass, far from its guard of 100000 passes: a second
-- pass has no request in flight, so the worker can not prolong it, and it makes no progress. And again at
-- most one request is in flight.
pub pump-stops :
    {V : Type 0} (now : ℕ) (draw : ℕ → ℕ) (works : ℕ → Option (Request → BackfillPage V))
    (b : TradeBackfill V)
    → HasOneInFlight b
    → let first = pump_pass now (draw 99999) (meanwhile (works 99999) b) in
      let second = pump_pass now (draw 99998) first.0 in
      (first.1 ≡ true → first.0.in_flight ≡ false)
      × (first.1 ≡ true → (pump_pass now (draw 99998) (meanwhile (works 99998) first.0)).1 ≡ false)
      × (pump now draw works b ≡ (if first.1 then second.0 else first.0))
      × HasOneInFlight (pump now draw works b)
unfolding pump
pump-stops {V} now draw works b one =
    let start = meanwhile (works 99999) b in
    let kept = meanwhile-HasOneInFlight (works 99999) b one in
    let first = pump_pass now (draw 99999) start in
    let second = pump_pass now (draw 99998) first.0 in
    let quiet = pump_pass-IsQuiet now (draw 99999) start kept in
    let two = pump_passes-two 99998 now draw works b one in
    (
      pump_pass-frees now (draw 99999) start,
      λ e. (second-quiet now (draw 99999) (draw 99998) (works 99998) start kept e).1,
      two,
      subst HasOneInFlight (sym two) (
          if_cases HasOneInFlight first.1 second.0 first.0
            (λ _. (pump_pass-IsQuiet now (draw 99998) first.0 quiet.one).one) (λ _. quiet.one)),
    )
