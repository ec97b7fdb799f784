-- ===== src/Backfill/Requests.antt =====
-- cpp/include/trade_backfill.hpp: what pump asks the exchange for.
use t2s.Base.{
  ℕ, ◌+◌, ◌-◌, ◌≤◌, ◌<◌, min, true, List, [], ◌∷◌, ◌++◌, ltb, not, if◌then◌else◌, ◌≡◌, refl, ap,
  ◌∙◌, ◌⊎◌, inl, inr, if_cases, arith,
}
use t2s.Gap.{missing, next_needed_id}
use t2s.Scheduler.{try_acquire}
use t2s.Backfill.{
  TradeBackfillConfig, Job, Request, TradeBackfill, finish_recovered, finish_unrecoverable,
  backfill_disabled, too_large, settle_heads, request_next,
}

-- The head may be asked for: backfill is on, the gap is under the cap and has ids missing.
unfoldable pub IsReady : TradeBackfillConfig → List Job → Type 0
IsReady cfg [] = Unit
IsReady cfg (job ∷ rest) =
    (cfg.enabled ≡ true)
    × (missing job.gap ≤ cfg.max_gap_ids)
    × (next_needed_id job.gap ≤ job.gap.last_id)

module _ {V : Type 0} where
  pub settle_heads-IsReady :
      (jobs : List Job) (b : TradeBackfill V)
      → b.queue ≡ jobs
      → IsReady b.cfg (settle_heads jobs b).queue
        × ((settle_heads jobs b).cfg ≡ b.cfg)
        × ((settle_heads jobs b).requests ≡ b.requests)
        × ((settle_heads jobs b).published ≡ b.published)
  unfolding settle_heads finish_recovered finish_unrecoverable IsReady
  settle_heads-IsReady [] b e = (rw e tt, refl, refl, refl)
  settle_heads-IsReady (job ∷ rest) b e =
      let disabled = finish_unrecoverable backfill_disabled job rest b in
      let large = finish_unrecoverable too_large job rest b in
      let complete = finish_recovered job rest b in
      let P : TradeBackfill V → Type 0 = λ r.
        IsReady b.cfg r.queue
        × (r.cfg ≡ b.cfg)
        × (r.requests ≡ b.requests)
        × (r.published ≡ b.published) in
      let third =
        if ltb job.gap.last_id (next_needed_id job.gap) then settle_heads rest complete else b in
      let second =
        if ltb b.cfg.max_gap_ids (missing job.gap) then settle_heads rest large else third in
      if_cases P (not b.cfg.enabled) (settle_heads rest disabled) second
        (λ f. settle_heads-IsReady rest disabled refl)
        (λ f.
          if_cases P (ltb b.cfg.max_gap_ids (missing job.gap)) (settle_heads rest large) third
            (λ g. settle_heads-IsReady rest large refl)
            (λ g.
              if_cases P (ltb job.gap.last_id (next_needed_id job.gap)) (settle_heads rest complete)
                b (λ k. settle_heads-IsReady rest complete refl)
                (λ k. (rw e (ground arith, ground arith, ground arith), refl, refl, refl))))

-- The new request, if any, asks for ids of one gap only, at least one and no more than a page.
pub IsAsked : {V : Type 0} → (b b' : TradeBackfill V) → Type 0
IsAsked b b' =
    (b'.requests ≡ b.requests)
    ⊎ ((job : Job) × (rest : List Job) × (r : Request) × (b'.queue ≡ job ∷ rest)
        × (b'.requests ≡ b.requests ++ (r ∷ []))
        × (b'.in_flight ≡ true)
        × (b.cfg.enabled ≡ true)
        × (missing job.gap ≤ b.cfg.max_gap_ids)
        × (r.sym ≡ job.gap.sym)
        × (r.from_id ≡ next_needed_id job.gap)
        × (0 < r.limit)
        × (r.limit ≤ b.cfg.page_limit)
        × (r.from_id + r.limit ≤ job.gap.last_id + 1))

request_next-IsAsked :
    {V : Type 0} (now : ℕ) (jobs : List Job) (b s : TradeBackfill V)
    → s.queue ≡ jobs
    → IsReady b.cfg jobs
    → s.cfg ≡ b.cfg
    → s.requests ≡ b.requests
    → 0 < b.cfg.page_limit
    → IsAsked b (request_next now jobs s) × ((request_next now jobs s).published ≡ s.published)
unfolding request_next IsAsked IsReady
request_next-IsAsked now [] b s e ready cfg same some_limit = (inl same, refl)
request_next-IsAsked {V} now (job ∷ rest) b s e (on, small, needs) cfg same some_limit =
    let asked = try_acquire 0 now s.sched in
    let from = next_needed_id job.gap in
    let limit = min s.cfg.page_limit (job.gap.last_id + 1 - from) in
    let r : Request = record { sym = job.gap.sym; from_id = from; limit = limit } in
    let limit_is : s.cfg.page_limit ≡ b.cfg.page_limit =
      ap (λ (c : TradeBackfillConfig). c.page_limit) cfg in
    if_cases (λ (x : TradeBackfill V). IsAsked b x × (x.published ≡ s.published)) asked.1
      (record s {
        sched = asked.0;
        pages_requested = s.pages_requested + 1;
        in_flight = true;
        requests = s.requests ++ (r ∷ []);
      })
      (record s { sched = asked.0 })
      (λ f. (
        inr (
          job,
          rest,
          r,
          e,
          ap (λ rs. rs ++ (r ∷ [])) same,
          refl,
          on,
          small,
          refl,
          refl,
          ground arith,
          ground arith,
          ground arith,
        ),
        refl,
      ))
      (λ f. (inl same, refl))

-- With nothing in flight and a page limit above 0, pump's steps 2 and 3 publish nothing, and ask for
-- nothing or for one page of the gap that is then at the head: backfill is on, the gap is not above
-- the cap, and the ids asked for start at the first one missing, are at least one and at most a page,
-- and end within the gap. So a gap above the cap, or complete, never costs a request.
pub asks_within_gap :
    {V : Type 0} (now : ℕ) (b : TradeBackfill V)
    → 0 < b.cfg.page_limit
    → let settled = settle_heads b.queue b in
      IsAsked b (request_next now settled.queue settled)
      × ((request_next now settled.queue settled).published ≡ b.published)
asks_within_gap now b some_limit =
    let settled = settle_heads b.queue b in
    let (ready, cfg, requests, published) = settle_heads-IsReady b.queue b refl in
    let (asked, same) =
      request_next-IsAsked now settled.queue b settled refl ready cfg requests some_limit in
    (asked, same ∙ published)
