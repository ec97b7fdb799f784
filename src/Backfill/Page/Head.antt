-- ===== src/Backfill/Page/Head.antt =====
-- cpp/include/trade_backfill.hpp: the head of the queue over the outcomes of a page, as wantedTrades,
-- advanceHead and fail leave it.
use t2s.Base.{
  ℕ, suc, ◌+◌, ◌-◌, ◌≤◌, ◌<◌, List, [], ◌∷◌, ◌++◌, ++-[], length, range, ltb, leb, ◌==◌, ◌||◌, not,
  if◌then◌else◌, ◌≡◌, refl, ◌∙◌, ap, if_cases, arith,
}
use t2s.Gap.{TradeGap, partial, recovered, unrecoverable, missing, next_needed_id}
use t2s.Scheduler.{on_failure, on_synced}
use t2s.Backfill.{
  BackfillTrade, BackfillPage, Job, Reason, TradeBackfill, wanted, publish_all, finish_recovered,
  finish_unrecoverable, fail, advance_head, no_reason,
}

pub ids : {V : Type 0} → List (BackfillTrade V) → List ℕ
ids [] = []
ids (t ∷ ts) = t.id ∷ ids ts

-- A gap with ids still missing, whose count of recovered ids is the run from its first id on.
pub record IsOpenGap (g : TradeGap) : Type 0 where
  pub positive : 0 < g.first_id
  pub needs : next_needed_id g ≤ g.last_id
  pub counted : g.first_id + g.recovered ≡ next_needed_id g

-- The same gap with n ids more.
pub record IsAdvanced (n : ℕ) (g g' : TradeGap) : Type 0 where
  pub same_sym : g'.sym ≡ g.sym
  pub same_first : g'.first_id ≡ g.first_id
  pub same_last : g'.last_id ≡ g.last_id
  pub counts : g'.recovered ≡ g.recovered + n
  pub needs_next : next_needed_id g' ≡ next_needed_id g + n

-- How a page leaves the head: still open, recovered in full, or given up with nothing new published.
pub data IsLeft {V : Type 0} (n : ℕ) (job : Job) (rest : List Job) (b b' : TradeBackfill V)
    : Type 0 where
  still_open :
      (job' : Job)
      → b'.queue ≡ job' ∷ rest
      → IsAdvanced n job.gap job'.gap
      → IsOpenGap job'.gap
      → IsLeft n job rest b b'
  complete :
      (g : TradeGap)
      → b'.queue ≡ rest
      → IsAdvanced n job.gap g
      → g.recovered ≡ missing job.gap
      → b'.events ≡ b.events ++ (record { gap = g; status = recovered; reason = no_reason } ∷ [])
      → IsLeft n job rest b b'
  given_up :
      (why : Reason)
      → b'.queue ≡ rest
      → n ≡ 0
      → b'.events
        ≡ b.events ++ (record { gap = job.gap; status = unrecoverable; reason = why } ∷ [])
      → IsLeft n job rest b b'

pub IsPaged : {V : Type 0} → BackfillPage V → Job → List Job → (b b' : TradeBackfill V) → Type 0
IsPaged page job rest b b' =
    (news : _) × (b'.published ≡ b.published ++ publish_all job.gap.sym page.recv_time_utc_ns news)
    × (ids news ≡ range (next_needed_id job.gap) (length news))
    × (next_needed_id job.gap + length news ≤ job.gap.last_id + 1)
    × (b'.trades_backfilled ≡ b.trades_backfilled + length news)
    × IsLeft (length news) job rest b b'

not-IsAdvanced : (g : TradeGap) → IsAdvanced 0 g g
not-IsAdvanced g = record {
  same_sym = refl;
  same_first = refl;
  same_last = refl;
  counts = omega arith;
  needs_next = omega arith;
}

next_needed-through :
    (g : TradeGap) (through : ℕ)
    → 0 < through
    → next_needed_id (record g { recovered_through_id = through }) ≡ through + 1
next_needed-through g through h = ground arith

module _ {V : Type 0} where
  -- The trades taken from a page have consecutive ids, from the one expected on, within the gap.
  pub wanted-consecutive :
      (expected last_id : ℕ) (ts : List (BackfillTrade V))
      → expected ≤ last_id + 1
      → (ids (wanted expected last_id ts) ≡ range expected (length (wanted expected last_id ts)))
        × (expected + length (wanted expected last_id ts) ≤ last_id + 1)
  unfolding wanted ids
  wanted-consecutive expected last_id [] h = (refl, omega arith)
  wanted-consecutive expected last_id (t ∷ ts) h =
      let P : List (BackfillTrade V) → Type 0 =
        λ r. (ids r ≡ range expected (length r)) × (expected + length r ≤ last_id + 1) in
      let next = t ∷ wanted (expected + 1) last_id ts in
      if_cases P (ltb t.id expected) (wanted expected last_id ts)
        (if not (t.id == expected) || ltb last_id t.id then [] else next)
        (λ e. wanted-consecutive expected last_id ts h)
        (λ e.
          if_cases P (not (t.id == expected) || ltb last_id t.id) [] next
            (λ f. (refl, ground arith))
            (λ f.
              let here : t.id ≡ expected = ground arith in
              let inside : expected + 1 ≤ last_id + 1 = ground arith in
              let (run, bound) = wanted-consecutive (expected + 1) last_id ts inside in
              let one : expected + 1 ≡ suc expected = omega arith in
              let run' : ids (wanted (expected + 1) last_id ts)
                  ≡ range (suc expected) (length (wanted (expected + 1) last_id ts)) =
                run ∙ ap (λ x. range x (length (wanted (expected + 1) last_id ts))) one in
              (rw here (ap (λ zs. expected ∷ zs) run'), ground (arith, bound))))

  -- A page that publishes nothing.
  pub nothing_new :
      (page : BackfillPage V) (job : Job) (rest : List Job) (b b' : TradeBackfill V)
      → b'.published ≡ b.published
      → b'.trades_backfilled ≡ b.trades_backfilled
      → IsOpenGap job.gap
      → IsLeft 0 job rest b b'
      → IsPaged page job rest b b'
  unfolding IsPaged ids publish_all
  nothing_new page job rest b b' e1 e2 h left =
      ([], e1 ∙ ++-[] b.published, refl, ground (arith, h.needs), ground (arith, e2), left)

  pub fail-IsPaged :
      (page : BackfillPage V) (now draw : ℕ) (why : Reason) (job : Job) (rest : List Job)
      (b0 b : TradeBackfill V)
      → b.published ≡ b0.published
      → b.trades_backfilled ≡ b0.trades_backfilled
      → b.events ≡ b0.events
      → IsOpenGap job.gap
      → IsPaged page job rest b0 (fail page now draw why job rest b)
  unfolding fail finish_unrecoverable
  fail-IsPaged page now draw why job rest b0 b e1 e2 e3 h =
      let counted : Job = record job { failures = job.failures + 1 } in
      let noted = record b {
        pages_failed = b.pages_failed + 1;
        sched =
            on_failure 0 now page.http_status page.retry_after_sec page.used_weight1m draw b.sched;
        queue = counted ∷ rest;
      } in
      if_cases (λ r. IsPaged page job rest b0 r) (leb b.cfg.max_failures (job.failures + 1))
        (finish_unrecoverable why counted rest noted) noted
        (λ e. nothing_new page job rest b0 (finish_unrecoverable why counted rest noted) e1 e2 h (
          given_up why refl refl (
            ap (λ es. es ++ (record { gap = job.gap; status = unrecoverable; reason = why } ∷ []))
              e3)))
        (λ e.
          nothing_new page job rest b0 noted e1 e2 h
            (still_open counted refl (not-IsAdvanced job.gap) h))

  -- A page that brings trades moves the head by their number, and recovers it when none is missing.
  pub advance_head-IsPaged :
      (page : BackfillPage V) (news : List (BackfillTrade V)) (job : Job) (rest : List Job)
      (b0 b : TradeBackfill V)
      → b.published ≡ b0.published
      → b.trades_backfilled ≡ b0.trades_backfilled
      → b.events ≡ b0.events
      → IsOpenGap job.gap
      → 0 < length news
      → ids news ≡ range (next_needed_id job.gap) (length news)
      → next_needed_id job.gap + length news ≤ job.gap.last_id + 1
      → IsPaged page job rest b0 (advance_head page news job rest b)
  unfolding advance_head finish_recovered IsPaged
  advance_head-IsPaged page news job rest b0 b e1 e2 e3 h some_new run bound =
      let g = job.gap in
      let n = length news in
      let through = next_needed_id g + n - 1 in
      let g' : TradeGap = record g {
        recovered = g.recovered + n;
        recovered_through_id = through;
      } in
      let job' : Job = record { gap = g'; failures = 0 } in
      let moved = record b {
        trades_backfilled = b.trades_backfilled + n;
        sched = on_synced 0 b.sched;
        queue = job' ∷ rest;
        published = b.published ++ publish_all g.sym page.recv_time_utc_ns news;
      } in
      let pos : 0 < through = ground (arith, h.positive) in
      let next : next_needed_id g' ≡ next_needed_id g + n =
        next_needed-through (record g { recovered = g.recovered + n }) through pos ∙ ground arith in
      let advanced : IsAdvanced n g g' = record {
        same_sym = refl;
        same_first = refl;
        same_last = refl;
        counts = refl;
        needs_next = next;
      } in
      let kept = ap (λ ps. ps ++ publish_all g.sym page.recv_time_utc_ns news) e1 in
      let total = ap (λ m. m + n) e2 in
      if_cases (λ r. IsPaged page job rest b0 r) (leb g.last_id through)
        (finish_recovered job' rest moved)
        (record moved {
          events = moved.events ++ (record { gap = g'; status = partial; reason = no_reason } ∷ []);
        })
        (λ e. (
          news,
          kept,
          run,
          bound,
          total,
          complete g' refl advanced ground (arith, h.counted, next)
              (ap (λ es. es ++ (record { gap = g'; status = recovered; reason = no_reason } ∷ []))
                e3),
        ))
        (λ e. (
          news,
          kept,
          run,
          bound,
          total,
          still_open job' refl advanced (record {
            positive = h.positive;
            needs = ground (arith, next);
            counted = ground (arith, h.counted, next);
          }),
        ))
