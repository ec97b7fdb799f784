-- ===== src/Backfill/Passes/Quiet.antt =====
-- cpp/include/trade_backfill.hpp: what a pass of pump leaves for the next one.
use t2s.Base.{
  Bool-cases, length-append, ℕ, Bool, true, false, not, ◌||◌, ltb, ◌==◌, if◌then◌else◌, if_cases,
  List, [], ◌∷◌, length, ◌≡◌, refl, sym, ap, ◌∙◌, inl, inr, arith,
}
use mathlib.Core.Path.{subst}
use t2s.Gap.{missing, next_needed_id}
use t2s.Scheduler.{try_acquire}
use t2s.Backfill.{
  Job, BackfillPage, TradeBackfill, on_page, take_page, has_page, settle_heads, request_next,
  pump_pass, inline_fetch,
}
use t2s.Backfill.Requests.{IsReady, settle_heads-IsReady}
use t2s.Backfill.SameTask.{
  HasOneInFlight, IsSameTask-HasOneInFlight, on_page-IsSameTask, settle_heads-IsSameTask,
}

pub no_items {ℓ} : {A : Type ℓ} (xs : List A) → length xs ≡ 0 → xs ≡ []
no_items [] e = refl
no_items (x ∷ xs) e = absurd (omega arith)

module _ {V : Type 0} where
  -- A ready head is left alone.
  settled_again :
      (jobs : List Job) (b : TradeBackfill V) → IsReady b.cfg jobs → settle_heads jobs b ≡ b
  unfolding settle_heads IsReady
  settled_again [] b r = refl
  settled_again (job ∷ rest) b (on, small, needs) =
      let b1 : ltb b.cfg.max_gap_ids (missing job.gap) ≡ false = ground arith in
      let b2 : ltb job.gap.last_id (next_needed_id job.gap) ≡ false = ground arith in
      rw (on, b1, b2) refl

  -- With nothing in flight the heads are settled and the next page is asked for.
  abbrev asks : ℕ → TradeBackfill V → TradeBackfill V
  asks now b = let s = settle_heads b.queue b in request_next now s.queue s

  -- Nothing more to do until a page comes, or until the next call.
  pub record IsQuiet (b : TradeBackfill V) : Type 0 where
    pub no_page : b.results ≡ []
    pub one : HasOneInFlight b
    pub ready : b.in_flight ≡ false → IsReady b.cfg b.queue

  pub pump_pass-quiet :
      (now draw : ℕ) (b : TradeBackfill V) → IsQuiet b → (pump_pass now draw b).1 ≡ false
  unfolding pump_pass take_page
  pump_pass-quiet now draw b q = elim (Bool-cases b.in_flight) [
    | inl e ↦ rw (e, q.no_page) refl
    | inr e ↦ free e
  ]
    where
      settled : TradeBackfill V
      settled = settle_heads b.queue b

      asking : TradeBackfill V
      asking = request_next now settled.queue settled

      progressed : Bool
      progressed = has_page b || not (length settled.queue == length b.queue)

      free : b.in_flight ≡ false → (pump_pass now draw b).1 ≡ false
      free e =
          let same : length settled.queue ≡ length b.queue =
            ap (λ (x : TradeBackfill V). length x.queue) (settled_again b.queue b (q.ready e)) in
          subst
            (λ f.
              let tk = if f then take_page now draw b else b in
              let s = settle_heads tk.queue tk in
              let asking = request_next now s.queue s in
              let pass : TradeBackfill V × Bool = if tk.in_flight then (tk, has_page b) else (
                asking,
                if asking.in_flight
                    then inline_fetch
                    else has_page b || not (length s.queue == length tk.queue),
              ) in
              pass.1 ≡ false)
            (sym e)
            (if_cases (λ (r : TradeBackfill V × Bool). r.1 ≡ false) b.in_flight (b, has_page b)
              (asking, if asking.in_flight then inline_fetch else progressed) (λ h. cc)
              (λ h. ground (arith, same)))

  -- What is left once a page, if there is one, is taken.
  unfoldable pub taken : ℕ → ℕ → TradeBackfill V → TradeBackfill V
  taken now draw b = if b.in_flight then take_page now draw b else b

  taken-no_page :
      (now draw : ℕ) (b : TradeBackfill V)
      → HasOneInFlight b
      → ((taken now draw b).results ≡ []) × HasOneInFlight (taken now draw b)
  unfolding taken take_page
  taken-no_page now draw b one = go b.in_flight b.results refl refl
    where
      go :
          (f : Bool) (rs : List (BackfillPage V))
          → b.in_flight ≡ f
          → b.results ≡ rs
          → let left =
              if f
              then (elim rs as (λ _. TradeBackfill V) [
                | [] ↦ b
                | page ∷ results ↦
                    on_page page now draw (record b { results = results; in_flight = false })
              ])
              else b in
            (left.results ≡ []) × HasOneInFlight left
      go true [] e r = (r, one)
      go true (page ∷ results) e r =
          let before = record b { results = results; in_flight = false } in
          let t = on_page-IsSameTask page now draw before in
          let few : (length b.requests ≡ 0) × (length results ≡ 0) = (ground arith, ground arith) in
          (
            t.results_are ∙ no_items results few.1,
            IsSameTask-HasOneInFlight t (rw (few.0, few.1) (omega arith)),
          )
      go false rs e r = (no_items b.results (ground arith), one)

  request_next-IsQuiet :
      (now : ℕ) (b : TradeBackfill V)
      → b.in_flight ≡ false
      → HasOneInFlight b
      → IsReady b.cfg b.queue
      → IsQuiet (request_next now b.queue b)
  unfolding request_next
  request_next-IsQuiet now b free one r = go b.queue refl
    where
      empty : (length b.requests ≡ 0) × (length b.results ≡ 0)
      empty = (ground arith, ground arith)

      go : (q : List Job) → b.queue ≡ q → IsQuiet (request_next now q b)
      go [] e = record { no_page = no_items b.results empty.1; one = one; ready = λ _. r }
      go (job ∷ rest) e =
          if_cases IsQuiet (try_acquire 0 now b.sched).1 _ _
            (λ _. record {
              no_page = no_items b.results empty.1;
              one = rw (length-append b.requests (_ ∷ []), empty.0, empty.1) (omega arith);
              ready = λ k. cc;
            })
            (λ _. record { no_page = no_items b.results empty.1; one = one; ready = λ _. r })

  pub pump_pass-IsQuiet :
      (now draw : ℕ) (b : TradeBackfill V) → HasOneInFlight b → IsQuiet (pump_pass now draw b).0
  unfolding pump_pass taken
  pump_pass-IsQuiet now draw b one =
      let tk = taken now draw b in
      let settled = settle_heads tk.queue tk in
      let asking = request_next now settled.queue settled in
      let (no_page, one_left) = taken-no_page now draw b one in
      let t = settle_heads-IsSameTask tk.queue tk in
      let (ready, cfg, requests, published) = settle_heads-IsReady tk.queue tk refl in
      if_cases (λ (r : TradeBackfill V × Bool). IsQuiet r.0) tk.in_flight (tk, has_page b)
        (
          asking,
          if asking.in_flight
              then inline_fetch
              else has_page b || not (length settled.queue == length tk.queue),
        )
        (λ h. record { no_page = no_page; one = one_left; ready = λ k. cc })
        (λ h.
          request_next-IsQuiet now settled (t.in_flight_is ∙ h)
            (IsSameTask-HasOneInFlight t one_left)
            (subst (λ c. IsReady c settled.queue) (sym t.cfg_is) ready))
