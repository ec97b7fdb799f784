-- ===== src/Scheduler/Budget/Account.antt =====
-- cpp/include/snapshot_scheduler.hpp: the account of weight granted, over a refill of the tokens.
use t2s.Base.{
  ℕ, ◌+◌, ◌-◌, ◌*◌, ◌≤◌, ◌<◌, min, false, Option, none, some, ltb, leb, ◌≡◌, refl, if_cases, ltb→lt,
  Bool-cases, arith, inl, inr,
}
use mathlib.Core.Path.{subst}
use t2s.Scheduler.{SnapshotSchedulerConfig, Scheduler, budget, bucket, cost, refill, refill_since}

-- The time of the last refill, or `start` before the first one.
unfoldable pub refilled_at : ℕ → Scheduler → ℕ
refilled_at start s = elim s.last_refill_ms [ none ↦ start | some last ↦ last ]

module _ (c : SnapshotSchedulerConfig) (start stop r0 : ℕ) where
  pub record IsOnBudget (s : Scheduler) : Type 0 where
    pub same : s.cfg ≡ c
    pub full : s.tokens ≤ bucket c
    pub spent :
        s.requests * cost c + s.tokens
        ≤ r0 * cost c + bucket c + budget c * (refilled_at start s - start)
    pub quiet : refilled_at start s < start → s.requests ≡ r0
    pub early : refilled_at start s ≤ stop

  refilled_at-some :
      (s : Scheduler) (last : ℕ) → s.last_refill_ms ≡ some last → refilled_at start s ≡ last
  unfolding refilled_at
  refilled_at-some s last e = rw e

  refilled_at-none : (s : Scheduler) → s.last_refill_ms ≡ none → refilled_at start s ≡ start
  unfolding refilled_at
  refilled_at-none s e = rw e

  split_mul : (b x y z : ℕ) → x ≤ y → y ≤ z → b * (z - x) ≡ b * (y - x) + b * (z - y)
  split_mul b x y z h1 h2 = let e : z - x ≡ (y - x) + (z - y) = ground arith in rw e ground arith

  -- What a later refill earns, from before the window on or within it.
  earned :
      (b tokens cap full last now used : ℕ)
      → last < now
      → start ≤ now
      → used + tokens ≤ full + b * (last - start)
      → (last < start → used + min cap (tokens + b * (now - last)) ≤ full)
      → used + min cap (tokens + b * (now - last)) ≤ full + b * (now - start)
  earned b tokens cap full last now used later after h quiet = elim (Bool-cases (ltb last start)) [
    | inl e ↦ ground (arith, quiet (ltb→lt last start e))
    | inr e ↦ rw (split_mul b start last now ground arith ground arith) ground arith
  ]

  refill_since-IsOnBudget :
      (now last : ℕ) (s : Scheduler)
      → start ≤ now
      → now ≤ stop
      → s.last_refill_ms ≡ some last
      → IsOnBudget s
      → IsOnBudget (refill_since now last s) × (start ≤ refilled_at start (refill_since now last s))
  unfolding refill_since refilled_at
  refill_since-IsOnBudget now last s after before e h =
      let at = refilled_at-some s last e in
      if_cases (λ r. IsOnBudget r × (start ≤ refilled_at start r)) (leb now last) _ _
        (λ past. (h, rw (refilled_at-some s last e) ground arith))
        (λ later. (
          record {
            same = h.same;
            full = rw h.same ground arith;
            spent = rw h.same (
                earned (budget c) s.tokens (bucket c) (r0 * cost c + bucket c) last now
                  (s.requests * cost c) ground arith after
                  (subst
                    (λ t.
                      s.requests * cost c + s.tokens
                      ≤ r0 * cost c + bucket c + budget c * (t - start))
                    (refilled_at-some s last e) h.spent)
                  (λ old. rw (h.quiet (rw (refilled_at-some s last e) old)) ground arith));
            quiet = λ old. absurd (omega arith);
            early = before;
          },
          after,
        ))

  -- The first refill sets the time only.
  first_refill-IsOnBudget :
      (now : ℕ) (s : Scheduler)
      → start ≤ now
      → now ≤ stop
      → s.last_refill_ms ≡ none
      → IsOnBudget s
      → IsOnBudget (record s { last_refill_ms = some now })
        × (start ≤ refilled_at start (record s { last_refill_ms = some now }))
  unfolding refilled_at
  first_refill-IsOnBudget now s after before e h =
      let zero_room : budget c * (start - start) ≡ 0 = ground arith in
      (
        record {
          same = h.same;
          full = h.full;
          spent = ground (
            arith,
            subst
                (λ t.
                  s.requests * cost c + s.tokens ≤ r0 * cost c + bucket c + budget c * (t - start))
                (refilled_at-none s e) h.spent,
            zero_room,
          );
          quiet = λ old. absurd (omega arith);
          early = before;
        },
        after,
      )

  -- A refill within the window keeps the account, and leaves the window open.
  pub refill-IsOnBudget :
      (now : ℕ) (s : Scheduler)
      → start ≤ now
      → now ≤ stop
      → IsOnBudget s
      → IsOnBudget (refill now s) × (start ≤ refilled_at start (refill now s))
  unfolding refill
  refill-IsOnBudget now s after before h = go s.last_refill_ms refl
    where
      go :
          (o : Option ℕ)
          → s.last_refill_ms ≡ o
          → let r = elim o as (λ _. Scheduler) [
            | none ↦ record s { last_refill_ms = some now }
            | some last ↦ refill_since now last s
          ] in
            IsOnBudget r × (start ≤ refilled_at start r)
      go none e = first_refill-IsOnBudget now s after before e h
      go (some last) e = refill_since-IsOnBudget now last s after before e h

  pub take_cost-IsOnBudget :
      (s : Scheduler)
      → start ≤ refilled_at start s
      → ltb s.tokens (cost s.cfg) ≡ false
      → IsOnBudget s
      → IsOnBudget (record s { tokens = s.tokens - cost s.cfg; requests = s.requests + 1 })
  unfolding refilled_at
  take_cost-IsOnBudget s within enough h = record {
    same = h.same;
    full = ground (arith, h.full);
    spent =
        let fewer : ltb s.tokens (cost c) ≡ false = rw⁻¹ h.same enough in
        rw h.same ground (arith, h.spent);
    quiet = λ old. absurd (omega arith);
    early = h.early;
  }
