-- ===== src/Scheduler/Budget.antt =====
-- cpp/include/snapshot_scheduler.hpp: what the weight budget allows in a window of time.
pub mod Account
use t2s.Base.{
  ℕ, ◌+◌, ◌-◌, ◌*◌, ◌≤◌, ◌<◌, min, max, Bool, true, false, Option, none, some, List, [], ◌∷◌, ltb,
  leb, ◌==◌, ◌||◌, if◌then◌else◌, ◌≡◌, refl, if_cases, ltb→lt, Bool-cases, get_or, arith, inl, inr,
}
use mathlib.Core.Path.{subst}
use t2s.Scheduler.{
  SnapshotSchedulerConfig, Scheduler, budget, bucket, cost, refill, refill_since, try_acquire,
  pause_all, check_used_weight, rate_limited, note_failure, on_fetch_ok, on_failure, on_synced,
}
use t2s.Scheduler.Calls.{Call, call, calls, acquire, fetch_ok, failure, synced}
use t2s.Scheduler.Budget.Account.{refilled_at, IsOnBudget, refill-IsOnBudget, take_cost-IsOnBudget}

-- The acquire calls ask between `start` and `stop`.
unfoldable pub IsWithin : ℕ → ℕ → Call → Type 0
IsWithin start stop (acquire sym_idx now) = (start ≤ now) × (now ≤ stop)
IsWithin start stop (fetch_ok now used) = Unit
IsWithin start stop (failure sym_idx now status retry used draw) = Unit
IsWithin start stop (synced sym_idx) = Unit

unfoldable pub AreWithin : ℕ → ℕ → List Call → Type 0
AreWithin start stop [] = Unit
AreWithin start stop (c ∷ cs) = IsWithin start stop c × AreWithin start stop cs

mul_mono : (b x y : ℕ) → x ≤ y → b * x ≤ b * y
mul_mono b x y h = grind arith

module _ (c : SnapshotSchedulerConfig) (start stop r0 : ℕ) where
  abbrev OnBudget : Scheduler → Type 0
  OnBudget = IsOnBudget c start stop r0

  pause_all-IsOnBudget : (now ms : ℕ) (s : Scheduler) → OnBudget s → OnBudget (pause_all now ms s)
  unfolding pause_all refilled_at
  pause_all-IsOnBudget now ms s h = record {
    same = h.same;
    full = h.full;
    spent = h.spent;
    quiet = h.quiet;
    early = h.early;
  }

  check_used_weight-IsOnBudget :
      (now : ℕ) (used : Option ℕ) (s : Scheduler)
      → OnBudget s
      → OnBudget (check_used_weight now used s)
  unfolding check_used_weight
  check_used_weight-IsOnBudget now none s h = h
  check_used_weight-IsOnBudget now (some used) s h =
      if_cases OnBudget
        (leb (s.cfg.weight_limit_per_min * s.cfg.used_weight_pause_fraction) (used * 100)) _ _
        (λ e. pause_all-IsOnBudget now s.cfg.used_weight_pause_ms s h) (λ e. h)

  rate_limited-IsOnBudget :
      (now status retry : ℕ) (s : Scheduler)
      → OnBudget s
      → OnBudget (rate_limited now status retry s)
  unfolding rate_limited
  rate_limited-IsOnBudget now status retry s h =
      let floor_ms = if status == 418 then s.cfg.min_pause418_ms else s.cfg.min_pause429_ms in
      if_cases OnBudget (status == 429 || status == 418)
        (pause_all now (max floor_ms (retry * 1000)) s) s
        (λ e. pause_all-IsOnBudget now (max floor_ms (retry * 1000)) s h) (λ e. h)

  on_failure-IsOnBudget :
      (sym_idx now status retry : ℕ) (used : Option ℕ) (draw : ℕ) (s : Scheduler)
      → OnBudget s
      → OnBudget (on_failure sym_idx now status retry used draw s)
  unfolding on_failure note_failure refilled_at
  on_failure-IsOnBudget sym_idx now status retry used draw s h =
      check_used_weight-IsOnBudget now used _ (
        rate_limited-IsOnBudget now status retry _ (record {
          same = h.same;
          full = h.full;
          spent = h.spent;
          quiet = h.quiet;
          early = h.early;
        }))

  on_synced-IsOnBudget : (sym_idx : ℕ) (s : Scheduler) → OnBudget s → OnBudget (on_synced sym_idx s)
  unfolding on_synced refilled_at
  on_synced-IsOnBudget sym_idx s h = record {
    same = h.same;
    full = h.full;
    spent = h.spent;
    quiet = h.quiet;
    early = h.early;
  }

  try_acquire-IsOnBudget :
      (sym_idx now : ℕ) (s : Scheduler)
      → start ≤ now
      → now ≤ stop
      → OnBudget s
      → OnBudget (try_acquire sym_idx now s).0
  unfolding try_acquire
  try_acquire-IsOnBudget sym_idx now s after before h =
      let k = refill-IsOnBudget c start stop r0 now s after before h in
      let r = refill now s in
      let taken : Scheduler × Bool =
        (record r { tokens = r.tokens - cost r.cfg; requests = r.requests + 1 }, true) in
      let P : Scheduler × Bool → Type 0 = λ x. OnBudget x.0 in
      let third = if ltb r.tokens (cost r.cfg) then (r, false) else taken in
      let second = if ltb now (get_or r.next_allowed_ms sym_idx 0) then (r, false) else third in
      if_cases P (ltb now r.pause_until_ms) (r, false) second (λ e1. k.0)
        (λ e1.
          if_cases P (ltb now (get_or r.next_allowed_ms sym_idx 0)) (r, false) third (λ e2. k.0)
            (λ e2.
              if_cases P (ltb r.tokens (cost r.cfg)) (r, false) taken (λ e3. k.0)
                (λ e3. take_cost-IsOnBudget c start stop r0 r k.1 e3 k.0)))

  call-IsOnBudget :
      (x : Call) (s : Scheduler) → IsWithin start stop x → OnBudget s → OnBudget (call x s)
  unfolding call IsWithin on_fetch_ok
  call-IsOnBudget (acquire sym_idx now) s (after, before) h =
      try_acquire-IsOnBudget sym_idx now s after before h
  call-IsOnBudget (fetch_ok now used) s w h = check_used_weight-IsOnBudget now used s h
  call-IsOnBudget (failure sym_idx now status retry used draw) s w h =
      on_failure-IsOnBudget sym_idx now status retry used draw s h
  call-IsOnBudget (synced sym_idx) s w h = on_synced-IsOnBudget sym_idx s h

  calls-IsOnBudget :
      (cs : List Call) (s : Scheduler)
      → AreWithin start stop cs
      → OnBudget s
      → OnBudget (calls cs s)
  unfolding calls AreWithin
  calls-IsOnBudget [] s w h = h
  calls-IsOnBudget (c ∷ cs) s (w, ws) h =
      calls-IsOnBudget cs (call c s) ws (call-IsOnBudget c s w h)

-- Whatever calls a client makes, in a window of time with a clock that has not asked later than the
-- window's start before, the weight granted in the window is at most one full bucket plus the
-- budget per minute for the window's length (weights in 1/6,000,000 units), and the tokens never
-- exceed the bucket.
pub granted_within_budget :
    (s : Scheduler) (cs : List Call) (start stop : ℕ)
    → s.tokens ≤ bucket s.cfg
    → refilled_at start s ≤ start
    → start ≤ stop
    → AreWithin start stop cs
    → ((calls cs s).requests * cost s.cfg
        ≤ s.requests * cost s.cfg + bucket s.cfg + budget s.cfg * (stop - start))
      × ((calls cs s).tokens ≤ bucket s.cfg)
granted_within_budget s cs start stop full past ordered within =
    let fresh : IsOnBudget s.cfg start stop s.requests s = record {
      same = refl;
      full = full;
      spent = ground arith;
      quiet = λ old. refl;
      early = ground arith;
    } in
    let h = calls-IsOnBudget s.cfg start stop s.requests cs s within fresh in
    let room =
      mul_mono (budget s.cfg) (refilled_at start (calls cs s) - start) (stop - start)
        (ground (arith, h.early)) in
    (ground (arith, h.spent, room), h.full)
