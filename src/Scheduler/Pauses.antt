-- ===== src/Scheduler/Pauses.antt =====
-- cpp/include/snapshot_scheduler.hpp: the pause after HTTP 429 and 418.
use t2s.Base.{
  ℕ, ◌+◌, ◌-◌, ◌*◌, ◌≤◌, ◌<◌, max, Bool, true, false, Option, none, some, List, [], ◌∷◌, ltb, leb,
  ◌==◌, ◌||◌, if◌then◌else◌, ◌≡◌, refl, if_cases, get_or, ◌⊎◌, inl, inr, arith,
}
use t2s.Scheduler.{
  Scheduler, refill, refill_since, try_acquire, pause_all, check_used_weight, rate_limited,
  note_failure, on_fetch_ok, on_failure, on_synced, cost,
}
use t2s.Scheduler.Calls.{Call, call, calls, acquire, fetch_ok, failure, synced}

pause_all-extends :
    (now ms : ℕ) (s : Scheduler) → s.pause_until_ms ≤ (pause_all now ms s).pause_until_ms
unfolding pause_all
pause_all-extends now ms s = ground arith

pause_all-reaches : (now ms : ℕ) (s : Scheduler) → now + ms ≤ (pause_all now ms s).pause_until_ms
unfolding pause_all
pause_all-reaches now ms s = ground arith

check_used_weight-extends :
    (now : ℕ) (used : Option ℕ) (s : Scheduler)
    → s.pause_until_ms ≤ (check_used_weight now used s).pause_until_ms
unfolding check_used_weight
check_used_weight-extends now none s = omega arith
check_used_weight-extends now (some used) s =
    if_cases (λ r. s.pause_until_ms ≤ r.pause_until_ms)
      (leb (s.cfg.weight_limit_per_min * s.cfg.used_weight_pause_fraction) (used * 100))
      (pause_all now s.cfg.used_weight_pause_ms s) s
      (λ e. pause_all-extends now s.cfg.used_weight_pause_ms s) (λ e. omega arith)

rate_limited-extends :
    (now status retry : ℕ) (s : Scheduler)
    → s.pause_until_ms ≤ (rate_limited now status retry s).pause_until_ms
unfolding rate_limited
rate_limited-extends now status retry s =
    let floor_ms = if status == 418 then s.cfg.min_pause418_ms else s.cfg.min_pause429_ms in
    if_cases (λ r. s.pause_until_ms ≤ r.pause_until_ms) (status == 429 || status == 418)
      (pause_all now (max floor_ms (retry * 1000)) s) s
      (λ e. pause_all-extends now (max floor_ms (retry * 1000)) s) (λ e. omega arith)

rate_limited-reaches :
    (now status retry : ℕ) (s : Scheduler)
    → (status ≡ 429) ⊎ (status ≡ 418)
    → now
        + max
            (if status == 418 then s.cfg.min_pause418_ms else s.cfg.min_pause429_ms)
            (retry * 1000)
      ≤ (rate_limited now status retry s).pause_until_ms
unfolding rate_limited
rate_limited-reaches now status retry s (inl e) =
    rw e (pause_all-reaches now (max s.cfg.min_pause429_ms (retry * 1000)) s)
rate_limited-reaches now status retry s (inr e) =
    rw e (pause_all-reaches now (max s.cfg.min_pause418_ms (retry * 1000)) s)

refill-pause : (now : ℕ) (s : Scheduler) → (refill now s).pause_until_ms ≡ s.pause_until_ms
unfolding refill refill_since
refill-pause now s = go s.last_refill_ms
  where
    go :
        (o : Option ℕ)
        → (elim o as (λ _. Scheduler) [
          | none ↦ record s { last_refill_ms = some now }
          | some last ↦ refill_since now last s
        ]).pause_until_ms
          ≡ s.pause_until_ms
    go none = refl
    go (some last) =
        if_cases (λ r. r.pause_until_ms ≡ s.pause_until_ms) (leb now last) s _ (λ e. refl)
          (λ e. refl)

-- A request changes no pause, and one during a pause is refused.
module _ (sym_idx now : ℕ) (s : Scheduler) where
  try_acquire-pause :
      ((try_acquire sym_idx now s).0.pause_until_ms ≡ s.pause_until_ms)
      × (now < s.pause_until_ms → (try_acquire sym_idx now s).1 ≡ false)
  unfolding try_acquire
  try_acquire-pause =
      let r = refill now s in
      let same = refill-pause now s in
      let taken : Scheduler × Bool =
        (record r { tokens = r.tokens - cost r.cfg; requests = r.requests + 1 }, true) in
      let P : Scheduler × Bool → Type 0 =
        λ x. (x.0.pause_until_ms ≡ s.pause_until_ms) × (now < s.pause_until_ms → x.1 ≡ false) in
      let third = if ltb r.tokens (cost r.cfg) then (r, false) else taken in
      let second = if ltb now (get_or r.next_allowed_ms sym_idx 0) then (r, false) else third in
      if_cases P (ltb now r.pause_until_ms) (r, false) second (λ e1. (same, λ h. refl))
        (λ e1.
          let over : ¬ (now < s.pause_until_ms) = ground arith in
          if_cases P (ltb now (get_or r.next_allowed_ms sym_idx 0)) (r, false) third
            (λ e2. (same, λ h. refl))
            (λ e2.
              if_cases P (ltb r.tokens (cost r.cfg)) (r, false) taken (λ e3. (same, λ h. refl))
                (λ e3. (same, λ h. absurd (over h)))))

call-extends : (c : Call) (s : Scheduler) → s.pause_until_ms ≤ (call c s).pause_until_ms
unfolding call on_fetch_ok on_failure note_failure on_synced
call-extends (acquire sym_idx now) s = rw (try_acquire-pause sym_idx now s).0 omega arith
call-extends (fetch_ok now used) s = check_used_weight-extends now used s
call-extends (failure sym_idx now status retry used draw) s =
    let noted = note_failure sym_idx now draw s in
    ground (
      arith,
      check_used_weight-extends now used (rate_limited now status retry noted),
      rate_limited-extends now status retry noted,
    )
call-extends (synced sym_idx) s = omega arith

calls-extends : (cs : List Call) (s : Scheduler) → s.pause_until_ms ≤ (calls cs s).pause_until_ms
unfolding calls
calls-extends [] s = omega arith
calls-extends (c ∷ cs) s = ground (arith, call-extends c s, calls-extends cs (call c s))

-- After HTTP 429 or 418 no request is granted, for any symbol, before the server's Retry-After and
-- the status's least pause are over, whatever calls follow.
pub pause_holds :
    (s : Scheduler) (failed now status retry : ℕ) (used : Option ℕ) (draw : ℕ) (cs : List Call)
    (sym_idx later : ℕ)
    → (status ≡ 429) ⊎ (status ≡ 418)
    → later
      < now
        + max
            (if status == 418 then s.cfg.min_pause418_ms else s.cfg.min_pause429_ms)
            (retry * 1000)
    → (try_acquire sym_idx later (calls cs (on_failure failed now status retry used draw s))).1
      ≡ false
unfolding on_failure note_failure
pause_holds s failed now status retry used draw cs sym_idx later limited early =
    let noted = note_failure failed now draw s in
    let halted = rate_limited now status retry noted in
    (try_acquire-pause sym_idx later (calls cs (check_used_weight now used halted))).1 (
      ground (
        arith,
        calls-extends cs (check_used_weight now used halted),
        check_used_weight-extends now used halted,
        rate_limited-reaches now status retry noted limited,
      ))
