-- ===== src/Scheduler/Backoff.antt =====
-- cpp/include/snapshot_scheduler.hpp: the wait after a failure, per symbol.
use t2s.Base.{
  ℕ, zero, suc, ◌+◌, ◌-◌, ◌*◌, ◌/◌, ◌^◌, ◌≤◌, ◌<◌, min, max, Bool, true, false, Option, none, some,
  ltb, leb, ◌==◌, ◌||◌, if◌then◌else◌, ◌≡◌, refl, ap, ◌∙◌, if_cases, get_or, get_or-set_self,
  length, arith,
}
use native.Mathlib.Nat.{le-div_iff_mul-le, div-mul-le_self}
use t2s.Scheduler.{
  SnapshotSchedulerConfig, Scheduler, doubled, backoff, jitter, refill, refill_since, try_acquire,
  pause_all, check_used_weight, rate_limited, note_failure, on_failure, cost,
}

one≤power : (k : ℕ) → 1 ≤ 2 ^ k
one≤power zero = omega arith
one≤power (suc k) = ground (arith, one≤power k)

≤-mul : (d p : ℕ) → 1 ≤ p → d ≤ d * p
≤-mul d p h = grind arith

doubled_step :
    (k max_ms d : ℕ) (t : Bool)
    → ltb d max_ms ≡ t
    → min (doubled k max_ms (d * 2)) max_ms ≡ min (d * 2 * 2 ^ k) max_ms
    → min (elim t as (λ _. ℕ) [ true ↦ doubled k max_ms (d * 2) | false ↦ d ]) max_ms
      ≡ min (d * 2 ^ suc k) max_ms
doubled_step k max_ms d true e ih =
    let regroup : (p : ℕ) → d * 2 * p ≡ d * (p * 2) = λ p. omega arith in
    let power : 2 ^ suc k ≡ 2 ^ k * 2 = omega arith in
    ih ∙ ap (λ x. min x max_ms) (regroup (2 ^ k)) ∙ rw power refl
doubled_step k max_ms d false e ih = ground (arith, ≤-mul d (2 ^ suc k) (one≤power (suc k)))

pub doubled_lem : (k max_ms d : ℕ) → min (doubled k max_ms d) max_ms ≡ min (d * 2 ^ k) max_ms
unfolding doubled
doubled_lem zero max_ms d = ground arith
doubled_lem (suc k) max_ms d =
    doubled_step k max_ms d (ltb d max_ms) refl (doubled_lem k max_ms (d * 2))

-- The delay after n + 1 failures in a row is the initial delay doubled n times, at most the maximum.
pub backoff-doubles :
    (cfg : SnapshotSchedulerConfig) (n : ℕ)
    → backoff cfg (suc n) ≡ min (cfg.initial_backoff_ms * 2 ^ n) cfg.max_backoff_ms
unfolding backoff
backoff-doubles cfg n =
    let less : suc n - 1 ≡ n = omega arith in
    rw (less, doubled_lem n cfg.max_backoff_ms cfg.initial_backoff_ms) refl

-- Neither the pause nor the header changes what a symbol waits for.
check_used_weight-next :
    (now : ℕ) (used : Option ℕ) (s : Scheduler)
    → (check_used_weight now used s).next_allowed_ms ≡ s.next_allowed_ms
unfolding check_used_weight pause_all
check_used_weight-next now none s = refl
check_used_weight-next now (some used) s =
    if_cases (λ r. r.next_allowed_ms ≡ s.next_allowed_ms)
      (leb (s.cfg.weight_limit_per_min * s.cfg.used_weight_pause_fraction) (used * 100))
      (pause_all now s.cfg.used_weight_pause_ms s) s (λ e. refl) (λ e. refl)

rate_limited-next :
    (now status retry : ℕ) (s : Scheduler)
    → (rate_limited now status retry s).next_allowed_ms ≡ s.next_allowed_ms
unfolding rate_limited pause_all
rate_limited-next now status retry s =
    let floor_ms = if status == 418 then s.cfg.min_pause418_ms else s.cfg.min_pause429_ms in
    if_cases (λ r. r.next_allowed_ms ≡ s.next_allowed_ms) (status == 429 || status == 418)
      (pause_all now (max floor_ms (retry * 1000)) s) s (λ e. refl) (λ e. refl)

pub refill-next : (now : ℕ) (s : Scheduler) → (refill now s).next_allowed_ms ≡ s.next_allowed_ms
unfolding refill refill_since
refill-next now s = go s.last_refill_ms
  where
    go :
        (o : Option ℕ)
        → (elim o as (λ _. Scheduler) [
          | none ↦ record s { last_refill_ms = some now }
          | some last ↦ refill_since now last s
        ]).next_allowed_ms
          ≡ s.next_allowed_ms
    go none = refl
    go (some last) =
        if_cases (λ r. r.next_allowed_ms ≡ s.next_allowed_ms) (leb now last) s _ (λ e. refl)
          (λ e. refl)

-- A call before the symbol's next allowed time is refused.
too_early :
    (sym_idx now : ℕ) (s : Scheduler)
    → now < get_or s.next_allowed_ms sym_idx 0
    → (try_acquire sym_idx now s).1 ≡ false
unfolding try_acquire
too_early sym_idx now s early =
    let waits : now < get_or (refill now s).next_allowed_ms sym_idx 0 =
      rw (refill-next now s) early in
    let r = refill now s in
    let taken : Scheduler × Bool =
      (record r { tokens = r.tokens - cost r.cfg; requests = r.requests + 1 }, true) in
    let P : Scheduler × Bool → Type 0 = λ x. x.1 ≡ false in
    let third = if ltb r.tokens (cost r.cfg) then (r, false) else taken in
    let second = if ltb now (get_or r.next_allowed_ms sym_idx 0) then (r, false) else third in
    if_cases P (ltb now r.pause_until_ms) (r, false) second (λ e1. refl)
      (λ e1.
        if_cases P (ltb now (get_or r.next_allowed_ms sym_idx 0)) (r, false) third (λ e2. refl)
          (λ e2. absurd (late waits e2)))
  where
    late : {a b : ℕ} → a < b → ltb a b ≡ false → ⊥
    late h e = ground arith

≤-factor : (x y z : ℕ) → y ≤ z → x * y ≤ x * z
≤-factor x y z h = grind arith

≤-cancel : (w x y : ℕ) → 0 < w → y * w ≤ x * w → y ≤ x
≤-cancel w x y pos h = grind arith

-- The jitter adds at most its fraction of the delay.
≤-quotient : (x draw w : ℕ) → draw < w → x * draw / (100 * w) ≤ x / 100
≤-quotient x draw w h =
    let q = x * draw / (100 * w) in
    (le-div_iff_mul-le ground arith).1 (
      ≤-cancel w x (q * 100) ground arith
        (ground (arith, div-mul-le_self (x * draw) (100 * w), ≤-factor x draw w ground arith)))

failure_next :
    (s : Scheduler) (sym_idx now status retry : ℕ) (used : Option ℕ) (draw : ℕ)
    → sym_idx < length s.next_allowed_ms
    → let base =
        min (s.cfg.initial_backoff_ms * 2 ^ get_or s.failures sym_idx 0) s.cfg.max_backoff_ms in
      get_or (on_failure sym_idx now status retry used draw s).next_allowed_ms sym_idx 0
      ≡ now + (base + jitter s.cfg draw base)
unfolding on_failure note_failure
failure_next s sym_idx now status retry used draw known =
    let noted = note_failure sym_idx now draw s in
    let one_more : get_or s.failures sym_idx 0 + 1 ≡ suc (get_or s.failures sym_idx 0) =
      omega arith in
    ap (λ xs. get_or xs sym_idx 0)
      (check_used_weight-next now used (rate_limited now status retry noted)
        ∙ rate_limited-next now status retry noted)
    ∙ get_or-set_self s.next_allowed_ms sym_idx _ 0 known
    ∙ rw (one_more, backoff-doubles s.cfg (get_or s.failures sym_idx 0)) refl

-- After a failure of a symbol that had n failures in a row, a request for it is refused for
-- min(initial * 2^n, maximum) ms, and the wait is at most the jitter fraction longer, for every
-- draw of the jitter in [0, 1).
pub failure_waits :
    (s : Scheduler) (sym_idx now status retry : ℕ) (used : Option ℕ) (draw : ℕ)
    → sym_idx < length s.next_allowed_ms
    → draw < 2 ^ 53
    → let s' = on_failure sym_idx now status retry used draw s in
      let base =
        min (s.cfg.initial_backoff_ms * 2 ^ get_or s.failures sym_idx 0) s.cfg.max_backoff_ms in
      ((later : ℕ) → later < now + base → (try_acquire sym_idx later s').1 ≡ false)
      × (get_or s'.next_allowed_ms sym_idx 0 ≤ now + base + base * s.cfg.jitter_fraction / 100)
unfolding jitter
failure_waits s sym_idx now status retry used draw known unit =
    let at = failure_next s sym_idx now status retry used draw known in
    let s' = on_failure sym_idx now status retry used draw s in
    let base =
      min (s.cfg.initial_backoff_ms * 2 ^ get_or s.failures sym_idx 0) s.cfg.max_backoff_ms in
    (
      λ later early. too_early sym_idx later s' (rw at ground arith),
      rw at ground (arith, ≤-quotient (base * s.cfg.jitter_fraction) draw (2 ^ 53) unit),
    )
