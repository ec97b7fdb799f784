-- ===== src/Reconnect.antt =====
-- cpp/include/tp_publisher.hpp, cpp/src/quote_feed_handler.cpp and cpp/src/trade_feed_handler.cpp: the wait
-- before a reconnect, which the three write alike. `running` gives the flag by the milliseconds slept.
pub mod Loop
pub mod Examples
use t2s.Base.{
  ℕ, zero, suc, ◌+◌, ◌*◌, ◌^◌, ◌≤◌, ◌<◌, min, Bool, true, false, ◌&&◌, ltb, ◌==◌, Bool-cases, sym,
  if◌then◌else◌, if_cases, ◌≡◌, refl, ◌⊎◌, inl, inr, arith,
}
use mathlib.Core.Path.{subst}
use t2s.Scheduler.{doubled}
use t2s.Scheduler.Backoff.{doubled_lem}

pub record Backoff : Type 0 where
  pub initial_ms : ℕ
  pub max_ms : ℕ

abbrev pub handler_backoff : Backoff
handler_backoff = record { initial_ms = 1000; max_ms = 8000 }

-- The delay doubles for each attempt so far while it is below the maximum.
unfoldable pub delay_of : Backoff → ℕ → ℕ
delay_of cfg attempt = min (doubled attempt cfg.max_ms cfg.initial_ms) cfg.max_ms

-- The sleeping loop, with the ticks of 100 ms left to it.
unfoldable pub sleep_on : ℕ → ℕ → (ℕ → Bool) → ℕ → ℕ
sleep_on zero delay running slept = slept
sleep_on (suc fuel) delay running slept = elim (ltb slept delay && running slept) [
  | true ↦ sleep_on fuel delay running (slept + 100)
  | false ↦ slept
]

-- sleepWithBackoff: the time slept, and what it returns.
unfoldable pub sleep_with_backoff : Backoff → ℕ → (ℕ → Bool) → ℕ × Bool
unfolding delay_of sleep_on
sleep_with_backoff cfg attempt running =
    let slept = sleep_on (delay_of cfg attempt) (delay_of cfg attempt) running 0 in
    (slept, running slept)

-- The loop has ended: every test before was passed, and the last one failed.
pub record IsSlept (delay : ℕ) (running : ℕ → Bool) (slept : ℕ) : Type 0 where
  pub ticks : ℕ
  pub in_ticks : slept ≡ ticks * 100
  pub ran : (k : ℕ) → k < ticks → running (k * 100) ≡ true
  pub in_time : slept < delay + 100
  pub ended : (delay ≤ slept) ⊎ (running slept ≡ false)

sleep_on-IsSlept :
    (fuel delay : ℕ) (running : ℕ → Bool) (ticks : ℕ)
    → delay ≤ ticks * 100 + fuel
    → ticks * 100 < delay + 100
    → ((k : ℕ) → k < ticks → running (k * 100) ≡ true)
    → IsSlept delay running (sleep_on fuel delay running (ticks * 100))
unfolding sleep_on
sleep_on-IsSlept zero delay running ticks enough early ran = record {
  ticks = ticks;
  in_ticks = refl;
  ran = ran;
  in_time = early;
  ended = inl (omega arith);
}
sleep_on-IsSlept (suc fuel) delay running ticks enough early ran =
    go (ltb (ticks * 100) delay) (running (ticks * 100)) refl refl (λ early_next ran_next.
      sleep_on-IsSlept fuel delay running (suc ticks) (omega arith) early_next ran_next)
  where
    go :
        (b r : Bool)
        → ltb (ticks * 100) delay ≡ b
        → running (ticks * 100) ≡ r
        → (suc ticks * 100 < delay + 100
            → ((k : ℕ) → k < suc ticks → running (k * 100) ≡ true)
            → IsSlept delay running (sleep_on fuel delay running (suc ticks * 100)))
        → IsSlept delay running (elim (b && r) as (λ _. ℕ) [
          | true ↦ sleep_on fuel delay running (ticks * 100 + 100)
          | false ↦ ticks * 100
        ])
    go true true e f ih =
        let next : suc ticks * 100 ≡ ticks * 100 + 100 = omega arith in
        subst (λ n. IsSlept delay running (sleep_on fuel delay running n)) next
          (ih (ground arith) (λ k h. elim (Bool-cases (k == ticks)) [
            | inl same ↦ subst (λ i. running (i * 100) ≡ true) (ground arith) f
            | inr less ↦ ran k (ground arith)
          ]))
    go true false e f ih = record {
      ticks = ticks;
      in_ticks = refl;
      ran = ran;
      in_time = early;
      ended = inr f;
    }
    go false r e f ih = record {
      ticks = ticks;
      in_ticks = refl;
      ran = ran;
      in_time = early;
      ended = inl (ground arith);
    }

-- A wait before the n-th next attempt is the initial delay doubled n times, at most the maximum; and the
-- wait ends, whatever the running flag does: after whole ticks of 100 ms that were all entered with the flag
-- set, less than a tick past the delay, and either with the delay over or at the first tick at which the
-- flag is found cleared.
pub sleep_with_backoff-IsSlept :
    (cfg : Backoff) (attempt : ℕ) (running : ℕ → Bool)
    → let out = sleep_with_backoff cfg attempt running in
      let delay = min (cfg.initial_ms * 2 ^ attempt) cfg.max_ms in
      IsSlept delay running out.0 × (out.1 ≡ running out.0)
unfolding sleep_with_backoff delay_of
sleep_with_backoff-IsSlept cfg attempt running =
    rw (doubled_lem attempt cfg.max_ms cfg.initial_ms) (
      sleep_on-IsSlept (min (cfg.initial_ms * 2 ^ attempt) cfg.max_ms)
          (min (cfg.initial_ms * 2 ^ attempt) cfg.max_ms) running 0 (omega arith) (omega arith)
          (λ k h. absurd (omega arith)),
      refl,
    )
