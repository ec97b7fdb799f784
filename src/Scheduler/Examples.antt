-- ===== src/Scheduler/Examples.antt =====
-- cpp/include/snapshot_scheduler.hpp: concrete schedulers.
use t2s.Base.{
  ℕ, ◌+◌, ◌-◌, ◌*◌, ◌/◌, ◌^◌, ◌≤◌, ◌<◌, min, none, List, [], ◌∷◌, get_or, false, ◌≡◌, refl, inl,
  arith,
}
use t2s.Scheduler.{
  Scheduler, default_scheduler_config, new_scheduler, budget, bucket, cost, on_failure, try_acquire,
}
use t2s.Scheduler.Calls.{Call, calls, acquire, failure, synced}
use t2s.Scheduler.Budget.Account.{refilled_at}
use t2s.Scheduler.Budget.{IsWithin, AreWithin, granted_within_budget}
use t2s.Scheduler.Backoff.{failure_waits}
use t2s.Scheduler.Pauses.{pause_holds}

abbrev fresh : Scheduler
fresh = new_scheduler 2 default_scheduler_config

abbrev client : List Call
client = acquire 0 0 ∷ acquire 1 10 ∷ failure 0 20 0 0 none 7 ∷ acquire 0 30 ∷ synced 0 ∷ []

client-AreWithin : AreWithin 0 1000 client
unfolding AreWithin IsWithin
client-AreWithin = (
  (omega arith, omega arith),
  ((omega arith, omega arith), (tt, ((omega arith, omega arith), (tt, tt)))),
)

fresh-full : fresh.tokens ≤ bucket fresh.cfg
unfolding new_scheduler
fresh-full = omega arith

fresh-unused : refilled_at 0 fresh ≤ 0
unfolding new_scheduler refilled_at
fresh-unused = omega arith

granted_within_budget_example :
    ((calls client fresh).requests * cost fresh.cfg
      ≤ fresh.requests * cost fresh.cfg + bucket fresh.cfg + budget fresh.cfg * (1000 - 0))
    × ((calls client fresh).tokens ≤ bucket fresh.cfg)
granted_within_budget_example =
    granted_within_budget fresh client 0 1000 fresh-full fresh-unused (omega arith) client-AreWithin

failure_waits_example :
    let s' = on_failure 0 5 0 0 none 7 fresh in
    let base =
      min (fresh.cfg.initial_backoff_ms * 2 ^ get_or fresh.failures 0 0) fresh.cfg.max_backoff_ms in
    ((later : ℕ) → later < 5 + base → (try_acquire 0 later s').1 ≡ false)
    × (get_or s'.next_allowed_ms 0 0 ≤ 5 + base + base * fresh.cfg.jitter_fraction / 100)
unfolding new_scheduler
failure_waits_example = failure_waits fresh 0 5 0 0 none 7 (omega arith) (omega arith)

pause_holds_example :
    (try_acquire 1 59000 (calls client (on_failure 0 0 429 10 none 7 fresh))).1 ≡ false
unfolding new_scheduler
pause_holds_example = pause_holds fresh 0 0 429 10 none 7 client 1 59000 (inl refl) (omega arith)
