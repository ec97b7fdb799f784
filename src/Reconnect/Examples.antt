-- ===== src/Reconnect/Examples.antt =====
-- A concrete wait, with the flag cleared after 1500 ms.
use t2s.Base.{ℕ, Bool, true, false, List, [], ◌∷◌, ltb, ◌≡◌, refl, min, ◌*◌, ◌^◌}
use t2s.Reconnect.{
  handler_backoff, delay_of, sleep_on, sleep_with_backoff, IsSlept, sleep_with_backoff-IsSlept,
}
use t2s.Reconnect.Loop.{
  Connection, threw, starting, run, run_connection, run_rounds, continued, after_loss, steps,
}
use t2s.Reconnect.Loop.Ends.{IsRun, run-IsRun}
use t2s.Scheduler.{doubled}

abbrev flag : ℕ → Bool
flag slept = ltb slept 1500

stopped_early : sleep_with_backoff handler_backoff 2 flag ≡ (1500, false)
unfolding sleep_with_backoff delay_of sleep_on doubled
stopped_early = refl

sleep_with_backoff-IsSlept_example :
    let out = sleep_with_backoff handler_backoff 2 flag in
    IsSlept (min (1000 * 2 ^ 2) 8000) flag out.0 × (out.1 ≡ flag out.0)
sleep_with_backoff-IsSlept_example = sleep_with_backoff-IsSlept handler_backoff 2 flag

-- The second connection is not established; the wait after it is cut short.
abbrev two_connections : List (Connection ℕ)
two_connections =
    record {
      begin = 1 ∷ [];
      established = true;
      rounds = (2 ∷ []) ∷ (3 ∷ 4 ∷ []) ∷ [];
      last = [];
      ending = threw;
      waited = λ t. true;
    }
    ∷ record {
      begin = 5 ∷ [];
      established = false;
      rounds = [];
      last = [];
      ending = threw;
      waited = λ t. ltb t 300;
    }
    ∷ []

-- The handler is what was done, newest first. The second wait ends early.
run-IsRun_example :
    IsRun
      (λ a done. a ∷ done)
      two_connections
      (starting [])
      (run (λ a done. a ∷ done) two_connections (starting []))
run-IsRun_example = run-IsRun (λ a done. a ∷ done) two_connections (starting [])

two_run : run (λ a done. a ∷ done) two_connections (starting []) ≡ record {
  handler = 5 ∷ 4 ∷ 3 ∷ 2 ∷ 1 ∷ [];
  reconnect_attempt = 2;
  msgs_received = 2;
  ws_reconnects = 2;
  slept = 1000 ∷ 300 ∷ [];
}
unfolding run run_connection run_rounds continued after_loss steps sleep_with_backoff delay_of
    sleep_on doubled
two_run = refl
