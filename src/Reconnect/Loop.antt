-- ===== src/Reconnect/Loop.antt =====
-- cpp/src/quote_feed_handler.cpp and cpp/src/trade_feed_handler.cpp: run's loop over the connections to
-- the exchange, which the two write alike, over what a handler does (`step`). The network gives each
-- connection: whether it is established, the messages that come, and how it ends.
pub mod Ends
use t2s.Base.{
  ℕ, ◌+◌, ◌<◌, Bool, true, false, List, [], ◌∷◌, ◌++◌, length, ++-[], if◌then◌else◌, if_both, ◌≡◌,
  refl, sym, ◌∙◌, ap, if_cases, arith,
}
use mathlib.Core.List.{append_assoc}
use t2s.Reconnect.{handler_backoff, sleep_with_backoff, sleep_with_backoff-IsSlept}

-- An exception with the running flag set, or the flag is found cleared, after an exception or without one.
pub data Ending : Type 0 where
  threw : Ending
  stopped : Ending

-- `begin` is done before the connection is established, a round with each message, `last` before the
-- read that ends it; `waited` is the running flag by the time slept after it.
pub record Connection (A : Type 0) : Type 0 where
  pub begin : List A
  pub established : Bool
  pub rounds : List (List A)
  pub last : List A
  pub ending : Ending
  pub waited : ℕ → Bool

pub record Running (H : Type 0) : Type 0 where
  pub handler : H
  pub reconnect_attempt : ℕ
  pub msgs_received : ℕ
  pub ws_reconnects : ℕ
  -- the time slept before each new attempt
  pub slept : List ℕ

abbrev pub starting : {H : Type 0} → H → Running H
starting h = record {
  handler = h;
  reconnect_attempt = 0;
  msgs_received = 0;
  ws_reconnects = 0;
  slept = [];
}

module _ {H A : Type 0} (step : A → H → H) where
  unfoldable pub steps : List A → H → H
  steps [] h = h
  steps (a ∷ as_) h = steps as_ (step a h)

  -- The message loop.
  unfoldable pub run_rounds : List (List A) → Running H → Running H
  unfolding steps
  run_rounds [] s = s
  run_rounds (round ∷ rounds) s =
      run_rounds rounds
        (record s { handler = steps round s.handler; msgs_received = s.msgs_received + 1 })

  -- runWebSocketLoop: the state after it, and whether it threw.
  unfoldable pub run_connection : Connection A → Running H → Running H × Ending
  unfolding run_rounds
  run_connection c s0 =
      let s = record s0 { handler = steps c.begin s0.handler } in
      let read = run_rounds c.rounds (record s { reconnect_attempt = 0 }) in
      if c.established
      then (record read { handler = steps c.last read.handler }, c.ending)
      else (s, c.ending)

  -- The exception handler: the connection is counted and the wait before the next one slept.
  unfoldable pub after_loss : Connection A → Running H → Running H × Bool
  after_loss c s =
      let wait = sleep_with_backoff handler_backoff s.reconnect_attempt c.waited in
      (
        record s {
          ws_reconnects = s.ws_reconnects + 1;
          reconnect_attempt = s.reconnect_attempt + 1;
          slept = s.slept ++ (wait.0 ∷ []);
        },
        wait.1,
      )

  unfoldable pub continued : Ending → Connection A → Running H → (Running H → Running H) → Running H
  unfolding after_loss
  continued stopped c s next = s
  continued threw c s next =
      let lost = after_loss c s in elim lost.1 [ true ↦ next lost.0 | false ↦ lost.0 ]

  -- run's loop; when the connections are at their end, the running flag is found cleared.
  unfoldable pub run : List (Connection A) → Running H → Running H
  unfolding run_connection continued
  run [] s = s
  run (c ∷ cs) s = let done = run_connection c s in continued done.1 c done.0 (λ t. run cs t)

unfoldable pub flat : {A : Type 0} → List (List A) → List A
flat [] = []
flat (round ∷ rounds) = round ++ flat rounds

-- What happens on a connection, and on all of them.
unfoldable pub acts_on : {A : Type 0} → Connection A → List A
unfolding flat
acts_on c = c.begin ++ (if c.established then flat c.rounds ++ c.last else [])

unfoldable pub acts_of : {A : Type 0} → List (Connection A) → List A
unfolding acts_on
acts_of [] = []
acts_of (c ∷ cs) = acts_on c ++ acts_of cs
