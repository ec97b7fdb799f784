-- ===== src/Trades/Run.antt =====
-- cpp/src/trade_feed_handler.cpp: run and runWebSocketLoop.
use t2s.Base.{
  ℕ, Bool, true, false, Option, none, some, String, List, [], ◌∷◌, ◌++◌, map, if◌then◌else◌, not,
  ◌≡◌, refl, sym, ◌∙◌,
}
use mathlib.Core.Path.{subst}
use t2s.Json.{Json, Strtod}
use t2s.Gap.{EventResult, TradeGap}
use t2s.Backfill.{Request, BackfillPage}
use t2s.Book.Double.{Double}
use t2s.Trades.{TradeHandler, Timing}
use t2s.Trades.Acts.{Act, message, pumps, trade_state, fetches, health, act, acts}
use t2s.Trades.Numbering.{IsNumbered, trade_acts-IsNumbered}
use t2s.Reconnect.Loop.{Connection, Ending, Running, steps, starting, run, acts_of}
use t2s.Reconnect.Loop.Ends.{run-IsRun}

-- One pass of the message loop, with the answers that the backfill's worker got before.
pub record Round : Type 0 where
  pub answers : List (Request → BackfillPage Double)
  pub doc : Option Json
  pub timing : Timing
  pub now_ms : ℕ
  pub now : ℕ
  pub draw : ℕ → ℕ
  pub works : ℕ → Option (Request → BackfillPage Double)
  pub event_answers : List (List EventResult)
  -- TP's answers, if the health row is due
  pub health_due : Option (List EventResult)

pub record Stream : Type 0 where
  pub established : Bool
  pub rounds : List Round
  pub ending : Ending
  pub waited : ℕ → Bool

unfoldable pub health_acts : Option (List EventResult) → List Act
health_acts none = []
health_acts (some answers) = health answers ∷ []

unfoldable pub round_acts : Round → List Act
unfolding health_acts
round_acts r =
    map fetches r.answers
    ++ (message r.doc r.timing
        ∷ pumps r.now_ms r.now r.draw r.works r.event_answers
        ∷ health_acts r.health_due)

unfoldable pub connection_of : Stream → Connection Act
unfolding round_acts
connection_of s = record {
  begin = [];
  established = s.established;
  rounds = map round_acts s.rounds;
  last = [];
  ending = s.ending;
  waited = s.waited;
}

-- TP's answer to tradeState: none, or the last ids and the open gaps.
unfoldable pub state_acts : Option (List (String × ℕ) × List TradeGap) → List Act
state_acts none = []
state_acts (some (ids, gaps)) = trade_state ids gaps ∷ []

-- `tp_connects` is whether connect to TP succeeds.
unfoldable pub run_trades :
    (String → Strtod)
    → Bool
    → Option (List (String × ℕ) × List TradeGap)
    → List Stream
    → TradeHandler
    → Running TradeHandler
unfolding run connection_of state_acts
run_trades strtod tp_connects state streams h =
    if not tp_connects
    then starting h
    else run (act strtod) (map connection_of streams) (starting (acts strtod (state_acts state) h))

steps-acts :
    (strtod : String → Strtod) (as_ : List Act) (h : TradeHandler)
    → steps (act strtod) as_ h ≡ acts strtod as_ h
unfolding steps acts
steps-acts strtod [] h = refl
steps-acts strtod (a ∷ as_) h = steps-acts strtod as_ (act strtod a h)

-- From a handler whose rows are in order, over a whole run, whatever TP knows at the start, whichever
-- connections to the exchange are established and however they end, and whatever messages and pages
-- come on them: the published rows, live and backfilled together, have consecutive fhSeqNos without a
-- hole, and each has the width that its schema announces to TP, with fhSeqNo in the last column behind
-- fhSendUs.
pub run-IsNumbered :
    (strtod : String → Strtod) (start : ℕ) (tp_connects : Bool)
    (state : Option (List (String × ℕ) × List TradeGap)) (streams : List Stream) (h : TradeHandler)
    → IsNumbered start h
    → IsNumbered start (run_trades strtod tp_connects state streams h).handler
unfolding run_trades
run-IsNumbered strtod start false state streams h n = n
run-IsNumbered strtod start true state streams h n =
    let h' = acts strtod (state_acts state) h in
    let r = run-IsRun (act strtod) (map connection_of streams) (starting h') in
    subst (IsNumbered start) (sym (r.handler ∙ steps-acts strtod (acts_of r.taken) h')) (
      trade_acts-IsNumbered strtod start (acts_of r.taken) h'
        (trade_acts-IsNumbered strtod start (state_acts state) h n))
