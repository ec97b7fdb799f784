-- ===== src/Quotes/Run.antt =====
-- cpp/src/quote_feed_handler.cpp: run and runWebSocketLoop.
use t2s.Base.{
  ℕ, Bool, true, false, Option, none, some, String, List, [], ◌∷◌, ◌++◌, map, if◌then◌else◌, not,
  ◌≡◌, refl, ◌∙◌, ap,
}
use t2s.Json.{Json, Strtod}
use t2s.Rest.{SnapshotData}
use t2s.Quotes.{QuoteHandler}
use t2s.Quotes.Acts.{Act, message, results, timeouts, connection, works, act, acts}
use t2s.Reconnect.Loop.{Connection, Ending, Running, steps, starting, run, acts_of}
use t2s.Reconnect.Loop.Ends.{acts_of-++, run-IsRun}

-- applySnapshotResults, with the answers that the worker's thread got before.
pub record Results : Type 0 where
  pub answers : List (String → SnapshotData)
  pub now : ℕ
  pub expired : ℕ → ℕ
  pub answered : ℕ → ℕ

-- One pass of the message loop; `doc` is the message, `none` if it is no JSON.
pub record Round : Type 0 where
  pub results_in : Results
  pub doc : Option Json
  pub recv : ℕ
  pub now : ℕ
  pub draw : ℕ
  pub checked_at : ℕ

pub record Stream : Type 0 where
  pub tp_connected : Bool
  pub recv : ℕ
  pub now : ℕ
  pub established : Bool
  pub rounds : List Round
  -- of the pass whose read ends it; none if the flag is found cleared before
  pub last : Option Results
  pub ending : Ending
  pub waited : ℕ → Bool

unfoldable pub results_acts : Results → List Act
results_acts r = map works r.answers ++ (results r.now r.expired r.answered ∷ [])

unfoldable pub round_acts : Round → List Act
unfolding results_acts
round_acts r =
    results_acts r.results_in
    ++ (message r.doc r.recv r.now r.draw ∷ timeouts r.recv r.checked_at ∷ [])

unfoldable pub last_acts : Option Results → List Act
unfolding results_acts
last_acts none = []
last_acts (some r) = results_acts r

unfoldable pub connection_of : Stream → Connection Act
unfolding round_acts last_acts
connection_of s = record {
  begin = connection s.tp_connected s.recv s.now ∷ [];
  established = s.established;
  rounds = map round_acts s.rounds;
  last = last_acts s.last;
  ending = s.ending;
  waited = s.waited;
}

-- `tp_connects` is whether connect to TP succeeds.
unfoldable pub run_quotes :
    (String → Strtod) → Bool → List Stream → QuoteHandler → Running QuoteHandler
unfolding run connection_of
run_quotes strtod tp_connects streams h =
    if not tp_connects
    then starting h
    else run (act strtod) (map connection_of streams) (starting h)

pub steps-acts :
    (strtod : String → Strtod) (as_ : List Act) (h : QuoteHandler)
    → steps (act strtod) as_ h ≡ acts strtod as_ h
unfolding steps acts
steps-acts strtod [] h = refl
steps-acts strtod (a ∷ as_) h = steps-acts strtod as_ (act strtod a h)

-- All that could happen on the streams.
unfoldable pub stream_acts : List Stream → List Act
stream_acts streams = acts_of (map connection_of streams)

-- What a run does is acts, the first of those that could happen on the streams.
pub run_quotes-acts :
    (strtod : String → Strtod) (tp_connects : Bool) (streams : List Stream) (h : QuoteHandler)
    → (done : List Act) × ((rest : List Act) × (stream_acts streams ≡ done ++ rest))
      × ((run_quotes strtod tp_connects streams h).handler ≡ acts strtod done h)
unfolding run_quotes stream_acts acts
run_quotes-acts strtod false streams h = ([], (_, refl), refl)
run_quotes-acts strtod true streams h =
    let r = run-IsRun (act strtod) (map connection_of streams) (starting h) in
    (
      acts_of r.taken,
      (acts_of r.left, ap (λ cs. acts_of cs) r.order ∙ acts_of-++ r.taken r.left),
      r.handler ∙ steps-acts strtod (acts_of r.taken) h,
    )
