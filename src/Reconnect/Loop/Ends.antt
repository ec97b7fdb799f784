-- ===== src/Reconnect/Loop/Ends.antt =====
-- cpp/src/quote_feed_handler.cpp and cpp/src/trade_feed_handler.cpp: what a run does to its handler, and
-- where it ends.
use t2s.Base.{
  ℕ, ◌+◌, ◌<◌, Bool, true, false, List, [], ◌∷◌, ◌++◌, length, ++-[], if_both, ◌≡◌, refl, sym, ◌∙◌,
  ap, if_cases, arith,
}
use mathlib.Core.List.{append_assoc}
use t2s.Reconnect.{handler_backoff, sleep_with_backoff, sleep_with_backoff-IsSlept}
use t2s.Reconnect.Loop.{
  Connection, Ending, threw, stopped, Running, steps, run_rounds, run_connection, after_loss,
  continued, run, flat, acts_on, acts_of,
}

-- The connections that were lost: each ended by an exception with the running flag set.
unfoldable pub lost_ones : {A : Type 0} → List (Connection A) → ℕ
lost_ones [] = 0
lost_ones (c ∷ cs) = elim c.ending [ threw ↦ lost_ones cs + 1 | stopped ↦ lost_ones cs ]

-- The connections that a run takes, with the waits it makes and those that it leaves. It goes on past a
-- connection only if that was lost and the flag was still set when the wait was over; it stops where the
-- flag was found cleared, on a connection or by a wait, or where no connection is left. A wait is less
-- than a tick over the longest delay.
pub data Goes {A : Type 0} : List (Connection A) → List ℕ → List (Connection A) → Type 0 where
  none_left : Goes [] [] []
  stops :
      (c : Connection A) (left : List (Connection A)) → c.ending ≡ stopped → Goes (c ∷ []) [] left
  gives_up :
      (c : Connection A) (wait : ℕ) (left : List (Connection A))
      → c.ending ≡ threw
      → wait < 8100
      → c.waited wait ≡ false
      → Goes (c ∷ []) (wait ∷ []) left
  goes_on :
      {taken left : List (Connection A)} {waits : List ℕ} (c : Connection A) (wait : ℕ)
      → c.ending ≡ threw
      → wait < 8100
      → c.waited wait ≡ true
      → Goes taken waits left
      → Goes (c ∷ taken) (wait ∷ waits) left

-- From s to s': the first of the connections were taken, all that happens on them was done to the handler,
-- in order, each lost one was counted and followed by one wait, and the run ended where it had to.
pub record IsRun {H A : Type 0} (step : A → H → H) (cs : List (Connection A)) (s s' : Running H)
    : Type 0 where
  pub taken : List (Connection A)
  pub left : List (Connection A)
  pub order : cs ≡ taken ++ left
  pub handler : s'.handler ≡ steps step (acts_of taken) s.handler
  pub waits : List ℕ
  pub goes : Goes taken waits left
  pub slept : s'.slept ≡ s.slept ++ waits
  pub counted : s'.ws_reconnects ≡ s.ws_reconnects + lost_ones taken
  pub waited : length waits ≡ lost_ones taken

pub acts_of-++ :
    {A : Type 0} (cs ds : List (Connection A)) → acts_of (cs ++ ds) ≡ acts_of cs ++ acts_of ds
unfolding acts_of
acts_of-++ [] ds = refl
acts_of-++ (c ∷ cs) ds =
    ap (λ zs. acts_on c ++ zs) (acts_of-++ cs ds)
    ∙ sym (append_assoc (acts_on c) (acts_of cs) (acts_of ds))

module _ {H A : Type 0} (step : A → H → H) where
  steps-++ : (xs ys : List A) (h : H) → steps step (xs ++ ys) h ≡ steps step ys (steps step xs h)
  unfolding steps
  steps-++ [] ys h = refl
  steps-++ (x ∷ xs) ys h = steps-++ xs ys (step x h)

  run_rounds-keeps :
      (rounds : List (List A)) (s : Running H)
      → let t = run_rounds step rounds s in
        (t.handler ≡ steps step (flat rounds) s.handler)
        × (t.slept ≡ s.slept)
        × (t.ws_reconnects ≡ s.ws_reconnects)
  unfolding run_rounds flat steps
  run_rounds-keeps [] s = (refl, refl, refl)
  run_rounds-keeps (round ∷ rounds) s =
      let (same, slept, ws) =
        run_rounds-keeps rounds (record s {
          handler = steps step round s.handler;
          msgs_received = s.msgs_received + 1;
        }) in
      (same ∙ sym (steps-++ round (flat rounds) s.handler), slept, ws)

  run_connection-keeps :
      (c : Connection A) (s : Running H)
      → let t = (run_connection step c s).0 in
        (t.handler ≡ steps step (acts_on c) s.handler)
        × (t.slept ≡ s.slept)
        × (t.ws_reconnects ≡ s.ws_reconnects)
  unfolding run_connection acts_on
  run_connection-keeps c s0 =
      let s = record s0 { handler = steps step c.begin s0.handler } in
      let read = run_rounds step c.rounds (record s { reconnect_attempt = 0 }) in
      let (same, slept, ws) = run_rounds-keeps c.rounds (record s { reconnect_attempt = 0 }) in
      if_both
        (λ (r : Running H × Ending) (as_ : List A).
          (r.0.handler ≡ steps step (c.begin ++ as_) s0.handler)
          × (r.0.slept ≡ s0.slept)
          × (r.0.ws_reconnects ≡ s0.ws_reconnects))
        c.established (record read { handler = steps step c.last read.handler }, c.ending)
        (s, c.ending) (flat c.rounds ++ c.last) []
        (λ e. (
          ap (λ h. steps step c.last h) same
              ∙ sym (steps-++ (flat c.rounds) c.last (steps step c.begin s0.handler))
              ∙ sym (steps-++ c.begin (flat c.rounds ++ c.last) s0.handler),
          slept,
          ws,
        ))
        (λ e. (ap (λ as_. steps step as_ s0.handler) (++-[] c.begin), refl, refl))

  after_loss-bounded :
      (c : Connection A) (s : Running H)
      → (wait : ℕ) × ((after_loss step c s).0.slept ≡ s.slept ++ (wait ∷ []))
        × (wait < 8100)
        × ((after_loss step c s).1 ≡ c.waited wait)
  unfolding after_loss
  after_loss-bounded c s =
      let is_slept = sleep_with_backoff-IsSlept handler_backoff s.reconnect_attempt c.waited in
      (
        (sleep_with_backoff handler_backoff s.reconnect_attempt c.waited).0,
        refl,
        omega (arith, is_slept.0.in_time),
        is_slept.1,
      )

  module _ (c : Connection A) (cs : List (Connection A)) (s : Running H)
      (next : Running H → Running H) (ih : (u : Running H) → IsRun step cs u (next u)) where
    lost-IsRun :
        (lost : Running H × Bool) (wait : ℕ)
        → c.ending ≡ threw
        → lost.0.handler ≡ steps step (acts_on c) s.handler
        → lost.0.slept ≡ s.slept ++ (wait ∷ [])
        → lost.0.ws_reconnects ≡ s.ws_reconnects + 1
        → wait < 8100
        → lost.1 ≡ c.waited wait
        → IsRun step
            (c ∷ cs)
            s
            (elim lost.1 as (λ _. Running H) [ true ↦ next lost.0 | false ↦ lost.0 ])
    unfolding acts_of lost_ones
    lost-IsRun (u, false) wait thrown same one ws short flag = record {
      taken = c ∷ [];
      left = cs;
      order = refl;
      handler = same ∙ ap (λ zs. steps step zs s.handler) (++-[] (acts_on c));
      waits = wait ∷ [];
      goes = gives_up c wait cs thrown short (sym flag);
      slept = one;
      counted = rw thrown (omega (arith, ws));
      waited = rw thrown refl;
    }
    lost-IsRun (u, true) wait thrown same one ws short flag =
        let h = ih u in
        record {
          taken = c ∷ h.taken;
          left = h.left;
          order = ap (λ zs. c ∷ zs) h.order;
          handler =
              h.handler
              ∙ ap (λ k. steps step (acts_of h.taken) k) same
              ∙ sym (steps-++ (acts_on c) (acts_of h.taken) s.handler);
          waits = wait ∷ h.waits;
          goes = goes_on c wait thrown short (sym flag) h.goes;
          slept = h.slept ∙ ap (λ zs. zs ++ h.waits) one ∙ append_assoc s.slept (wait ∷ []) h.waits;
          counted = rw thrown (omega (arith, h.counted, ws));
          waited = rw thrown (omega (arith, h.waited));
        }

    continued-IsRun :
        (t : Running H) (ending : Ending)
        → c.ending ≡ ending
        → t.handler ≡ steps step (acts_on c) s.handler
        → t.slept ≡ s.slept
        → t.ws_reconnects ≡ s.ws_reconnects
        → IsRun step (c ∷ cs) s (continued step ending c t next)
    unfolding continued acts_of lost_ones
    continued-IsRun t stopped end same slept ws = record {
      taken = c ∷ [];
      left = cs;
      order = refl;
      handler = same ∙ ap (λ zs. steps step zs s.handler) (++-[] (acts_on c));
      waits = [];
      goes = stops c cs end;
      slept = slept ∙ ++-[] s.slept;
      counted = rw end (omega (arith, ws));
      waited = rw end refl;
    }
    continued-IsRun t threw end same slept ws =
        let (wait, one, short, flag) = after_loss-bounded c t in
        lost-IsRun (after_loss step c t) wait end same (one ∙ ap (λ zs. zs ++ (wait ∷ [])) slept)
          (ap (λ n. n + 1) ws) short flag

  run_connection-ending :
      (c : Connection A) (s : Running H) → c.ending ≡ (run_connection step c s).1
  unfolding run_connection
  run_connection-ending c s =
      if_cases (λ (r : Running H × Ending). c.ending ≡ r.1) c.established _ _ (λ _. refl)
        (λ _. refl)

  -- A run of a handler over any connections, whatever is established and however it ends, ends. It takes
  -- the first of the connections, and what it did to the handler is all that happens on these, in order and
  -- without a hole. It goes on past a connection exactly if that was lost and the running flag was still set
  -- after the wait: so it reconnects as long as it may, and it stops only where it found the flag cleared or
  -- where the connections are at their end. Each lost connection, and no other, is counted as a reconnect
  -- and followed by one wait, and each wait is shorter than 8.1 seconds.
  pub run-IsRun : (cs : List (Connection A)) (s : Running H) → IsRun step cs s (run step cs s)
  unfolding run acts_of lost_ones steps
  run-IsRun [] s = record {
    taken = [];
    left = [];
    order = refl;
    handler = refl;
    waits = [];
    goes = none_left;
    slept = ++-[] s.slept;
    counted = omega arith;
    waited = refl;
  }
  run-IsRun (c ∷ cs) s =
      let (same, slept, ws) = run_connection-keeps c s in
      let t = run_connection step c s in
      continued-IsRun c cs s (λ u. run step cs u) (run-IsRun cs) t.0 t.1 (run_connection-ending c s)
        same slept ws
