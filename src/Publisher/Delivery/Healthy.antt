-- ===== src/Publisher/Delivery/Healthy.antt =====
-- cpp/include/tp_publisher.hpp and kdb/tick/tp.q: a handler connects again once TP can be reached.
use t2s.Base.{
  ℕ, zero, suc, ◌+◌, ◌≤◌, Bool, true, false, Option, none, some, String, List, [], ◌∷◌, ◌++◌,
  length, replicate, take, ltb, if◌then◌else◌, not, ◌≡◌, refl, sym, ◌∙◌, ap, ◌⊎◌, inl, inr,
  if_cases, arith,
}
use mathlib.Core.Path.{subst}
use t2s.Publisher.{
  ResendRing, Publisher, Attempt, Registration, lost, refused, replied, send_rows, resend, register,
  after,
}
use t2s.Publisher.Cases.{sent_after, counted, resend_after_cases, register_cases}
use t2s.Publisher.Delivery.{Link, Contact, asked, attempt_of, written, broken, settled, reconnect}
use t2s.Tickerplant.{Tickerplant, register_session}
use t2s.Tickerplant.Logged.{read_all-width}
use t2s.Tickerplant.Session.{register_session-answers}

-- TP can be reached and answers, and n sends go out.
unfoldable pub healthy_contact : ℕ → Contact
healthy_contact n = record {
  opened = true;
  reached = true;
  answered = true;
  sends = replicate n true;
  read = 0;
}

module _ {R : Type 0} where
  length-after : (seq : ℕ) (rows : List (ℕ × R)) → length (after seq rows) ≤ length rows
  unfolding after
  length-after seq [] = omega arith
  length-after seq ((n, row) ∷ rows) =
      if_cases (λ r. length r ≤ suc (length rows)) (ltb seq n) ((n, row) ∷ after seq rows)
        (after seq rows) (λ e. ground (arith, length-after seq rows))
        (λ e. ground (arith, length-after seq rows))

  send_rows-enough :
      (n : ℕ) (rows : List (ℕ × R)) → length rows ≤ n → (send_rows rows (replicate n true)).1 ≡ true
  unfolding send_rows
  send_rows-enough n [] room = refl
  send_rows-enough zero (row ∷ rows) room = absurd (omega arith)
  send_rows-enough (suc n) (row ∷ rows) room = send_rows-enough n rows (omega arith)

  -- A resend keeps the flag and the ring, and goes through when enough sends go out.
  resend-enough :
      (reply : Option ℕ) (sends : List Bool) (p : Publisher R)
      → let r = resend reply sends p in
        (r.0.running ≡ p.running)
        × (r.0.ring ≡ p.ring)
        × ((n : ℕ) → sends ≡ replicate n true → length p.ring.rows ≤ n → r.1 ≡ true)
  unfolding resend sent_after counted
  resend-enough none sends p = (refl, refl, λ n e room. refl)
  resend-enough (some logged) sends p =
      resend_after_cases
        (λ r.
          (r.0.running ≡ p.running)
          × (r.0.ring ≡ p.ring)
          × ((n : ℕ) → sends ≡ replicate n true → length p.ring.rows ≤ n → r.1 ≡ true))
        logged sends p (λ e. (refl, refl, λ n f room. refl)) (λ e f. (refl, refl, λ n g room. refl))
        (λ e f. (
          refl,
          refl,
          λ n g room.
              let rows = after logged p.ring.rows in
              let sent = send_rows-enough n rows (omega (arith, length-after logged p.ring.rows)) in
              sym f ∙ ap (λ s. (send_rows rows s).1) g ∙ sent,
        ))

  -- A registration that is not refused keeps the flag and the ring and says whether it stands; it
  -- does when it is answered and enough sends go out.
  register-enough :
      (a : Attempt) (p : Publisher R)
      → (a.registration ≡ lost) ⊎ ((reply : Option ℕ) × (a.registration ≡ replied reply))
      → let r = register a p in
        (r.0.running ≡ p.running)
        × (r.0.ring ≡ p.ring)
        × ((ok : Bool) × (r.1 ≡ some ok))
        × ((n : ℕ)
            → a.sends ≡ replicate n true
            → length p.ring.rows ≤ n
            → (reply : Option ℕ) → a.registration ≡ replied reply
            → r.1 ≡ some true)
  register-enough a p h =
      register_cases
        (λ r.
          (r.0.running ≡ p.running)
          × (r.0.ring ≡ p.ring)
          × ((ok : Bool) × (r.1 ≡ some ok))
          × ((n : ℕ)
              → a.sends ≡ replicate n true
              → length p.ring.rows ≤ n
              → (reply : Option ℕ) → a.registration ≡ replied reply
              → r.1 ≡ some true))
        a p (λ e. (refl, refl, (false, refl), λ n f room reply g. absurd cc))
        (λ why e. absurd (not_refused why e h))
        (λ reply e.
          let (running, ring, enough) =
            resend-enough reply a.sends (record p { last_reply = reply }) in
          (running, ring, (_, refl), λ n f room other g. ap some (enough n f room)))
    where
      not_refused :
          (why : String)
          → a.registration ≡ refused why
          → (a.registration ≡ lost) ⊎ ((reply : Option ℕ) × (a.registration ≡ replied reply))
          → ⊥
      not_refused why e (inl f) = absurd cc
      not_refused why e (inr (reply, f)) = absurd cc

  asked-answers :
      (c : Contact) (l : Link R)
      → l.width ≡ l.tp.width
      → let r = asked c l in
        ((r.1 ≡ lost) ⊎ ((reply : Option ℕ) × (r.1 ≡ replied reply)))
        × (r.0.width ≡ l.tp.width)
        × (c.reached ≡ true → c.answered ≡ true → (reply : Option ℕ) × (r.1 ≡ replied reply))
  unfolding asked
  asked-answers c l fits =
      let r = register_session l.session_id (l.fh_seq_no + 1) l.width l.tp in
      let (answer, width) =
        register_session-answers l.session_id (l.fh_seq_no + 1) l.width l.tp fits in
      let G : Tickerplant R × Registration → Type 0 = λ r.
        ((r.1 ≡ lost) ⊎ ((reply : Option ℕ) × (r.1 ≡ replied reply)))
        × (r.0.width ≡ l.tp.width)
        × (c.reached ≡ true → c.answered ≡ true → (reply : Option ℕ) × (r.1 ≡ replied reply)) in
      if_cases G (not c.reached) (l.tp, lost) (r.0, if c.answered then r.1 else lost)
        (λ e. (inl refl, refl, λ f g. absurd (ground (arith, e, f))))
        (λ e.
          if_cases (λ g. G (r.0, g)) c.answered r.1 lost (λ f. (inr answer, width, λ g k. answer))
            (λ f. (inl refl, width, λ g k. absurd (ground (arith, f, k)))))

  settled-ok :
      (ended : Option Bool) (ok : Bool) (c : Contact) (l : Link R) (retried : Link R × Bool)
      → ended ≡ some ok
      → (ok ≡ true) ⊎ (retried.1 ≡ true)
      → (settled ended c l retried).1 ≡ true
  unfolding settled
  settled-ok none ok c l retried e h = absurd cc
  settled-ok (some true) ok c l retried e h = refl
  settled-ok (some false) ok c l retried e (inl stands) = absurd cc
  settled-ok (some false) ok c l retried e (inr more) = more

  -- Whatever becomes of earlier attempts to connect, as long as TP's schema has the width that the
  -- handler announces and no shutdown is requested: once TP can be reached and answers, and as many
  -- sends go out as the ring has rows, the handler is connected.
  pub reconnect-healthy :
      (n : ℕ) (contacts later : List Contact) (l : Link R)
      → l.handler.running ≡ true
      → l.width ≡ l.tp.width
      → length l.handler.ring.rows ≤ n
      → (reconnect (contacts ++ (healthy_contact n ∷ later)) l).1 ≡ true
  unfolding reconnect healthy_contact attempt_of broken
  reconnect-healthy n [] later l run fits room =
      let c = healthy_contact n in
      let (answered, width, replies) = asked-answers c l fits in
      let (running, ring, ended, enough) = register-enough (attempt_of c l) l.handler answered in
      let (reply, answer) = replies refl refl in
      let retried = reconnect later (broken c l) in
      let done = settled (register (attempt_of c l) l.handler).1 c l retried in
      if_cases (λ (r : Link R × Bool). r.1 ≡ true) (not l.handler.running) (l, false) done
        (λ e. absurd (ground (arith, e, run)))
        (λ e.
          settled-ok (register (attempt_of c l) l.handler).1 true c l retried
            (enough n refl room reply answer) (inl refl))
  reconnect-healthy n (c ∷ contacts) later l run fits room =
      let more = contacts ++ (healthy_contact n ∷ later) in
      let (answered, width, replies) = asked-answers c l fits in
      let (running, ring, ended, enough) = register-enough (attempt_of c l) l.handler answered in
      let retried = reconnect more (broken c l) in
      let S : Link R × Bool → Type 0 = λ r. r.1 ≡ true in
      let last = settled (register (attempt_of c l) l.handler).1 c l retried in
      let again : S retried =
        reconnect-healthy n contacts later (broken c l) (running ∙ run)
          (fits ∙ sym (read_all-width l.width (take c.read (written c l)) (asked c l).0 ∙ width))
          (subst (λ (r : ResendRing R). length r.rows ≤ n) (sym ring) room) in
      if_cases S (not l.handler.running) (l, false)
        (if not c.opened then reconnect more l else last) (λ e. absurd (ground (arith, e, run)))
        (λ e.
          if_cases S (not c.opened) (reconnect more l) last
            (λ f. reconnect-healthy n contacts later l run fits room)
            (λ f.
              settled-ok (register (attempt_of c l) l.handler).1 ended.0 c l retried ended.1
                (inr again)))
