-- ===== src/Publisher/Cases.antt =====
-- cpp/include/tp_publisher.hpp: the ways that a resend and a registration can go.
use t2s.Base.{
  ℕ, ◌+◌, Bool, true, false, Option, none, some, String, List, ◌++◌, length, leb, ◌||◌,
  if◌then◌else◌, ◌≡◌, refl, if_cases,
}
use t2s.Publisher.{
  Publisher, Attempt, Registration, lost, refused, replied, newest_of, after, missing_after,
  send_rows, is_empty, resend_after, resend, register,
}

module _ {R : Type 0} where
  -- The rows that a resend sends.
  unfoldable pub sent_after : ℕ → List Bool → Publisher R → List (ℕ × R) × Bool
  sent_after logged sends p = send_rows (after logged p.ring.rows) sends

  -- The publisher after rows were sent again, and the rows that are gone counted.
  unfoldable pub counted : ℕ → List Bool → Publisher R → Publisher R
  unfolding sent_after
  counted logged sends p = record p {
    rows_unresendable = p.rows_unresendable + missing_after logged p.ring.rows;
    wire = p.wire ++ (sent_after logged sends p).0;
  }

  -- TP has all rows that the ring has, or all rows it lacks go out, or the connection dies.
  pub resend_after_cases {κ} :
      (Q : Publisher R × Bool → Type κ) (logged : ℕ) (sends : List Bool) (p : Publisher R)
      → let shown = is_empty p.ring.rows || leb (newest_of p.ring.rows) logged in
        let out = sent_after logged sends p in
        let c = counted logged sends p in
        (shown ≡ true → Q (p, true))
        → (shown ≡ false
            → out.1 ≡ true
            → Q (record c { rows_resent = c.rows_resent + length out.0 }, true))
        → (shown ≡ false → out.1 ≡ false → Q (c, false))
        → Q (resend_after logged sends p)
  unfolding resend_after sent_after counted
  resend_after_cases Q logged sends p all sent dead =
      let out = sent_after logged sends p in
      let c = counted logged sends p in
      let resent : Publisher R × Bool =
        (record c { rows_resent = c.rows_resent + length out.0 }, true) in
      if_cases Q (is_empty p.ring.rows || leb (newest_of p.ring.rows) logged) (p, true)
        (if out.1 then resent else (c, false)) all
        (λ e. if_cases Q out.1 resent (c, false) (sent e) (dead e))

  pub register_cases {κ} :
      (Q : Publisher R × Option Bool → Type κ) (a : Attempt) (p : Publisher R)
      → (a.registration ≡ lost → Q (p, some false))
      → ((why : String)
          → a.registration ≡ refused why
          → Q (record p { fatal_error = some why }, none))
      → ((reply : Option ℕ)
          → a.registration ≡ replied reply
          → let sent = resend reply a.sends (record p { last_reply = reply }) in
            Q (sent.0, some sent.1))
      → Q (register a p)
  unfolding register
  register_cases Q a p = go a.registration
    where
      go :
          (g : Registration)
          → (g ≡ lost → Q (p, some false))
          → ((why : String) → g ≡ refused why → Q (record p { fatal_error = some why }, none))
          → ((reply : Option ℕ)
              → g ≡ replied reply
              → let sent = resend reply a.sends (record p { last_reply = reply }) in
                Q (sent.0, some sent.1))
          → let r : Publisher R × Option Bool = elim g [
            | lost ↦ (p, some false)
            | refused why ↦ (record p { fatal_error = some why }, none)
            | replied reply ↦
                let sent = resend reply a.sends (record p { last_reply = reply }) in
                (sent.0, some sent.1)
          ] in
            Q r
      go lost no_answer no_leave answered = no_answer refl
      go (refused why) no_answer no_leave answered = no_leave why refl
      go (replied reply) no_answer no_leave answered = answered reply refl
