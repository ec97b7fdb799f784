-- ===== src/Publisher/Delivery/Writes.antt =====
-- cpp/include/tp_publisher.hpp: what a registration and its resend write to the connection, of the
-- rows P that the handler published.
use t2s.Base.{
  ℕ, ◌+◌, ◌≤◌, ◌<◌, max, Bool, true, false, Option, none, some, List, [], ◌∷◌, ◌++◌, ++-[], length,
  drop, range, leb, ◌||◌, ◌≡◌, refl, sym, ◌∙◌, ap, ◌⊎◌, inl, inr, arith,
}
use mathlib.Core.Path.{subst}
use t2s.Publisher.{
  Publisher, Attempt, replied, newest_of, after, missing_after, send_rows, is_empty, resend_after,
  resend, register,
}
use t2s.Publisher.Cases.{sent_after, counted, resend_after_cases, register_cases}
use t2s.Publisher.Ring.{seqs}
use t2s.Publisher.Delivery.Lists.{drop-all}
use t2s.Tickerplant.Session.{IsReply}
use t2s.Publisher.Delivery.Held.{IsHeld, after-held, at_end}

-- What a registration does: on the connection it writes `out`, the first of the rows of P after the
-- first `next`; all of them if the connection stands.
pub record Writes {R : Type 0} (P : List (ℕ × R)) (seen : ℕ) (p : Publisher R)
    (r : Publisher R × Option Bool) : Type 0 where
  pub next : ℕ
  pub past : seen ≤ next
  pub reached : (next ≡ seen) ⊎ (next < length P)
  pub out : List (ℕ × R)
  pub rest : List (ℕ × R)
  pub wire : r.0.wire ≡ p.wire ++ out
  pub run : out ++ rest ≡ drop next P
  pub ring : r.0.ring ≡ p.ring
  pub clean : r.0.rows_unresendable ≡ 0 → (p.rows_unresendable ≡ 0) × (next ≡ seen)
  pub whole : r.1 ≡ some true → rest ≡ []

module _ {R : Type 0} where
  send_rows-prefix :
      (rows : List (ℕ × R)) (sends : List Bool)
      → let r = send_rows rows sends in
        (rest : List (ℕ × R)) × (r.0 ++ rest ≡ rows) × (r.1 ≡ true → rest ≡ [])
  unfolding send_rows
  send_rows-prefix [] sends = ([], refl, λ e. refl)
  send_rows-prefix (row ∷ rows) [] = (row ∷ rows, refl, λ e. absurd cc)
  send_rows-prefix (row ∷ rows) (true ∷ sends) =
      let (rest, all, whole) = send_rows-prefix rows sends in (rest, ap (λ xs. row ∷ xs) all, whole)
  send_rows-prefix (row ∷ rows) (false ∷ sends) = (row ∷ rows, refl, λ e. absurd cc)

  -- Nothing is written and nothing counted.
  quiet :
      (P : List (ℕ × R)) (seen : ℕ) (p q : Publisher R) (ended : Option Bool)
      → q.wire ≡ p.wire
      → q.ring ≡ p.ring
      → q.rows_unresendable ≡ p.rows_unresendable
      → (ended ≡ some true → seen ≡ length P)
      → Writes P seen p (q, ended)
  quiet P seen p q ended wire ring counts all = record {
    next = seen;
    past = omega arith;
    reached = inl refl;
    out = [];
    rest = drop seen P;
    wire = wire ∙ ++-[] p.wire;
    run = refl;
    ring = ring;
    clean = λ g. (sym counts ∙ g, refl);
    whole = λ g. ap (λ m. drop m P) (all g) ∙ drop-all P;
  }

  -- The resend's own p may have the new reply: only wire, ring and count matter.
  resend_after-Writes :
      (P : List (ℕ × R)) (seen : ℕ) (sends : List Bool) (p q : Publisher R)
      → q.wire ≡ p.wire
      → q.ring ≡ p.ring
      → q.rows_unresendable ≡ p.rows_unresendable
      → seqs P ≡ range 1 (length P)
      → seen ≤ length P
      → IsHeld P q.ring
      → let r = resend_after seen sends q in Writes P seen p (r.0, some r.1)
  unfolding sent_after counted
  resend_after-Writes P seen sends p q wire ring counts run within h =
      let out = sent_after seen sends q in
      let (rest, all, whole) = send_rows-prefix (after seen q.ring.rows) sends in
      let shown = is_empty q.ring.rows || leb (newest_of q.ring.rows) seen in
      let made : (r : Publisher R) (ok : Bool)
          → shown ≡ false
          → r.wire ≡ q.wire ++ out.0
          → r.ring ≡ q.ring
          → r.rows_unresendable ≡ q.rows_unresendable + missing_after seen q.ring.rows
          → (ok ≡ true → out.1 ≡ true)
          → Writes P seen p (r, some ok) =
        λ r ok e wire' ring' counts' sent.
          let (behind, missing) = (at_end P seen q.ring h run within).1 e in
          record {
            next = max h.gone seen;
            past = omega arith;
            reached = inr (ground (arith, h.newest, behind));
            out = out.0;
            rest = rest;
            wire = wire' ∙ ap (λ w. w ++ out.0) wire;
            run = all ∙ after-held P seen q.ring h run;
            ring = ring' ∙ ring;
            clean = λ g. (omega (arith, counts, counts', g), ground (arith, counts', g, missing));
            whole = λ g. whole (sent cc);
          } in
      resend_after_cases (λ r. Writes P seen p (r.0, some r.1)) seen sends q
        (λ e.
          quiet P seen p q (some true) wire ring counts
            (λ f. (at_end P seen q.ring h run within).0 e))
        (λ e ok. made _ true e refl refl refl (λ f. ok))
        (λ e bad. made _ false e refl refl refl (λ f. absurd cc))

  -- A registration that is lost, refused, or answered with the last number that TP has seen.
  pub register-Writes :
      (P : List (ℕ × R)) (seen : ℕ) (a : Attempt) (p : Publisher R)
      → seqs P ≡ range 1 (length P)
      → seen ≤ length P
      → IsHeld P p.ring
      → ((reply : Option ℕ) → a.registration ≡ replied reply → IsReply (length P) seen reply)
      → Writes P seen p (register a p)
  unfolding resend IsReply
  register-Writes P seen a p run within h tells =
      register_cases (Writes P seen p) a p
        (λ e. quiet P seen p p (some false) refl refl refl (λ f. absurd cc))
        (λ why e.
          quiet P seen p (record p { fatal_error = some why }) none refl refl refl (λ f. absurd cc))
        (λ reply e. answered reply (tells reply e))
    where
      answered :
          (reply : Option ℕ)
          → IsReply (length P) seen reply
          → let s = resend reply a.sends (record p { last_reply = reply }) in
            Writes P seen p (s.0, some s.1)
      answered none (inl same) = absurd cc
      answered none (inr (e, n0)) =
          quiet P seen p (record p { last_reply = none }) (some true) refl refl refl
            (λ g. omega (arith, n0))
      answered (some logged) (inl same) =
          let q = record p { last_reply = some logged } in
          let at : logged ≡ seen = cc in
          subst (λ m. let s = resend_after m a.sends q in Writes P seen p (s.0, some s.1)) (sym at)
            (resend_after-Writes P seen a.sends p q refl refl refl run within h)
      answered (some logged) (inr (e, n0)) = absurd cc

  -- A registration writes rows, or makes the connection stand, only when it is answered.
  pub register-answered :
      (a : Attempt) (p : Publisher R)
      → let r = register a p in
        let answer = (reply : Option ℕ) × (a.registration ≡ replied reply) in
        ((drop (length p.wire) r.0.wire ≡ []) ⊎ answer) × (r.1 ≡ some true → answer)
  register-answered a p =
      register_cases
        (λ r.
          let answer = (reply : Option ℕ) × (a.registration ≡ replied reply) in
          ((drop (length p.wire) r.0.wire ≡ []) ⊎ answer) × (r.1 ≡ some true → answer))
        a p (λ e. (inl (drop-all p.wire), λ f. absurd cc))
        (λ why e. (inl (drop-all p.wire), λ f. absurd cc))
        (λ reply e. (inr (reply, e), λ f. (reply, e)))
