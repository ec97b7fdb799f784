-- ===== src/Publisher/Delivery/Accounted.antt =====
-- cpp/include/tp_publisher.hpp and kdb/tick/tp.q: what is true of a link after any events. P is the
-- rows that the handler has published; `before`, `missed` and `disorder` are TP's log and counters
-- at the handler's start; `fresh` is whether it may not have registered yet.
use t2s.Base.{
  ℕ, ◌+◌, ◌≤◌, ◌<◌, Bool, true, false, Option, none, some, List, [], ◌++◌, ++-[], length, take,
  drop, take-append-drop, range, if◌then◌else◌, not, ◌≡◌, refl, sym, ◌∙◌, ap, ◌⊎◌, inl, inr,
  if_cases,
}
use mathlib.Core.Path.{subst}
use mathlib.Core.List.{append_assoc}
use t2s.Publisher.{Registration, lost, replied, register}
use t2s.Publisher.Ring.{seqs}
use t2s.Publisher.Delivery.{Link, Contact, asked, attempt_of, written, broken, settled}
use t2s.Publisher.Delivery.Lists.{drop-++, take-nil}
use t2s.Publisher.Delivery.Held.{IsHeld}
use t2s.Publisher.Delivery.Writes.{Writes, register-Writes, register-answered}
use t2s.Tickerplant.{Tickerplant, register_session}
use t2s.Tickerplant.Logged.{IsLogged, IsLogged-same, read_all-keeps}
use t2s.Tickerplant.Session.{IsKnown, IsSameLog, IsReply, IsMine, register_session-knows}

-- The connection that the handler has open works: the rows that wait on it are those published
-- after the first `next`, and TP has seen all before unless the handler counted unresendable rows.
pub record IsStanding {R : Type 0} (P : List (ℕ × R)) (seen : ℕ) (l : Link R) : Type 0 where
  pub connected : l.handler.connected ≡ true
  pub mine : IsMine l.session_id l.width seen l.tp
  pub next : ℕ
  pub pipe : l.pipe ≡ drop next P
  pub past : seen ≤ next
  pub reached : (next ≡ seen) ⊎ (next < length P)
  pub whole : l.handler.rows_unresendable ≡ 0 → next ≡ seen

pub record IsAccounted {R : Type 0} (fresh : Bool) (before : List (ℕ × R)) (missed disorder : ℕ)
    (P : List (ℕ × R)) (l : Link R) : Type 0 where
  pub numbered : seqs P ≡ range 1 (length P)
  pub count : l.fh_seq_no ≡ length P
  pub ring : IsHeld P l.handler.ring
  pub seen : ℕ
  pub known : IsKnown fresh l.session_id (length P) seen l.tp.session l.tp.last
  pub logged : IsLogged before missed disorder P seen l.tp
  pub clean : l.handler.rows_unresendable ≡ 0 → l.tp.missed ≡ missed
  pub standing : l.alive ≡ true → IsStanding P seen l

module _ {R : Type 0} (fresh : Bool) (before : List (ℕ × R)) (missed disorder : ℕ)
    (P : List (ℕ × R)) where
  -- What TP knows after a registration, and what an answer to it says.
  asked-knows :
      (c : Contact) (l : Link R) (h : IsAccounted fresh before missed disorder P l)
      → let r = asked c l in
        IsSameLog l.tp r.0
        × IsKnown fresh l.session_id (length P) h.seen r.0.session r.0.last
        × ((reply : Option ℕ)
            → r.1 ≡ replied reply
            → IsReply (length P) h.seen reply × IsMine l.session_id l.width h.seen r.0)
  unfolding asked IsSameLog IsMine
  asked-knows c l h =
      let Q : Tickerplant R × Registration → Type 0 = λ r.
        IsSameLog l.tp r.0
        × IsKnown fresh l.session_id (length P) h.seen r.0.session r.0.last
        × ((reply : Option ℕ)
            → r.1 ≡ replied reply
            → IsReply (length P) h.seen reply × IsMine l.session_id l.width h.seen r.0) in
      let r = register_session l.session_id (l.fh_seq_no + 1) l.width l.tp in
      let knows =
        subst
          (λ n.
            let r = register_session l.session_id (n + 1) l.width l.tp in
            IsSameLog l.tp r.0
            × IsKnown fresh l.session_id (length P) h.seen r.0.session r.0.last
            × ((reply : Option ℕ)
                → r.1 ≡ replied reply
                → IsReply (length P) h.seen reply × IsMine l.session_id l.width h.seen r.0))
          (sym h.count)
          (register_session-knows fresh l.session_id (length P) h.seen l.width l.tp h.known) in
      if_cases Q (not c.reached) (l.tp, lost) (r.0, if c.answered then r.1 else lost)
        (λ e. ((refl, refl, refl), h.known, λ reply f. absurd cc))
        (λ e.
          if_cases (λ g. Q (r.0, g)) c.answered r.1 lost (λ f. knows)
            (λ f. (knows.0, knows.1, λ reply g. absurd cc)))

  -- What a registration writes, against what TP knows after it.
  contact-Writes :
      (c : Contact) (l : Link R) (h : IsAccounted fresh before missed disorder P l)
      → Writes P h.seen l.handler (register (attempt_of c l) l.handler)
  unfolding attempt_of
  contact-Writes c l h =
      register-Writes P h.seen (attempt_of c l) l.handler h.numbered h.logged.within h.ring
        (λ reply e. ((asked-knows c l h).2 reply e).0)

  -- The rows that a contact writes, and that they are written on a registered connection.
  written-out :
      (c : Contact) (l : Link R) (h : IsAccounted fresh before missed disorder P l)
      → (written c l ≡ (contact-Writes c l h).out)
        × ((written c l ≡ []) ⊎ IsMine l.session_id l.width h.seen (asked c l).0)
  unfolding written attempt_of
  written-out c l h =
      let w = contact-Writes c l h in
      (
        ap (λ zs. drop (length l.handler.wire) zs) w.wire ∙ drop-++ l.handler.wire w.out,
        elim (register-answered (attempt_of c l) l.handler).0 [
          | inl quiet ↦ inl quiet
          | inr answer ↦ inr ((asked-knows c l h).2 answer.0 answer.1).1
        ],
      )

  -- A contact whose connection dies, from a link without one.
  pub broken-IsAccounted :
      (c : Contact) (l : Link R)
      → l.alive ≡ false
      → IsAccounted fresh before missed disorder P l
      → IsAccounted fresh before missed disorder P (broken c l)
  unfolding broken IsSameLog
  broken-IsAccounted c l dead h =
      let w = contact-Writes c l h in
      let (same, known, tells) = asked-knows c l h in
      let (out, mine) = written-out c l h in
      let rows = take c.read (written c l) in
      let rest = drop c.read (written c l) ++ w.rest in
      let split : rows ++ rest ≡ drop w.next P =
        sym (append_assoc rows (drop c.read (written c l)) w.rest)
        ∙ ap (λ zs. zs ++ w.rest) (take-append-drop c.read (written c l) ∙ out)
        ∙ w.run in
      let registered : (rows ≡ []) ⊎ IsMine l.session_id l.width h.seen (asked c l).0 = elim mine [
        | inl quiet ↦ inl (ap (λ zs. take c.read zs) quiet ∙ take-nil c.read)
        | inr on_record ↦ inr on_record
      ] in
      let (seen', known', logged', miss') =
        read_all-keeps fresh before missed disorder l.session_id l.width P rows rest h.seen w.next
          (asked c l).0 h.numbered split w.past registered known
          (IsLogged-same before missed disorder P h.seen l.tp (asked c l).0 same h.logged) in
      record {
        numbered = h.numbered;
        count = h.count;
        ring = subst (λ r. IsHeld P r) (sym w.ring) h.ring;
        seen = seen';
        known = known';
        logged = logged';
        clean = λ e. let (before_, next) = w.clean e in miss' next ∙ same.1 ∙ h.clean before_;
        standing = λ e. absurd cc;
      }

  -- A contact that ends the loop or stands, from a link without a connection.
  pub settled-IsAccounted :
      (ended : Option Bool) (c : Contact) (l : Link R) (retried : Link R × Bool)
      → ended ≡ (register (attempt_of c l) l.handler).1
      → l.alive ≡ false
      → IsAccounted fresh before missed disorder P l
      → IsAccounted fresh before missed disorder P retried.0
      → IsAccounted fresh before missed disorder P (settled ended c l retried).0
  unfolding settled IsSameLog attempt_of
  settled-IsAccounted none c l retried e dead h more =
      let w = contact-Writes c l h in
      let (same, known, tells) = asked-knows c l h in
      record {
        numbered = h.numbered;
        count = h.count;
        ring = subst (λ r. IsHeld P r) (sym w.ring) h.ring;
        seen = h.seen;
        known = known;
        logged = IsLogged-same before missed disorder P h.seen l.tp (asked c l).0 same h.logged;
        clean = λ f. same.1 ∙ h.clean (w.clean f).0;
        standing = λ f. absurd cc;
      }
  settled-IsAccounted (some true) c l retried e dead h more =
      let w = contact-Writes c l h in
      let (same, known, tells) = asked-knows c l h in
      let (reply, answer) = (register-answered (attempt_of c l) l.handler).1 (sym e) in
      record {
        numbered = h.numbered;
        count = h.count;
        ring = subst (λ r. IsHeld P r) (sym w.ring) h.ring;
        seen = h.seen;
        known = known;
        logged = IsLogged-same before missed disorder P h.seen l.tp (asked c l).0 same h.logged;
        clean = λ f. same.1 ∙ h.clean (w.clean f).0;
        standing = λ f. record {
          connected = refl;
          mine = (tells reply answer).1;
          next = w.next;
          pipe =
              (written-out c l h).0
              ∙ ++-[] w.out
              ∙ ap (λ zs. w.out ++ zs) (sym (w.whole (sym e)))
              ∙ w.run;
          past = w.past;
          reached = w.reached;
          whole = λ g. (w.clean g).1;
        };
      }
  settled-IsAccounted (some false) c l retried e dead h more = more
