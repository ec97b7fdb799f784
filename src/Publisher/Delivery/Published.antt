-- ===== src/Publisher/Delivery/Published.antt =====
-- cpp/include/tp_publisher.hpp and kdb/tick/tp.q: connecting and publishing keep what is true of a link.
use t2s.Base.{
  ℕ, ◌+◌, ◌≤◌, Bool, true, false, List, [], ◌∷◌, ◌++◌, length, length-append, if◌then◌else◌, not,
  ◌≡◌, refl, sym, ◌∙◌, ap, inl, inr, Bool-cases, if_cases, arith,
}
use mathlib.Core.Path.{subst}
use t2s.Publisher.{Publisher, register, push}
use t2s.Publisher.Ring.{snoc-run}
use t2s.Publisher.Delivery.{Link, Contact, attempt_of, broken, settled, reconnect, publish_next}
use t2s.Publisher.Delivery.Lists.{Sublist, take-snoc, drop-snoc}
use t2s.Publisher.Delivery.Held.{IsHeld, push-IsHeld}
use t2s.Publisher.Delivery.Accounted.{IsAccounted, broken-IsAccounted, settled-IsAccounted}
use t2s.Tickerplant.Session.{IsKnown}

module _ {R : Type 0} (fresh : Bool) (before : List (ℕ × R)) (missed disorder : ℕ) where
  pub reconnect-IsAccounted :
      (P : List (ℕ × R)) (contacts : List Contact) (l : Link R)
      → l.alive ≡ false
      → IsAccounted fresh before missed disorder P l
      → IsAccounted fresh before missed disorder P (reconnect contacts l).0
  unfolding reconnect broken
  reconnect-IsAccounted P [] l dead h = record {
    numbered = h.numbered;
    count = h.count;
    ring = h.ring;
    seen = h.seen;
    known = h.known;
    logged = h.logged;
    clean = h.clean;
    standing = λ e. absurd cc;
  }
  reconnect-IsAccounted P (c ∷ contacts) l dead h =
      let G : Link R × Bool → Type 0 = λ r. IsAccounted fresh before missed disorder P r.0 in
      let retried = reconnect contacts (broken c l) in
      let ended = (register (attempt_of c l) l.handler).1 in
      if_cases G (not l.handler.running) (l, false)
        (if not c.opened then reconnect contacts l else settled ended c l retried) (λ e. h)
        (λ e.
          if_cases G (not c.opened) (reconnect contacts l) (settled ended c l retried)
            (λ f. reconnect-IsAccounted P contacts l dead h)
            (λ f. settled-IsAccounted fresh before missed disorder P ended c l retried refl dead h (
              reconnect-IsAccounted P contacts (broken c l) dead
                (broken-IsAccounted fresh before missed disorder P c l dead h))))

module _ {R : Type 0} (before : List (ℕ × R)) (missed disorder : ℕ) where
  -- The handler takes the next row into its ring, and writes it to a connection that works.
  next-IsAccounted :
      (P : List (ℕ × R)) (row : R) (l : Link R) (p : Publisher R) (alive : Bool)
      (pipe : List (ℕ × R))
      → IsAccounted false before missed disorder P l
      → let seq = l.fh_seq_no + 1 in
        p.ring ≡ push seq row l.handler.ring
        → p.rows_unresendable ≡ l.handler.rows_unresendable
        → (alive ≡ true
            → (l.alive ≡ true)
              × (p.connected ≡ l.handler.connected)
              × (pipe ≡ l.pipe ++ ((seq, row) ∷ [])))
        → IsAccounted false before missed disorder
            (P ++ ((seq, row) ∷ []))
            (record l { fh_seq_no = seq; handler = p; alive = alive; pipe = pipe })
  unfolding IsKnown
  next-IsAccounted P row l p alive pipe h ring counts sent =
      let seq = l.fh_seq_no + 1 in
      let size = length-append P ((seq, row) ∷ []) in
      record {
        numbered = snoc-run 1 seq row P h.numbered (omega (arith, h.count));
        count = omega (arith, h.count, size);
        ring =
            subst (λ r. IsHeld (P ++ ((seq, row) ∷ [])) r) (sym ring)
              (push-IsHeld P seq row l.handler.ring h.ring);
        seen = h.seen;
        known = elim h.known [
          | inl on_record ↦ inl on_record
          | inr (never, other, n0, l0) ↦ absurd cc
        ];
        logged = record {
          ours = h.logged.ours;
          log = h.logged.log;
          kept =
              subst (λ zs. Sublist h.logged.ours zs)
                (sym (take-snoc h.seen P (seq, row) h.logged.within)) h.logged.kept;
          count = h.logged.count;
          order = h.logged.order;
          last_row = h.logged.last_row;
          within = omega (arith, h.logged.within, size);
        };
        clean = λ e. h.clean (sym counts ∙ e);
        standing = λ e.
            let (on, same, more) = sent e in
            let s = h.standing on in
            let within : s.next ≤ length P = ground (arith, s.reached, h.logged.within) in
            record {
              connected = same ∙ s.connected;
              mine = s.mine;
              next = s.next;
              pipe =
                  more
                  ∙ ap (λ zs. zs ++ ((seq, row) ∷ [])) s.pipe
                  ∙ sym (drop-snoc s.next P (seq, row) within);
              past = s.past;
              reached = inr (omega (arith, size));
              whole = λ f. s.whole (sym counts ∙ f);
            };
      }

  pub publish_next-IsAccounted :
      (P : List (ℕ × R)) (row : R) (looks_sent : Bool) (contacts : List Contact) (l : Link R)
      → IsAccounted false before missed disorder P l
      → IsAccounted false before missed disorder
          (P ++ ((l.fh_seq_no + 1, row) ∷ []))
          (publish_next row looks_sent contacts l).0
  unfolding publish_next
  publish_next-IsAccounted P row looks_sent contacts l h =
      let p = l.handler in
      let seq = l.fh_seq_no + 1 in
      let P' = P ++ ((seq, row) ∷ []) in
      let q = record p { ring = push seq row p.ring } in
      let went = record q { wire = q.wire ++ ((seq, row) ∷ []) } in
      let gone = record q { connected = false; reconnects = q.reconnects + 1 } in
      let pushed = record l { fh_seq_no = seq; handler = q } in
      let sent = record pushed { handler = went } in
      let dead = record pushed { handler = gone; alive = false; pipe = [] } in
      let G : Link R × Bool → Type 0 = λ r. IsAccounted false before missed disorder P' r.0 in
      if_cases G (not p.connected) (reconnect contacts pushed)
        (if l.alive
          then (record sent { pipe = sent.pipe ++ ((seq, row) ∷ []) }, true)
          else if looks_sent
          then (sent, true)
          else reconnect contacts dead)
        (λ e.
          let off : l.alive ≡ false = elim (Bool-cases l.alive) [
            | inl on ↦ absurd (ground (arith, e, (h.standing on).connected))
            | inr off ↦ off
          ] in
          reconnect-IsAccounted false before missed disorder P' contacts pushed off
            (next-IsAccounted P row l q l.alive l.pipe h refl refl (λ on. absurd cc)))
        (λ e.
          if_cases G l.alive (record sent { pipe = sent.pipe ++ ((seq, row) ∷ []) }, true)
            (if looks_sent then (sent, true) else reconnect contacts dead)
            (λ on.
              next-IsAccounted P row l went l.alive (l.pipe ++ ((seq, row) ∷ [])) h refl refl
                (λ f. (f, refl, refl)))
            (λ off.
              if_cases G looks_sent (sent, true) (reconnect contacts dead)
                (λ f. next-IsAccounted P row l went l.alive l.pipe h refl refl (λ on. absurd cc))
                (λ f.
                  reconnect-IsAccounted false before missed disorder P' contacts dead refl
                    (next-IsAccounted P row l gone false [] h refl refl (λ on. absurd cc)))))
