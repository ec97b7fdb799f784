-- ===== src/Publisher/Delivery/Steps.antt =====
-- cpp/include/tp_publisher.hpp and kdb/tick/tp.q: every event on a link keeps what is true of it.
use t2s.Base.{
  ℕ, suc, ◌+◌, Bool, true, false, List, [], ◌∷◌, ◌++◌, ++-[], length, length-append, if◌then◌else◌,
  not, ◌&&◌, ◌≡◌, refl, sym, ◌∙◌, ap, inl, if_cases, if_true, arith,
}
use mathlib.Core.Path.{subst}
use mathlib.Core.List.{append_assoc}
use t2s.Publisher.{Publisher, send_event, dropped, EventReply, no_reply, event_error, logged_as}
use t2s.Gap.{EventResult, acked, connection_lost, rejected}
use t2s.Publisher.Delivery.{
  Link, Event, publish_row, arrive, cut, event_row, publish_next, read_next, step, run, drain,
  rows_of,
}
use t2s.Publisher.Delivery.Lists.{drop-next}
use t2s.Publisher.Delivery.Held.{IsHeld}
use t2s.Publisher.Delivery.Accounted.{IsAccounted}
use t2s.Tickerplant.Logged.{upd-IsLogged}
use t2s.Tickerplant.Session.{IsKnown, IsMine}
use t2s.Publisher.Delivery.Published.{publish_next-IsAccounted}

module _ {R : Type 0} (before : List (ℕ × R)) (missed disorder : ℕ) where
  -- TP reads the next row of a connection that works, if any.
  read_next-IsAccounted :
      (P rows : List (ℕ × R)) (l : Link R)
      → l.pipe ≡ rows
      → l.alive ≡ true
      → IsAccounted false before missed disorder P l
      → IsAccounted false before missed disorder P (read_next rows l)
  unfolding read_next IsKnown IsMine
  read_next-IsAccounted P [] l same on h = h
  read_next-IsAccounted P (row ∷ rows) l same on h =
      let s = h.standing on in
      let (mine, last, fits) = s.mine in
      let next = sym s.pipe ∙ same in
      let (logged, last', session', width', miss') =
        upd-IsLogged before missed disorder P h.seen s.next l.width row rows l.tp h.numbered next
          s.past fits last h.logged in
      record {
        numbered = h.numbered;
        count = h.count;
        ring = h.ring;
        seen = suc s.next;
        known = inl (session' ∙ mine, last');
        logged = logged;
        clean = λ e. miss' (s.whole e) ∙ h.clean e;
        standing = λ e. record {
          connected = s.connected;
          mine = (session' ∙ mine, last', fits ∙ sym width');
          next = suc s.next;
          pipe = sym (drop-next s.next P rows row next);
          past = omega arith;
          reached = inl refl;
          whole = λ f. refl;
        };
      }

  -- The connection is given up or found dead, or an event row goes out on it.
  cut-IsAccounted :
      (P : List (ℕ × R)) (l : Link R) (p : Publisher R) (alive : Bool) (pipe : List (ℕ × R))
      → IsAccounted false before missed disorder P l
      → p.ring ≡ l.handler.ring
      → p.rows_unresendable ≡ l.handler.rows_unresendable
      → (alive ≡ true → (l.alive ≡ true) × (p.connected ≡ true) × (pipe ≡ l.pipe))
      → IsAccounted false before missed disorder P
          (record l { handler = p; alive = alive; pipe = pipe })
  cut-IsAccounted P l p alive pipe h ring counts kept = record {
    numbered = h.numbered;
    count = h.count;
    ring = subst (λ r. IsHeld P r) (sym ring) h.ring;
    seen = h.seen;
    known = h.known;
    logged = h.logged;
    clean = λ e. h.clean (sym counts ∙ e);
    standing = λ e.
        let (on, connected, same) = kept e in
        let s = h.standing on in
        record {
          connected = connected;
          mine = s.mine;
          next = s.next;
          pipe = same ∙ s.pipe;
          past = s.past;
          reached = s.reached;
          whole = λ f. s.whole (sym counts ∙ f);
        };
  }

  send_event-keeps :
      (reply : EventReply) (p : Publisher R)
      → let q = (send_event reply p).0 in
        (q.ring ≡ p.ring) × (q.rows_unresendable ≡ p.rows_unresendable)
  unfolding send_event dropped
  send_event-keeps reply p =
      if_cases
        (λ (r : Publisher R × EventResult).
          (r.0.ring ≡ p.ring) × (r.0.rows_unresendable ≡ p.rows_unresendable))
        (not p.connected) (p, connection_lost) (answered reply) (λ e. (refl, refl))
        (λ e. kept reply)
    where
      answered : EventReply → Publisher R × EventResult
      answered no_reply = (dropped p, connection_lost)
      answered (event_error why) = (p, rejected)
      answered (logged_as seq) = (p, acked)

      kept :
          (reply : EventReply)
          → ((answered reply).0.ring ≡ p.ring)
            × ((answered reply).0.rows_unresendable ≡ p.rows_unresendable)
      kept no_reply = (refl, refl)
      kept (event_error why) = (refl, refl)
      kept (logged_as seq) = (refl, refl)

  pub run-IsAccounted :
      (P : List (ℕ × R)) (events : List (Event R)) (l : Link R)
      → IsAccounted false before missed disorder P l
      → IsAccounted false before missed disorder (P ++ rows_of (length P + 1) events) (run events l)
  unfolding run step rows_of
  run-IsAccounted P [] l h = subst (λ Q. IsAccounted false before missed disorder Q l) (++-[] P) h
  run-IsAccounted P (publish_row row looks_sent contacts ∷ events) l h =
      let x : ℕ × R = (l.fh_seq_no + 1, row) in
      let size : length (P ++ (x ∷ [])) ≡ length P + 1 = length-append P (x ∷ []) in
      let next : l.fh_seq_no + 1 ≡ length P + 1 = omega (arith, h.count) in
      let l' = (publish_next row looks_sent contacts l).0 in
      let all =
        run-IsAccounted (P ++ (x ∷ [])) events l'
          (publish_next-IsAccounted before missed disorder P row looks_sent contacts l h) in
      subst (λ Q. IsAccounted false before missed disorder Q (run events l'))
        (append_assoc P (x ∷ []) (rows_of (length (P ++ (x ∷ [])) + 1) events)
          ∙ ap (λ n. P ++ ((l.fh_seq_no + 1, row) ∷ rows_of (n + 1) events)) size
          ∙ ap (λ n. P ++ ((n, row) ∷ rows_of (length P + 1 + 1) events)) next)
        all
  run-IsAccounted P (arrive ∷ events) l h =
      run-IsAccounted P events (if l.alive then read_next l.pipe l else l) (
        if_cases (IsAccounted false before missed disorder P) l.alive (read_next l.pipe l) l
          (λ on. read_next-IsAccounted P l.pipe l refl on h) (λ off. h))
  run-IsAccounted P (cut ∷ events) l h =
      run-IsAccounted P events (record l { alive = false; pipe = [] })
        (cut-IsAccounted P l l.handler false [] h refl refl (λ e. absurd cc))
  run-IsAccounted P (event_row reply ∷ events) l h =
      let sent = if l.alive then reply else no_reply in
      let p = (send_event sent l.handler).0 in
      let (ring, counts) = send_event-keeps sent l.handler in
      let alive = l.alive && p.connected in
      run-IsAccounted P events
        (record l { handler = p; alive = alive; pipe = if alive then l.pipe else [] })
        (cut-IsAccounted P l p alive (if alive then l.pipe else []) h ring counts
          (λ e. (ground (arith, e), ground (arith, e), if_true alive l.pipe [] e)))

  -- TP reads all that waits.
  pub drain-IsAccounted :
      (P rows : List (ℕ × R)) (l : Link R)
      → l.pipe ≡ rows
      → l.alive ≡ true
      → IsAccounted false before missed disorder P l
      → IsAccounted false before missed disorder P (drain rows l)
        × ((drain rows l).pipe ≡ [])
        × ((drain rows l).alive ≡ true)
        × ((drain rows l).handler ≡ l.handler)
  unfolding drain read_next
  drain-IsAccounted P [] l same on h = (h, same, on, refl)
  drain-IsAccounted P (row ∷ rows) l same on h =
      drain-IsAccounted P rows (read_next (row ∷ rows) l) refl on
        (read_next-IsAccounted P (row ∷ rows) l same on h)
