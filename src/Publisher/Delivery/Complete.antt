-- ===== src/Publisher/Delivery/Complete.antt =====
-- cpp/include/tp_publisher.hpp and kdb/tick/tp.q: no published row is lost or missed silently.
use t2s.Base.{
  ℕ, suc, ◌+◌, map, range, ◌≤◌, ◌<◌, Bool, true, false, Option, none, some, List, [], ◌∷◌, ◌++◌,
  ++-[], length, take, ltb, if◌then◌else◌, not, ◌≡◌, ◌≢◌, refl, sym, ◌∙◌, ap, inl, inr, if_cases,
  arith,
}
use mathlib.Core.Path.{subst}
use t2s.Publisher.{Publisher, new_ring, register}
use t2s.Publisher.Ring.{seqs}
use t2s.Publisher.Delivery.{
  Link, Contact, Event, publish_row, arrive, cut, event_row, published, attempt_of, broken, settled,
  reconnect, run, drain, rows_of, new_link,
}
use t2s.Publisher.Delivery.Lists.{Sublist, Sublist-none, Sublist-whole, drop-none, take-all}
use t2s.Publisher.Delivery.Accounted.{IsAccounted}
use t2s.Publisher.Delivery.Published.{reconnect-IsAccounted}
use t2s.Publisher.Delivery.Steps.{run-IsAccounted, drain-IsAccounted}
use t2s.Tickerplant.{Tickerplant}
use t2s.Tickerplant.Logged.{IsLogged}
use t2s.Tickerplant.Session.{IsKnown, IsMine}

module _ {R : Type 0} where
  new_link-IsAccounted :
      (ring_size session_id width : ℕ) (tp : Tickerplant R)
      → tp.session ≢ some session_id
      → IsAccounted true tp.log tp.missed tp.out_of_order []
          (new_link ring_size session_id width tp)
  unfolding new_link new_ring IsKnown seqs
  new_link-IsAccounted ring_size session_id width tp other = record {
    numbered = refl;
    count = refl;
    ring = record {
      gone = 0;
      room =
          if_cases (λ n. 0 < n) (ltb 0 ring_size) ring_size 1 (λ e. ground arith)
            (λ e. omega arith);
      held = refl;
      size = refl;
      newest = λ e. e;
    };
    seen = 0;
    known = inr (refl, other, refl, refl);
    logged = record {
      ours = [];
      log = ++-[] tp.log;
      kept = Sublist-none [];
      count = refl;
      order = refl;
      last_row = inl refl;
      within = omega arith;
    };
    clean = λ e. refl;
    standing = λ e. absurd cc;
  }

  settled-stands :
      (ended : Option Bool) (c : Contact) (l : Link R) (retried : Link R × Bool)
      → (retried.1 ≡ true → retried.0.alive ≡ true)
      → (settled ended c l retried).1 ≡ true
      → (settled ended c l retried).0.alive ≡ true
  unfolding settled
  settled-stands none c l retried more e = absurd cc
  settled-stands (some true) c l retried more e = refl
  settled-stands (some false) c l retried more e = more e

  -- When connect succeeds, its connection works.
  pub reconnect-stands :
      (contacts : List Contact) (l : Link R)
      → (reconnect contacts l).1 ≡ true
      → (reconnect contacts l).0.alive ≡ true
  unfolding reconnect
  reconnect-stands [] l = λ e. absurd cc
  reconnect-stands (c ∷ contacts) l =
      let G : Link R × Bool → Type 0 = λ r. r.1 ≡ true → r.0.alive ≡ true in
      let retried = reconnect contacts (broken c l) in
      let ended = (register (attempt_of c l) l.handler).1 in
      if_cases G (not l.handler.running) (l, false)
        (if not c.opened then reconnect contacts l else settled ended c l retried)
        (λ e. λ f. absurd cc)
        (λ e.
          if_cases G (not c.opened) (reconnect contacts l) (settled ended c l retried)
            (λ f. reconnect-stands contacts l)
            (λ f. settled-stands ended c l retried (reconnect-stands contacts (broken c l))))

  pub started-IsAccounted :
      (ring_size session_id width : ℕ) (tp : Tickerplant R) (contacts : List Contact)
      → tp.session ≢ some session_id
      → let start = reconnect contacts (new_link ring_size session_id width tp) in
        start.1 ≡ true → IsAccounted false tp.log tp.missed tp.out_of_order [] start.0
  unfolding IsKnown IsMine new_link
  started-IsAccounted ring_size session_id width tp contacts other ok =
      let l = new_link ring_size session_id width tp in
      let h =
        reconnect-IsAccounted true tp.log tp.missed tp.out_of_order [] contacts l refl
          (new_link-IsAccounted ring_size session_id width tp other) in
      let (mine, last, fits) = (h.standing (reconnect-stands contacts l ok)).mine in
      record {
        numbered = h.numbered;
        count = h.count;
        ring = h.ring;
        seen = h.seen;
        known = inl (mine, last);
        logged = h.logged;
        clean = h.clean;
        standing = h.standing;
      }

  -- A handler that TP has no session of starts and connects, and any events follow: rows published
  -- on a connection that works, that is dead or that is found dead, with any attempts to connect
  -- again, rows read by TP, connections that die, and event rows. Then, among the rows published so
  -- far, numbered from 1, TP has seen the numbers up to some `seen`, and has logged, after what it
  -- held at the start, some of those rows, in the order they were published; the others of them it
  -- counted as missed, one by one; and it found no row out of order.
  pub never_silent :
      (ring_size session_id width : ℕ) (tp : Tickerplant R) (contacts : List Contact)
      (events : List (Event R))
      → tp.session ≢ some session_id
      → let start = reconnect contacts (new_link ring_size session_id width tp) in
        start.1 ≡ true
        → (seen : ℕ) × IsLogged tp.log tp.missed tp.out_of_order
            (rows_of 1 events)
            seen
            (run events start.0).tp
  never_silent ring_size session_id width tp contacts events other ok =
      let h =
        run-IsAccounted tp.log tp.missed tp.out_of_order [] events
          (reconnect contacts (new_link ring_size session_id width tp)).0
          (started-IsAccounted ring_size session_id width tp contacts other ok) in
      (h.seen, h.logged)

  -- On a link whose connection works, with no row counted as unresendable: once TP has read what
  -- waits, it has logged all that was published.
  pub drained :
      (before P : List (ℕ × R)) (missed disorder : ℕ) (l : Link R)
      → IsAccounted false before missed disorder P l
      → l.alive ≡ true
      → l.handler.rows_unresendable ≡ 0
      → let after_all = (drain l.pipe l).tp in
        (after_all.log ≡ before ++ P)
        × (after_all.missed ≡ missed)
        × (after_all.out_of_order ≡ disorder)
  drained before P missed disorder l h on none_gone =
      let (d, empty, still_on, same) =
        drain-IsAccounted before missed disorder P l.pipe l refl on h in
      let all_sent = ap (λ (p : Publisher R). p.rows_unresendable) same ∙ none_gone in
      let s = d.standing still_on in
      let end_ : length P ≤ s.next = drop-none s.next P (sym s.pipe ∙ empty) in
      let seen_all : d.seen ≡ length P = omega (arith, s.whole all_sent, end_, d.logged.within) in
      let first = ap (λ m. take m P) seen_all ∙ take-all P in
      let size : length d.logged.ours ≡ length P =
        omega (arith, seen_all, d.clean all_sent, d.logged.count) in
      let whole = Sublist-whole (subst (λ zs. Sublist d.logged.ours zs) first d.logged.kept) size in
      (d.logged.log ∙ ap (λ zs. before ++ zs) whole, d.clean all_sent, d.logged.order)

  -- A handler that TP has no session of starts and connects, and any events follow. If the
  -- connection that the handler has open then works, and the handler counted no row that it could
  -- not resend, then as soon as TP has read what waits on the connection, TP has logged, after what
  -- it held at the start, exactly the rows published, each once and in order, whatever connections
  -- died in between and whatever was lost on them; and TP counted no row as missed or out of order.
  pub every_row_logged :
      (ring_size session_id width : ℕ) (tp : Tickerplant R) (contacts : List Contact)
      (events : List (Event R))
      → tp.session ≢ some session_id
      → let start = reconnect contacts (new_link ring_size session_id width tp) in
        start.1 ≡ true
        → let l = run events start.0 in
          l.alive ≡ true
          → l.handler.rows_unresendable ≡ 0
          → let after_all = (drain l.pipe l).tp in
            (after_all.log ≡ tp.log ++ rows_of 1 events)
            × (after_all.missed ≡ tp.missed)
            × (after_all.out_of_order ≡ tp.out_of_order)
  every_row_logged ring_size session_id width tp contacts events other ok =
      let start = (reconnect contacts (new_link ring_size session_id width tp)).0 in
      drained tp.log (rows_of 1 events) tp.missed tp.out_of_order (run events start) (
        run-IsAccounted tp.log tp.missed tp.out_of_order [] events start
          (started-IsAccounted ring_size session_id width tp contacts other ok))

  -- The rows published are numbered in their order.
  pub rows_of-published :
      (n : ℕ) (number : R → ℕ) (events : List (Event R))
      → map number (published events) ≡ range n (length (published events))
      → rows_of n events ≡ map (λ row. (number row, row)) (published events)
  unfolding rows_of published
  rows_of-published n number [] run = refl
  rows_of-published n number (publish_row row looks_sent contacts ∷ events) run =
      let head : n ≡ number row = cc in
      let e : n + 1 ≡ suc n = omega arith in
      let tail : map number (published events) ≡ range (suc n) (length (published events)) = cc in
      let tail' =
        subst (λ m. map number (published events) ≡ range m (length (published events))) (sym e)
          tail in
      ap (λ m. (m, row) ∷ rows_of (n + 1) events) head
      ∙ ap (λ rows. (number row, row) ∷ rows) (rows_of-published (n + 1) number events tail')
  rows_of-published n number (arrive ∷ events) run = rows_of-published n number events run
  rows_of-published n number (cut ∷ events) run = rows_of-published n number events run
  rows_of-published n number (event_row reply ∷ events) run = rows_of-published n number events run
