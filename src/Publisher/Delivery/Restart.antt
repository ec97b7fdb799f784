-- ===== src/Publisher/Delivery/Restart.antt =====
-- cpp/include/tp_publisher.hpp and kdb/tick/tp.q: no row is lost across a restart of TP.
use t2s.Base.{ℕ, ◌+◌, true, false, some, List, [], ◌++◌, length, ◌≡◌, ◌≢◌, refl, inl, inr, arith}
use t2s.Publisher.Delivery.{
  Link, Contact, Event, reconnect, run, drain, rows_of, new_link, after_restart,
}
use t2s.Publisher.Delivery.Accounted.{IsAccounted}
use t2s.Publisher.Delivery.Steps.{run-IsAccounted}
use t2s.Publisher.Delivery.Complete.{started-IsAccounted, drained}
use t2s.Tickerplant.{Tickerplant, restart}
use t2s.Tickerplant.Session.{IsKnown}
use t2s.Tickerplant.Restart.{restart-knows}

module _ {R : Type 0} where
  after_restart-IsAccounted :
      (before P : List (ℕ × R)) (missed disorder : ℕ) (l : Link R)
      → IsAccounted false before missed disorder P l
      → l.handler.rows_unresendable ≡ 0
      → l.tp.log ≢ before
      → IsAccounted false before 0 0 P (after_restart l)
  unfolding after_restart IsKnown restart
  after_restart-IsAccounted before P missed disorder l h none_gone more = record {
    numbered = h.numbered;
    count = h.count;
    ring = h.ring;
    seen = h.seen;
    known = elim h.known [
      | inl on_record ↦
          inl (on_record.0, restart-knows before P missed disorder h.seen l.tp h.logged more)
      | inr (never, other, n0, l0) ↦ absurd cc
    ];
    logged = record {
      ours = h.logged.ours;
      log = h.logged.log;
      kept = h.logged.kept;
      count = omega (arith, h.logged.count, h.clean none_gone);
      order = refl;
      last_row = h.logged.last_row;
      within = h.logged.within;
    };
    clean = λ e. refl;
    standing = λ e. absurd cc;
  }

  -- A handler that TP has no session of starts and connects, any events follow, TP is killed and
  -- starts again, with its log and its session file, and any events follow. If TP had logged a row
  -- of the handler by then, the connection that the handler has open at the end works, and the
  -- handler counted no row that it could not resend, neither before the restart nor at the end, then
  -- as soon as TP has read what waits on the connection, TP has logged, after what it held at the
  -- start, exactly the rows published before and after its restart, each once and in order.
  pub restart_loses_none :
      (ring_size session_id width : ℕ) (tp : Tickerplant R) (contacts : List Contact)
      (earlier later : List (Event R))
      → tp.session ≢ some session_id
      → let start = reconnect contacts (new_link ring_size session_id width tp) in
        start.1 ≡ true
        → let l = run earlier start.0 in
          l.tp.log ≢ tp.log
          → l.handler.rows_unresendable ≡ 0
          → let l' = run later (after_restart l) in
            l'.alive ≡ true
            → l'.handler.rows_unresendable ≡ 0
            → let P = rows_of 1 earlier in
              (drain l'.pipe l').tp.log ≡ tp.log ++ (P ++ rows_of (length P + 1) later)
  restart_loses_none ring_size session_id width tp contacts earlier later other ok more none_gone on
        none_gone' =
      let start = (reconnect contacts (new_link ring_size session_id width tp)).0 in
      let P = rows_of 1 earlier in
      let l = run earlier start in
      let h =
        run-IsAccounted tp.log tp.missed tp.out_of_order [] earlier start
          (started-IsAccounted ring_size session_id width tp contacts other ok) in
      let again = after_restart-IsAccounted tp.log P tp.missed tp.out_of_order l h none_gone more in
      (drained tp.log (P ++ rows_of (length P + 1) later) 0 0 (run later (after_restart l))
        (run-IsAccounted tp.log 0 0 P later (after_restart l) again) on none_gone').0
