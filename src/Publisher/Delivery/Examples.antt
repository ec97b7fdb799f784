-- ===== src/Publisher/Delivery/Examples.antt =====
-- cpp/include/tp_publisher.hpp and kdb/tick/tp.q: a concrete link that loses rows and sends them again.
use t2s.Base.{ℕ, ◌+◌, Bool, true, false, some, List, [], ◌∷◌, ◌++◌, length, ◌≡◌, ◌≢◌, refl, arith}
use t2s.Publisher.{
  push, drop_oldest, register, resend, resend_after, send_rows, after, missing_after, newest_of,
  new_ring,
}
use t2s.Publisher.Delivery.{
  Link, Contact, Event, publish_row, arrive, cut, asked, attempt_of, written, broken, settled,
  reconnect, publish_next, read_next, step, run, drain, rows_of, new_link, after_restart,
}
use t2s.Publisher.Delivery.Complete.{never_silent, every_row_logged}
use t2s.Publisher.Delivery.Restart.{restart_loses_none}
use t2s.Publisher.Delivery.Healthy.{healthy_contact, reconnect-healthy}
use t2s.Tickerplant.Logged.{IsLogged}
use t2s.Tickerplant.{
  Tickerplant, register_session, upd, read_all, recognised, restarted, same_session, check_seq,
  restart, recovered,
}

-- A tickerplant with another handler's session and row on record.
abbrev plant : Tickerplant ℕ
plant = record {
  width = 12;
  session = some 6;
  last = some 9;
  saved_last = some 0;
  restarts = 0;
  reconnects = 0;
  gaps = 0;
  missed = 0;
  out_of_order = 0;
  schema_mismatch = 0;
  rejected_registrations = 0;
  log = (9, 900) ∷ [];
}

plant_other : plant.session ≢ some 7
plant_other = λ e. absurd cc

-- The port is closed, then the registration's answer is lost, then all goes well.
abbrev first_contacts : List Contact
first_contacts =
    record { opened = false; reached = false; answered = false; sends = []; read = 0 }
    ∷ record { opened = true; reached = true; answered = false; sends = []; read = 0 }
    ∷ record { opened = true; reached = true; answered = true; sends = []; read = 0 }
    ∷ []

-- Row 1 arrives, row 2 is lost with its connection, row 3 looks sent on the dead one, and row 4
-- finds it dead: the first resend dies when TP has read row 2, the second goes through.
abbrev lossy_events : List (Event ℕ)
lossy_events =
    publish_row 10 false []
    ∷ arrive
    ∷ publish_row 20 false []
    ∷ cut
    ∷ publish_row 30 true []
    ∷ publish_row 40 false (
        record {
          opened = true;
          reached = true;
          answered = true;
          sends = true ∷ true ∷ [];
          read = 1;
        }
        ∷ record {
          opened = true;
          reached = true;
          answered = true;
          sends = true ∷ true ∷ true ∷ [];
          read = 0;
        }
        ∷ [])
    ∷ arrive
    ∷ []

abbrev start : Link ℕ × Bool
start = reconnect first_contacts (new_link 4 7 12 plant)

abbrev lossy_link : Link ℕ
lossy_link = run lossy_events start.0

starts : start.1 ≡ true
unfolding reconnect new_link new_ring attempt_of asked register resend resend_after settled broken
    written read_all register_session recognised restarted same_session
starts = refl

stands : (lossy_link.alive ≡ true) × (lossy_link.handler.rows_unresendable ≡ 0)
unfolding run step publish_next read_next reconnect new_link new_ring attempt_of asked register
    resend resend_after settled broken written read_all register_session push drop_oldest send_rows
    after missing_after newest_of upd check_seq recognised restarted same_session
stands = (refl, refl)

never_silent_example :
    (seen : ℕ) × IsLogged plant.log 0 0 (rows_of 1 lossy_events) seen lossy_link.tp
never_silent_example = never_silent 4 7 12 plant first_contacts lossy_events plant_other starts

every_row_logged_example :
    ((drain lossy_link.pipe lossy_link).tp.log ≡ plant.log ++ rows_of 1 lossy_events)
    × ((drain lossy_link.pipe lossy_link).tp.missed ≡ 0)
    × ((drain lossy_link.pipe lossy_link).tp.out_of_order ≡ 0)
every_row_logged_example =
    every_row_logged 4 7 12 plant first_contacts lossy_events plant_other starts stands.0 stands.1

rows_published : rows_of 1 lossy_events ≡ (1, 10) ∷ (2, 20) ∷ (3, 30) ∷ (4, 40) ∷ []
unfolding rows_of
rows_published = refl

reconnect-healthy_example :
    (reconnect (first_contacts ++ (healthy_contact 4 ∷ [])) (new_link 4 7 12 plant)).1 ≡ true
unfolding new_link new_ring
reconnect-healthy_example =
    reconnect-healthy 4 first_contacts [] (new_link 4 7 12 plant) refl refl (omega arith)

-- TP dies with row 5 unread, and row 6 finds the connection dead.
abbrev later_events : List (Event ℕ)
later_events = publish_row 60 false (healthy_contact 4 ∷ []) ∷ []

abbrev earlier_events : List (Event ℕ)
earlier_events = lossy_events ++ (arrive ∷ arrive ∷ publish_row 50 false [] ∷ [])

abbrev restarted_link : Link ℕ
restarted_link = run later_events (after_restart (run earlier_events start.0))

restart_stands :
    ((run earlier_events start.0).tp.log ≢ plant.log)
    × ((run earlier_events start.0).handler.rows_unresendable ≡ 0)
    × (restarted_link.alive ≡ true)
    × (restarted_link.handler.rows_unresendable ≡ 0)
unfolding run step publish_next read_next reconnect new_link new_ring attempt_of asked register
    resend resend_after settled broken written read_all register_session push drop_oldest send_rows
    after missing_after newest_of upd check_seq recognised restarted same_session after_restart
    restart recovered healthy_contact
restart_stands = (λ e. absurd cc, refl, refl, refl)

restart_loses_none_example :
    (drain restarted_link.pipe restarted_link).tp.log
    ≡ plant.log
      ++ (rows_of 1 earlier_events ++ rows_of (length (rows_of 1 earlier_events) + 1) later_events)
restart_loses_none_example =
    restart_loses_none 4 7 12 plant first_contacts earlier_events later_events plant_other starts
      restart_stands.0 restart_stands.1 restart_stands.2 restart_stands.3

-- TP dies before it has read the first row of the session: it takes the last row of the session before
-- for the handler's own, rows 1 and 2 are not sent again, and nothing is counted as missed.
abbrev forgotten_link : Link ℕ
forgotten_link = run later_events (after_restart (run (publish_row 10 false [] ∷ []) start.0))

restart_forgets :
    ((drain forgotten_link.pipe forgotten_link).tp.log ≡ plant.log)
    × ((drain forgotten_link.pipe forgotten_link).tp.missed ≡ 0)
    × (forgotten_link.alive ≡ true)
    × (forgotten_link.handler.rows_unresendable ≡ 0)
unfolding drain run step publish_next read_next reconnect new_link new_ring attempt_of asked
    register resend resend_after settled broken written read_all register_session push drop_oldest
    send_rows after missing_after newest_of upd check_seq recognised restarted same_session
    after_restart restart recovered healthy_contact
restart_forgets = (refl, refl, refl, refl)
