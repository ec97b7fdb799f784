-- ===== src/Publisher/Delivery.antt =====
-- cpp/include/tp_publisher.hpp and kdb/tick/tp.q together: a handler's publisher, the tickerplant's
-- session of its table, and the connection between them, on which rows wait to be read by TP. What
-- the network does is in the events and in the contacts; `alive` is whether the connection that
-- the handler has open still works, which the handler cannot see.
pub mod Lists
pub mod Attempts
pub mod Held
pub mod Writes
pub mod Accounted
pub mod Published
pub mod Steps
pub mod Complete
pub mod Healthy
pub mod Restart
pub mod Steady
mod Examples
use t2s.Base.{
  ℕ, ◌+◌, Bool, true, false, Option, none, some, List, [], ◌∷◌, ◌++◌, length, take, drop,
  if◌then◌else◌, ◌&&◌, ◌||◌, not,
}
use t2s.Publisher.{
  Publisher, Attempt, Registration, lost, new_ring, register, push, EventReply, no_reply,
  send_event,
}
use t2s.Tickerplant.{Tickerplant, register_session, upd, read_all, restart}

pub record Link (R : Type 0) : Type 0 where
  pub session_id : ℕ
  pub width : ℕ
  pub fh_seq_no : ℕ
  pub handler : Publisher R
  pub alive : Bool
  pub pipe : List (ℕ × R)
  pub tp : Tickerplant R

-- What the network does to one pass of connect's loop: whether the port opens, the registration
-- reaches TP and its answer comes back, which sends of the resend go out, and how many of their rows
-- TP reads when the connection dies.
pub record Contact : Type 0 where
  pub opened : Bool
  pub reached : Bool
  pub answered : Bool
  pub sends : List Bool
  pub read : ℕ

-- TP after the registration, and what the handler gets.
pub asked : {R : Type 0} → Contact → Link R → Tickerplant R × Registration
asked c l =
    let r = register_session l.session_id (l.fh_seq_no + 1) l.width l.tp in
    if not c.reached then (l.tp, lost) else (r.0, if c.answered then r.1 else lost)

pub attempt_of : {R : Type 0} → Contact → Link R → Attempt
unfolding asked
attempt_of c l = record { opened = c.opened; registration = (asked c l).1; sends = c.sends }

-- The rows that a registration and its resend write to the connection.
pub written : {R : Type 0} → Contact → Link R → List (ℕ × R)
unfolding attempt_of
written c l = drop (length l.handler.wire) (register (attempt_of c l) l.handler).0.wire

-- The connection dies during the registration or the resend.
pub broken : {R : Type 0} → Contact → Link R → Link R
unfolding asked attempt_of written
broken c l = record l {
  handler = (register (attempt_of c l) l.handler).0;
  tp = read_all l.width (take c.read (written c l)) (asked c l).0;
}

-- How the registration ends the loop, or goes on with it.
pub settled : {R : Type 0} → Option Bool → Contact → Link R → Link R × Bool → Link R × Bool
unfolding asked attempt_of written
settled none c l retried =
    let p = (register (attempt_of c l) l.handler).0 in
    (record l { handler = record p { running = false }; tp = (asked c l).0 }, false)
settled (some true) c l retried =
    let p = (register (attempt_of c l) l.handler).0 in
    (
      record l {
        handler = record p { connected = true };
        alive = true;
        pipe = written c l;
        tp = (asked c l).0;
      },
      true,
    )
settled (some false) c l retried = retried

-- connect(fhSeqNo_ + 1) against TP.
pub reconnect : {R : Type 0} → List Contact → Link R → Link R × Bool
unfolding attempt_of broken settled
reconnect [] l = (record l { handler = record l.handler { running = false } }, false)
reconnect (c ∷ contacts) l =
    let again = reconnect contacts l in
    let retried = reconnect contacts (broken c l) in
    let ended = (register (attempt_of c l) l.handler).1 in
    if not l.handler.running
    then (l, false)
    else if not c.opened
    then again
    else settled ended c l retried

-- What happens on the link: the handler publishes a row (on a dead connection the send is seen to
-- fail, or looks sent), TP reads a row, the connection dies, the handler sends an event row.
pub data Event (R : Type 0) : Type 0 where
  publish_row : R → (looks_sent : Bool) → List Contact → Event R
  arrive : Event R
  cut : Event R
  event_row : EventReply → Event R

-- publish(row, ++fhSeqNo_)
pub publish_next : {R : Type 0} → R → Bool → List Contact → Link R → Link R × Bool
unfolding reconnect
publish_next row looks_sent contacts l =
    let p = l.handler in
    let seq = l.fh_seq_no + 1 in
    let q = record p { ring = push seq row p.ring } in
    let pushed = record l { fh_seq_no = seq; handler = q } in
    let sent = record pushed { handler = record q { wire = q.wire ++ ((seq, row) ∷ []) } } in
    let dead = record pushed {
      handler = record q { connected = false; reconnects = q.reconnects + 1 };
      alive = false;
      pipe = [];
    } in
    if not p.connected
    then reconnect contacts pushed
    else if l.alive
    then (record sent { pipe = sent.pipe ++ ((seq, row) ∷ []) }, true)
    else if looks_sent
    then (sent, true)
    else reconnect contacts dead

pub read_next : {R : Type 0} → List (ℕ × R) → Link R → Link R
read_next [] l = l
read_next (row ∷ rows) l = record l { pipe = rows; tp = upd l.width row l.tp }

pub step : {R : Type 0} → Event R → Link R → Link R
unfolding publish_next read_next
step (publish_row row looks_sent contacts) l = (publish_next row looks_sent contacts l).0
step arrive l = if l.alive then read_next l.pipe l else l
step cut l = record l { alive = false; pipe = [] }
step (event_row reply) l =
    let p = (send_event (if l.alive then reply else no_reply) l.handler).0 in
    let alive = l.alive && p.connected in
    record l { handler = p; alive = alive; pipe = if alive then l.pipe else [] }

pub run : {R : Type 0} → List (Event R) → Link R → Link R
unfolding step
run [] l = l
run (e ∷ events) l = run events (step e l)

-- TP reads all rows that wait on the connection.
pub drain : {R : Type 0} → List (ℕ × R) → Link R → Link R
unfolding read_next
drain [] l = l
drain (row ∷ rows) l = drain rows (read_next (row ∷ rows) l)

-- The rows published, numbered from `next`.
pub rows_of : {R : Type 0} → ℕ → List (Event R) → List (ℕ × R)
rows_of next [] = []
rows_of next (publish_row row looks_sent contacts ∷ events) =
    (next, row) ∷ rows_of (next + 1) events
rows_of next (arrive ∷ events) = rows_of next events
rows_of next (cut ∷ events) = rows_of next events
rows_of next (event_row reply ∷ events) = rows_of next events

-- The rows published, in order.
unfoldable pub published : {R : Type 0} → List (Event R) → List R
published [] = []
published (publish_row row looks_sent contacts ∷ events) = row ∷ published events
published (arrive ∷ events) = published events
published (cut ∷ events) = published events
published (event_row reply ∷ events) = published events

-- A handler at its start, and a tickerplant.
pub new_link : {R : Type 0} → (ring_size session_id width : ℕ) → Tickerplant R → Link R
unfolding new_ring
new_link ring_size session_id width tp = record {
  session_id = session_id;
  width = width;
  fh_seq_no = 0;
  handler = record {
    running = true;
    ring = new_ring ring_size;
    connected = false;
    fatal_error = none;
    reconnects = 0;
    rows_resent = 0;
    rows_unresendable = 0;
    last_reply = none;
    wire = [];
  };
  alive = false;
  pipe = [];
  tp = tp;
}

-- TP is killed and starts again; the handler does not see it.
pub after_restart : {R : Type 0} → Link R → Link R
after_restart l = record l { alive = false; pipe = []; tp = restart l.tp }
