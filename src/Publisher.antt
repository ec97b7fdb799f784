-- ===== src/Publisher.antt =====
-- cpp/include/tp_publisher.hpp: the resend ring and a handler's connection to the tickerplant. A row
-- is any type. The tickerplant and the kdb+ C library are the environment: a list of connection
-- attempts, each with the results of its calls. `wire` lists the rows written to connections, in order.
pub mod Examples
pub mod Ring
pub mod Cases
pub mod Resend
pub mod Delivery
use t2s.Base.{
  ℕ, ◌+◌, ◌-◌, Bool, true, false, Option, none, some, String, List, [], ◌∷◌, ◌++◌, length, ltb, leb,
  if◌then◌else◌, ◌||◌, not,
}
use t2s.Gap.{EventResult, acked, connection_lost, rejected}

pub record ResendRing (R : Type 0) : Type 0 where
  pub capacity : ℕ
  -- oldest first
  pub rows : List (ℕ × R)

pub new_ring : {R : Type 0} → ℕ → ResendRing R
new_ring capacity = record { capacity = if ltb 0 capacity then capacity else 1; rows = [] }

pub drop_oldest : {R : Type 0} → List (ℕ × R) → List (ℕ × R)
drop_oldest [] = []
drop_oldest (row ∷ rows) = rows

pub push : {R : Type 0} → ℕ → R → ResendRing R → ResendRing R
unfolding drop_oldest
push seq row r = record r {
  rows =
      (if leb r.capacity (length r.rows) then drop_oldest r.rows else r.rows) ++ ((seq, row) ∷ []);
}

pub oldest_of : {R : Type 0} → List (ℕ × R) → ℕ
oldest_of [] = 0
oldest_of ((seq, row) ∷ rows) = seq

pub newest_of : {R : Type 0} → List (ℕ × R) → ℕ
newest_of [] = 0
newest_of ((seq, row) ∷ []) = seq
newest_of (row ∷ (next ∷ rows)) = newest_of (next ∷ rows)

-- The rows that forEachAfter visits.
pub after : {R : Type 0} → ℕ → List (ℕ × R) → List (ℕ × R)
after seq [] = []
after seq ((n, row) ∷ rows) = if ltb seq n then (n, row) ∷ after seq rows else after seq rows

pub missing_after : {R : Type 0} → ℕ → List (ℕ × R) → ℕ
missing_after seq [] = 0
missing_after seq ((n, row) ∷ rows) = if ltb (seq + 1) n then n - (seq + 1) else 0

-- .tp.registerSession: no reply, an error, or the last fhSeqNo logged (`none` is -1).
pub data Registration : Type 0 where
  lost : Registration
  refused : String → Registration
  replied : Option ℕ → Registration

-- One pass of connect's loop: whether the port opens, what the registration gives, and whether the
-- sends of the resend go out (none left: the connection is lost).
pub record Attempt : Type 0 where
  pub opened : Bool
  pub registration : Registration
  pub sends : List Bool

pub record Publisher (R : Type 0) : Type 0 where
  pub running : Bool
  pub ring : ResendRing R
  pub connected : Bool
  pub fatal_error : Option String
  pub reconnects : ℕ
  pub rows_resent : ℕ
  pub rows_unresendable : ℕ
  pub last_reply : Option ℕ
  pub wire : List (ℕ × R)

pub send_rows : {R : Type 0} → List (ℕ × R) → List Bool → List (ℕ × R) × Bool
send_rows [] sends = ([], true)
send_rows (row ∷ rows) [] = ([], false)
send_rows (row ∷ rows) (ok ∷ sends) = elim ok [
  | true ↦ let rest = send_rows rows sends in (row ∷ rest.0, rest.1)
  | false ↦ ([], false)
]

abbrev is_empty : {R : Type 0} → List (ℕ × R) → Bool
is_empty [] = true
is_empty (row ∷ rows) = false

-- Resend what TP has not logged; the rows it lacks that are gone are counted.
pub resend_after : {R : Type 0} → ℕ → List Bool → Publisher R → Publisher R × Bool
unfolding after missing_after newest_of send_rows
resend_after logged sends p =
    let rows = p.ring.rows in
    let out = send_rows (after logged rows) sends in
    let counted = record p {
      rows_unresendable = p.rows_unresendable + missing_after logged rows;
      wire = p.wire ++ out.0;
    } in
    if is_empty rows || leb (newest_of rows) logged
    then (p, true)
    else if out.1
    then (record counted { rows_resent = counted.rows_resent + length out.0 }, true)
    else (counted, false)

pub resend : {R : Type 0} → Option ℕ → List Bool → Publisher R → Publisher R × Bool
resend none sends p = (p, true)
resend (some logged) sends p = resend_after logged sends p

-- registerSession and, when TP replied, the resend: `none` is a refused registration, and otherwise
-- whether the connection stood.
pub register : {R : Type 0} → Attempt → Publisher R → Publisher R × Option Bool
unfolding resend
register a p = elim a.registration [
  | lost ↦ (p, some false)
  | refused why ↦ (record p { fatal_error = some why }, none)
  | replied logged ↦
      let sent = resend logged a.sends (record p { last_reply = logged }) in (sent.0, some sent.1)
]

-- How an open connection's registration ends the loop, or goes on with it.
pub concluded : {R : Type 0} → Publisher R × Option Bool → Publisher R × Bool → Publisher R × Bool
concluded (p, none) retried = (record p { running = false }, false)
concluded (p, some true) retried = (record p { connected = true }, true)
concluded (p, some false) retried = retried

-- connect(): a refused registration ends the handler; every other failure is tried again. When the
-- attempts run out, a shutdown was requested.
pub connect : {R : Type 0} → List Attempt → Publisher R → Publisher R × Bool
unfolding register concluded
connect [] p = (record p { running = false }, false)
connect (a ∷ attempts) p =
    let again = connect attempts p in
    let registered = register a p in
    let retried = connect attempts registered.0 in
    if not p.running
    then (p, false)
    else if not a.opened
    then again
    else concluded registered retried

-- publish(): `sent` is whether the send on the open connection goes out.
pub publish : {R : Type 0} → R → ℕ → Bool → List Attempt → Publisher R → Publisher R × Bool
unfolding push
publish row seq sent attempts p0 =
    let p = record p0 { ring = push seq row p0.ring } in
    if not p.connected
    then connect attempts p
    else if sent
    then (record p { wire = p.wire ++ ((seq, row) ∷ []) }, true)
    else connect attempts (record p { connected = false; reconnects = p.reconnects + 1 })

-- .tp.event's answer: none, an error, or the row's tpSeqNo.
pub data EventReply : Type 0 where
  no_reply : EventReply
  event_error : String → EventReply
  logged_as : ℕ → EventReply

-- kclose and handle_ = -1 on a connection found dead.
pub dropped : {R : Type 0} → Publisher R → Publisher R
dropped p = record p { connected = false; reconnects = p.reconnects + 1 }

-- sendEvent(): `reply` is what the call on the open connection gives.
pub send_event : {R : Type 0} → EventReply → Publisher R → Publisher R × EventResult
unfolding dropped
send_event {R} reply p =
    let answered : Publisher R × EventResult = elim reply [
      | no_reply ↦ (dropped p, connection_lost)
      | event_error why ↦ (p, rejected)
      | logged_as seq ↦ (p, acked)
    ] in
    if not p.connected then (p, connection_lost) else answered

pub close : {R : Type 0} → Publisher R → Publisher R
close p = record p { connected = false }
