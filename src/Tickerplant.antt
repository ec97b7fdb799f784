-- ===== src/Tickerplant.antt =====
-- kdb/tick/tp.q: the tickerplant's side of one table's handler session. A row is any type, its
-- fhSeqNo beside it. The log holds the table's rows of the day as they were logged, without TP's two
-- stamps. Handles, the counts of rows from unregistered handles, the ids of trades, the clock skew,
-- the incidents and the publishing to subscribers are left out. The session id in the session file
-- is always the current one, since a registration is what changes it.
pub mod Session
pub mod Logged
pub mod Restart
use t2s.Base.{
  ℕ, ◌+◌, ◌-◌, Bool, Option, none, some, List, [], ◌∷◌, ◌++◌, ltb, ◌==◌, if◌then◌else◌, not,
}
use t2s.Publisher.{Registration, refused, replied, newest_of}

pub record Tickerplant (R : Type 0) : Type 0 where
  -- the width that the schema has for a handler's row
  pub width : ℕ
  pub session : Option ℕ
  pub last : Option ℕ
  -- the last fhSeqNo in the session file, which a registration writes
  pub saved_last : Option ℕ
  pub restarts : ℕ
  pub reconnects : ℕ
  pub gaps : ℕ
  pub missed : ℕ
  pub out_of_order : ℕ
  pub schema_mismatch : ℕ
  pub rejected_registrations : ℕ
  pub log : List (ℕ × R)

unfoldable pub restarted : {R : Type 0} → ℕ → Tickerplant R → Tickerplant R × Option ℕ
restarted next tp = (record tp { restarts = tp.restarts + 1; last = some (next - 1) }, none)

unfoldable pub same_session : {R : Type 0} → Option ℕ → ℕ → Tickerplant R → Tickerplant R × Option ℕ
same_session none next tp = (record tp { last = some (next - 1) }, none)
same_session (some last) next tp = (tp, some last)

-- The kinds of registration, by the session on record and the last fhSeqNo: what becomes of the
-- last fhSeqNo and the counters, and the reply (`none` is -1).
unfoldable pub recognised :
    {R : Type 0}
    → Option ℕ
    → Option ℕ
    → (session_id next : ℕ) → Tickerplant R
    → Tickerplant R × Option ℕ
unfolding restarted same_session
recognised none none session_id next tp = (record tp { last = some (next - 1) }, none)
recognised none (some last) session_id next tp =
    if ltb (next - 1) last then restarted next tp else (tp, some last)
recognised (some previous) last session_id next tp =
    if session_id == previous
    then same_session last next (record tp { reconnects = tp.reconnects + 1 })
    else restarted next tp

-- .tp.registerSession for a table that TP has; the reason of a refusal is given without its numbers.
unfoldable pub register_session :
    {R : Type 0} → (session_id next width : ℕ) → Tickerplant R → Tickerplant R × Registration
unfolding recognised
register_session session_id next width tp =
    let r = recognised tp.session tp.last session_id next tp in
    if not (width == tp.width)
    then (
      record tp { rejected_registrations = tp.rejected_registrations + 1 },
      refused "schema width mismatch",
    )
    else (record r.0 { session = some session_id; saved_last = r.0.last }, replied r.1)

-- .tp.checkSeq: never drops a row.
unfoldable pub check_seq : {R : Type 0} → Option ℕ → ℕ → Tickerplant R → Tickerplant R
check_seq none seq tp = record tp { last = some seq }
check_seq (some last) seq tp =
    if seq == last + 1
    then record tp { last = some seq }
    else if ltb (last + 1) seq
    then record tp { gaps = tp.gaps + 1; missed = tp.missed + (seq - last - 1); last = some seq }
    else record tp { out_of_order = tp.out_of_order + 1 }

-- upd, for a row of the table with `width` columns.
unfoldable pub upd : {R : Type 0} → (width : ℕ) → ℕ × R → Tickerplant R → Tickerplant R
unfolding check_seq
upd width (seq, row) tp =
    let checked = check_seq tp.last seq tp in
    if not (width == tp.width)
    then record tp { schema_mismatch = tp.schema_mismatch + 1 }
    else record checked { log = checked.log ++ ((seq, row) ∷ []) }

-- TP reads rows from a connection, in order.
unfoldable pub read_all : {R : Type 0} → ℕ → List (ℕ × R) → Tickerplant R → Tickerplant R
unfolding upd
read_all width [] tp = tp
read_all width (row ∷ rows) tp = read_all width rows (upd width row tp)

-- .tp.recoverFhSeq: the fhSeqNo of the last row in the log, or what the session file says.
unfoldable pub recovered : {R : Type 0} → List (ℕ × R) → Option ℕ → Option ℕ
recovered [] saved = saved
recovered (row ∷ rows) saved = some (newest_of (row ∷ rows))

-- TP is killed and starts again, on the same day: the session file and the log are what it knows.
unfoldable pub restart : {R : Type 0} → Tickerplant R → Tickerplant R
unfolding recovered
restart tp = record tp {
  last = recovered tp.log tp.saved_last;
  restarts = 0;
  reconnects = 0;
  gaps = 0;
  missed = 0;
  out_of_order = 0;
  schema_mismatch = 0;
  rejected_registrations = 0;
}
