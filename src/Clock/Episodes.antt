-- ===== src/Clock/Episodes.antt =====
-- cpp/include/row_clock.hpp: a lag's episodes, over any sequence of events and rows.
use t2s.Base.{
  ℕ, ◌+◌, ℤ, pos, leb_ℤ, ltb_ℤ, sub_ℕ, div_trunc, ◌*◌, ◌==◌, ◌||◌, not, Bool, true, false, ◌&&◌,
  ◌/◌, if◌then◌else◌, List, [], ◌∷◌, ◌≡◌, refl, ap, ◌∙◌, if_cases, arith,
}
use t2s.Clock.{
  no_edge, lag_started, lag_ended, RowStamp, RowClock, has_event_time, stamp_row_time, note_event,
  reference, count_corrected, end_episode, stamp,
}

-- What a handler does with its clock: it notes an event, or stamps a row.
pub data Act : Type 0 where
  noted : (event_time_ms : ℕ) → Act
  stamped : (recv_time_utc_ns own_event_time_ms : ℕ) → Act

-- The rows of the episodes that ended, as the handler reads them at each lag_ended edge, and the
-- numbers of corrected rows and of the edges seen.
pub record Seen : Type 0 where
  pub corrected : ℕ
  pub reported : ℕ
  pub started : ℕ
  pub ended : ℕ

pub see : RowClock → RowStamp → Seen → Seen
see c s n = record {
  corrected = n.corrected + (if s.corrected then 1 else 0);
  reported =
      n.reported + elim s.edge [ no_edge ↦ 0 | lag_started ↦ 0 | lag_ended ↦ c.last_episode_rows ];
  started = n.started + elim s.edge [ no_edge ↦ 0 | lag_started ↦ 1 | lag_ended ↦ 0 ];
  ended = n.ended + elim s.edge [ no_edge ↦ 0 | lag_started ↦ 0 | lag_ended ↦ 1 ];
}

pub run : List Act → RowClock → Seen → RowClock × Seen
unfolding see
run [] c n = (c, n)
run (noted event ∷ acts) c n = run acts (note_event event c) n
run (stamped recv own ∷ acts) c n = let s = stamp recv own c in run acts s.0 (see s.0 s.1 n)

-- The corrected rows are those of the reported episodes and of the one that lasts; and an episode has
-- started and not ended exactly while the clock lags.
pub record IsAccounted (c : RowClock) (n : Seen) : Type 0 where
  pub rows : c.corrected_rows ≡ n.corrected
  pub split : n.corrected ≡ n.reported + c.episode_rows
  pub edges : n.started ≡ n.ended + (if c.lagging then 1 else 0)
  pub idle : c.lagging ≡ false → c.episode_rows ≡ 0

edges_at :
    (b : Bool) (c : RowClock) (n : Seen)
    → IsAccounted c n
    → c.lagging ≡ b
    → n.started ≡ n.ended + (if b then 1 else 0)
edges_at b c n h e = h.edges ∙ ap (λ l. n.ended + (if l then 1 else 0)) e

stamp_row_time-edge :
    (recv event threshold : ℕ) → (stamp_row_time recv event threshold).edge ≡ no_edge
unfolding stamp_row_time
stamp_row_time-edge recv event threshold =
    let ahead : ℤ = sub_ℕ (event * 1000000) recv in
    let plain : RowStamp = record {
      time_utc_ns = recv;
      corrected = false;
      lag_ms = pos 0;
      edge = no_edge;
    } in
    let measured : RowStamp = record plain { lag_ms = div_trunc ahead 1000000 } in
    let moved : RowStamp = record measured { time_utc_ns = event * 1000000; corrected = true } in
    let P : RowStamp → Type 0 = λ s. s.edge ≡ no_edge in
    if_cases P (not (has_event_time event) || (threshold == 0)) plain
      (if ltb_ℤ (pos (threshold * 1000000)) ahead then moved else measured) (λ e. refl)
      (λ e.
        if_cases P (ltb_ℤ (pos (threshold * 1000000)) ahead) moved measured (λ f. refl) (λ f. refl))

count_corrected-IsAccounted :
    (s : RowStamp) (c : RowClock) (n : Seen)
    → s.corrected ≡ true
    → s.edge ≡ no_edge
    → IsAccounted c n
    → let r = count_corrected s c in IsAccounted r.0 (see r.0 r.1 n)
unfolding count_corrected see
count_corrected-IsAccounted s c n corrected plain h =
    let r = count_corrected s c in
    if_cases (λ x. IsAccounted r.0 (see r.0 x n)) c.lagging s (record s { edge = lag_started })
      (λ on. record {
        rows = rw corrected ground (arith, h.rows);
        split = rw (corrected, plain) ground (arith, h.split);
        edges = rw plain ground (arith, edges_at true c n h on);
        idle = λ off. absurd cc;
      })
      (λ off. record {
        rows = rw corrected ground (arith, h.rows);
        split = rw corrected ground (arith, h.split);
        edges = ground (arith, edges_at false c n h off);
        idle = λ off. absurd cc;
      })

end_episode-IsAccounted :
    (s : RowStamp) (c : RowClock) (n : Seen)
    → s.corrected ≡ false
    → c.lagging ≡ true
    → IsAccounted c n
    → let r = end_episode s c in IsAccounted r.0 (see r.0 r.1 n)
unfolding end_episode see
end_episode-IsAccounted s c n plain on h = record {
  rows = rw plain ground (arith, h.rows);
  split = rw plain ground (arith, h.split);
  edges = ground (arith, edges_at true c n h on);
  idle = λ off. refl;
}

same-IsAccounted :
    (s : RowStamp) (c : RowClock) (n : Seen)
    → s.corrected ≡ false
    → s.edge ≡ no_edge
    → IsAccounted c n
    → IsAccounted c (see c s n)
unfolding see
same-IsAccounted s c n plain none h = record {
  rows = rw plain ground (arith, h.rows);
  split = rw (plain, none) ground (arith, h.split);
  edges = rw none ground (arith, h.edges);
  idle = h.idle;
}

note_event-IsAccounted :
    (event : ℕ) (c : RowClock) (n : Seen) → IsAccounted c n → IsAccounted (note_event event c) n
unfolding note_event
note_event-IsAccounted event c n h =
    if_cases (λ r. IsAccounted r n) (has_event_time event) (record c { last_event_ms = event }) c
      (λ e. record { rows = h.rows; split = h.split; edges = h.edges; idle = h.idle }) (λ e. h)

stamp-IsAccounted :
    (recv own : ℕ) (c : RowClock) (n : Seen)
    → IsAccounted c n
    → let r = stamp recv own c in IsAccounted r.0 (see r.0 r.1 n)
unfolding stamp
stamp-IsAccounted recv own c0 n h0 =
    let c = note_event own c0 in
    let h = note_event-IsAccounted own c0 n h0 in
    let ref = reference own c in
    let s = stamp_row_time recv ref c.threshold_ms in
    let plain = stamp_row_time-edge recv ref c.threshold_ms in
    let back = c.lagging && has_event_time ref && leb_ℤ s.lag_ms (pos (c.threshold_ms / 2)) in
    let P : RowClock × RowStamp → Type 0 = λ r. IsAccounted r.0 (see r.0 r.1 n) in
    if_cases P s.corrected (count_corrected s c) (if back then end_episode s c else (c, s))
      (λ e. count_corrected-IsAccounted s c n e plain h)
      (λ e.
        if_cases P back (end_episode s c) (c, s)
          (λ f. end_episode-IsAccounted s c n e (ground arith) h)
          (λ f. same-IsAccounted s c n e plain h))

-- Over any sequence of noted events and stamped rows, from a clock and counts in order: the clock's
-- corrected rows are the corrected stamps; each of them is in exactly one episode, so that the rows
-- reported at the ends of episodes and those of the episode that lasts add up to them; starts and
-- ends of episodes alternate, one more start than ends exactly while the clock lags; and no rows are
-- pending when it does not.
pub run-IsAccounted :
    (acts : List Act) (c : RowClock) (n : Seen)
    → IsAccounted c n
    → IsAccounted (run acts c n).0 (run acts c n).1
unfolding run
run-IsAccounted [] c n h = h
run-IsAccounted (noted event ∷ acts) c n h =
    run-IsAccounted acts (note_event event c) n (note_event-IsAccounted event c n h)
run-IsAccounted (stamped recv own ∷ acts) c n h =
    let s = stamp recv own c in
    run-IsAccounted acts s.0 (see s.0 s.1 n) (stamp-IsAccounted recv own c n h)
