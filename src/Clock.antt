-- ===== src/Clock.antt =====
-- cpp/include/row_clock.hpp: a row's `time` when the local clock lags the exchange. Times are natural
-- numbers: an event time or threshold at or below 0 is used only in the test that it is not positive,
-- and is 0 here.
pub mod Examples
pub mod Stamp
pub mod Episodes
use t2s.Base.{
  ℕ, ◌+◌, ◌*◌, ◌/◌, ℤ, pos, sub_ℕ, ltb_ℤ, leb_ℤ, div_trunc, Bool, true, false, ltb, ◌==◌, ◌||◌,
  ◌&&◌, not, if◌then◌else◌,
}

abbrev pub default_clock_lag_ms : ℕ
default_clock_lag_ms = 2000

pub data ClockEdge : Type 0 where
  no_edge : ClockEdge
  lag_started : ClockEdge
  lag_ended : ClockEdge

pub record RowStamp : Type 0 where
  pub time_utc_ns : ℕ
  pub corrected : Bool
  pub lag_ms : ℤ
  pub edge : ClockEdge

abbrev pub has_event_time : ℕ → Bool
has_event_time event_time_ms = ltb 0 event_time_ms

-- The rule itself: stampRowTime(recvTimeUtcNs, eventTimeMs, thresholdMs).
pub stamp_row_time : ℕ → ℕ → ℕ → RowStamp
stamp_row_time recv event threshold =
    let event_ns = event * 1000000 in
    let plain : RowStamp = record {
      time_utc_ns = recv;
      corrected = false;
      lag_ms = pos 0;
      edge = no_edge;
    } in
    let ahead : ℤ = sub_ℕ event_ns recv in
    let measured : RowStamp = record plain { lag_ms = div_trunc ahead 1000000 } in
    if not (has_event_time event) || (threshold == 0)
    then plain
    else if ltb_ℤ (pos (threshold * 1000000)) ahead
    then record measured { time_utc_ns = event_ns; corrected = true }
    else measured

pub record RowClock : Type 0 where
  pub threshold_ms : ℕ
  pub last_event_ms : ℕ
  pub corrected_rows : ℕ
  pub lagging : Bool
  pub episode_rows : ℕ
  pub episode_max_lag_ms : ℤ
  pub last_episode_rows : ℕ
  pub last_episode_max_lag_ms : ℤ

pub new_clock : ℕ → RowClock
new_clock threshold = record {
  threshold_ms = threshold;
  last_event_ms = 0;
  corrected_rows = 0;
  lagging = false;
  episode_rows = 0;
  episode_max_lag_ms = pos 0;
  last_episode_rows = 0;
  last_episode_max_lag_ms = pos 0;
}

pub note_event : ℕ → RowClock → RowClock
note_event event c = if has_event_time event then record c { last_event_ms = event } else c

-- The exchange time that a row is compared with.
pub reference : ℕ → RowClock → ℕ
reference event c = if has_event_time event then event else c.last_event_ms

-- A corrected row's part in the episode.
pub count_corrected : RowStamp → RowClock → RowClock × RowStamp
count_corrected s c = (
  record c {
    corrected_rows = c.corrected_rows + 1;
    episode_rows = c.episode_rows + 1;
    episode_max_lag_ms =
        if ltb_ℤ c.episode_max_lag_ms s.lag_ms then s.lag_ms else c.episode_max_lag_ms;
    lagging = true;
  },
  if c.lagging then s else record s { edge = lag_started },
)

-- Back in step: the episode ends.
pub end_episode : RowStamp → RowClock → RowClock × RowStamp
end_episode s c = (
  record c {
    lagging = false;
    last_episode_rows = c.episode_rows;
    last_episode_max_lag_ms = c.episode_max_lag_ms;
    episode_rows = 0;
    episode_max_lag_ms = pos 0;
  },
  record s { edge = lag_ended },
)

-- stamp(recvTimeUtcNs, ownEventTimeMs)
pub stamp : ℕ → ℕ → RowClock → RowClock × RowStamp
unfolding note_event reference count_corrected end_episode
stamp recv event c0 =
    let c = note_event event c0 in
    let ref = reference event c in
    let s = stamp_row_time recv ref c.threshold_ms in
    if s.corrected
    then count_corrected s c
    else if c.lagging && has_event_time ref && leb_ℤ s.lag_ms (pos (c.threshold_ms / 2))
    then end_episode s c
    else (c, s)
