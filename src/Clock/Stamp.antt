-- ===== src/Clock/Stamp.antt =====
-- cpp/include/row_clock.hpp: the rule for one row.
use t2s.Base.{
  ℕ, ◌+◌, ◌*◌, ◌≤◌, ◌<◌, ℤ, pos, sub_ℕ, ltb_ℤ, ltb_ℤ-sub_ℕ, div_trunc, true, false, ltb, ◌==◌, ◌||◌,
  not, if◌then◌else◌, ◌≡◌, ◌≢◌, refl, sym, ◌∙◌, if_cases, arith,
}
use t2s.Clock.{RowStamp, has_event_time, stamp_row_time, no_edge}

pub IsStamped : ℕ → ℕ → ℕ → RowStamp → Type 0
IsStamped recv event threshold s =
    (s.corrected ≡ true
      → (s.time_utc_ns ≡ event * 1000000)
        × (0 < threshold)
        × (recv + threshold * 1000000 < event * 1000000))
    × (s.corrected ≡ false
        → (s.time_utc_ns ≡ recv) × (0 < threshold → event * 1000000 ≤ recv + threshold * 1000000))
    × (s.corrected ≡ true → s.time_utc_ns ≢ recv)

-- A row is corrected exactly when it has an exchange time, a threshold is set and the exchange is
-- ahead of the receive time by more than the threshold; then its time is the exchange's, and in
-- every other case the receive time; and a corrected row's time differs from its receive time, so
-- the two can be told apart afterwards.
pub stamp_row_time-IsStamped :
    (recv event threshold : ℕ)
    → IsStamped recv event threshold (stamp_row_time recv event threshold)
unfolding stamp_row_time IsStamped
stamp_row_time-IsStamped recv event threshold =
    let event_ns = event * 1000000 in
    let plain : RowStamp = record {
      time_utc_ns = recv;
      corrected = false;
      lag_ms = pos 0;
      edge = no_edge;
    } in
    let ahead : ℤ = sub_ℕ event_ns recv in
    let measured : RowStamp = record plain { lag_ms = div_trunc ahead 1000000 } in
    let moved : RowStamp = record measured { time_utc_ns = event_ns; corrected = true } in
    if_cases (IsStamped recv event threshold) (not (has_event_time event) || (threshold == 0)) plain
      (if ltb_ℤ (pos (threshold * 1000000)) ahead then moved else measured)
      (λ e. (λ f. absurd cc, λ f. (refl, λ g. ground arith), λ f. absurd cc))
      (λ e.
        if_cases (IsStamped recv event threshold) (ltb_ℤ (pos (threshold * 1000000)) ahead) moved
          measured
          (λ far.
            let far' : ltb (recv + threshold * 1000000) event_ns ≡ true =
              sym (ltb_ℤ-sub_ℕ (threshold * 1000000) event_ns recv) ∙ far in
            let gap : recv + threshold * 1000000 < event_ns = ground arith in
            (λ f. (refl, ground arith, gap), λ f. absurd cc, λ f. λ same. ground arith))
          (λ near.
            let near' : ltb (recv + threshold * 1000000) event_ns ≡ false =
              sym (ltb_ℤ-sub_ℕ (threshold * 1000000) event_ns recv) ∙ near in
            (λ f. absurd cc, λ f. (refl, λ g. ground arith), λ f. absurd cc)))
