-- ===== src/Gap.antt =====
-- cpp/include/trade_gap.hpp: gaps in the exchange's trade ids. Ids are natural numbers (the
-- exchange's start at 1); 0 stands for "none", as in the source.
pub mod Examples
pub mod Tracker
pub mod Queue
use t2s.Base.{
  ℕ, ◌+◌, ◌-◌, Bool, true, false, Option, none, some, String, List, [], ◌∷◌, ◌++◌, str_eq, ltb,
  ◌==◌, if◌then◌else◌,
}

pub data GapStatus : Type 0 where
  detected : GapStatus
  partial : GapStatus
  recovered : GapStatus
  unrecoverable : GapStatus

pub record TradeGap : Type 0 where
  pub sym : String
  pub first_id : ℕ
  pub last_id : ℕ
  pub recovered : ℕ
  -- 0 = none
  pub recovered_through_id : ℕ

abbrev pub missing : TradeGap → ℕ
missing g = g.last_id + 1 - g.first_id

abbrev pub next_needed_id : TradeGap → ℕ
next_needed_id g = if ltb 0 g.recovered_through_id then g.recovered_through_id + 1 else g.first_id

-- TradeIdTracker::Kind, with the missing range where there is one.
pub data Kind : Type 0 where
  first : Kind
  in_order : Kind
  gap : (first_missing last_missing : ℕ) → Kind
  duplicate : Kind
  out_of_order : Kind

pub record Result : Type 0 where
  pub kind : Kind
  pub previous : ℕ

-- The last id per symbol; the first entry of a name is its entry in the map.
pub Tracker : Type 0
Tracker = List (String × ℕ)

pub find : String → List (String × ℕ) → Option ℕ
find sym [] = none
find sym ((s, last) ∷ t) = if str_eq s sym then some last else find sym t

-- last_[sym] = id
pub seed : String → ℕ → List (String × ℕ) → List (String × ℕ)
seed sym id [] = (sym, id) ∷ []
seed sym id ((s, last) ∷ t) = if str_eq s sym then (s, id) ∷ t else (s, last) ∷ seed sym id t

pub classify : ℕ → ℕ → Kind
classify last id =
    if id == last + 1
    then in_order
    else if id == last
    then duplicate
    else if ltb id last
    then out_of_order
    else gap (last + 1) (id - 1)

pub on_id : String → ℕ → List (String × ℕ) → List (String × ℕ) × Result
unfolding seed classify
on_id sym id t = elim (find sym t) [
  | none ↦ (seed sym id t, record { kind = first; previous = 0 })
  | some last ↦ (
    if ltb last id then seed sym id t else t,
    record { kind = classify last id; previous = last },
  )
]

pub known : String → List (String × ℕ) → Bool
known sym t = elim (find sym t) [ none ↦ false | some last ↦ true ]

pub last_id_of : String → List (String × ℕ) → ℕ
last_id_of sym t = elim (find sym t) [ none ↦ 0 | some last ↦ last ]

-- sendEvent's result, as the connection gives it.
pub data EventResult : Type 0 where
  acked : EventResult
  connection_lost : EventResult
  rejected : EventResult

pub record GapEventQueue (R : Type 0) : Type 0 where
  pub pending : List R
  pub acked_rows : ℕ
  pub rejected_rows : ℕ

unfoldable pub push : {R : Type 0} → R → GapEventQueue R → GapEventQueue R
push row q = record q { pending = q.pending ++ (row ∷ []) }

-- The rows sent to TP in order with their results, the rows left, and whether none is.
pub record Flushed (R : Type 0) : Type 0 where
  pub sent : List (R × EventResult)
  pub queue : GapEventQueue R
  pub empty : Bool

-- TP's answer to the next sendEvent; none left: the connection is lost.
pub next_result : List EventResult → EventResult
next_result [] = connection_lost
next_result (r ∷ rs) = r

pub later_results : List EventResult → List EventResult
later_results [] = []
later_results (r ∷ rs) = rs

pub flush_from : {R : Type 0} → List R → List EventResult → ℕ → ℕ → Flushed R
unfolding next_result later_results
flush_from [] rs acks rejects = record {
  sent = [];
  queue = record { pending = []; acked_rows = acks; rejected_rows = rejects };
  empty = true;
}
flush_from (row ∷ rest) rs acks rejects = elim (next_result rs) [
  | connection_lost ↦ record {
    sent = (row, connection_lost) ∷ [];
    queue = record { pending = row ∷ rest; acked_rows = acks; rejected_rows = rejects };
    empty = false;
  }
  | rejected ↦
      let more = flush_from rest (later_results rs) acks (rejects + 1) in
      record more { sent = (row, rejected) ∷ more.sent }
  | acked ↦
      let more = flush_from rest (later_results rs) (acks + 1) rejects in
      record more { sent = (row, acked) ∷ more.sent }
]

pub flush : {R : Type 0} → List EventResult → GapEventQueue R → Flushed R
flush rs q = flush_from q.pending rs q.acked_rows q.rejected_rows
