-- ===== src/Book/Sequence.antt =====
-- cpp/include/order_book_manager.hpp: OrderBookManager::Seq, Verdict and checkSequence.
pub mod Chain
pub mod Follow
use t2s.Base.{ℕ, ◌+◌, ◌≡◌, arith, Bool, true, false, Option, none, some, ltb, ◌==◌, if◌then◌else◌}
use t2s.Market.{DepthSync, spot, futures}
use t2s.Book.Types.{BufferedDelta}

pub record Seq : Type 0 where
  pub need_bridge : Bool
  pub snapshot_id : ℕ
  pub last_id : ℕ

abbrev pub new_seq : Seq
new_seq = record { need_bridge = false; snapshot_id = 0; last_id = 0 }

pub data Verdict : Type 0 where
  skip apply fail : Verdict

-- `pu == id`; a delta without `pu` holds -1, which is no update id.
abbrev pub is_id : Option ℕ → ℕ → Bool
is_id none id = false
is_id (some pu) id = pu == id

-- The verdict, and the bookkeeping with `needBridge` as the check leaves it.
unfoldable pub check_sequence : DepthSync → Seq → BufferedDelta → Verdict × Seq
check_sequence futures s d =
    if s.need_bridge
    then (if is_id d.prev_final_update_id s.snapshot_id
        then (apply, record s { need_bridge = false })
        else if ltb d.final_update_id s.snapshot_id
        then (skip, s)
        else if ltb s.snapshot_id d.first_update_id
        then (fail, s)
        else (apply, record s { need_bridge = false }))
    else if is_id d.prev_final_update_id s.last_id
    then (apply, s)
    else (fail, s)
check_sequence spot s d =
    if s.need_bridge
    then (if ltb d.final_update_id (s.snapshot_id + 1)
        then (skip, s)
        else if ltb (s.snapshot_id + 1) d.first_update_id
        then (fail, s)
        else (apply, record s { need_bridge = false }))
    else if ltb d.final_update_id s.last_id
    then (skip, s)
    else if ltb (s.last_id + 1) d.first_update_id
    then (fail, s)
    else (apply, s)

-- seq.lastId = d.finalUpdateId, after an event was applied.
abbrev pub at_event : Seq → BufferedDelta → Seq
at_event s d = record s { last_id = d.final_update_id }

-- The check changes the bookkeeping only by `needBridge = false` on the bridging event.
pub check_sequence_kept :
    (sync : DepthSync) (s : Seq) (d : BufferedDelta)
    → ((check_sequence sync s d).0 ≡ apply
        → (check_sequence sync s d).1 ≡ record s { need_bridge = false })
      × ((check_sequence sync s d).0 ≡ skip → (check_sequence sync s d).1 ≡ s)
      × ((check_sequence sync s d).0 ≡ fail → (check_sequence sync s d).1 ≡ s)
unfolding check_sequence
check_sequence_kept spot s d = (ground arith, ground arith, ground arith)
check_sequence_kept futures s d = (ground arith, ground arith, ground arith)
