-- ===== src/Book/Sequence/Follow.antt =====
-- Which update ids an event may follow, and that the check lets through no other event.
use t2s.Base.{ℕ, ◌+◌, ◌≤◌, ◌≡◌, ◌⊎◌, true, some, arith}
use t2s.Market.{DepthSync, spot, futures}
use t2s.Book.Types.{BufferedDelta}
use t2s.Book.Sequence.{Seq, apply, check_sequence}

-- The event takes the book from update id n to its own last id.
abbrev pub Follows : DepthSync → BufferedDelta → ℕ → Type 0
Follows spot d n = (d.first_update_id ≤ n + 1) × (n ≤ d.final_update_id)
Follows futures d n =
    (d.prev_final_update_id ≡ some n) ⊎ ((d.first_update_id ≤ n) × (n ≤ d.final_update_id))

pub apply-Follows :
    (sync : DepthSync) (d : BufferedDelta) (s : Seq)
    → (s.need_bridge ≡ true → s.snapshot_id ≡ s.last_id)
    → (check_sequence sync s d).0 ≡ apply
    → Follows sync d s.last_id
unfolding check_sequence
apply-Follows spot d s u e = ground arith
apply-Follows futures d s u e = ground arith
