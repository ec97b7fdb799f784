-- ===== src/Book/Snapshot.antt =====
-- cpp/include/order_book_manager.hpp: onSnapshot and finishRefresh.
pub mod Invariant
pub mod Outcome
use t2s.Base.{ℕ, ◌+◌, Bool, true, false, not, ◌&&◌, List, [], ◌∷◌, ◌==◌, if◌then◌else◌}
use t2s.Book.Types.{
  BookConfig, BufferedDelta, PriceLevel, SnapshotOutcome, synced, awaiting_bridge, sync_failed,
  refreshed, refresh_awaiting_bridge, refresh_failed, ignored,
}
use t2s.Book.Sequence.{Seq, Verdict, skip, apply, fail, check_sequence, at_event}
use t2s.Book.Slot.{Book, Slot, Cell, Shadow, depth_exhausted, is_init, is_valid_state}
use t2s.Book.Apply.{apply_levels, load_book, seq_of_snapshot, apply_snapshot, apply_delta}

-- The shadow book while the buffered deltas are replayed onto it.
pub record Replay : Type 0 where
  pub book : Book
  pub seq : Seq
  pub failed : Bool

abbrev pub replayed : BookConfig → BufferedDelta → Verdict × Seq → Replay → Replay
replayed cfg d (skip, seq) r = record r { seq = seq }
replayed cfg d (apply, seq) r = record r { book = apply_levels cfg d r.book; seq = at_event seq d }
replayed cfg d (fail, seq) r = record r { seq = seq; failed = true }

-- The loop of `finishRefresh`; after a failed check the rest of the buffer is not read.
unfoldable pub replay : BookConfig → List BufferedDelta → Replay → Replay
replay cfg [] r = r
replay cfg (d ∷ ds) r =
    replay cfg ds (if r.failed then r else replayed cfg d (check_sequence cfg.sync r.seq d) r)

-- The replayed shadow becomes the live book.
unfoldable pub swap_in : BookConfig → Book → Seq → Cell → Cell
swap_in cfg book seq c = record {
  slot = record c.slot { book = book; seq = seq; was_exhausted = depth_exhausted cfg book };
  stats = record c.stats { depth_refreshes = c.stats.depth_refreshes + 1 };
}

-- The end of `finishRefresh`, given the replayed shadow.
unfoldable pub settle : BookConfig → ℕ → Replay → Cell → Cell × SnapshotOutcome
unfolding swap_in
settle cfg last_update_id r c =
    if r.failed
    then (
      record c { stats = record c.stats { refresh_failures = c.stats.refresh_failures + 1 } },
      refresh_failed,
    )
    else if r.seq.need_bridge && (last_update_id == c.slot.seq.last_id)
    then (swap_in cfg r.book c.slot.seq c, refreshed)
    else if r.seq.need_bridge
    then (
      record c {
        slot = record c.slot { shadow = record { book = r.book; seq = r.seq; pending = true } };
      },
      refresh_awaiting_bridge,
    )
    else (swap_in cfg r.book r.seq c, refreshed)

unfoldable pub finish_refresh :
    BookConfig → ℕ → List PriceLevel → List PriceLevel → Cell → Cell × SnapshotOutcome
unfolding replay settle
finish_refresh cfg last_update_id bids asks c =
    let shadow : Replay = record {
      book = load_book cfg bids asks;
      seq = seq_of_snapshot last_update_id;
      failed = false;
    } in
    settle cfg last_update_id (replay cfg c.slot.delta_buffer shadow)
      (record c { slot = record c.slot { refresh_pending = false; delta_buffer = [] } })

-- The loop of `onSnapshot`: the buffered deltas go through `applyDelta` until one is refused.
unfoldable pub apply_all : BookConfig → List BufferedDelta → Cell → Cell × Bool
apply_all cfg [] c = (c, true)
apply_all cfg (d ∷ ds) c =
    let (c', ok) = apply_delta cfg d c in
    let rest = apply_all cfg ds c' in if ok then rest else (c', false)

-- The initial sync of `onSnapshot`.
unfoldable pub first_sync :
    BookConfig → ℕ → List PriceLevel → List PriceLevel → Cell → Cell × SnapshotOutcome
unfolding apply_all
first_sync cfg last_update_id bids asks c =
    let (c', ok) =
      apply_all cfg c.slot.delta_buffer
        (record c { slot = apply_snapshot cfg last_update_id bids asks c.slot }) in
    (
      record c' { slot = record c'.slot { delta_buffer = [] } },
      if not ok
          then sync_failed
          else if is_valid_state c'.slot.state
          then synced
          else awaiting_bridge,
    )

unfoldable pub on_snapshot :
    BookConfig → ℕ → List PriceLevel → List PriceLevel → Cell → Cell × SnapshotOutcome
unfolding finish_refresh first_sync
on_snapshot cfg last_update_id bids asks c =
    let answered = record c { slot = record c.slot { snapshot_requested = false } } in
    if is_valid_state c.slot.state && c.slot.refresh_pending
    then finish_refresh cfg last_update_id bids asks answered
    else let idle = record c {
      slot = record c.slot { snapshot_requested = false; refresh_pending = false };
    } in
      if not (is_init c.slot.state)
      then (idle, ignored)
      else first_sync cfg last_update_id bids asks idle
