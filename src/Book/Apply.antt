-- ===== src/Book/Apply.antt =====
-- cpp/include/order_book_manager.hpp: the delta buffer, applySnapshot and applyDelta.
pub mod Exact
pub mod Invariant
pub mod States
use t2s.Base.{
  ℕ, suc, ◌+◌, Bool, true, false, not, ◌&&◌, ◌||◌, List, [], ◌∷◌, ◌++◌, length, ltb, if◌then◌else◌,
}
use t2s.Book.Types.{BookConfig, BufferedDelta, PriceLevel, valid, syncing, max_delta_buffer_size}
use t2s.Book.Side.{Side, load, update}
use t2s.Book.Sequence.{Seq, Verdict, skip, apply, fail, check_sequence, at_event}
use t2s.Book.Slot.{
  Book, Slot, Cell, Shadow, no_shadow, depth_exhausted, invalidate, is_valid_state, is_syncing,
}

-- buf.pop_front()
unfoldable pub pop_front : List BufferedDelta → List BufferedDelta
pop_front [] = []
pop_front (d ∷ ds) = ds

-- False if the buffer overflowed and its oldest delta was dropped.
unfoldable pub buffer_delta : BufferedDelta → Cell → Cell × Bool
unfolding pop_front
buffer_delta d c =
    let buf = c.slot.delta_buffer ++ d ∷ [] in
    if ltb max_delta_buffer_size (length buf)
    then (
      record {
        slot = record c.slot { delta_buffer = pop_front buf };
        stats = record c.stats { buffer_overflows = c.stats.buffer_overflows + 1 };
      },
      false,
    )
    else (record c { slot = record c.slot { delta_buffer = buf } }, true)

-- The loop over one side's updates.
unfoldable pub update_all : Bool → ℕ → List PriceLevel → Side → Side
update_all is_bid max_levels [] s = s
update_all is_bid max_levels (u ∷ us) s =
    update_all is_bid max_levels us (update is_bid u max_levels s)

unfoldable pub apply_levels : BookConfig → BufferedDelta → Book → Book
apply_levels cfg d b = record {
  bid = update_all true cfg.max_levels d.bids b.bid;
  ask = update_all false cfg.max_levels d.asks b.ask;
}

-- The book of a snapshot.
unfoldable pub load_book : BookConfig → List PriceLevel → List PriceLevel → Book
load_book cfg bids asks = record {
  bid = load true bids cfg.snapshot_limit cfg.max_levels;
  ask = load false asks cfg.snapshot_limit cfg.max_levels;
}

-- Seq{true, lastUpdateId, lastUpdateId}
abbrev pub seq_of_snapshot : ℕ → Seq
seq_of_snapshot id = record { need_bridge = true; snapshot_id = id; last_id = id }

unfoldable pub apply_snapshot : BookConfig → ℕ → List PriceLevel → List PriceLevel → Slot → Slot
apply_snapshot cfg last_update_id bids asks s = record s {
  book = load_book cfg bids asks;
  seq = seq_of_snapshot last_update_id;
  state = syncing;
  was_exhausted = false;
}

-- The block of `applyDelta` for the verdict APPLY; `seq` is the bookkeeping after the check.
unfoldable pub apply_live : BookConfig → BufferedDelta → Seq → Cell → Cell
apply_live cfg d seq c =
    let s = c.slot in
    let book = apply_levels cfg d s.book in
    let exhausted = depth_exhausted cfg book in
    record {
      slot = record s {
        book = book;
        seq = at_event seq d;
        range_first_u = if s.range_closed then d.first_update_id else s.range_first_u;
        range_prev_u = if s.range_closed then d.prev_final_update_id else s.range_prev_u;
        range_closed = false;
        exch_event_time_ms = d.event_time_ms;
        exch_transact_time_ms = d.transact_time_ms;
        state = valid;
        was_exhausted = exhausted;
      };
      stats = record c.stats {
        depth_exhausted_events =
            if exhausted && not s.was_exhausted
            then c.stats.depth_exhausted_events + 1
            else c.stats.depth_exhausted_events;
      };
    }

-- A refresh is in flight: keep a copy for the shadow book.
unfoldable pub keep_copy : BufferedDelta → Cell → Cell
unfolding buffer_delta
keep_copy d c = if c.slot.refresh_pending then (buffer_delta d c).0 else c

-- The pending shadow, given the verdict on the event.
unfoldable pub shadow_step : BookConfig → BufferedDelta → Verdict × Seq → Cell → Cell
shadow_step cfg d (skip, seq) c = c
shadow_step cfg d (fail, seq) c = record {
  slot = record c.slot { shadow = no_shadow };
  stats = record c.stats { refresh_failures = c.stats.refresh_failures + 1 };
}
shadow_step cfg d (apply, seq) c =
    let book = apply_levels cfg d c.slot.shadow.book in
    record {
      slot = record c.slot {
        book = book;
        seq = at_event seq d;
        shadow = no_shadow;
        was_exhausted = depth_exhausted cfg book;
      };
      stats = record c.stats { depth_refreshes = c.stats.depth_refreshes + 1 };
    }

-- A refresh snapshot ahead of the stream is waiting for its bridging event.
unfoldable pub advance_shadow : BookConfig → BufferedDelta → Cell → Cell
unfolding shadow_step
advance_shadow cfg d c =
    if c.slot.shadow.pending
    then shadow_step cfg d (check_sequence cfg.sync c.slot.shadow.seq d) c
    else c

-- What follows the check of the live book's sequence.
unfoldable pub after_check : BookConfig → BufferedDelta → Verdict × Seq → Cell → Cell × Bool
unfolding apply_live keep_copy advance_shadow
after_check cfg d (fail, seq) c = (record c { slot = invalidate c.slot }, false)
after_check cfg d (skip, seq) c = (advance_shadow cfg d (keep_copy d c), true)
after_check cfg d (apply, seq) c =
    (advance_shadow cfg d (keep_copy d (apply_live cfg d seq c)), true)

-- True if the delta was applied or skipped as stale, false on a sequence gap.
unfoldable pub apply_delta : BookConfig → BufferedDelta → Cell → Cell × Bool
unfolding after_check
apply_delta cfg d c =
    if is_syncing c.slot.state || is_valid_state c.slot.state
    then after_check cfg d (check_sequence cfg.sync c.slot.seq d) c
    else (c, false)
