-- ===== src/Book/Snapshot/Outcome.antt =====
-- What the outcome that onSnapshot returns says of the book.
use t2s.Base.{ℕ, ◌+◌, ◌≡◌, Bool, true, false, ◌&&◌, List, [], if◌then◌else◌, ◌==◌}
use t2s.Book.Types.{
  BookConfig, PriceLevel, SnapshotOutcome, init, syncing, valid, invalid, synced, awaiting_bridge,
  sync_failed, refreshed, refresh_awaiting_bridge, refresh_failed, ignored,
}
use t2s.Book.Slot.{Cell, Slot, depth_exhausted, is_init, is_valid_state}
use t2s.Book.Apply.{load_book, seq_of_snapshot}
use t2s.Book.Apply.Invariant.{has_book}
use t2s.Book.Snapshot.{Replay, replay}

-- The live book and its bookkeeping are untouched.
abbrev pub SameBook : Slot → Slot → Type 0
SameBook s t = (t.book ≡ s.book) × (t.seq ≡ s.seq) × (t.state ≡ s.state)

-- The snapshot as a book beside the live one, with the buffered deltas played onto it.
abbrev pub shadow_of : BookConfig → ℕ → List PriceLevel → List PriceLevel → Cell → Replay
shadow_of cfg id bids asks c =
    replay cfg c.slot.delta_buffer
      (record { book = load_book cfg bids asks; seq = seq_of_snapshot id; failed = false })

-- No request is out any more, and no delta waits.
abbrev pub IsAnswered : Slot → Type 0
IsAnswered s = (s.snapshot_requested ≡ false) × (s.refresh_pending ≡ false) × (s.delta_buffer ≡ [])

-- The refresh is done: the live book is the new one, at its place in the stream, or at the live book's if
-- the new one still waits for its bridge and both are at the same update id.
abbrev pub IsSwapped : BookConfig → ℕ → Replay → Slot → Slot → Type 0
IsSwapped cfg id r s t =
    (r.failed ≡ false)
    × (t.book ≡ r.book)
    × (t.seq ≡ (if r.seq.need_bridge then s.seq else r.seq))
    × (r.seq.need_bridge ≡ true → id ≡ s.seq.last_id)
    × (t.was_exhausted ≡ depth_exhausted cfg r.book)
    × (t.shadow ≡ s.shadow)

-- The new book is held beside the live one, since it waits for its bridge and is at another update id.
abbrev pub IsHeld : ℕ → Replay → Slot → Slot → Type 0
IsHeld id r s t =
    (r.failed ≡ false)
    × (r.seq.need_bridge ≡ true)
    × ((id == s.seq.last_id) ≡ false)
    × (t.shadow ≡ record { book = r.book; seq = r.seq; pending = true })

-- What each outcome promises, of the cell before and after; `r` is the snapshot's shadow_of.
abbrev pub Tells : BookConfig → ℕ → Replay → SnapshotOutcome → Cell → Cell → Type 0
Tells cfg id r synced c e =
    (c.slot.state ≡ init) × (e.slot.state ≡ valid) × (e.slot.delta_buffer ≡ [])
Tells cfg id r awaiting_bridge c e =
    (c.slot.state ≡ init) × (e.slot.state ≡ syncing) × (e.slot.delta_buffer ≡ [])
Tells cfg id r sync_failed c e =
    (c.slot.state ≡ init) × (e.slot.state ≡ invalid) × (e.slot.delta_buffer ≡ [])
Tells cfg id r refreshed c e =
    (c.slot.state ≡ valid)
    × (c.slot.refresh_pending ≡ true)
    × (e.slot.state ≡ valid)
    × IsSwapped cfg id r c.slot e.slot
    × IsAnswered e.slot
    × (e.stats.depth_refreshes ≡ c.stats.depth_refreshes + 1)
    × (e.stats.refresh_failures ≡ c.stats.refresh_failures)
Tells cfg id r refresh_awaiting_bridge c e =
    (c.slot.state ≡ valid)
    × (c.slot.refresh_pending ≡ true)
    × SameBook c.slot e.slot
    × IsHeld id r c.slot e.slot
    × IsAnswered e.slot
    × (e.stats ≡ c.stats)
Tells cfg id r refresh_failed c e =
    (c.slot.state ≡ valid)
    × (c.slot.refresh_pending ≡ true)
    × SameBook c.slot e.slot
    × (r.failed ≡ true)
    × (e.slot.shadow ≡ c.slot.shadow)
    × IsAnswered e.slot
    × (e.stats.refresh_failures ≡ c.stats.refresh_failures + 1)
    × (e.stats.depth_refreshes ≡ c.stats.depth_refreshes)
Tells cfg id r ignored c e =
    (is_init c.slot.state ≡ false)
    × ((is_valid_state c.slot.state && c.slot.refresh_pending) ≡ false)
    × SameBook c.slot e.slot
    × (e.slot.shadow ≡ c.slot.shadow)
    × (e.slot.delta_buffer ≡ c.slot.delta_buffer)
    × (e.stats ≡ c.stats)

abbrev TellsOf : BookConfig → ℕ → Replay → Cell → Cell × SnapshotOutcome → Type 0
TellsOf cfg id r c o = Tells cfg id r o.1 c o.0

-- The cell once a refresh has its answer.
abbrev answered : Cell → Cell
answered c = record c {
  slot = record c.slot { snapshot_requested = false; refresh_pending = false; delta_buffer = [] };
}

-- While the result is true the symbol has a book, and otherwise it is INVALID.
abbrev IsSettled : Cell × Bool → Type 0
IsSettled r =
    (r.1 ≡ true → has_book r.0.slot.state ≡ true) × (r.1 ≡ false → r.0.slot.state ≡ invalid)
