-- ===== src/Book/Lifecycle.antt =====
-- The life of one symbol's book as its handler drives it, and the states that it can reach.
use t2s.Base.{ℕ, ◌<◌, Bool, false, not, List, [], arith, All, length, ◌≤◌, if_cases}
use t2s.Book.Types.{BookConfig, BookQuote, BufferedDelta, PriceLevel, max_delta_buffer_size}
use t2s.Book.Slot.{
  Slot, Cell, no_stats, new_slot, set_snapshot_requested, begin_refresh, cancel_refresh, reset,
}
use t2s.Book.Apply.{buffer_delta, apply_delta}
use t2s.Book.Apply.Exact.{History, IsFaithful, IsDepthReply}
use t2s.Book.Apply.Invariant.{IsCoherent, buffer_delta-IsCoherent, apply_delta-IsCoherent}
use t2s.Book.Snapshot.{on_snapshot}
use t2s.Book.Snapshot.Invariant.{on_snapshot-IsCoherent}
use t2s.Book.Publish.{record_publish}

-- What may happen to a symbol: the exchange chooses the events and the replies, the handler the rest.
pub data Step (cfg : BookConfig) (h : History) : Cell → Cell → Type 0 where
  buffers :
      (d : BufferedDelta) (c : Cell) → IsFaithful cfg.sync h d → Step cfg h c (buffer_delta d c).0
  applies :
      (d : BufferedDelta) (c : Cell)
      → IsFaithful cfg.sync h d
      → Step cfg h c (apply_delta cfg d c).0
  answers :
      (id : ℕ) (bids asks : List PriceLevel) (c : Cell)
      → IsDepthReply cfg h id bids asks
      → Step cfg h c (on_snapshot cfg id bids asks c).0
  requests :
      (val : Bool) (c : Cell) → Step cfg h c (record c { slot = set_snapshot_requested val c.slot })
  refreshes : (c : Cell) → Step cfg h c (record c { slot = begin_refresh c.slot })
  cancels : (c : Cell) → Step cfg h c (cancel_refresh c)
  publishes :
      (now : ℕ) (q : BookQuote) (c : Cell)
      → Step cfg h c (record c { slot = record_publish now q c.slot })
  resets : (c : Cell) → Step cfg h c (record c { slot = reset c.slot })

pub data Reach (cfg : BookConfig) (h : History) (start : Cell) : Cell → Type 0 where
  here : Reach cfg h start start
  next : {c e : Cell} → Reach cfg h start c → Step cfg h c e → Reach cfg h start e

-- The manager as constructed.
abbrev pub fresh_cell : ℕ → Cell
fresh_cell now = record { slot = new_slot now; stats = no_stats }

module _ (cfg : BookConfig) (h : History) where
  pub fresh-IsCoherent : (now : ℕ) → IsCoherent cfg h (new_slot now)
  fresh-IsCoherent now = record {
    live = λ w. cc;
    waiting = λ w. cc;
    bridged = λ w. cc;
    held = λ w. cc;
    held_waiting = λ w. cc;
    held_late = λ w. cc;
    buffered = tt;
    room = omega arith;
  }

  reset-IsCoherent : (s : Slot) → IsCoherent cfg h (reset s)
  unfolding reset
  reset-IsCoherent s = record {
    live = λ w. cc;
    waiting = λ w. cc;
    bridged = λ w. cc;
    held = λ w. cc;
    held_waiting = λ w. cc;
    held_late = λ w. cc;
    buffered = tt;
    room = omega arith;
  }

  -- The invariant speaks of five fields of the slot only.
  same_core-IsCoherent :
      (s t : Slot) (ds : List BufferedDelta)
      → All (IsFaithful cfg.sync h) ds
      → length ds ≤ max_delta_buffer_size
      → IsCoherent cfg h s
      → IsCoherent cfg h (record t {
        book = s.book;
        seq = s.seq;
        state = s.state;
        shadow = s.shadow;
        delta_buffer = ds;
      })
  same_core-IsCoherent s t ds f l i = record {
    live = i.live;
    waiting = i.waiting;
    bridged = i.bridged;
    held = i.held;
    held_waiting = i.held_waiting;
    held_late = i.held_late;
    buffered = f;
    room = l;
  }

  cancel_refresh-IsCoherent :
      (c : Cell) → IsCoherent cfg h c.slot → IsCoherent cfg h (cancel_refresh c).slot
  unfolding cancel_refresh
  cancel_refresh-IsCoherent c i =
      if_cases (λ (r : Cell). IsCoherent cfg h r.slot) (not c.slot.refresh_pending) c _ (λ _. i)
        (λ _.
          same_core-IsCoherent c.slot
            (record c.slot { refresh_pending = false; snapshot_requested = false }) [] tt
            (omega arith) i)

  -- Every operation on a symbol's book, applied to the exchange's own events and snapshots (a
  -- hypothesis of Step) with a snapshot limit and a cap on levels above 0, keeps the slot coherent:
  -- the live book and a pending shadow are well formed and exact at the update ids they claim, the
  -- bridging flag agrees with the state, and the buffer holds events of the stream within its cap.
  pub Step-IsCoherent :
      {c e : Cell}
      → 0 < cfg.snapshot_limit
      → 0 < cfg.max_levels
      → Step cfg h c e
      → IsCoherent cfg h c.slot
      → IsCoherent cfg h e.slot
  unfolding set_snapshot_requested begin_refresh record_publish
  Step-IsCoherent pos cap (buffers d c f) i = buffer_delta-IsCoherent cfg h d c f i
  Step-IsCoherent pos cap (applies d c f) i = apply_delta-IsCoherent cfg h d c cap f i
  Step-IsCoherent pos cap (answers id bids asks c r) i =
      on_snapshot-IsCoherent cfg h id bids asks pos cap r c i
  Step-IsCoherent pos cap (requests val c) i =
      same_core-IsCoherent c.slot (set_snapshot_requested val c.slot) c.slot.delta_buffer i.buffered
        i.room i
  Step-IsCoherent pos cap (refreshes c) i =
      same_core-IsCoherent c.slot (begin_refresh c.slot) [] tt (omega arith) i
  Step-IsCoherent pos cap (cancels c) i = cancel_refresh-IsCoherent c i
  Step-IsCoherent pos cap (publishes now q c) i =
      same_core-IsCoherent c.slot (record_publish now q c.slot) c.slot.delta_buffer i.buffered
        i.room i
  Step-IsCoherent pos cap (resets c) i = reset-IsCoherent c.slot

  pub Reach-IsCoherent :
      {now : ℕ} {c : Cell}
      → 0 < cfg.snapshot_limit
      → 0 < cfg.max_levels
      → Reach cfg h (fresh_cell now) c
      → IsCoherent cfg h c.slot
  Reach-IsCoherent {now} pos cap here = fresh-IsCoherent now
  Reach-IsCoherent pos cap (next r s) = Step-IsCoherent pos cap s (Reach-IsCoherent pos cap r)
