-- ===== src/Book/Slot.antt =====
-- cpp/include/order_book_manager.hpp: what OrderBookManager keeps for one symbol, and the questions
-- that its callers ask. The source keeps a vector per field, indexed by symbol; `Slot` is one index
-- of all of them, and `Stats` the counters that the symbols share.
use t2s.Base.{
  ℕ, ◌/◌, ◌+◌, Bool, true, false, not, ◌&&◌, ◌||◌, Option, some, List, [], length, ltb,
  if◌then◌else◌,
}
use t2s.Book.Types.{
  BookConfig, BookQuote, BufferedDelta, BookState, init, syncing, valid, invalid, empty_quote,
  default_book_depth,
}
use t2s.Book.Side.{Side, empty_side, below}
use t2s.Book.Sequence.{Seq, new_seq}

pub record Book : Type 0 where
  pub bid : Side
  pub ask : Side

abbrev pub empty_book : Book
empty_book = record { bid = empty_side; ask = empty_side }

-- A refresh snapshot waiting for its bridging event.
pub record Shadow : Type 0 where
  pub book : Book
  pub seq : Seq
  pub pending : Bool

abbrev pub no_shadow : Shadow
no_shadow = record { book = empty_book; seq = new_seq; pending = false }

pub record Slot : Type 0 where
  pub book : Book
  pub seq : Seq
  pub state : BookState
  pub exch_event_time_ms : ℕ
  pub exch_transact_time_ms : ℕ
  -- oldest first
  pub delta_buffer : List BufferedDelta
  pub snapshot_requested : Bool
  pub refresh_pending : Bool
  pub was_exhausted : Bool
  pub shadow : Shadow
  pub range_first_u : ℕ
  pub range_prev_u : Option ℕ
  pub range_closed : Bool
  pub last_published : BookQuote
  pub last_publish_time : ℕ
  pub has_published : Bool

pub record Stats : Type 0 where
  pub buffer_overflows : ℕ
  pub depth_refreshes : ℕ
  pub refresh_failures : ℕ
  pub depth_exhausted_events : ℕ

abbrev pub no_stats : Stats
no_stats = record {
  buffer_overflows = 0;
  depth_refreshes = 0;
  refresh_failures = 0;
  depth_exhausted_events = 0;
}

-- One symbol of the manager, with the shared counters.
pub record Cell : Type 0 where
  pub slot : Slot
  pub stats : Stats

-- The constructor of the manager, for one symbol; `now` is the steady clock.
abbrev pub new_slot : ℕ → Slot
new_slot now = record {
  book = empty_book;
  seq = new_seq;
  state = init;
  exch_event_time_ms = 0;
  exch_transact_time_ms = 0;
  delta_buffer = [];
  snapshot_requested = false;
  refresh_pending = false;
  was_exhausted = false;
  shadow = no_shadow;
  range_first_u = 0;
  range_prev_u = some 0;
  range_closed = true;
  last_published = empty_quote default_book_depth;
  last_publish_time = now;
  has_published = false;
}

-- The constructor caps the refresh mark at half the snapshot limit.
unfoldable pub capped : BookConfig → BookConfig
capped cfg =
    if ltb (cfg.snapshot_limit / 2) cfg.refresh_low_water
    then record cfg { refresh_low_water = cfg.snapshot_limit / 2 }
    else cfg

abbrev pub is_init : BookState → Bool
is_init init = true
is_init syncing = false
is_init valid = false
is_init invalid = false

abbrev pub is_syncing : BookState → Bool
is_syncing init = false
is_syncing syncing = true
is_syncing valid = false
is_syncing invalid = false

abbrev pub is_valid_state : BookState → Bool
is_valid_state init = false
is_valid_state syncing = false
is_valid_state valid = true
is_valid_state invalid = false

-- isValid(idx)
abbrev pub is_valid : Slot → Bool
is_valid s = is_valid_state s.state

unfoldable pub needs_snapshot : Slot → Bool
needs_snapshot s = is_init s.state && not s.snapshot_requested

unfoldable pub set_snapshot_requested : Bool → Slot → Slot
set_snapshot_requested val s = record s { snapshot_requested = val }

unfoldable pub known_levels : Bool → Slot → ℕ
known_levels is_bid s = length (if is_bid then s.book.bid else s.book.ask).levels

unfoldable pub has_horizon : Bool → Slot → Bool
has_horizon is_bid s = (if is_bid then s.book.bid else s.book.ask).bounded

-- A side has fewer known levels than the published depth while the exchange may have more.
unfoldable pub depth_exhausted : BookConfig → Book → Bool
depth_exhausted cfg b = below b.bid cfg.depth || below b.ask cfg.depth

unfoldable pub wants_refresh : BookConfig → Slot → Bool
wants_refresh cfg s =
    is_valid_state s.state
    && not s.refresh_pending
    && not s.shadow.pending
    && (below s.book.bid cfg.refresh_low_water || below s.book.ask cfg.refresh_low_water)

unfoldable pub begin_refresh : Slot → Slot
begin_refresh s = record s { refresh_pending = true; snapshot_requested = true; delta_buffer = [] }

unfoldable pub cancel_refresh : Cell → Cell
cancel_refresh c = if not c.slot.refresh_pending then c else record {
  slot = record c.slot { refresh_pending = false; snapshot_requested = false; delta_buffer = [] };
  stats = record c.stats { refresh_failures = c.stats.refresh_failures + 1 };
}

-- refreshPending(idx)
unfoldable pub refresh_in_flight : Slot → Bool
refresh_in_flight s = s.refresh_pending || s.shadow.pending

unfoldable pub reset : Slot → Slot
reset s = record s {
  book = empty_book;
  state = init;
  seq = new_seq;
  exch_event_time_ms = 0;
  exch_transact_time_ms = 0;
  delta_buffer = [];
  snapshot_requested = false;
  refresh_pending = false;
  was_exhausted = false;
  shadow = no_shadow;
  range_first_u = 0;
  range_prev_u = some 0;
  range_closed = true;
}

abbrev pub invalidate : Slot → Slot
invalidate s = record s { state = invalid }
