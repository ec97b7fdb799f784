-- ===== src/Book/Examples.antt =====
-- Concrete books: a spot book of one published level per side, fed by one snapshot and one event.
use t2s.Base.{
  ℕ, ◌+◌, ◌≡◌, refl, Bool, true, false, some, none, List, [], ◌∷◌, String, arith, if◌then◌else◌,
  ltb, ◌==◌,
}
use mathlib.Core.Path.{fun_ext}
use t2s.Market.{spot, futures}
use t2s.Book.Double.{num, nought, above, nought_place}
use t2s.Book.Types.{BookConfig, BufferedDelta, PriceLevel, syncing}
use t2s.Book.Side.{
  Side, load, loaded, sort, insert_sorted, positive, trim, update, lower_bound, write_at, found,
  erase_front, set_front_qty,
}
use t2s.Book.Side.Load.{load-IsExact}
use t2s.Book.Side.Truth.{Exchange, quoted, moved, IsExact, update-IsExact}
use t2s.Book.Sequence.{check_sequence}
use t2s.Book.Slot.{Slot, Cell, new_slot, depth_exhausted, reset, no_stats}
use t2s.Book.Apply.{
  apply_delta, apply_snapshot, load_book, after_check, apply_live, keep_copy, advance_shadow,
  apply_levels, update_all, shadow_step, buffer_delta,
}
use t2s.Book.Apply.Exact.{History, IsFaithful, IsDepthReply}
use t2s.Book.Snapshot.{on_snapshot, first_sync, apply_all, finish_refresh}
use t2s.Book.Lifecycle.{
  Reach, here, next, answers, applies, fresh_cell, fresh-IsCoherent, Step-IsCoherent,
}
use t2s.Book.Publish.Quote.{IsTopOfBook, published-IsTopOfBook}
use t2s.Book.Apply.Invariant.{IsCoherent, has_book}
use t2s.Book.Apply.States.{state_after, succeeds, apply_delta_states}
use t2s.Book.Sequence.Chain.{
  IsCovered, read, at_snapshot, read_spot-covers, IsLinked, read_futures-IsLinked,
}
use t2s.Book.Side.Invariant.{IsValid}
use t2s.Book.Manager.{Manager, new_manager}
use t2s.Book.Publish.{get_quote, quote_header, quote_is_valid, fill_slots}

abbrev cfg : BookConfig
cfg = record { depth = 1; snapshot_limit = 2; refresh_low_water = 1; max_levels = 10; sync = spot }

-- One bid rests, with the quantity `before` up to update id 100 and `later` from 101 on; no ask ever.
abbrev pub bid_price : ℕ
bid_price = nought_place + 100

abbrev resting : ℕ → Exchange
resting n p = if bid_price == p then (if ltb n 101 then above 5 else above 7) else nought

abbrev pub history : History
history = record { bid = resting; ask = λ n p. nought }

abbrev pub event : BufferedDelta
event = record {
  first_update_id = 101;
  final_update_id = 101;
  event_time_ms = 1;
  bids = record { price = num bid_price; qty = above 7 } ∷ [];
  asks = [];
  prev_final_update_id = none;
  transact_time_ms = 0;
}

abbrev pub snapshot_bids : List PriceLevel
snapshot_bids = record { price = num bid_price; qty = above 5 } ∷ []

moves :
    (n p : ℕ) (t : Bool)
    → (if t then above 7 else (if t then (if ltb n 101 then above 5 else above 7) else nought))
      ≡ (if t then above 7 else nought)
moves n p true = refl
moves n p false = refl

pub event-IsFaithful : IsFaithful spot history event
event-IsFaithful = record {
  bid_numbers = ((tt, tt), tt);
  ask_numbers = tt;
  bid_moves = λ n w. fun_ext (λ p. moves n p (bid_price == p));
  ask_moves = λ n w. refl;
}

seen :
    (p : ℕ) (t : Bool)
    → (if t then some (above 5) else none) ≡ quoted (if t then above 5 else nought)
seen p true = refl
seen p false = refl

pub reply-IsDepthReply : (k : BookConfig) → IsDepthReply k history 100 snapshot_bids []
reply-IsDepthReply k = record {
  bid = record {
    numbers = ((tt, tt), tt);
    rests = (refl, tt);
    distinct = (tt, tt);
    whole = λ e p. seen p (bid_price == p);
    near = λ p r. seen p (bid_price == p);
  };
  ask = record { numbers = tt; rests = tt; distinct = tt; whole = λ e p. refl; near = λ p r. refl };
}

abbrev loaded_cell : Cell
loaded_cell = (on_snapshot cfg 100 snapshot_bids [] (fresh_cell 0)).0

abbrev live_cell : Cell
live_cell = (apply_delta cfg event loaded_cell).0

live_cell-Reach : Reach cfg history (fresh_cell 0) live_cell
live_cell-Reach =
    next (next here (answers 100 snapshot_bids [] (fresh_cell 0) (reply-IsDepthReply cfg)))
      (applies event loaded_cell event-IsFaithful)

live_quote-is_valid : (get_quote cfg "btcusdt" live_cell.slot 1 1).is_valid ≡ true
unfolding on_snapshot first_sync apply_all apply_snapshot load_book load loaded sort insert_sorted
    positive trim finish_refresh apply_delta after_check apply_live keep_copy advance_shadow
    check_sequence apply_levels update_all update lower_bound write_at found erase_front
    set_front_qty get_quote quote_header quote_is_valid depth_exhausted fill_slots shadow_step
    buffer_delta
live_quote-is_valid = refl

published-IsTopOfBook_example : IsTopOfBook history 1 (get_quote cfg "btcusdt" live_cell.slot 1 1)
published-IsTopOfBook_example =
    published-IsTopOfBook "btcusdt" 1 1 (omega arith) (omega arith) live_cell-Reach
      live_quote-is_valid

Step-IsCoherent_example : IsCoherent cfg history loaded_cell.slot
Step-IsCoherent_example =
    Step-IsCoherent cfg history (omega arith) (omega arith)
      (answers 100 snapshot_bids [] (fresh_cell 0) (reply-IsDepthReply cfg))
      (fresh-IsCoherent cfg history 0)

-- A refresh is out for the live book, and an event has come since.
abbrev refreshing : Cell
refreshing = record live_cell {
  slot = record live_cell.slot { refresh_pending = true; delta_buffer = event ∷ [] };
}

apply_delta_states_example :
    let v = (check_sequence spot loaded_cell.slot.seq event).0 in
    (has_book loaded_cell.slot.state ≡ true
      → (live_cell.slot.state ≡ state_after v loaded_cell.slot.state)
        × ((apply_delta cfg event loaded_cell).1 ≡ succeeds v))
    × (has_book loaded_cell.slot.state ≡ false
        → apply_delta cfg event loaded_cell ≡ (loaded_cell, false))
apply_delta_states_example = apply_delta_states cfg event loaded_cell

read_spot-covers_example : IsCovered 101 (read spot (event ∷ []) (at_snapshot 100)).applied
unfolding read check_sequence
read_spot-covers_example = read_spot-covers 100 (event ∷ []) 101 (omega arith) (omega arith)

abbrev futures_event : BufferedDelta
futures_event = record event { prev_final_update_id = some 100 }

read_futures-IsLinked_example :
    IsLinked 100 (read futures (futures_event ∷ []) (at_snapshot 100)).applied
read_futures-IsLinked_example = read_futures-IsLinked 100 (futures_event ∷ [])

-- A bid is all that the snapshot gave.
abbrev syncing_slot : Slot
syncing_slot = record (new_slot 0) {
  state = syncing;
  book = record {
    bid = record { levels = snapshot_bids; bounded = false; horizon = nought };
    ask = (new_slot 0).book.ask;
  };
}

abbrev one_level : Side
one_level = record { levels = snapshot_bids; bounded = false; horizon = nought }

one_level-IsValid : IsValid true 10 one_level
one_level-IsValid = record {
  numbers = ((tt, tt), tt);
  resting = (refl, tt);
  sorted = (tt, tt);
  edge = λ e. cc;
  inside = λ e. cc;
  fits = omega arith;
}

update-IsExact_example :
    IsExact true
      (moved (record { price = num bid_price; qty = above 7 }) (resting 100))
      (update true (record { price = num bid_price; qty = above 7 }) 10 one_level)
update-IsExact_example =
    update-IsExact true (resting 100) (record { price = num bid_price; qty = above 7 }) 10 one_level
      (omega arith) (tt, tt) one_level-IsValid (λ p e. seen p (bid_price == p))

load-IsExact_example : IsExact true (resting 100) (load true snapshot_bids 2 10)
load-IsExact_example =
    load-IsExact true (resting 100) 2 10 snapshot_bids (omega arith) (omega arith)
      (reply-IsDepthReply cfg).bid

abbrev symbols : List String
symbols = "btcusdt" ∷ "ethusdt" ∷ []

abbrev manager : Manager
manager = new_manager symbols cfg 0

-- One symbol's reset leaves the other's slot.
reset_first : Cell → Cell × ℕ
reset_first c = (record c { slot = reset c.slot }, 0)

abbrev two_slots : Manager
two_slots = record {
  cfg = cfg;
  sym_to_idx = ("ethusdt", 1) ∷ ("btcusdt", 0) ∷ [];
  idx_to_sym = symbols;
  slots = new_slot 0 ∷ new_slot 5 ∷ [];
  stats = no_stats;
}

abbrev after_reset : Manager
after_reset = record two_slots { slots = reset (new_slot 0) ∷ new_slot 5 ∷ [] }
