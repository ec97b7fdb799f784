-- ===== src/Book/Manager.antt =====
-- cpp/include/order_book_manager.hpp: OrderBookManager over all its symbols.
pub mod Frame
use t2s.Base.{
  ℕ, zero, suc, ◌+◌, Bool, true, false, Option, none, some, String, List, [], ◌∷◌, map, get_elem?,
  set, str_eq, if◌then◌else◌,
}
use t2s.Book.Types.{BookConfig}
use t2s.Book.Slot.{Slot, Stats, Cell, no_stats, new_slot, capped, reset}
use t2s.Book.Publish.{timeout_publish_needed}

pub record Manager : Type 0 where
  pub cfg : BookConfig
  pub sym_to_idx : List (String × ℕ)
  pub idx_to_sym : List String
  pub slots : List Slot
  pub stats : Stats

-- The loop that numbers the symbols from `i`; a later entry for a name replaces an earlier one, so
-- the newest stands first.
unfoldable pub number_symbols : ℕ → List String → List (String × ℕ) → List (String × ℕ)
number_symbols i [] m = m
number_symbols i (s ∷ ss) m = number_symbols (suc i) ss ((s, i) ∷ m)

unfoldable pub new_manager : List String → BookConfig → ℕ → Manager
unfolding number_symbols capped
new_manager symbols cfg now = record {
  cfg = capped cfg;
  sym_to_idx = number_symbols 0 symbols [];
  idx_to_sym = symbols;
  slots = map (λ _. new_slot now) symbols;
  stats = no_stats;
}

unfoldable pub find_index : String → List (String × ℕ) → Option ℕ
find_index sym [] = none
find_index sym ((s, i) ∷ m) = if str_eq s sym then some i else find_index sym m

-- `none` is -1.
unfoldable pub get_symbol_index : String → Manager → Option ℕ
unfolding find_index
get_symbol_index sym m = find_index sym m.sym_to_idx

-- The method, given the slot at the index.
unfoldable pub enter {ℓ} :
    {R : Type ℓ} → ℕ → (Cell → Cell × R) → Manager → Option Slot → Option (Manager × R)
enter idx f m none = none
enter idx f m (some s) =
    let (c, r) = f (record { slot = s; stats = m.stats }) in
    some (record m { slots = set m.slots idx c.slot; stats = c.stats }, r)

-- A method on one symbol. The source does not check the index; `none` is an index out of range.
unfoldable pub at_symbol {ℓ} : {R : Type ℓ} → ℕ → (Cell → Cell × R) → Manager → Option (Manager × R)
unfolding enter
at_symbol idx f m = enter idx f m (get_elem? m.slots idx)

unfoldable pub reset_all : Manager → Manager
reset_all m = record m { slots = map reset m.slots }

-- The loop of getTimeoutPublishNeeded from index `i`.
unfoldable pub timed_out_from : ℕ → ℕ → List Slot → List ℕ
timed_out_from now i [] = []
timed_out_from now i (s ∷ ss) =
    let rest = timed_out_from now (suc i) ss in
    if timeout_publish_needed now s then i ∷ rest else rest

unfoldable pub get_timeout_publish_needed : ℕ → Manager → List ℕ
unfolding timed_out_from
get_timeout_publish_needed now m = timed_out_from now 0 m.slots
