-- ===== src/Book/Side.antt =====
-- cpp/include/order_book_manager.hpp: OrderBookManager::Side, one side of one book.
-- A bid side has `is_bid = true`. Levels run from the worst price to the best.
pub mod Levels
pub mod Splice
pub mod Invariant
pub mod Cases
pub mod Truth
pub mod Load
use t2s.Base.{
  ℕ, ◌-◌, ◌≡◌, Bool, true, false, not, ◌&&◌, ◌||◌, List, [], ◌∷◌, ◌++◌, ltb, leb, if◌then◌else◌,
  length, drop,
}
use t2s.Book.Double.{Double, nought, lt, eq}
use t2s.Book.Types.{PriceLevel}

-- True if price a is strictly better than price b on this side.
abbrev pub better : Bool → Double → Double → Bool
better is_bid a b = if is_bid then lt b a else lt a b

pub record Side : Type 0 where
  pub levels : List PriceLevel
  pub bounded : Bool
  pub horizon : Double

abbrev pub empty_side : Side
empty_side = record { levels = []; bounded = false; horizon = nought }

abbrev pub below : Side → ℕ → Bool
below s n = s.bounded && ltb (length s.levels) n

abbrev pub in_horizon : Bool → Side → Double → Bool
in_horizon is_bid s price = not s.bounded || not (better is_bid s.horizon price)

-- levels.front().price; `trim` and `load` call it on a vector that is not empty.
abbrev pub front_price : List PriceLevel → Double
front_price [] = nought
front_price (l ∷ ls) = l.price

unfoldable pub trim : ℕ → Side → Side
trim max_levels s =
    if leb (length s.levels) max_levels
    then s
    else let kept = drop (length s.levels - max_levels) s.levels in
      record { levels = kept; bounded = true; horizon = front_price kept }

-- The levels with a positive quantity.
unfoldable pub positive : List PriceLevel → List PriceLevel
positive [] = []
positive (l ∷ ls) = if lt nought l.qty then l ∷ positive ls else positive ls

-- std::sort with the comparison `better(isBid, b.price, a.price)`.
unfoldable pub insert_sorted : Bool → PriceLevel → List PriceLevel → List PriceLevel
insert_sorted is_bid u [] = u ∷ []
insert_sorted is_bid u (l ∷ ls) =
    if better is_bid u.price l.price then l ∷ insert_sorted is_bid u ls else u ∷ l ∷ ls

unfoldable pub sort : Bool → List PriceLevel → List PriceLevel
unfolding insert_sorted
sort is_bid [] = []
sort is_bid (l ∷ ls) = insert_sorted is_bid l (sort is_bid ls)

-- `load` before its call of `trim`.
unfoldable pub loaded : Bool → List PriceLevel → ℕ → Side
loaded is_bid snapshot snapshot_limit =
    let levels = sort is_bid (positive snapshot) in
    let truncated = leb snapshot_limit (length snapshot) in
    let some_levels = ltb 0 (length levels) in
    record {
      levels = levels;
      bounded = truncated && some_levels;
      horizon = if truncated && some_levels then front_price levels else nought;
    }

unfoldable pub load : Bool → List PriceLevel → ℕ → ℕ → Side
load is_bid snapshot snapshot_limit max_levels =
    trim max_levels (loaded is_bid snapshot snapshot_limit)

-- std::lower_bound: the vector split at the first level that is not worse than the price.
unfoldable pub lower_bound : Bool → Double → List PriceLevel → List PriceLevel × List PriceLevel
lower_bound is_bid price [] = ([], [])
lower_bound is_bid price (l ∷ ls) =
    let (before, rest) = lower_bound is_bid price ls in
    if better is_bid price l.price then (l ∷ before, rest) else ([], l ∷ ls)

-- it != end && it->price == price
unfoldable pub found : Double → List PriceLevel → Bool
found price [] = false
found price (l ∷ ls) = eq l.price price

-- levels.erase(it)
unfoldable pub erase_front : List PriceLevel → List PriceLevel
erase_front [] = []
erase_front (l ∷ ls) = ls

-- it->qty = qty
unfoldable pub set_front_qty : Double → List PriceLevel → List PriceLevel
set_front_qty qty [] = []
set_front_qty qty (l ∷ ls) = record l { qty = qty } ∷ ls

-- The rest of `update`, at the position that `lower_bound` found.
unfoldable pub write_at : Bool → PriceLevel → ℕ → Side → List PriceLevel → List PriceLevel → Side
unfolding found erase_front set_front_qty
write_at is_bid u max_levels s before rest =
    if eq u.qty nought
    then (if found u.price rest then record s { levels = before ++ erase_front rest } else s)
    else if found u.price rest
    then record s { levels = before ++ set_front_qty u.qty rest }
    else if not (in_horizon is_bid s u.price)
    then s
    else trim max_levels (record s { levels = before ++ u ∷ rest })

-- Binance semantics: the quantity is absolute, and 0 removes the level.
unfoldable pub update : Bool → PriceLevel → ℕ → Side → Side
unfolding lower_bound write_at
update is_bid u max_levels s =
    let (before, rest) = lower_bound is_bid u.price s.levels in
    write_at is_bid u max_levels s before rest
