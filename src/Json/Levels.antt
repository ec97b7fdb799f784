-- ===== src/Json/Levels.antt =====
-- cpp/include/json_reader.hpp: the levels that are read from a side's array.
use t2s.Base.{String, true, false, none, some, List, [], ◌∷◌, ◌≡◌, refl, ap}
use t2s.Book.Double.{Double, IsNumber}
use t2s.Book.Types.{PriceLevel}
use t2s.Book.Side.Levels.{HasNumbers}
use t2s.Json.{Json, Items, text, array, nil, cons, Strtod, parse_level_pair, parse_levels}

-- `render` writes numbers as the exchange does, and strtod reads all of what it writes, exactly.
abbrev pub ReadsBack : (String → Strtod) → (Double → String) → Type 0
ReadsBack strtod render =
    (d : Double)
    → IsNumber d
    → strtod (render d) ≡ record { value = d; converted = true; range_error = false; whole = true }

abbrev pub level_json : (Double → String) → PriceLevel → Json
level_json render l = array (cons (text (render l.price)) (cons (text (render l.qty)) nil))

-- The array holds the levels in order, among elements that are no pair of numbers.
pub data Renders (strtod : String → Strtod) (render : Double → String)
    : List PriceLevel → Items → Type 0 where
  done : Renders strtod render [] nil
  level :
      {ls : List PriceLevel} {xs : Items} (l : PriceLevel)
      → HasNumbers l
      → Renders strtod render ls xs
      → Renders strtod render (l ∷ ls) (cons (level_json render l) xs)
  malformed :
      {ls : List PriceLevel} {xs : Items} (v : Json)
      → parse_level_pair strtod v ≡ none
      → Renders strtod render ls xs
      → Renders strtod render ls (cons v xs)

module _ (strtod : String → Strtod) (render : Double → String)
    (back : ReadsBack strtod render) where
  parse_level_pair-level_json :
      (l : PriceLevel) → HasNumbers l → parse_level_pair strtod (level_json render l) ≡ some l
  unfolding parse_level_pair
  parse_level_pair-level_json l n = rw (back l.price n.0, back l.qty n.1) refl

  pub parse_levels-Renders :
      {ls : List PriceLevel} {xs : Items}
      → Renders strtod render ls xs
      → parse_levels strtod xs ≡ ls
  unfolding parse_levels
  parse_levels-Renders done = refl
  parse_levels-Renders (level {xs = xs} l n r) =
      rw (parse_level_pair-level_json l n, parse_levels)
        (ap (λ ls. l ∷ ls) (parse_levels-Renders r))
  parse_levels-Renders (malformed v e r) = rw (e, parse_levels) (parse_levels-Renders r)
