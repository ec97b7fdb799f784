-- ===== src/Book/Double.antt =====
-- C++ `double` as the order book uses it: comparisons and the constant 0.0. A number is held by its
-- place in the IEEE 754 order (the usual map of its bits to an unsigned integer), so the comparisons
-- are exact; 0.0 has the place 2^63, and -0.0 is not told apart from it. NaN compares false.
use t2s.Base.{ℕ, ◌^◌, ◌+◌, Bool, false, ltb, ◌==◌}

pub data Double : Type 0 where
  nan : Double
  num : ℕ → Double

abbrev pub nought_place : ℕ
nought_place = 2 ^ 63

abbrev pub nought : Double
nought = num nought_place

abbrev pub lt : Double → Double → Bool
lt nan y = false
lt (num a) nan = false
lt (num a) (num b) = ltb a b

abbrev pub eq : Double → Double → Bool
eq nan y = false
eq (num a) nan = false
eq (num a) (num b) = a == b

abbrev pub IsNumber : Double → Type 0
IsNumber nan = ⊥
IsNumber (num a) = Unit

-- The n-th number above 0.0, for concrete inputs.
abbrev pub above : ℕ → Double
above n = num (nought_place + n)
