-- ===== src/Base/Ranges.antt =====
-- Runs of consecutive numbers.
use Prim.Native.Nat.{ℕ, zero, suc, ◌+◌}
use mathlib.Core.Path.{◌≡◌, refl, ap}
use mathlib.Core.List.{List, [], ◌∷◌, ◌++◌}
use native.Mathlib.Omega.{arith}

-- a, a + 1, … (n numbers)
abbrev pub range : ℕ → ℕ → List ℕ
range a zero = []
range a (suc n) = a ∷ range (suc a) n

pub range-++ : (a m n : ℕ) → range a (m + n) ≡ range a m ++ range (a + m) n
range-++ a zero n =
    let e : a + 0 ≡ a = omega arith in let f : 0 + n ≡ n = omega arith in rw (e, f) refl
range-++ a (suc m) n =
    let e : a + suc m ≡ suc a + m = omega arith in
    let f : suc m + n ≡ suc (m + n) = omega arith in
    rw (e, f) (ap (λ xs. a ∷ xs) (range-++ (suc a) m n))
