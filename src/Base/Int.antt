-- ===== src/Base/Int.antt =====
-- Signed integers over the native numbers (C++ `long long` where a value may be negative).
use Prim.Native.Nat.{ℕ, suc, ◌+◌, ◌-◌, ◌/◌}
use mathlib.Core.Path.{◌≡◌}
use mathlib.Core.Bool.{Bool}
use native.Mathlib.Omega.{arith}
use t2s.Base.Tests.{ltb, leb, if◌then◌else◌, if_cases}

-- `negsuc n` is -(n + 1).
pub data ℤ : Type 0 where
  pos : ℕ → ℤ
  negsuc : ℕ → ℤ

abbrev pub pos_part : ℤ → ℕ
pos_part (pos n) = n
pos_part (negsuc n) = 0

abbrev pub neg_part : ℤ → ℕ
neg_part (pos n) = 0
neg_part (negsuc n) = suc n

-- a - b, as an integer.
abbrev pub sub_ℕ : ℕ → ℕ → ℤ
sub_ℕ a b = if leb b a then pos (a - b) else negsuc (b - a - 1)

abbrev pub ltb_ℤ : ℤ → ℤ → Bool
ltb_ℤ a b = ltb (pos_part a + neg_part b) (pos_part b + neg_part a)

abbrev pub leb_ℤ : ℤ → ℤ → Bool
leb_ℤ a b = leb (pos_part a + neg_part b) (pos_part b + neg_part a)

-- C++ division truncates towards zero.
abbrev pub div_trunc : ℤ → ℕ → ℤ
div_trunc (pos n) d = pos (n / d)
div_trunc (negsuc n) d = sub_ℕ 0 (suc n / d)

-- A test of a difference against a natural number, as a test on the numbers.
pub ltb_ℤ-sub_ℕ : (t a b : ℕ) → ltb_ℤ (pos t) (sub_ℕ a b) ≡ ltb (b + t) a
ltb_ℤ-sub_ℕ t a b =
    if_cases (λ d. ltb_ℤ (pos t) d ≡ ltb (b + t) a) (leb b a) (pos (a - b)) (negsuc (b - a - 1))
      (λ e. ground arith) (λ e. ground arith)
