-- ===== src/Base/Text.antt =====
-- Texts by their characters: ASCII case (C's tolower and toupper in the "C" locale) and joining.
use Prim.Native.Nat.{ℕ, zero, suc, ◌-◌, ◌<◌}
use Prim.Native.Char.{Char, code}
use Prim.Native.String.{String, char_at}
use mathlib.Core.Path.{◌≡◌, refl}
use mathlib.Core.Bool.{Bool, true, false, ◌&&◌, ◌||◌, not}
use native.Mathlib.Omega.{arith}
use t2s.Base.Tests.{leb, ◌==◌, if◌then◌else◌, if_cases}

abbrev pub is_upper : Char → Bool
is_upper c = leb 65 (code c) && leb (code c) 90

abbrev pub is_lower : Char → Bool
is_lower c = leb 97 (code c) && leb (code c) 122

pub lower_char : Char → Char
lower_char c = if is_upper c then char_at "abcdefghijklmnopqrstuvwxyz" (code c - 65) else c

pub upper_char : Char → Char
upper_char c = if is_lower c then char_at "ABCDEFGHIJKLMNOPQRSTUVWXYZ" (code c - 97) else c

unfoldable pub to_lower : String → String
unfolding lower_char
to_lower String.[] = String.[]
to_lower (String.◌∷◌ c s) = String.◌∷◌ (lower_char c) (to_lower s)

unfoldable pub to_upper : String → String
unfolding upper_char
to_upper String.[] = String.[]
to_upper (String.◌∷◌ c s) = String.◌∷◌ (upper_char c) (to_upper s)

unfoldable pub join : String → String → String
join String.[] t = t
join (String.◌∷◌ c s) t = String.◌∷◌ c (join s t)

abbrev pub starts_with : String → String → Bool
starts_with String.[] t = true
starts_with (String.◌∷◌ c s) String.[] = false
starts_with (String.◌∷◌ c s) (String.◌∷◌ d t) = (code c == code d) && starts_with s t

-- find(s) != npos, for a text s that is not empty.
unfoldable pub contains : String → String → Bool
contains s String.[] = false
contains s (String.◌∷◌ d t) = starts_with s (String.◌∷◌ d t) || contains s t

abbrev pub is_empty : String → Bool
is_empty String.[] = true
is_empty (String.◌∷◌ c s) = false

-- std::string from a const char*: what stands before the first NUL.
unfoldable pub c_string : String → String
c_string String.[] = String.[]
c_string (String.◌∷◌ c s) =
    let rest = c_string s in if code c == 0 then String.[] else String.◌∷◌ c rest

abbrev pub starts_with_nul : String → Bool
starts_with_nul String.[] = false
starts_with_nul (String.◌∷◌ c s) = code c == 0

pub c_string-is_empty :
    (s : String) → is_empty s ≡ false → starts_with_nul s ≡ false → is_empty (c_string s) ≡ false
unfolding c_string
c_string-is_empty String.[] e f = e
c_string-is_empty (String.◌∷◌ c s) e f = rw f refl

-- No character is an upper-case letter.
abbrev pub is_lowercase : String → Bool
is_lowercase String.[] = true
is_lowercase (String.◌∷◌ c s) = not (is_upper c) && is_lowercase s

-- The letters up to the given place are in lower case.
letters_low : ℕ → Bool
letters_low zero = true
letters_low (suc k) = letters_low k && not (is_upper (char_at "abcdefghijklmnopqrstuvwxyz" k))

letter_low :
    (n k : ℕ)
    → letters_low n ≡ true
    → k < n
    → not (is_upper (char_at "abcdefghijklmnopqrstuvwxyz" k)) ≡ true
unfolding letters_low
letter_low zero k e k_lt = absurd (omega arith)
letter_low (suc n) k e k_lt = ground (arith, letter_low n k)

letters_low_26 : letters_low 26 ≡ true
unfolding letters_low
letters_low_26 = refl

lower_char-is_upper : (c : Char) → is_upper (lower_char c) ≡ false
unfolding lower_char
lower_char-is_upper c =
    if_cases (λ d. is_upper d ≡ false) (is_upper c)
      (char_at "abcdefghijklmnopqrstuvwxyz" (code c - 65)) c
      (λ e.
        let k : code c - 65 < 26 = ground arith in
        let t = letter_low 26 (code c - 65) letters_low_26 k in
        not_true (is_upper (char_at "abcdefghijklmnopqrstuvwxyz" (code c - 65))) t)
      (λ e. e)
  where
    not_true : (b : Bool) → not b ≡ true → b ≡ false
    not_true true e = cc
    not_true false e = refl

pub to_lower-is_lowercase : (s : String) → is_lowercase (to_lower s) ≡ true
unfolding to_lower
to_lower-is_lowercase String.[] = refl
to_lower-is_lowercase (String.◌∷◌ c s) = rw (lower_char-is_upper c) (to_lower-is_lowercase s)

pub to_lower-is_empty : (s : String) → is_empty (to_lower s) ≡ is_empty s
unfolding to_lower
to_lower-is_empty String.[] = refl
to_lower-is_empty (String.◌∷◌ c s) = refl
