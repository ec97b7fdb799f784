-- ===== src/Config/Names.antt =====
-- cpp/include/config.hpp: the texts among the shared file's symbols.
use t2s.Base.{
  ◌≡◌, refl, ◌∙◌, true, false, Option, none, some, String, is_empty, is_lowercase, to_lower,
  to_lower-is_lowercase, to_lower-is_empty, c_string, starts_with_nul, c_string-is_empty,
}
use t2s.Json.{
  Json, Items, Members, nil, cons, null, boolean, integer, real, text, array, object, find,
}
use t2s.Config.{File, bad, document}

abbrev pub IsStreamName : String → Type 0
IsStreamName s = (is_empty s ≡ false) × (is_lowercase s ≡ true)

-- P holds of what becomes of the texts among the symbols, in a list and in the shared file.
unfoldable pub AreGiven : (String → Type 0) → Items → Type 0
AreGiven P nil = Unit
AreGiven P (cons (text s) vs) = (is_empty s ≡ false → P (to_lower (c_string s))) × AreGiven P vs
AreGiven P (cons v vs) = AreGiven P vs

unfoldable pub GivenBy : (String → Type 0) → Option Json → Type 0
GivenBy P (some (array vs)) = AreGiven P vs
GivenBy P v = Unit

unfoldable pub GivenIn : (String → Type 0) → Option File → Type 0
GivenIn P (some (document (object ms))) = GivenBy P (find "symbols" ms)
GivenIn P file = Unit

-- No symbol starts with a NUL.
unfoldable pub NoneIsNul : Items → Type 0
NoneIsNul nil = Unit
NoneIsNul (cons (text s) vs) = (starts_with_nul s ≡ false) × NoneIsNul vs
NoneIsNul (cons v vs) = NoneIsNul vs

-- What holds of every text holds of those in the file.
AreGiven-always :
    (P : String → Type 0)
    → ((s : String) → P (to_lower (c_string s)))
    → (vs : Items) → AreGiven P vs
unfolding AreGiven
AreGiven-always P f nil = tt
AreGiven-always P f (cons (text s) vs) = (λ _. f s, AreGiven-always P f vs)
AreGiven-always P f (cons null vs) = AreGiven-always P f vs
AreGiven-always P f (cons (boolean b) vs) = AreGiven-always P f vs
AreGiven-always P f (cons (integer n) vs) = AreGiven-always P f vs
AreGiven-always P f (cons (real d) vs) = AreGiven-always P f vs
AreGiven-always P f (cons (array xs) vs) = AreGiven-always P f vs
AreGiven-always P f (cons (object ms) vs) = AreGiven-always P f vs

AreGiven-named : (vs : Items) → NoneIsNul vs → AreGiven IsStreamName vs
unfolding AreGiven NoneIsNul
AreGiven-named nil n = tt
AreGiven-named (cons (text s) vs) (n, ns) = (
  λ e. (
    to_lower-is_empty (c_string s) ∙ c_string-is_empty s e n,
    to_lower-is_lowercase (c_string s),
  ),
  AreGiven-named vs ns,
)
AreGiven-named (cons null vs) n = AreGiven-named vs n
AreGiven-named (cons (boolean b) vs) n = AreGiven-named vs n
AreGiven-named (cons (integer i) vs) n = AreGiven-named vs n
AreGiven-named (cons (real d) vs) n = AreGiven-named vs n
AreGiven-named (cons (array xs) vs) n = AreGiven-named vs n
AreGiven-named (cons (object ms) vs) n = AreGiven-named vs n

GivenBy-by :
    (P : String → Type 0) (v : Option Json)
    → ((vs : Items) → v ≡ some (array vs) → AreGiven P vs)
    → GivenBy P v
unfolding GivenBy
GivenBy-by P none f = tt
GivenBy-by P (some null) f = tt
GivenBy-by P (some (boolean b)) f = tt
GivenBy-by P (some (integer n)) f = tt
GivenBy-by P (some (real d)) f = tt
GivenBy-by P (some (text s)) f = tt
GivenBy-by P (some (object ms)) f = tt
GivenBy-by P (some (array vs)) f = f vs refl

GivenIn-by :
    (P : String → Type 0) (file : Option File)
    → ((ms : Members) (vs : Items)
        → file ≡ some (document (object ms))
        → find "symbols" ms ≡ some (array vs)
        → AreGiven P vs)
    → GivenIn P file
unfolding GivenIn
GivenIn-by P none f = tt
GivenIn-by P (some bad) f = tt
GivenIn-by P (some (document null)) f = tt
GivenIn-by P (some (document (boolean b))) f = tt
GivenIn-by P (some (document (integer n))) f = tt
GivenIn-by P (some (document (real d))) f = tt
GivenIn-by P (some (document (text s))) f = tt
GivenIn-by P (some (document (array xs))) f = tt
GivenIn-by P (some (document (object ms))) f =
    GivenBy-by P (find "symbols" ms) (λ vs e. f ms vs refl e)

pub GivenIn-always :
    (P : String → Type 0)
    → ((s : String) → P (to_lower (c_string s)))
    → (file : Option File) → GivenIn P file
GivenIn-always P f file = GivenIn-by P file (λ ms vs e g. AreGiven-always P f vs)

pub GivenIn-named :
    (file : Option File)
    → ((ms : Members) (vs : Items)
        → file ≡ some (document (object ms))
        → find "symbols" ms ≡ some (array vs)
        → NoneIsNul vs)
    → GivenIn IsStreamName file
GivenIn-named file n = GivenIn-by IsStreamName file (λ ms vs e g. AreGiven-named vs (n ms vs e g))
