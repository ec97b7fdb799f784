-- ===== src/Book/Publish/Padded.antt =====
-- getQuote: the published slots are the side's levels from the best one, filled up with empty slots.
use mathlib.Core.List.{reverse-cons}
use t2s.Base.{
  ℕ, zero, suc, ◌-◌, ◌≤◌, ◌<◌, ◌≡◌, refl, sym, ap, inl, inr, false, Option, none, some, List, [],
  ◌∷◌, ◌++◌, arith, if◌then◌else◌, length, length-append, ltb→lt, get_elem?, drop, reverse, ltb,
  All, All-append, Bool-cases,
}
use t2s.Book.Double.{nought}
use t2s.Book.Types.{PriceLevel}
use t2s.Book.Publish.{slot_level, fill_slots}

abbrev pub empty_slot : PriceLevel
empty_slot = record { price = nought; qty = nought }

-- The first n levels, filled up with empty slots.
abbrev pub pad_take : ℕ → List PriceLevel → List PriceLevel
pad_take zero ls = []
pad_take (suc n) [] = empty_slot ∷ pad_take n []
pad_take (suc n) (l ∷ ls) = l ∷ pad_take n ls

abbrev or_empty : Option PriceLevel → PriceLevel
or_empty none = empty_slot
or_empty (some l) = l

abbrev slot_of : List PriceLevel → ℕ → PriceLevel
slot_of ls i = or_empty (get_elem? ls i)

get_elem?-snoc :
    (xs : List PriceLevel) (x : PriceLevel) (i : ℕ)
    → get_elem? (xs ++ x ∷ []) i
      ≡ (if ltb i (length xs) then get_elem? xs i else get_elem? (x ∷ []) (i - length xs))
get_elem?-snoc [] x i = ground arith
get_elem?-snoc (y ∷ ys) x zero = ground arith
get_elem?-snoc (y ∷ ys) x (suc i) = ground (arith, get_elem?-snoc ys x i)

pub length-reverse : (xs : List PriceLevel) → length (reverse xs) ≡ length xs
length-reverse [] = refl
length-reverse (x ∷ xs) = omega (
  arith,
  ap length (reverse-cons x xs),
  length-append {0} (reverse xs) (x ∷ []),
  length-reverse xs,
)

get_elem?-reverse :
    (xs : List PriceLevel) (i : ℕ)
    → i < length xs
    → get_elem? xs (length xs - 1 - i) ≡ get_elem? (reverse xs) i
get_elem?-reverse [] i h = absurd (omega arith)
get_elem?-reverse (x ∷ xs) i h =
    rw (reverse-cons x xs, get_elem?-snoc (reverse xs) x i, length-reverse xs)
      (elim (Bool-cases (ltb i (length xs))) [
        | inl e ↦
            let deeper : suc (length xs) - 1 - i ≡ suc (length xs - 1 - i) =
              omega (arith, ltb→lt i (length xs) e) in
            rw (e, deeper) (get_elem?-reverse xs i (ltb→lt i (length xs) e))
        | inr e ↦
            let last : suc (length xs) - 1 - i ≡ 0 = ground arith in
            let first : i - length xs ≡ 0 = ground arith in rw (e, last, first)
      ])

get_elem?-beyond :
    (xs : List PriceLevel) (i : ℕ) → ltb i (length xs) ≡ false → get_elem? xs i ≡ none
get_elem?-beyond [] i h = refl
get_elem?-beyond (x ∷ xs) zero h = ground arith
get_elem?-beyond (x ∷ xs) (suc i) h = get_elem?-beyond xs i (ground arith)

-- Slot i is level i from the best.
slot_level_lem :
    (levels : List PriceLevel) (i : ℕ) → slot_level levels i ≡ slot_of (reverse levels) i
slot_level_lem levels i = elim (Bool-cases (ltb i (length levels))) [
  | inl e ↦ rw (e, get_elem?-reverse levels i (ltb→lt i (length levels) e))
  | inr e ↦
      rw e (sym (ap or_empty (get_elem?-beyond (reverse levels) i (rw (length-reverse levels) e))))
]

pad_take-drop :
    (n i : ℕ) (xs : List PriceLevel)
    → pad_take (suc n) (drop i xs) ≡ slot_of xs i ∷ pad_take n (drop (suc i) xs)
pad_take-drop n zero [] = refl
pad_take-drop n zero (x ∷ xs) = refl
pad_take-drop n (suc i) [] = refl
pad_take-drop n (suc i) (x ∷ xs) = pad_take-drop n i xs

pub fill_slots_lem :
    (levels : List PriceLevel) (n i : ℕ)
    → fill_slots levels i n ≡ pad_take n (drop i (reverse levels))
unfolding fill_slots
fill_slots_lem levels zero i = refl
fill_slots_lem levels (suc n) i =
    rw (slot_level_lem levels i, fill_slots_lem levels n (suc i))
      (sym (pad_take-drop n i (reverse levels)))

module _ (P : PriceLevel → Type 0) where
  pub All-reverse : (xs : List PriceLevel) → All P xs → All P (reverse xs)
  All-reverse [] a = tt
  All-reverse (x ∷ xs) a =
      rw (reverse-cons x xs) (All-append P (reverse xs) (x ∷ []) (All-reverse xs a.1) (a.0, tt))

  -- Padding is not reached where there are levels enough.
  pub All-pad_take :
      (n : ℕ) (xs : List PriceLevel) → n ≤ length xs → All P xs → All P (pad_take n xs)
  All-pad_take zero xs h a = tt
  All-pad_take (suc n) [] h a = absurd (omega arith)
  All-pad_take (suc n) (x ∷ xs) h a = (a.0, All-pad_take n xs (omega arith) a.1)

  pub All-pad_take_or :
      (Q : PriceLevel → Type 0) (n : ℕ) (xs : List PriceLevel)
      → ((l : PriceLevel) → P l → Q l)
      → Q empty_slot
      → All P xs
      → All Q (pad_take n xs)
  All-pad_take_or Q zero xs f e a = tt
  All-pad_take_or Q (suc n) [] f e a = (e, All-pad_take_or Q n [] f e tt)
  All-pad_take_or Q (suc n) (x ∷ xs) f e a = (f x a.0, All-pad_take_or Q n xs f e a.1)
