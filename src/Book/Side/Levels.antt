-- ===== src/Book/Side/Levels.antt =====
-- Lists of levels: order, numbers, lookup by price, and the split that `lower_bound` makes.
use t2s.Base.{
  ◌≡◌, refl, ap, Bool, true, false, Option, none, some, List, [], ◌∷◌, ◌++◌, arith, if◌then◌else◌,
  All, Bool-cases, inl, inr,
}
use t2s.Book.Double.{Double, nought, eq, IsNumber}
use t2s.Book.Types.{PriceLevel}
use t2s.Book.Side.{better, lower_bound}

abbrev pub HasNumbers : PriceLevel → Type 0
HasNumbers l = IsNumber l.price × IsNumber l.qty

-- A resting level has a quantity other than 0.
abbrev pub IsResting : PriceLevel → Type 0
IsResting l = eq l.qty nought ≡ false

abbrev pub WorseThan : Bool → Double → PriceLevel → Type 0
WorseThan b p l = better b p l.price ≡ true

abbrev pub NotWorseThan : Bool → Double → PriceLevel → Type 0
NotWorseThan b p l = better b p l.price ≡ false

abbrev pub BetterThan : Bool → Double → PriceLevel → Type 0
BetterThan b p l = better b l.price p ≡ true

-- Worst to best, with no price twice.
abbrev pub IsSorted : Bool → List PriceLevel → Type 0
IsSorted b [] = Unit
IsSorted b (l ∷ ls) = All (BetterThan b l.price) ls × IsSorted b ls

abbrev pub lookup : Double → List PriceLevel → Option Double
lookup p [] = none
lookup p (l ∷ ls) = if eq l.price p then some l.qty else lookup p ls

pub better_trans :
    (b : Bool) (x y z : Double) → better b x y ≡ true → better b y z ≡ true → better b x z ≡ true
better_trans b x y z h k = ground arith

pub better_total :
    (b : Bool) (x y : Double)
    → IsNumber x
    → IsNumber y
    → better b y x ≡ false
    → eq x y ≡ false
    → better b x y ≡ true
better_total b x y m n h k = ground arith

pub better-ne : (b : Bool) (x y : Double) → better b x y ≡ true → eq x y ≡ false
better-ne b x y h = ground arith

pub ne-better : (b : Bool) (x y : Double) → better b x y ≡ true → eq y x ≡ false
ne-better b x y h = ground arith

pub lookup-append_none :
    (p : Double) (xs ys : List PriceLevel) → lookup p xs ≡ none → lookup p (xs ++ ys) ≡ lookup p ys
lookup-append_none p [] ys h = refl
lookup-append_none p (x ∷ xs) ys h = ground (arith, lookup-append_none p xs ys)

-- Two lists with equal lookups keep them behind a common prefix.
pub lookup-append :
    (p : Double) (xs ys zs : List PriceLevel)
    → lookup p ys ≡ lookup p zs
    → lookup p (xs ++ ys) ≡ lookup p (xs ++ zs)
lookup-append p [] ys zs h = h
lookup-append p (x ∷ xs) ys zs h = ground (arith, lookup-append p xs ys zs h)

pub lookup_worse :
    (b : Bool) (p : Double) (xs : List PriceLevel) → All (WorseThan b p) xs → lookup p xs ≡ none
lookup_worse b p [] h = refl
lookup_worse b p (x ∷ xs) h = rw (ne-better b p x.price h.0) (lookup_worse b p xs h.1)

pub lookup_better :
    (b : Bool) (p : Double) (xs : List PriceLevel) → All (BetterThan b p) xs → lookup p xs ≡ none
lookup_better b p [] h = refl
lookup_better b p (x ∷ xs) h = rw (better-ne b x.price p h.0) (lookup_better b p xs h.1)

pub All-better_trans :
    (b : Bool) (p q : Double) (xs : List PriceLevel)
    → better b p q ≡ true
    → All (BetterThan b p) xs
    → All (BetterThan b q) xs
All-better_trans b p q [] h a = tt
All-better_trans b p q (x ∷ xs) h a =
    (better_trans b x.price p q a.0 h, All-better_trans b p q xs h a.1)

-- The two halves of `lower_bound` make up the vector.
pub lower_bound-append :
    (b : Bool) (p : Double) (ls : List PriceLevel)
    → (lower_bound b p ls).0 ++ (lower_bound b p ls).1 ≡ ls
unfolding lower_bound
lower_bound-append b p [] = refl
lower_bound-append b p (l ∷ ls) = elim (Bool-cases (better b p l.price)) [
  | inl e ↦ rw e (ap (◌∷◌ l) (lower_bound-append b p ls))
  | inr e ↦ rw e
]

pub lower_bound-worse :
    (b : Bool) (p : Double) (ls : List PriceLevel) → All (WorseThan b p) (lower_bound b p ls).0
unfolding lower_bound
lower_bound-worse b p [] = tt
lower_bound-worse b p (l ∷ ls) = elim (Bool-cases (better b p l.price)) [
  | inl e ↦ rw e (e, lower_bound-worse b p ls)
  | inr e ↦ rw e tt
]
