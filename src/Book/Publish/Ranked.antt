-- ===== src/Book/Publish/Ranked.antt =====
-- getQuote: what it means that slots show the exchange's best levels, and the order of the levels.
use mathlib.Core.List.{reverse-cons, append-nil}
use mathlib.Core.Path.{subst}
use t2s.Base.{
  ℕ, zero, suc, ◌≡◌, refl, sym, ap, ◌∙◌, ◌⊎◌, inl, inr, Bool, true, none, some, List, [], ◌∷◌, ◌++◌,
  arith, length, reverse, All, All-append, Bool-cases,
}
use t2s.Book.Double.{Double, num, nan, eq, IsNumber}
use t2s.Book.Types.{PriceLevel}
use t2s.Book.Side.{Side, better, in_horizon}
use t2s.Book.Side.Levels.{
  HasNumbers, BetterThan, WorseThan, IsSorted, lookup, lookup-append_none, lookup_better, ne-better,
}
use t2s.Book.Side.Truth.{Exchange, quoted, IsExact, eq→≡, lookup_ne}
use t2s.Book.Publish.Padded.{empty_slot, pad_take, All-reverse, All-pad_take_or}

-- Best to worst.
abbrev pub IsRanked : Bool → List PriceLevel → Type 0
IsRanked b [] = Unit
IsRanked b (l ∷ ls) = All (WorseThan b l.price) ls × IsRanked b ls

IsRanked-snoc :
    (b : Bool) (xs : List PriceLevel) (y : PriceLevel)
    → IsRanked b xs
    → All (BetterThan b y.price) xs
    → IsRanked b (xs ++ y ∷ [])
IsRanked-snoc b [] y r a = (tt, tt)
IsRanked-snoc b (x ∷ xs) y r a =
    (All-append _ xs (y ∷ []) r.0 (a.0, tt), IsRanked-snoc b xs y r.1 a.1)

pub IsRanked-reverse : (b : Bool) (xs : List PriceLevel) → IsSorted b xs → IsRanked b (reverse xs)
IsRanked-reverse b [] s = tt
IsRanked-reverse b (x ∷ xs) s = rw (reverse-cons x xs) (
    IsRanked-snoc b (reverse xs) x (IsRanked-reverse b xs s.1)
      (All-reverse (BetterThan b x.price) xs s.0))

pub lookup-reverse :
    (b : Bool) (p : Double) (xs : List PriceLevel)
    → IsSorted b xs
    → lookup p (reverse xs) ≡ lookup p xs
lookup-reverse b p [] s = refl
lookup-reverse b p (x ∷ xs) s = rw (reverse-cons x xs) (elim (Bool-cases (eq x.price p)) [
  | inl e ↦
      let none_else : lookup p xs ≡ none =
        subst (λ q. lookup q xs ≡ none) (eq→≡ x.price p e) (lookup_better b x.price xs s.0) in
      lookup-append_none p (reverse xs) (x ∷ []) (lookup-reverse b p xs s.1 ∙ none_else) ∙ rw e
  | inr e ↦
      lookup_ne p (reverse xs) [] x e
      ∙ (ap (lookup p) (append-nil (reverse xs)) ∙ (lookup-reverse b p xs s.1 ∙ sym (rw e)))
])

-- The level holds what the exchange quotes at its price.
abbrev pub IsQuoted : Exchange → PriceLevel → Type 0
IsQuoted t l = elim l.price [ nan ↦ ⊥ | num p ↦ quoted (t p) ≡ some l.qty ]

-- Each slot is better than every later one that is not empty.
abbrev pub AreRanked : Bool → List PriceLevel → Type 0
AreRanked b [] = Unit
AreRanked b (l ∷ ls) = All (λ m. (m ≡ empty_slot) ⊎ WorseThan b l.price m) ls × AreRanked b ls

-- The n published slots of one side show the exchange's best levels: each is real or empty, they go
-- from best to worst, and whatever level the exchange has is among them or worse than all n.
pub record ShowsBest (b : Bool) (t : Exchange) (n : ℕ) (slots : List PriceLevel) : Type 0 where
  pub count : length slots ≡ n
  pub real : All (λ l. (l ≡ empty_slot) ⊎ IsQuoted t l) slots
  pub ranked : AreRanked b slots
  pub complete :
      (p : ℕ) (q : Double)
      → quoted (t p) ≡ some q
      → (lookup (num p) slots ≡ some q) ⊎ All (BetterThan b (num p)) slots

pub length-pad_take : (n : ℕ) (xs : List PriceLevel) → length (pad_take n xs) ≡ n
length-pad_take zero xs = refl
length-pad_take (suc n) [] = ap suc (length-pad_take n [])
length-pad_take (suc n) (x ∷ xs) = ap suc (length-pad_take n xs)

-- A level found below another one is worse.
found_is_worse :
    (b : Bool) (y p q : Double) (xs : List PriceLevel)
    → All (WorseThan b y) xs
    → lookup p xs ≡ some q
    → better b y p ≡ true
found_is_worse b y p q [] a e = cc
found_is_worse b y p q (x ∷ xs) a e = elim (Bool-cases (eq x.price p)) [
  | inl h ↦ subst (λ r. better b y r ≡ true) (eq→≡ x.price p h) a.0
  | inr h ↦ found_is_worse b y p q xs a.1 (rw h at e)
]

pub top_or_below :
    (b : Bool) (p q : Double) (n : ℕ) (xs : List PriceLevel)
    → IsRanked b xs
    → lookup p xs ≡ some q
    → (lookup p (pad_take n xs) ≡ some q) ⊎ All (BetterThan b p) (pad_take n xs)
top_or_below b p q zero xs r e = inr tt
top_or_below b p q (suc n) [] r e = cc
top_or_below b p q (suc n) (x ∷ xs) r e = elim (Bool-cases (eq x.price p)) [
  | inl h ↦ inl (rw h (rw h at e))
  | inr h ↦ elim (top_or_below b p q n xs r.1 (rw h at e)) [
    | inl hit ↦ inl (rw h hit)
    | inr over ↦ inr (found_is_worse b x.price p q xs r.0 (rw h at e), over)
  ]
]

-- In a sorted side every level is found by its own price.
pub lookup_self :
    (b : Bool) (xs : List PriceLevel)
    → All HasNumbers xs
    → IsSorted b xs
    → All (λ l. lookup l.price xs ≡ some l.qty) xs
lookup_self b [] n s = tt
lookup_self b (x ∷ xs) n s = (ground arith, deeper xs s.0 (lookup_self b xs n.1 s.1))
  where
    deeper :
        (ys : List PriceLevel)
        → All (BetterThan b x.price) ys
        → All (λ l. lookup l.price xs ≡ some l.qty) ys
        → All (λ l. lookup l.price (x ∷ xs) ≡ some l.qty) ys
    deeper [] a c = tt
    deeper (y ∷ ys) a c = (rw (ne-better b y.price x.price a.0) c.0, deeper ys a.1 c.1)

pub IsQuoted-level :
    (b : Bool) (t : Exchange) (s : Side) (l : PriceLevel)
    → IsExact b t s
    → IsNumber l.price
    → in_horizon b s l.price ≡ true
    → lookup l.price s.levels ≡ some l.qty
    → IsQuoted t l
IsQuoted-level b t s l x n i e = go l.price n i e
  where
    go :
        (p : Double)
        → IsNumber p
        → in_horizon b s p ≡ true
        → lookup p s.levels ≡ some l.qty
        → elim p as (λ _. Type 0) [ nan ↦ ⊥ | num p ↦ quoted (t p) ≡ some l.qty ]
    go nan n i e = n
    go (num p) n i e = sym (x p i) ∙ e

AreRanked-empty : (b : Bool) (n : ℕ) → AreRanked b (pad_take n [])
AreRanked-empty b zero = tt
AreRanked-empty b (suc n) =
    (All-pad_take_or (λ _. ⊥) _ n [] (λ l h. absurd h) (inl refl) tt, AreRanked-empty b n)

pub AreRanked-pad_take :
    (b : Bool) (n : ℕ) (xs : List PriceLevel) → IsRanked b xs → AreRanked b (pad_take n xs)
AreRanked-pad_take b zero xs r = tt
AreRanked-pad_take b (suc n) [] r = AreRanked-empty b (suc n)
AreRanked-pad_take b (suc n) (x ∷ xs) r = (
  All-pad_take_or (WorseThan b x.price) _ n xs (λ l h. inr h) (inl refl) r.0,
  AreRanked-pad_take b n xs r.1,
)
