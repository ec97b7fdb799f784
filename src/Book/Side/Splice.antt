-- ===== src/Book/Side/Splice.antt =====
-- What a write at the position found by `lower_bound` does to a sorted vector of levels.
use t2s.Base.{
  ◌≡◌, Bool, true, false, List, [], ◌∷◌, ◌++◌, arith, All, All-append, All-left, All-right,
  Bool-cases, inl, inr,
}
use t2s.Book.Double.{Double, eq, IsNumber}
use t2s.Book.Types.{PriceLevel}
use t2s.Book.Side.{better, lower_bound, found}
use t2s.Book.Side.Levels.{
  HasNumbers, WorseThan, NotWorseThan, BetterThan, IsSorted, better_total, All-better_trans,
}

-- Every level of `ys` is better than every level of `xs`.
abbrev pub Under : Bool → List PriceLevel → List PriceLevel → Type 0
Under b [] ys = Unit
Under b (x ∷ xs) ys = All (BetterThan b x.price) ys × Under b xs ys

pub IsSorted-append :
    (b : Bool) (xs ys : List PriceLevel)
    → IsSorted b xs
    → IsSorted b ys
    → Under b xs ys
    → IsSorted b (xs ++ ys)
IsSorted-append b [] ys s t u = t
IsSorted-append b (x ∷ xs) ys s t u =
    (All-append _ xs ys s.0 u.0, IsSorted-append b xs ys s.1 t u.1)

pub IsSorted-left : (b : Bool) (xs ys : List PriceLevel) → IsSorted b (xs ++ ys) → IsSorted b xs
IsSorted-left b [] ys s = tt
IsSorted-left b (x ∷ xs) ys s = (All-left _ xs ys s.0, IsSorted-left b xs ys s.1)

pub IsSorted-right : (b : Bool) (xs ys : List PriceLevel) → IsSorted b (xs ++ ys) → IsSorted b ys
IsSorted-right b [] ys s = s
IsSorted-right b (x ∷ xs) ys s = IsSorted-right b xs ys s.1

pub Under-split : (b : Bool) (xs ys : List PriceLevel) → IsSorted b (xs ++ ys) → Under b xs ys
Under-split b [] ys s = tt
Under-split b (x ∷ xs) ys s = (All-right _ xs ys s.0, Under-split b xs ys s.1)

pub Under-tail :
    (b : Bool) (xs ys : List PriceLevel) (y : PriceLevel) → Under b xs (y ∷ ys) → Under b xs ys
Under-tail b [] ys y u = tt
Under-tail b (x ∷ xs) ys y u = (u.0.1, Under-tail b xs ys y u.1)

pub Under-insert :
    (b : Bool) (xs ys : List PriceLevel) (u : PriceLevel)
    → All (WorseThan b u.price) xs
    → Under b xs ys
    → Under b xs (u ∷ ys)
Under-insert b [] ys u w h = tt
Under-insert b (x ∷ xs) ys u w h = ((w.0, h.0), Under-insert b xs ys u w.1 h.1)

pub Under-requantify :
    (b : Bool) (xs ys : List PriceLevel) (y : PriceLevel) (q : Double)
    → Under b xs (y ∷ ys)
    → Under b xs (record y { qty = q } ∷ ys)
Under-requantify b [] ys y q u = tt
Under-requantify b (x ∷ xs) ys y q u = (u.0, Under-requantify b xs ys y q u.1)

-- The first level at the position is not worse than the price.
abbrev pub HeadNotWorse : Bool → Double → List PriceLevel → Type 0
HeadNotWorse b p [] = Unit
HeadNotWorse b p (l ∷ ls) = NotWorseThan b p l

pub lower_bound-head :
    (b : Bool) (p : Double) (ls : List PriceLevel) → HeadNotWorse b p (lower_bound b p ls).1
unfolding lower_bound
lower_bound-head b p [] = tt
lower_bound-head b p (l ∷ ls) = elim (Bool-cases (better b p l.price)) [
  | inl e ↦ rw e (lower_bound-head b p ls)
  | inr e ↦ rw e e
]

pub rest_of_hit :
    (b : Bool) (p : Double) (l : PriceLevel) (ls : List PriceLevel)
    → eq l.price p ≡ true
    → All (BetterThan b l.price) ls
    → All (BetterThan b p) ls
rest_of_hit b p l [] e a = tt
rest_of_hit b p l (m ∷ ms) e a = (ground arith, rest_of_hit b p l ms e a.1)

pub rest_of_miss :
    (b : Bool) (p : Double) (ls : List PriceLevel)
    → IsNumber p
    → All HasNumbers ls
    → IsSorted b ls
    → HeadNotWorse b p ls
    → found p ls ≡ false
    → All (BetterThan b p) ls
unfolding found
rest_of_miss b p [] n a s h e = tt
rest_of_miss b p (l ∷ ls) n a s h e =
    let over = better_total b l.price p a.0.0 n h e in
    (over, All-better_trans b l.price p ls over s.0)
