-- ===== src/Book/Side/Truth.antt =====
-- What a side knows of the exchange's own book: every level at or inside the horizon is exact.
use t2s.Base.{
  ℕ, suc, ◌-◌, ◌<◌, ◌≡◌, refl, sym, ◌∙◌, Bool, true, false, Option, none, some, List, [], ◌∷◌, ◌++◌,
  arith, if◌then◌else◌, leb, length, length-drop, drop, take, take-append-drop, All, All-right,
  Bool-cases, inl, inr,
}
use mathlib.Core.Path.{subst}
use t2s.Book.Double.{Double, num, nought, eq, IsNumber}
use t2s.Book.Types.{PriceLevel}
use t2s.Book.Side.{
  Side, better, in_horizon, front_price, trim, lower_bound, found, write_at, update,
}
use t2s.Book.Side.Levels.{
  HasNumbers, BetterThan, WorseThan, NotWorseThan, IsSorted, lookup, lookup-append_none,
  lookup-append, lookup_worse, lookup_better, lower_bound-append,
}
use t2s.Book.Side.Splice.{Under, Under-split, rest_of_miss, rest_of_hit, IsSorted-right}
use t2s.Book.Side.Invariant.{
  IsValid, IsPosition, lower_bound-IsPosition, with_levels, insert-IsValid,
}
use t2s.Book.Side.Cases.{write_at_cases}

-- One side of the exchange's book: the quantity at each price, 0.0 where nobody rests.
abbrev pub Exchange : Type 0
Exchange = ℕ → Double

abbrev pub quoted : Double → Option Double
quoted q = if eq q nought then none else some q

-- The exchange's side after a level update.
abbrev pub moved : PriceLevel → Exchange → Exchange
moved u t p = if eq u.price (num p) then u.qty else t p

abbrev pub IsExact : Bool → Exchange → Side → Type 0
IsExact b t s = (p : ℕ) → in_horizon b s (num p) ≡ true → lookup (num p) s.levels ≡ quoted (t p)

pub eq→≡ : (x y : Double) → eq x y ≡ true → x ≡ y
eq→≡ x y h = ground arith

-- The level at the position stands for the price, so no other level does.
module _ (b : Bool) (p : Double) (before : List PriceLevel)
    (worse : All (WorseThan b p) before) where
  lookup_insert_self :
      (u : PriceLevel) (rest : List PriceLevel)
      → eq u.price p ≡ true
      → lookup p (before ++ u ∷ rest) ≡ some u.qty
  lookup_insert_self u rest e =
      lookup-append_none p before (u ∷ rest) (lookup_worse b p before worse) ∙ rw e

  lookup_gone : (r : List PriceLevel) → All (BetterThan b p) r → lookup p (before ++ r) ≡ none
  lookup_gone r over =
      lookup-append_none p before r (lookup_worse b p before worse) ∙ lookup_better b p r over

-- Another price is looked up as before.
pub lookup_ne :
    (q : Double) (before r : List PriceLevel) (h : PriceLevel)
    → eq h.price q ≡ false
    → lookup q (before ++ h ∷ r) ≡ lookup q (before ++ r)
lookup_ne q before r h e = lookup-append q before (h ∷ r) r (rw e)

WorseThan-dropped :
    (b : Bool) (q : Double) (y : PriceLevel) (ys xs : List PriceLevel)
    → IsNumber y.price
    → IsNumber q
    → better b y.price q ≡ false
    → Under b xs (y ∷ ys)
    → All (WorseThan b q) xs
WorseThan-dropped b q y ys [] n m h u = tt
WorseThan-dropped b q y ys (x ∷ xs) n m h u =
    (over b x.price y.price q n m u.0.0 h, WorseThan-dropped b q y ys xs n m h u.1)
  where
    over :
        (b : Bool) (x y q : Double)
        → IsNumber y
        → IsNumber q
        → better b y x ≡ true
        → better b y q ≡ false
        → better b q x ≡ true
    over b x y q n m h k = ground arith

in_horizon_trans :
    (b : Bool) (s : Side) (q y : Double)
    → IsNumber y
    → IsNumber q
    → (s.bounded ≡ true → IsNumber s.horizon)
    → (s.bounded ≡ true → better b s.horizon y ≡ false)
    → better b y q ≡ false
    → in_horizon b s q ≡ true
in_horizon_trans b s q y n m edge inside h = elim (Bool-cases s.bounded) [
  | inl e ↦ rw e (rw (not_better_trans b s.horizon y q n (edge e) m (inside e) h))
  | inr e ↦ rw e
]
  where
    not_better_trans :
        (b : Bool) (x y q : Double)
        → IsNumber y
        → IsNumber x
        → IsNumber q
        → better b x y ≡ false
        → better b y q ≡ false
        → better b x q ≡ false
    not_better_trans b x y q n m o h k = ground arith

module _ (b : Bool) (t : Exchange) where
  pub trim-IsExact :
      (m k : ℕ) (s : Side) → 0 < m → IsValid b k s → IsExact b t s → IsExact b t (trim m s)
  unfolding trim
  trim-IsExact m k s pos v x = elim (Bool-cases (leb (length s.levels) m)) [
    | inl e ↦ rw e x
    | inr e ↦ rw e (λ p near.
        kept (drop n s.levels) (take n s.levels) (sym (take-append-drop n s.levels))
          (ground (arith, length-drop n s.levels)) p near)
  ]
    where
      n : ℕ
      n = length s.levels - m

      kept :
          (ys xs : List PriceLevel)
          → s.levels ≡ xs ++ ys
          → 0 < length ys
          → (p : ℕ)
          → in_horizon b (record { levels = ys; bounded = true; horizon = front_price ys }) (num p)
            ≡ true
          → lookup (num p) ys ≡ quoted (t p)
      kept [] xs e l p near = absurd (omega arith)
      kept (y ∷ ys) xs e l p near =
          let number = (All-right _ xs (y ∷ ys) (subst (All HasNumbers) e v.numbers)).0.0 in
          let under = Under-split b xs (y ∷ ys) (subst (IsSorted b) e v.sorted) in
          let inside = λ (t : s.bounded ≡ true).
            (All-right _ xs (y ∷ ys) (subst (All (NotWorseThan b s.horizon)) e (v.inside t))).0 in
          let near_old =
            in_horizon_trans b s (num p) y.price number tt v.edge inside (ground arith) in
          sym (
            lookup-append_none (num p) xs (y ∷ ys) (
              lookup_worse b (num p) xs
                (WorseThan-dropped b (num p) y ys xs number tt (ground arith) under)))
          ∙ (subst (λ ls. lookup (num p) ls ≡ quoted (t p)) e (x p near_old))

-- The lookup after a write, told from what it is at the written price and elsewhere.
moved-lookup :
    (u : PriceLevel) (t : Exchange) (ls new : List PriceLevel)
    → lookup u.price new ≡ quoted u.qty
    → ((q : Double) → eq u.price q ≡ false → lookup q new ≡ lookup q ls)
    → (p : ℕ) → (eq u.price (num p) ≡ false → lookup (num p) ls ≡ quoted (t p))
    → lookup (num p) new ≡ quoted (moved u t p)
moved-lookup u t ls new self other p old = elim (Bool-cases (eq u.price (num p))) [
  | inl e ↦ rw e (subst (λ q. lookup q new ≡ quoted u.qty) (eq→≡ u.price (num p) e) self)
  | inr e ↦ rw e (other (num p) e ∙ old e)
]

same_price_ne : (x y q : Double) → eq x y ≡ true → eq y q ≡ false → eq x q ≡ false
same_price_ne x y q e n = ground arith

-- A price inside the horizon is not one beyond it.
beyond_ne :
    (b : Bool) (s : Side) (x q : Double)
    → in_horizon b s x ≡ false
    → in_horizon b s q ≡ true
    → eq x q ≡ false
beyond_ne b s x q h k = elim (Bool-cases (eq x q)) [
  | inl e ↦ cc (subst (λ y. in_horizon b s y ≡ false) (eq→≡ x q e) h)
  | inr e ↦ e
]

module _ (b : Bool) (t : Exchange) (u : PriceLevel) (k : ℕ) (s : Side)
    (before : List PriceLevel) where
  write_at-IsExact :
      (rest : List PriceLevel)
      → 0 < k
      → HasNumbers u
      → IsPosition b u.price before rest
      → IsValid b k (with_levels s (before ++ rest))
      → IsExact b t (with_levels s (before ++ rest))
      → IsExact b (moved u t) (write_at b u k (with_levels s (before ++ rest)) before rest)
  write_at-IsExact rest pos n at v x =
      write_at_cases b u k s before
        (λ xs r.
          IsPosition b u.price before xs
          → IsValid b k (with_levels s (before ++ xs))
          → IsExact b t (with_levels s (before ++ xs))
          → IsExact b (moved u t) r)
        rest
        (λ h r e z at v x p near.
          moved-lookup u t (before ++ h ∷ r) (before ++ r)
            (lookup_gone b u.price before at.worse r
                (rest_of_hit b u.price h r e (IsSorted-right b before (h ∷ r) v.sorted).0)
              ∙ rw z)
            (λ q ne. sym (lookup_ne q before r h (same_price_ne h.price u.price q e ne))) p
            (λ _. x p near))
        (λ h r e z at v x p near.
          moved-lookup u t (before ++ h ∷ r) (before ++ record h { qty = u.qty } ∷ r)
            (lookup_insert_self b u.price before at.worse (record h { qty = u.qty }) r e ∙ rw z)
            (λ q ne.
              let away = same_price_ne h.price u.price q e ne in
              lookup_ne q before r (record h { qty = u.qty }) away
              ∙ sym (lookup_ne q before r h away))
            p (λ _. x p near))
        (λ e z at v x p near.
          moved-lookup u t (before ++ rest) (before ++ rest)
            (lookup_gone b u.price before at.worse rest (missing rest n at v e) ∙ rw z)
            (λ q ne. refl) p (λ _. x p near))
        (λ e z i at v x p near. rw (beyond_ne b s u.price (num p) i near) (x p near))
        (λ e z i at v x.
          trim-IsExact b (moved u t) k (suc k) _ pos
            (insert-IsValid b u s k before rest n z at.worse (missing rest n at v e) i v)
            (λ p near.
              moved-lookup u t (before ++ rest) (before ++ u ∷ rest)
                (lookup_insert_self b u.price before at.worse u rest (eq_refl u.price n.0) ∙ rw z)
                (λ q ne. lookup_ne q before rest u ne) p (λ _. x p near)))
        at v x
    where
      missing :
          (rest : List PriceLevel)
          → HasNumbers u
          → IsPosition b u.price before rest
          → IsValid b k (with_levels s (before ++ rest))
          → found u.price rest ≡ false
          → All (BetterThan b u.price) rest
      missing rest n at v e =
          rest_of_miss b u.price rest n.0 (All-right _ before rest v.numbers)
            (IsSorted-right b before rest v.sorted) at.head e

      eq_refl : (x : Double) → IsNumber x → eq x x ≡ true
      eq_refl x h = ground arith

-- With a cap above 0 and an update whose price and quantity are numbers, a level update of a well-
-- formed side that is exact against the exchange's side gives a side that is exact against the
-- exchange's side after the same update: the exchange's quantity at every price that the side
-- vouches for, horizons included.
pub update-IsExact :
    (b : Bool) (t : Exchange) (u : PriceLevel) (k : ℕ) (s : Side)
    → 0 < k
    → HasNumbers u
    → IsValid b k s
    → IsExact b t s
    → IsExact b (moved u t) (update b u k s)
unfolding update
update-IsExact b t u k s pos n v x =
    let whole = lower_bound-append b u.price s.levels in
    let (before, rest) = lower_bound b u.price s.levels in
    subst (λ ls. IsExact b (moved u t) (write_at b u k (with_levels s ls) before rest)) whole
      (write_at-IsExact b t u k s before rest pos n (lower_bound-IsPosition b u.price s.levels)
        (subst (λ ls. IsValid b k (with_levels s ls)) (sym whole) v)
        (subst (λ ls. IsExact b t (with_levels s ls)) (sym whole) x))
