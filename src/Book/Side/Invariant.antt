-- ===== src/Book/Side/Invariant.antt =====
-- The well-formedness of a side, kept by `trim` and `update`.
use t2s.Base.{
  ℕ, zero, suc, ◌-◌, ◌≤◌, ◌≡◌, Bool, true, false, List, [], ◌∷◌, ◌++◌, arith, leb, length,
  length-drop, length-append, drop, All, All-append, All-left, All-right, All-drop, Bool-cases, inl,
  inr,
}
use t2s.Book.Double.{Double, nought, eq, IsNumber}
use t2s.Book.Types.{PriceLevel}
use t2s.Book.Side.{Side, better, in_horizon, front_price, trim, lower_bound}
use t2s.Book.Side.Levels.{
  HasNumbers, IsResting, WorseThan, NotWorseThan, BetterThan, IsSorted, lower_bound-worse,
}
use t2s.Book.Side.Splice.{
  IsSorted-append, IsSorted-left, IsSorted-right, Under-split, Under-tail, Under-insert,
  Under-requantify, HeadNotWorse, lower_bound-head,
}

-- Sorted levels with numbers and quantities, inside the horizon and within the cap.
pub record IsValid (b : Bool) (max_levels : ℕ) (s : Side) : Type 0 where
  pub numbers : All HasNumbers s.levels
  pub resting : All IsResting s.levels
  pub sorted : IsSorted b s.levels
  pub edge : s.bounded ≡ true → IsNumber s.horizon
  pub inside : s.bounded ≡ true → All (NotWorseThan b s.horizon) s.levels
  pub fits : length s.levels ≤ max_levels

not_worse_of_better : (b : Bool) (p q : Double) → better b q p ≡ true → better b p q ≡ false
not_worse_of_better b p q h = ground arith

pub front_inside :
    (b : Bool) (ls : List PriceLevel)
    → All HasNumbers ls
    → IsSorted b ls
    → All (NotWorseThan b (front_price ls)) ls
front_inside b [] n s = tt
front_inside b (l ∷ ls) n s = (ground arith, later ls s.0)
  where
    later : (ms : List PriceLevel) → All (BetterThan b l.price) ms → All (NotWorseThan b l.price) ms
    later [] a = tt
    later (m ∷ ms) a = (not_worse_of_better b l.price m.price a.0, later ms a.1)

IsSorted-drop : (b : Bool) (n : ℕ) (ls : List PriceLevel) → IsSorted b ls → IsSorted b (drop n ls)
IsSorted-drop b zero ls s = s
IsSorted-drop b (suc n) [] s = tt
IsSorted-drop b (suc n) (l ∷ ls) s = IsSorted-drop b n ls s.1

pub front-IsNumber : (ls : List PriceLevel) → All HasNumbers ls → IsNumber (front_price ls)
front-IsNumber [] n = tt
front-IsNumber (l ∷ ls) n = n.0.0

-- A side that is well formed but for the cap.
pub trim-IsValid : (b : Bool) (m k : ℕ) (s : Side) → IsValid b k s → IsValid b m (trim m s)
unfolding trim
trim-IsValid b m k s v = elim (Bool-cases (leb (length s.levels) m)) [
  | inl e ↦ rw e (record {
    numbers = v.numbers;
    resting = v.resting;
    sorted = v.sorted;
    edge = v.edge;
    inside = v.inside;
    fits = ground arith;
  })
  | inr e ↦ rw e (record {
    numbers = numbers';
    resting = All-drop _ n s.levels v.resting;
    sorted = sorted';
    edge = λ _. front-IsNumber (drop n s.levels) numbers';
    inside = λ _. front_inside b (drop n s.levels) numbers' sorted';
    fits = ground (arith, length-drop n s.levels);
  })
]
  where
    n : ℕ
    n = length s.levels - m

    numbers' : All HasNumbers (drop n s.levels)
    numbers' = All-drop _ n s.levels v.numbers

    sorted' : IsSorted b (drop n s.levels)
    sorted' = IsSorted-drop b n s.levels v.sorted

-- The facts about the position that `lower_bound` found, which the cases of `write_at` share.
pub record IsPosition (b : Bool) (p : Double) (before rest : List PriceLevel) : Type 0 where
  pub worse : All (WorseThan b p) before
  pub head : HeadNotWorse b p rest

pub lower_bound-IsPosition :
    (b : Bool) (p : Double) (ls : List PriceLevel)
    → IsPosition b p (lower_bound b p ls).0 (lower_bound b p ls).1
lower_bound-IsPosition b p ls = record {
  worse = lower_bound-worse b p ls;
  head = lower_bound-head b p ls;
}

-- A side with other levels.
abbrev pub with_levels : Side → List PriceLevel → Side
with_levels s ls = record s { levels = ls }

module _ (b : Bool) (u : PriceLevel) (s : Side) (k : ℕ) (before : List PriceLevel) where
  -- Erasing the level at the position.
  pub erase-IsValid :
      (h : PriceLevel) (r : List PriceLevel)
      → IsValid b k (with_levels s (before ++ h ∷ r))
      → IsValid b k (with_levels s (before ++ r))
  erase-IsValid h r v = record {
    numbers = without _ v.numbers;
    resting = without _ v.resting;
    sorted =
        IsSorted-append b before r (IsSorted-left b before (h ∷ r) v.sorted)
          (IsSorted-right b before (h ∷ r) v.sorted).1
          (Under-tail b before r h (Under-split b before (h ∷ r) v.sorted));
    edge = v.edge;
    inside = λ t. without _ (v.inside t);
    fits = omega (arith, v.fits, length-append {0} before (h ∷ r), length-append {0} before r);
  }
    where
      without : (P : PriceLevel → Type 0) → All P (before ++ h ∷ r) → All P (before ++ r)
      without P a =
          All-append _ before r (All-left _ before (h ∷ r) a) (All-right _ before (h ∷ r) a).1

  -- Writing a new quantity to the level at the position.
  pub set-IsValid :
      (h : PriceLevel) (r : List PriceLevel)
      → IsNumber u.qty
      → eq u.qty nought ≡ false
      → IsValid b k (with_levels s (before ++ h ∷ r))
      → IsValid b k (with_levels s (before ++ record h { qty = u.qty } ∷ r))
  set-IsValid h r n q v = record {
    numbers = changed _ v.numbers (λ l. (l.0, n));
    resting = changed _ v.resting (λ _. q);
    sorted =
        IsSorted-append b before (h' ∷ r) (IsSorted-left b before (h ∷ r) v.sorted)
          (IsSorted-right b before (h ∷ r) v.sorted)
          (Under-requantify b before r h u.qty (Under-split b before (h ∷ r) v.sorted));
    edge = v.edge;
    inside = λ t. changed _ (v.inside t) (λ l. l);
    fits =
        omega (arith, v.fits, length-append {0} before (h ∷ r), length-append {0} before (h' ∷ r));
  }
    where
      h' : PriceLevel
      h' = record h { qty = u.qty }

      changed :
          (P : PriceLevel → Type 0)
          → All P (before ++ h ∷ r)
          → (P h → P h')
          → All P (before ++ h' ∷ r)
      changed P a f =
          let right = All-right _ before (h ∷ r) a in
          All-append _ before (h' ∷ r) (All-left _ before (h ∷ r) a) (f right.0, right.1)

  -- A new level at the position; the cap may be passed by one, which `trim` mends.
  pub insert-IsValid :
      (rest : List PriceLevel)
      → HasNumbers u
      → IsResting u
      → All (WorseThan b u.price) before
      → All (BetterThan b u.price) rest
      → in_horizon b s u.price ≡ true
      → IsValid b k (with_levels s (before ++ rest))
      → IsValid b (suc k) (with_levels s (before ++ u ∷ rest))
  insert-IsValid rest n q worse over near v = record {
    numbers = inserted _ v.numbers n;
    resting = inserted _ v.resting q;
    sorted =
        IsSorted-append b before (u ∷ rest) (IsSorted-left b before rest v.sorted)
          (over, IsSorted-right b before rest v.sorted)
          (Under-insert b before rest u worse (Under-split b before rest v.sorted));
    edge = v.edge;
    inside = λ t. inserted _ (v.inside t) (ground arith);
    fits =
        omega (arith, v.fits, length-append {0} before rest, length-append {0} before (u ∷ rest));
  }
    where
      inserted :
          (P : PriceLevel → Type 0) → All P (before ++ rest) → P u → All P (before ++ u ∷ rest)
      inserted P a p =
          All-append _ before (u ∷ rest) (All-left _ before rest a) (p, All-right _ before rest a)
