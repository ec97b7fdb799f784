-- ===== src/Book/Side/Load.antt =====
-- Loading a REST snapshot into a side: the result is well formed, and exact up to its horizon.
use t2s.Base.{
  ℕ, suc, ◌<◌, ◌≡◌, refl, ap, ◌∙◌, Bool, true, false, ◌&&◌, ◌⊎◌, inl, inr, List, [], ◌∷◌, arith,
  if◌then◌else◌, ltb, leb, length, All, Bool-cases,
}
use t2s.Book.Double.{Double, num, nought, lt, eq}
use t2s.Book.Types.{PriceLevel}
use t2s.Book.Side.{better, in_horizon, front_price, positive, insert_sorted, sort, loaded, load}
use t2s.Book.Side.Levels.{
  HasNumbers, IsResting, BetterThan, IsSorted, lookup, better_total, All-better_trans,
}
use t2s.Book.Side.Invariant.{IsValid, trim-IsValid, front_inside, front-IsNumber}
use t2s.Book.Side.Truth.{Exchange, quoted, IsExact, trim-IsExact}

-- No price twice.
abbrev pub IsDistinct : List PriceLevel → Type 0
IsDistinct [] = Unit
IsDistinct (l ∷ ls) = All (λ m. eq l.price m.price ≡ false) ls × IsDistinct ls

-- Some listed level is not better than the price.
abbrev pub Reaches : Bool → Double → List PriceLevel → Type 0
Reaches b p [] = ⊥
Reaches b p (l ∷ ls) = (better b l.price p ≡ false) ⊎ Reaches b p ls

-- What the depth endpoint documents of a reply: resting levels with distinct prices, all of them if
-- fewer than the limit came back, and otherwise all at or inside the worst one listed.
pub record IsSnapshot (b : Bool) (t : Exchange) (limit : ℕ) (ls : List PriceLevel) : Type 0 where
  pub numbers : All HasNumbers ls
  pub rests : All (λ l. lt nought l.qty ≡ true) ls
  pub distinct : IsDistinct ls
  pub whole : leb limit (length ls) ≡ false → (p : ℕ) → lookup (num p) ls ≡ quoted (t p)
  pub near : (p : ℕ) → Reaches b (num p) ls → lookup (num p) ls ≡ quoted (t p)

module _ (P : PriceLevel → Type 0) where
  All-insert_sorted :
      (b : Bool) (u : PriceLevel) (ls : List PriceLevel)
      → P u
      → All P ls
      → All P (insert_sorted b u ls)
  unfolding insert_sorted
  All-insert_sorted b u [] p a = (p, tt)
  All-insert_sorted b u (l ∷ ls) p a = elim (Bool-cases (better b u.price l.price)) [
    | inl e ↦ rw e (a.0, All-insert_sorted b u ls p a.1)
    | inr e ↦ rw e (p, a)
  ]

  All-sort : (b : Bool) (ls : List PriceLevel) → All P ls → All P (sort b ls)
  unfolding sort
  All-sort b [] a = tt
  All-sort b (l ∷ ls) a = All-insert_sorted b l (sort b ls) a.0 (All-sort b ls a.1)

  All-positive : (ls : List PriceLevel) → All P ls → All P (positive ls)
  unfolding positive
  All-positive [] a = tt
  All-positive (l ∷ ls) a = elim (Bool-cases (lt nought l.qty)) [
    | inl e ↦ rw e (a.0, All-positive ls a.1)
    | inr e ↦ rw e (All-positive ls a.1)
  ]

positive-resting : (ls : List PriceLevel) → All IsResting (positive ls)
unfolding positive
positive-resting [] = tt
positive-resting (l ∷ ls) = elim (Bool-cases (lt nought l.qty)) [
  | inl e ↦ rw e (ground arith, positive-resting ls)
  | inr e ↦ rw e (positive-resting ls)
]

IsDistinct-positive : (ls : List PriceLevel) → IsDistinct ls → IsDistinct (positive ls)
unfolding positive
IsDistinct-positive [] d = tt
IsDistinct-positive (l ∷ ls) d = elim (Bool-cases (lt nought l.qty)) [
  | inl e ↦ rw e (All-positive _ ls d.0, IsDistinct-positive ls d.1)
  | inr e ↦ rw e (IsDistinct-positive ls d.1)
]

positive_all : (ls : List PriceLevel) → All (λ l. lt nought l.qty ≡ true) ls → positive ls ≡ ls
unfolding positive
positive_all [] a = refl
positive_all (l ∷ ls) a = rw a.0 (ap (◌∷◌ l) (positive_all ls a.1))

length-insert_sorted :
    (b : Bool) (u : PriceLevel) (ls : List PriceLevel)
    → length (insert_sorted b u ls) ≡ suc (length ls)
unfolding insert_sorted
length-insert_sorted b u [] = refl
length-insert_sorted b u (l ∷ ls) = ground (arith, length-insert_sorted b u ls)

length-sort : (b : Bool) (ls : List PriceLevel) → length (sort b ls) ≡ length ls
unfolding sort
length-sort b [] = refl
length-sort b (l ∷ ls) = length-insert_sorted b l (sort b ls) ∙ ap suc (length-sort b ls)

-- Every level is better than one that is better than none of them.
insert_before :
    (b : Bool) (u l : PriceLevel) (ls : List PriceLevel)
    → better b l.price u.price ≡ true
    → All (BetterThan b l.price) ls
    → All (BetterThan b u.price) (l ∷ ls)
insert_before b u l ls h a = (h, All-better_trans b l.price u.price ls h a)

IsSorted-insert_sorted :
    (b : Bool) (u : PriceLevel) (ls : List PriceLevel)
    → HasNumbers u
    → All HasNumbers ls
    → All (λ m. eq u.price m.price ≡ false) ls
    → IsSorted b ls
    → IsSorted b (insert_sorted b u ls)
unfolding insert_sorted
IsSorted-insert_sorted b u [] n ns d s = (tt, tt)
IsSorted-insert_sorted b u (l ∷ ls) n ns d s = elim (Bool-cases (better b u.price l.price)) [
  | inl e ↦ rw e (
    All-insert_sorted (BetterThan b l.price) b u ls e s.0,
    IsSorted-insert_sorted b u ls n ns.1 d.1 s.1,
  )
  | inr e ↦
      rw e
        (insert_before b u l ls (better_total b l.price u.price ns.0.0 n.0 e (ground arith)) s.0, s)
]

IsSorted-sort :
    (b : Bool) (ls : List PriceLevel) → All HasNumbers ls → IsDistinct ls → IsSorted b (sort b ls)
unfolding sort
IsSorted-sort b [] n d = tt
IsSorted-sort b (l ∷ ls) n d =
    IsSorted-insert_sorted b l (sort b ls) n.0 (All-sort _ b ls n.1) (All-sort _ b ls d.0)
      (IsSorted-sort b ls n.1 d.1)

lookup-insert_sorted :
    (b : Bool) (p : Double) (u : PriceLevel) (ls : List PriceLevel)
    → All (λ m. eq u.price m.price ≡ false) ls
    → lookup p (insert_sorted b u ls) ≡ lookup p (u ∷ ls)
unfolding insert_sorted
lookup-insert_sorted b p u [] d = refl
lookup-insert_sorted b p u (l ∷ ls) d = ground (arith, lookup-insert_sorted b p u ls d.1)

lookup-sort :
    (b : Bool) (p : Double) (ls : List PriceLevel)
    → IsDistinct ls
    → lookup p (sort b ls) ≡ lookup p ls
unfolding sort
lookup-sort b p [] d = refl
lookup-sort b p (l ∷ ls) d =
    lookup-insert_sorted b p l (sort b ls) (All-sort _ b ls d.0)
    ∙ ground (arith, lookup-sort b p ls d.1)

Reaches-insert_sorted :
    (b : Bool) (p : Double) (u : PriceLevel) (ls : List PriceLevel)
    → Reaches b p (insert_sorted b u ls)
    → Reaches b p (u ∷ ls)
unfolding insert_sorted
Reaches-insert_sorted b p u [] r = r
Reaches-insert_sorted b p u (l ∷ ls) r = ground (arith, Reaches-insert_sorted b p u ls)

Reaches-sort :
    (b : Bool) (p : Double) (ls : List PriceLevel) → Reaches b p (sort b ls) → Reaches b p ls
unfolding sort
Reaches-sort b p [] r = r
Reaches-sort b p (l ∷ ls) r = elim (Reaches-insert_sorted b p l (sort b ls) r) [
  | inl h ↦ inl h
  | inr h ↦ inr (Reaches-sort b p ls h)
]

Reaches-front :
    (b : Bool) (p : Double) (ls : List PriceLevel)
    → 0 < length ls
    → better b (front_price ls) p ≡ false
    → Reaches b p ls
Reaches-front b p [] l h = absurd (omega arith)
Reaches-front b p (x ∷ xs) l h = inl h

loaded-IsValid :
    (b : Bool) (limit : ℕ) (ls : List PriceLevel)
    → All HasNumbers ls
    → IsDistinct ls
    → IsValid b (length (sort b (positive ls))) (loaded b ls limit)
unfolding loaded
loaded-IsValid b limit ls n d = record {
  numbers = numbers;
  resting = All-sort IsResting b (positive ls) (positive-resting ls);
  sorted = sorted;
  edge = λ e. rw e (front-IsNumber (sort b (positive ls)) numbers);
  inside = λ e. rw e (front_inside b (sort b (positive ls)) numbers sorted);
  fits = omega arith;
}
  where
    numbers : All HasNumbers (sort b (positive ls))
    numbers = All-sort HasNumbers b (positive ls) (All-positive HasNumbers ls n)

    sorted : IsSorted b (sort b (positive ls))
    sorted = IsSorted-sort b (positive ls) (All-positive HasNumbers ls n) (IsDistinct-positive ls d)

-- A snapshot of numbers with distinct prices loads into a well-formed side.
pub load-IsValid :
    (b : Bool) (limit max_levels : ℕ) (ls : List PriceLevel)
    → All HasNumbers ls
    → IsDistinct ls
    → IsValid b max_levels (load b ls limit max_levels)
unfolding load
load-IsValid b limit max_levels ls n d =
    trim-IsValid b max_levels _ (loaded b ls limit) (loaded-IsValid b limit ls n d)

-- A price inside the horizon of a truncated snapshot is reached by it.
reached :
    (b : Bool) (limit : ℕ) (ls : List PriceLevel) (p : Double)
    → 0 < limit
    → leb limit (length ls) ≡ true
    → let cut = leb limit (length ls) && ltb 0 (length (sort b ls)) in
      in_horizon b
          (record {
            levels = sort b ls;
            bounded = cut;
            horizon = if cut then front_price (sort b ls) else nought;
          })
          p
        ≡ true
      → Reaches b p (sort b ls)
reached b limit ls p pos e near =
    let full : 0 < length (sort b ls) = ground (arith, length-sort b ls) in
    Reaches-front b p (sort b ls) full (ground arith)

loaded-IsExact :
    (b : Bool) (t : Exchange) (limit : ℕ) (ls : List PriceLevel)
    → 0 < limit
    → IsSnapshot b t limit ls
    → IsExact b t (loaded b ls limit)
unfolding loaded
loaded-IsExact b t limit ls pos snap p near =
    let resting = positive_all ls snap.rests in
    let near_listed = rw resting at near in
    rw resting (
      lookup-sort b (num p) ls snap.distinct ∙ elim (Bool-cases (leb limit (length ls))) [
        | inl e ↦
            snap.near p (Reaches-sort b (num p) ls (reached b limit ls (num p) pos e near_listed))
        | inr e ↦ snap.whole e p
      ])

-- With a limit and a cap above 0, a snapshot of the exchange's side, as the depth endpoint
-- documents its replies, loads into a side that is exact: it holds the exchange's quantity at every
-- price that it vouches for, up to its horizon.
pub load-IsExact :
    (b : Bool) (t : Exchange) (limit max_levels : ℕ) (ls : List PriceLevel)
    → 0 < limit
    → 0 < max_levels
    → IsSnapshot b t limit ls
    → IsExact b t (load b ls limit max_levels)
unfolding load
load-IsExact b t limit max_levels ls pos room snap =
    trim-IsExact b t max_levels _ (loaded b ls limit) room
      (loaded-IsValid b limit ls snap.numbers snap.distinct) (loaded-IsExact b t limit ls pos snap)
