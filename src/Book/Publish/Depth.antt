-- ===== src/Book/Publish/Depth.antt =====
-- getQuote against the exchange's book: the published slots are its best levels, and no level is
-- missing between them.
use t2s.Base.{
  ℕ, ◌≡◌, refl, ◌∙◌, ◌⊎◌, inl, inr, Bool, true, false, some, List, [], ◌∷◌, arith, reverse, All,
  All-map, Bool-cases,
}
use t2s.Book.Double.{Double, num, IsNumber}
use t2s.Book.Types.{PriceLevel}
use t2s.Book.Side.{Side, better, below, in_horizon}
use t2s.Book.Side.Levels.{HasNumbers, BetterThan, NotWorseThan, lookup}
use t2s.Book.Side.Invariant.{IsValid}
use t2s.Book.Side.Truth.{Exchange, quoted, IsExact}
use t2s.Book.Publish.{fill_slots}
use t2s.Book.Publish.Padded.{
  pad_take, length-reverse, fill_slots_lem, All-reverse, All-pad_take, All-pad_take_or,
}
use t2s.Book.Publish.Ranked.{
  IsRanked-reverse, lookup-reverse, IsQuoted, ShowsBest, length-pad_take, top_or_below, lookup_self,
  IsQuoted-level, AreRanked-pad_take,
}

module _ (b : Bool) (t : Exchange) (k n : ℕ) (s : Side) (v : IsValid b k s)
    (x : IsExact b t s) where
  -- A level inside the horizon is among the slots or worse than all of them.
  slots_inside :
      (p : ℕ) (q : Double)
      → quoted (t p) ≡ some q
      → in_horizon b s (num p) ≡ true
      → (lookup (num p) (pad_take n (reverse s.levels)) ≡ some q)
        ⊎ All (BetterThan b (num p)) (pad_take n (reverse s.levels))
  slots_inside p q e i =
      top_or_below b (num p) q n (reverse s.levels) (IsRanked-reverse b s.levels v.sorted)
        (lookup-reverse b (num p) s.levels v.sorted ∙ (x p i ∙ e))

  -- Where the side has levels enough, one beyond the horizon is worse than all slots.
  slots_beyond :
      (p : ℕ)
      → below s n ≡ false
      → in_horizon b s (num p) ≡ false
      → All (BetterThan b (num p)) (pad_take n (reverse s.levels))
  slots_beyond p full i =
      All-pad_take (BetterThan b (num p)) n (reverse s.levels)
        (rw (length-reverse s.levels) (ground arith))
        (All-reverse _ s.levels (over s.levels v.numbers (v.inside bounded)))
    where
      bounded : s.bounded ≡ true
      bounded = ground arith

      over_one :
          (y : Double)
          → IsNumber s.horizon
          → IsNumber y
          → better b s.horizon y ≡ false
          → better b s.horizon (num p) ≡ true
          → better b y (num p) ≡ true
      over_one y m n h g = ground arith

      over :
          (ls : List PriceLevel)
          → All HasNumbers ls
          → All (NotWorseThan b s.horizon) ls
          → All (BetterThan b (num p)) ls
      over [] m a = tt
      over (l ∷ ls) m a =
          (over_one l.price (v.edge bounded) m.0.0 a.0 (ground arith), over ls m.1 a.1)

  -- The levels of the side are the exchange's.
  levels-IsQuoted : All (IsQuoted t) s.levels
  levels-IsQuoted =
      each s.levels v.numbers (ground_inside s.bounded refl)
        (lookup_self b s.levels v.numbers v.sorted)
    where
      ground_inside : (c : Bool) → s.bounded ≡ c → All (λ l. in_horizon b s l.price ≡ true) s.levels
      ground_inside true e = All-map _ _ (λ l h. rw e (rw h)) s.levels (v.inside e)
      ground_inside false e = all s.levels
        where
          all : (ls : List PriceLevel) → All (λ l. in_horizon b s l.price ≡ true) ls
          all [] = tt
          all (l ∷ ls) = (rw e, all ls)

      each :
          (ls : List PriceLevel)
          → All HasNumbers ls
          → All (λ l. in_horizon b s l.price ≡ true) ls
          → All (λ l. lookup l.price s.levels ≡ some l.qty) ls
          → All (IsQuoted t) ls
      each [] m i e = tt
      each (l ∷ ls) m i e = (IsQuoted-level b t s l x m.0.0 i.0 e.0, each ls m.1 i.1 e.1)

  -- For a well-formed and exact side that does not run short of n levels: the n slots that getQuote
  -- fills show the exchange's best n levels. Each is real or empty, they are ranked from the best,
  -- and every level of the exchange is among them or worse than all of them.
  pub fill_slots-ShowsBest : below s n ≡ false → ShowsBest b t n (fill_slots s.levels 0 n)
  fill_slots-ShowsBest full = rw (fill_slots_lem s.levels n 0) (record {
    count = length-pad_take n (reverse s.levels);
    real =
        All-pad_take_or (IsQuoted t) _ n (reverse s.levels) (λ l h. inr h) (inl refl)
          (All-reverse (IsQuoted t) s.levels levels-IsQuoted);
    ranked = AreRanked-pad_take b n (reverse s.levels) (IsRanked-reverse b s.levels v.sorted);
    complete = λ p q e. elim (Bool-cases (in_horizon b s (num p))) [
      | inl i ↦ slots_inside p q e i
      | inr i ↦ inr (slots_beyond p full i)
    ];
  })
