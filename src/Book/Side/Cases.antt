-- ===== src/Book/Side/Cases.antt =====
-- The five ways `write_at` can go, as one case rule, and the validity of its result.
use t2s.Base.{ℕ, suc, ◌++◌, ◌≡◌, refl, sym, Bool, true, false, List, [], ◌∷◌, Bool-cases, inl, inr}
use mathlib.Core.Path.{subst}
use t2s.Book.Double.{nought, eq}
use t2s.Book.Types.{PriceLevel}
use t2s.Book.Side.{Side, in_horizon, trim, lower_bound, found, write_at, update}
use t2s.Book.Side.Levels.{HasNumbers, lower_bound-append}
use t2s.Book.Side.Splice.{rest_of_miss, IsSorted-right}
use t2s.Book.Side.Invariant.{
  IsValid, IsPosition, lower_bound-IsPosition, with_levels, erase-IsValid, set-IsValid,
  insert-IsValid, trim-IsValid,
}
use t2s.Base.{All-right}

module _ (b : Bool) (u : PriceLevel) (k : ℕ) (s : Side) (before : List PriceLevel) where
  -- A case for each branch, with what the branch has tested.
  pub write_at_cases {ℓ} :
      (P : List PriceLevel → Side → Type ℓ) (rest : List PriceLevel)
      → ((h : PriceLevel) (r : List PriceLevel)
          → eq h.price u.price ≡ true
          → eq u.qty nought ≡ true
          → P (h ∷ r) (with_levels s (before ++ r)))
      → ((h : PriceLevel) (r : List PriceLevel)
          → eq h.price u.price ≡ true
          → eq u.qty nought ≡ false
          → P (h ∷ r) (with_levels s (before ++ record h { qty = u.qty } ∷ r)))
      → (found u.price rest ≡ false
          → eq u.qty nought ≡ true
          → P rest (with_levels s (before ++ rest)))
      → (found u.price rest ≡ false
          → eq u.qty nought ≡ false
          → in_horizon b s u.price ≡ false
          → P rest (with_levels s (before ++ rest)))
      → (found u.price rest ≡ false
          → eq u.qty nought ≡ false
          → in_horizon b s u.price ≡ true
          → P rest (trim k (with_levels s (before ++ u ∷ rest))))
      → P rest (write_at b u k (with_levels s (before ++ rest)) before rest)
  unfolding write_at
  write_at_cases P [] erased set_ absent beyond new = elim (Bool-cases (eq u.qty nought)) [
    | inl z ↦ rw z (absent refl z)
    | inr z ↦ elim (Bool-cases (in_horizon b s u.price)) [
      | inl i ↦ rw (z, i) (new refl z i)
      | inr i ↦ rw (z, i) (beyond refl z i)
    ]
  ]
  write_at_cases P (h ∷ r) erased set_ absent beyond new = elim (Bool-cases (eq h.price u.price)) [
    | inl e ↦ elim (Bool-cases (eq u.qty nought)) [
      | inl z ↦ rw (z, e) (erased h r e z)
      | inr z ↦ rw (z, e) (set_ h r e z)
    ]
    | inr e ↦ elim (Bool-cases (eq u.qty nought)) [
      | inl z ↦ rw (z, e) (absent e z)
      | inr z ↦ elim (Bool-cases (in_horizon b s u.price)) [
        | inl i ↦ rw (z, e, i) (new e z i)
        | inr i ↦ rw (z, e, i) (beyond e z i)
      ]
    ]
  ]

  write_at-IsValid :
      (rest : List PriceLevel)
      → HasNumbers u
      → IsPosition b u.price before rest
      → IsValid b k (with_levels s (before ++ rest))
      → IsValid b k (write_at b u k (with_levels s (before ++ rest)) before rest)
  write_at-IsValid rest n at v =
      write_at_cases
        (λ xs t.
          IsPosition b u.price before xs
          → IsValid b k (with_levels s (before ++ xs))
          → IsValid b k t)
        rest (λ h r e z at v. erase-IsValid b u s k before h r v)
        (λ h r e z at v. set-IsValid b u s k before h r n.1 z v) (λ e z at v. v) (λ e z i at v. v)
        (λ e z i at v. trim-IsValid b k (suc k) _ (
          insert-IsValid b u s k before rest n z at.worse
            (rest_of_miss b u.price rest n.0 (All-right _ before rest v.numbers)
              (IsSorted-right b before rest v.sorted) at.head e)
            i v))
        at v

-- An update keeps a side well formed.
pub update-IsValid :
    (b : Bool) (u : PriceLevel) (k : ℕ) (s : Side)
    → HasNumbers u
    → IsValid b k s
    → IsValid b k (update b u k s)
unfolding update
update-IsValid b u k s n v =
    let whole = lower_bound-append b u.price s.levels in
    let (before, rest) = lower_bound b u.price s.levels in
    subst (λ ls. IsValid b k (write_at b u k (with_levels s ls) before rest)) whole
      (write_at-IsValid b u k s before rest n (lower_bound-IsPosition b u.price s.levels)
        (subst (λ ls. IsValid b k (with_levels s ls)) (sym whole) v))
