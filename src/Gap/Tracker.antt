-- ===== src/Gap/Tracker.antt =====
-- cpp/include/trade_gap.hpp: TradeIdTracker accounts for every id.
use t2s.Base.{
  ℕ, ◌+◌, ◌-◌, ◌≤◌, ◌<◌, max, true, false, Option, none, some, String, List, [], ◌∷◌, str_eq,
  eq_iff, ltb, leb, ◌==◌, if◌then◌else◌, ◌≡◌, refl, sym, ap, ◌∙◌, ◌⊎◌, inl, inr, if_cases,
  Bool-cases, arith,
}
use mathlib.Core.Path.{subst}
use mathlib.Core.Option.{some-injective}
use t2s.Gap.{
  Kind, first, in_order, gap, duplicate, out_of_order, Result, find, seed, classify, on_id,
}

-- A stream of ids of several symbols, and what the tracker said of each.
pub record Entry : Type 0 where
  pub sym : String
  pub id : ℕ
  pub kind : Kind

unfoldable pub feed : List (String × ℕ) → List (String × ℕ) → List (String × ℕ) × List Entry
feed [] t = (t, [])
feed ((s, id) ∷ ids) t =
    let after = on_id s id t in
    let rest = feed ids after.0 in
    (rest.0, record { sym = s; id = id; kind = after.1.kind } ∷ rest.1)

-- How many new ids an entry accounts for.
pub advance : Kind → ℕ
advance first = 0
advance in_order = 1
advance (gap a b) = b + 1 - a + 1
advance duplicate = 0
advance out_of_order = 0

pub total_advance : String → List Entry → ℕ
unfolding advance
total_advance sym [] = 0
total_advance sym (e ∷ es) = (if str_eq e.sym sym then advance e.kind else 0) + total_advance sym es

abbrev pub IsMissed : ℕ → Kind → Type 0
IsMissed x (gap a b) = (a ≤ x) × (x ≤ b)
IsMissed x _ = ⊥

-- The id was received for the symbol, or a gap reported for it holds the id.
pub IsAccounted : String → ℕ → List Entry → Type 0
IsAccounted sym x [] = ⊥
IsAccounted sym x (e ∷ es) =
    ((e.sym ≡ sym) × ((e.id ≡ x) ⊎ IsMissed x e.kind)) ⊎ IsAccounted sym x es

str_eq_refl : (s : String) → str_eq s s ≡ true
str_eq_refl s = ground (arith, eq_iff s s)

find-seed_self : (s : String) (id : ℕ) (t : List (String × ℕ)) → find s (seed s id t) ≡ some id
unfolding find seed
find-seed_self s id [] = rw (str_eq_refl s) refl
find-seed_self s id ((s', l) ∷ t) =
    if_cases (λ r. find s r ≡ some id) (str_eq s' s) ((s', id) ∷ t) ((s', l) ∷ seed s id t)
      (λ e. rw e refl) (λ e. rw e (find-seed_self s id t))

find-seed_ne :
    (s s' : String) (id : ℕ) (t : List (String × ℕ))
    → str_eq s s' ≡ false
    → find s' (seed s id t) ≡ find s' t
unfolding find seed
find-seed_ne s s' id [] h = rw h refl
find-seed_ne s s' id ((s2, l) ∷ t) h =
    if_cases (λ r. find s' r ≡ find s' ((s2, l) ∷ t)) (str_eq s2 s) ((s2, id) ∷ t)
      ((s2, l) ∷ seed s id t)
      (λ e.
        let other : str_eq s2 s' ≡ false = ground (arith, eq_iff s2 s, eq_iff s2 s', eq_iff s s') in
        rw other refl)
      (λ e. ap (λ r. if str_eq s2 s' then some l else r) (find-seed_ne s s' id t h))

-- An id of another symbol changes nothing for this one.
on_id_ne :
    (s s' : String) (id : ℕ) (t : List (String × ℕ))
    → str_eq s s' ≡ false
    → find s' (on_id s id t).0 ≡ find s' t
unfolding on_id
on_id_ne s s' id t h = go (find s t)
  where
    go :
        (o : Option ℕ)
        → find s'
            (elim o as (λ _. List (String × ℕ) × Result) [
              | none ↦ (seed s id t, record { kind = first; previous = 0 })
              | some last ↦ (
                if ltb last id then seed s id t else t,
                record { kind = classify last id; previous = last },
              )
            ]).0
          ≡ find s' t
    go none = find-seed_ne s s' id t h
    go (some last) =
        if_cases (λ r. find s' r ≡ find s' t) (ltb last id) (seed s id t) t
          (λ e. find-seed_ne s s' id t h) (λ e. refl)

-- What the tracker does with an id of a symbol that it knows.
on_id_self :
    (s : String) (id last : ℕ) (t : List (String × ℕ))
    → find s t ≡ some last
    → (find s (on_id s id t).0 ≡ some (max last id)) × ((on_id s id t).1.kind ≡ classify last id)
unfolding on_id
on_id_self s id last t e = go (find s t) e
  where
    go :
        (o : Option ℕ)
        → o ≡ some last
        → let r = elim o as (λ _. List (String × ℕ) × Result) [
          | none ↦ (seed s id t, record { kind = first; previous = 0 })
          | some l ↦
              (if ltb l id then seed s id t else t, record { kind = classify l id; previous = l })
        ] in
          (find s r.0 ≡ some (max last id)) × (r.1.kind ≡ classify last id)
    go none e = absurd cc
    go (some l) h =
        let same = some-injective l last h in
        (
          if_cases (λ r. find s r ≡ some (max last id)) (ltb l id) (seed s id t) t
              (λ b. let m : max last id ≡ id = ground arith in rw m (find-seed_self s id t))
              (λ b. let m : max last id ≡ last = ground arith in rw m e),
          rw same refl,
        )

-- The same for a name equal to the symbol's.
on_id_same :
    (s name : String) (id last : ℕ) (t : List (String × ℕ))
    → s ≡ name
    → find name t ≡ some last
    → (find name (on_id s id t).0 ≡ some (max last id)) × ((on_id s id t).1.kind ≡ classify last id)
on_id_same s name id last t same =
    subst
      (λ n.
        find n t ≡ some last
        → (find n (on_id s id t).0 ≡ some (max last id))
          × ((on_id s id t).1.kind ≡ classify last id))
      same (on_id_self s id last t)

-- An id moves the last id by what its kind accounts for.
classify-advance : (last id : ℕ) → last + advance (classify last id) ≡ max last id
unfolding classify advance
classify-advance last id =
    if_cases (λ k. last + advance k ≡ max last id) (id == last + 1) in_order _ (λ e. ground arith)
      (λ e1.
        if_cases (λ k. last + advance k ≡ max last id) (id == last) duplicate _ (λ e. ground arith)
          (λ e2.
            if_cases (λ k. last + advance k ≡ max last id) (ltb id last) out_of_order
              (gap (last + 1) (id - 1)) (λ e. ground arith) (λ e. ground arith)))

classify-accounts :
    (last id x : ℕ) → last < x → x ≤ max last id → (id ≡ x) ⊎ IsMissed x (classify last id)
unfolding classify
classify-accounts last id x above below =
    if_cases (λ k. (id ≡ x) ⊎ IsMissed x k) (id == last + 1) in_order _ (λ e. inl ground arith)
      (λ e1.
        if_cases (λ k. (id ≡ x) ⊎ IsMissed x k) (id == last) duplicate _ (λ e. inl ground arith)
          (λ e2.
            if_cases (λ k. (id ≡ x) ⊎ IsMissed x k) (ltb id last) out_of_order
              (gap (last + 1) (id - 1)) (λ e. inl ground arith) (λ e. ground arith)))

-- For every stream of ids of any symbols, from a state in which a symbol's last id is known: the
-- last id at the end is not smaller; every id after the known one and up to the last was received
-- for the symbol or lies in a gap reported for it; and the in-order ids, with one and the missing
-- ids for each gap, add up to exactly the distance, so that nothing is reported twice.
pub ids-IsAccounted :
    (name : String) (ids t : List (String × ℕ)) (last : ℕ)
    → find name t ≡ some last
    → let out = feed ids t in
      (end_id : ℕ) × (find name out.0 ≡ some end_id)
      × (last + total_advance name out.1 ≡ end_id)
      × ((x : ℕ) → last < x → x ≤ end_id → IsAccounted name x out.1)
unfolding feed total_advance IsAccounted
ids-IsAccounted name [] t last e = (last, e, ground arith, λ x h k. absurd (omega arith))
ids-IsAccounted name ((s, id) ∷ ids) t last e = elim (Bool-cases (str_eq s name)) [
  | inl same ↦
      let eq : s ≡ name = ground (arith, eq_iff s name) in
      let (found_now, kind) = on_id_same s name id last t eq e in
      let (end_id, found, sum, all) =
        ids-IsAccounted name ids (on_id s id t).0 (max last id) found_now in
      (
        end_id,
        found,
        rw (same, kind) ground (arith, classify-advance last id, sum),
        λ x h k. elim (Bool-cases (leb x (max last id))) [
          | inl early ↦ inl (eq, rw kind (classify-accounts last id x h ground arith))
          | inr late ↦ inr (all x ground arith k)
        ],
      )
  | inr other ↦
      let (end_id, found, sum, all) =
        ids-IsAccounted name ids (on_id s id t).0 last (on_id_ne s name id t other ∙ e) in
      (end_id, found, rw other ground (arith, sum), λ x h k. inr (all x h k))
]
