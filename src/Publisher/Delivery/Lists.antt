-- ===== src/Publisher/Delivery/Lists.antt =====
-- Sublists, and the parts of a list of numbered rows: what the proofs on a link need of lists.
use t2s.Base.{
  ℕ, zero, suc, ◌+◌, ◌-◌, ◌≤◌, List, [], ◌∷◌, ◌++◌, length, take, drop, range, ◌≡◌, refl, sym, ◌∙◌,
  ap, arith,
}
use t2s.Publisher.Ring.{seqs, cons-run}

-- ys is xs with some elements left out, in order.
pub data Sublist {A : Type 0} : List A → List A → Type 0 where
  end : Sublist [] []
  keep : (x : A) {ys xs : List A} → Sublist ys xs → Sublist (x ∷ ys) (x ∷ xs)
  skip : (x : A) {ys xs : List A} → Sublist ys xs → Sublist ys (x ∷ xs)

module _ {A : Type 0} where
  pub Sublist-none : (xs : List A) → Sublist [] xs
  Sublist-none [] = end
  Sublist-none (x ∷ xs) = skip x (Sublist-none xs)

  pub Sublist-++ :
      {ys xs ys' xs' : List A} → Sublist ys xs → Sublist ys' xs' → Sublist (ys ++ ys') (xs ++ xs')
  Sublist-++ end t = t
  Sublist-++ (keep x s) t = keep x (Sublist-++ s t)
  Sublist-++ (skip x s) t = skip x (Sublist-++ s t)

  pub Sublist-wider : {ys xs : List A} (zs : List A) → Sublist ys xs → Sublist ys (xs ++ zs)
  Sublist-wider zs end = Sublist-none zs
  Sublist-wider zs (keep x s) = keep x (Sublist-wider zs s)
  Sublist-wider zs (skip x s) = skip x (Sublist-wider zs s)

  Sublist-length : {ys xs : List A} → Sublist ys xs → length ys ≤ length xs
  Sublist-length end = omega arith
  Sublist-length (keep x s) = ground (arith, Sublist-length s)
  Sublist-length (skip x s) = ground (arith, Sublist-length s)

  -- A sublist that leaves out none is the whole list.
  pub Sublist-whole : {ys xs : List A} → Sublist ys xs → length ys ≡ length xs → ys ≡ xs
  Sublist-whole end e = refl
  Sublist-whole (keep x s) e = ap (λ zs. x ∷ zs) (Sublist-whole s (omega arith))
  Sublist-whole (skip x s) e = absurd (ground (arith, Sublist-length s))

  abbrev nil : List A
  nil = []

  pub take-nil : (k : ℕ) → take k nil ≡ nil
  take-nil zero = refl
  take-nil (suc k) = refl

  pub drop-nil : (k : ℕ) → drop k nil ≡ nil
  drop-nil zero = refl
  drop-nil (suc k) = refl

  pub take-more :
      (l m : ℕ) (xs : List A) → l ≤ m → take m xs ≡ take l xs ++ take (m - l) (drop l xs)
  take-more zero m xs h = ap (λ k. take k xs) (omega arith)
  take-more (suc l) zero xs h = absurd (omega arith)
  take-more (suc l) (suc m) [] h = sym (take-nil (suc m - suc l))
  take-more (suc l) (suc m) (x ∷ xs) h =
      ap (λ zs. x ∷ zs)
        (take-more l m xs (omega arith) ∙ ap (λ k. take l xs ++ take k (drop l xs)) (omega arith))

  pub take-next :
      (m : ℕ) (P xs : List A) (x : A) → drop m P ≡ x ∷ xs → take (suc m) P ≡ take m P ++ (x ∷ [])
  take-next zero [] xs x e = absurd cc
  take-next zero (y ∷ P) xs x e = cc
  take-next (suc m) [] xs x e = absurd cc
  take-next (suc m) (y ∷ P) xs x e = ap (λ zs. y ∷ zs) (take-next m P xs x e)

  pub length-drop-next : (m : ℕ) (P xs : List A) (x : A) → drop m P ≡ x ∷ xs → suc m ≤ length P
  length-drop-next zero [] xs x e = absurd cc
  length-drop-next zero (y ∷ P) xs x e = omega arith
  length-drop-next (suc m) [] xs x e = absurd cc
  length-drop-next (suc m) (y ∷ P) xs x e = omega (arith, length-drop-next m P xs x e)

  pub drop-next : (m : ℕ) (P xs : List A) (x : A) → drop m P ≡ x ∷ xs → drop (suc m) P ≡ xs
  drop-next zero [] xs x e = absurd cc
  drop-next zero (y ∷ P) xs x e = cc
  drop-next (suc m) [] xs x e = absurd cc
  drop-next (suc m) (y ∷ P) xs x e = drop-next m P xs x e

  pub drop-drop : (m n : ℕ) (xs : List A) → drop m (drop n xs) ≡ drop (n + m) xs
  drop-drop m zero xs = ap (λ k. drop k xs) (omega arith)
  drop-drop zero (suc n) [] = sym (drop-nil (suc n + 0))
  drop-drop (suc m) (suc n) [] = sym (drop-nil (suc n + suc m))
  drop-drop m (suc n) (x ∷ xs) =
      let e : suc (n + m) ≡ suc n + m = omega arith in
      drop-drop m n xs ∙ ap (λ k. drop k (x ∷ xs)) e

  pub take-snoc :
      (m : ℕ) (xs : List A) (x : A) → m ≤ length xs → take m (xs ++ (x ∷ [])) ≡ take m xs
  take-snoc zero xs x h = refl
  take-snoc (suc m) [] x h = absurd (omega arith)
  take-snoc (suc m) (y ∷ xs) x h = ap (λ zs. y ∷ zs) (take-snoc m xs x (omega arith))

  pub drop-snoc :
      (m : ℕ) (xs : List A) (x : A)
      → m ≤ length xs
      → drop m (xs ++ (x ∷ [])) ≡ drop m xs ++ (x ∷ [])
  drop-snoc zero xs x h = refl
  drop-snoc (suc m) [] x h = absurd (omega arith)
  drop-snoc (suc m) (y ∷ xs) x h = drop-snoc m xs x (omega arith)

  pub drop-all : (xs : List A) → drop (length xs) xs ≡ []
  drop-all [] = refl
  drop-all (x ∷ xs) = drop-all xs

  pub drop-++ : (xs ys : List A) → drop (length xs) (xs ++ ys) ≡ ys
  drop-++ [] ys = refl
  drop-++ (x ∷ xs) ys = drop-++ xs ys

module _ {R : Type 0} where
  -- The numbers of the rows are consecutive from a on.
  pub seq_of-drop :
      (a m : ℕ) (P xs : List (ℕ × R)) (s : ℕ) (row : R)
      → seqs P ≡ range a (length P)
      → drop m P ≡ (s, row) ∷ xs
      → s ≡ a + m
  seq_of-drop a zero [] xs s row run e = absurd cc
  seq_of-drop a zero ((n, r) ∷ P) xs s row run e =
      let head = (cons-run n a r P run).0 in let same : s ≡ n = cc in omega arith
  seq_of-drop a (suc m) [] xs s row run e = absurd cc
  seq_of-drop a (suc m) ((n, r) ∷ P) xs s row run e =
      let same = seq_of-drop (suc a) m P xs s row (cons-run n a r P run).1 e in omega arith

  pub seqs-drop :
      (m a : ℕ) (P : List (ℕ × R))
      → seqs P ≡ range a (length P)
      → m ≤ length P
      → seqs (drop m P) ≡ range (a + m) (length (drop m P))
  seqs-drop zero a P run h = run ∙ ap (λ b. range b (length P)) (omega arith)
  seqs-drop (suc m) a [] run h = absurd (omega arith)
  seqs-drop (suc m) a ((n, row) ∷ P) run h =
      seqs-drop m (suc a) P (cons-run n a row P run).1 (omega arith)
      ∙ ap (λ b. range b (length (drop m P))) (omega arith)

module _ {A : Type 0} where
  pub take-all : (xs : List A) → take (length xs) xs ≡ xs
  take-all [] = refl
  take-all (x ∷ xs) = ap (λ zs. x ∷ zs) (take-all xs)

  -- Nothing is left only past the end.
  pub drop-none : (m : ℕ) (xs : List A) → drop m xs ≡ [] → length xs ≤ m
  drop-none m [] e = omega arith
  drop-none zero (x ∷ xs) e = absurd cc
  drop-none (suc m) (x ∷ xs) e = ground (arith, drop-none m xs e)
