-- ===== src/Publisher/Ring.antt =====
-- cpp/include/tp_publisher.hpp: the ring holds the newest rows with consecutive fhSeqNos.
use t2s.Base.{
  ℕ, zero, suc, ◌+◌, ◌-◌, ◌≤◌, ◌<◌, max, true, List, [], ◌∷◌, ◌++◌, length, drop, range, range-++,
  ltb, leb, if◌then◌else◌, ◌≡◌, refl, sym, ◌∙◌, ap, if_cases, Bool-cases, inl, inr, arith,
}
use t2s.Publisher.{ResendRing, push, drop_oldest, newest_of, after, missing_after}

unfoldable pub seqs : {R : Type 0} → List (ℕ × R) → List ℕ
seqs [] = []
seqs ((n, row) ∷ rows) = n ∷ seqs rows

-- The ring holds the rows first … next - 1, at most its capacity.
pub record IsRing {R : Type 0} (first next : ℕ) (r : ResendRing R) : Type 0 where
  pub room : 0 < r.capacity
  pub bounded : length r.rows ≤ r.capacity
  pub run : seqs r.rows ≡ range first (length r.rows)
  pub ends : first + length r.rows ≡ next

module _ {R : Type 0} where
  seqs-++ : (xs ys : List (ℕ × R)) → seqs (xs ++ ys) ≡ seqs xs ++ seqs ys
  unfolding seqs
  seqs-++ [] ys = refl
  seqs-++ ((n, row) ∷ xs) ys = ap (λ zs. n ∷ zs) (seqs-++ xs ys)

  pub length-snoc : (xs : List (ℕ × R)) (x : ℕ × R) → length (xs ++ (x ∷ [])) ≡ length xs + 1
  length-snoc [] x = omega arith
  length-snoc (y ∷ xs) x = ground (arith, length-snoc xs x)

  pub snoc-run :
      (first next : ℕ) (row : R) (rows : List (ℕ × R))
      → seqs rows ≡ range first (length rows)
      → first + length rows ≡ next
      → seqs (rows ++ ((next, row) ∷ [])) ≡ range first (length (rows ++ ((next, row) ∷ [])))
  unfolding seqs
  snoc-run first next row rows run ends =
      seqs-++ rows ((next, row) ∷ [])
      ∙ ap (λ zs. zs ++ (next ∷ [])) run
      ∙ rw (length-snoc rows (next, row), range-++ first (length rows) 1, ends) refl

  pub cons-run :
      (n first : ℕ) (row : R) (rows : List (ℕ × R))
      → seqs ((n, row) ∷ rows) ≡ range first (suc (length rows))
      → (n ≡ first) × (seqs rows ≡ range (suc first) (length rows))
  unfolding seqs
  cons-run n first row rows e = (cc, cc)

  -- Pushing the next row keeps the newest rows, in order and without a hole, within the capacity: it
  -- drops the oldest row when the ring is full, and none otherwise.
  pub push-IsRing :
      (first next : ℕ) (row : R) (r : ResendRing R)
      → IsRing first next r
      → IsRing
          (if leb r.capacity (length r.rows) then suc first else first)
          (suc next)
          (push next row r)
  unfolding push drop_oldest
  push-IsRing first next row r h = elim (Bool-cases (leb r.capacity (length r.rows))) [
    | inl full ↦ rw full (full_ring r.rows refl full)
    | inr free ↦ rw free (record {
      room = h.room;
      bounded = ground (arith, length-snoc r.rows (next, row));
      run = snoc-run first next row r.rows h.run h.ends;
      ends = ground (arith, length-snoc r.rows (next, row), h.ends);
    })
  ]
    where
      full_ring :
          (rows : List (ℕ × R))
          → r.rows ≡ rows
          → leb r.capacity (length r.rows) ≡ true
          → IsRing
              (suc first)
              (suc next)
              (record r { rows = drop_oldest r.rows ++ ((next, row) ∷ []) })
      full_ring [] e full =
          let size : length r.rows ≡ 0 = ap length e in absurd (ground (arith, h.room))
      full_ring ((n, oldest) ∷ rows) e full =
          let size : length r.rows ≡ suc (length rows) = ap length e in
          let run = sym (ap seqs e) ∙ h.run ∙ ap (λ m. range first m) size in
          let (head, tail) = cons-run n first oldest rows run in
          let ends : suc first + length rows ≡ next = ground (arith, h.ends) in
          rw e (record {
            room = h.room;
            bounded = ground (arith, length-snoc rows (next, row), h.bounded);
            run = snoc-run (suc first) next row rows tail ends;
            ends = ground (arith, length-snoc rows (next, row));
          })

  pub after-run :
      (logged first : ℕ) (rows : List (ℕ × R))
      → seqs rows ≡ range first (length rows)
      → seqs (after logged rows)
        ≡ range (max first (logged + 1)) (first + length rows - max first (logged + 1))
  unfolding after seqs
  after-run logged first [] run =
      let none_left : first + 0 - max first (logged + 1) ≡ 0 = ground arith in rw none_left refl
  after-run logged first ((n, row) ∷ rows) run =
      let (head, tail) = cons-run n first row rows run in
      if_cases
        (λ r.
          seqs r
          ≡ range (max first (logged + 1)) (first + suc (length rows) - max first (logged + 1)))
        (ltb logged n) ((n, row) ∷ after logged rows) (after logged rows)
        (λ e.
          let start : max first (logged + 1) ≡ first = ground arith in
          let start' : max (suc first) (logged + 1) ≡ suc first = ground arith in
          let count : first + suc (length rows) - first ≡ suc (length rows) = omega arith in
          let count' : suc first + length rows - suc first ≡ length rows = omega arith in
          let rest : seqs (after logged rows) ≡ range (suc first) (length rows) =
            after-run logged (suc first) rows tail ∙ rw (start', count') refl in
          rw (start, count, head) (ap (λ zs. first ∷ zs) rest))
        (λ e.
          let start : max (suc first) (logged + 1) ≡ max first (logged + 1) = ground arith in
          let count : suc first + length rows ≡ first + suc (length rows) = omega arith in
          after-run logged (suc first) rows tail ∙ rw (start, count) refl)

  pub missing_after-run :
      (logged first n : ℕ) (row : R) (rows : List (ℕ × R))
      → n ≡ first
      → missing_after logged ((n, row) ∷ rows) ≡ first - (logged + 1)
  unfolding missing_after
  missing_after-run logged first n row rows e = ground arith

  pub newest_of-run :
      (first : ℕ) (x : ℕ × R) (rows : List (ℕ × R))
      → seqs (x ∷ rows) ≡ range first (suc (length rows))
      → newest_of (x ∷ rows) ≡ first + length rows
  unfolding newest_of
  newest_of-run first (n, row) [] run = ground (arith, (cons-run n first row [] run).0)
  newest_of-run first (n, row) (y ∷ rows) run =
      ground (arith, newest_of-run (suc first) y rows (cons-run n first row (y ∷ rows) run).1)

  abbrev no_rows : List (ℕ × R)
  no_rows = []

  drop-none : (k : ℕ) → no_rows ≡ drop k no_rows
  drop-none zero = refl
  drop-none (suc k) = refl

  -- The rows after a number are the end of a run from there on.
  pub after-drop :
      (logged a : ℕ) (rows : List (ℕ × R))
      → seqs rows ≡ range a (length rows)
      → after logged rows ≡ drop (logged + 1 - a) rows
  unfolding after
  after-drop logged a [] run = drop-none (logged + 1 - a)
  after-drop logged a ((n, row) ∷ rows) run =
      let (head, tail) = cons-run n a row rows run in
      let rest = after-drop logged (suc a) rows tail in
      if_cases (λ r. r ≡ drop (logged + 1 - a) ((n, row) ∷ rows)) (ltb logged n)
        ((n, row) ∷ after logged rows) (after logged rows)
        (λ e.
          let zero₁ : logged + 1 - a ≡ 0 = ground arith in
          let zero₂ : logged + 1 - suc a ≡ 0 = ground arith in
          rw zero₁ (ap (λ zs. (n, row) ∷ zs) (rest ∙ rw zero₂ refl)))
        (λ e.
          let more : logged + 1 - a ≡ suc (logged + 1 - suc a) = ground arith in
          rest ∙ rw more refl)

  pub newest_of-snoc :
      (rows : List (ℕ × R)) (seq : ℕ) (row : R) → newest_of (rows ++ ((seq, row) ∷ [])) ≡ seq
  unfolding newest_of
  newest_of-snoc [] seq row = refl
  newest_of-snoc (x ∷ []) seq row = refl
  newest_of-snoc (x ∷ (y ∷ rows)) seq row = newest_of-snoc (y ∷ rows) seq row
