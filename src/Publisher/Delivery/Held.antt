-- ===== src/Publisher/Delivery/Held.antt =====
-- cpp/include/tp_publisher.hpp: what the ring holds of the rows P that the handler published.
use t2s.Base.{
  ℕ, suc, ◌+◌, ◌-◌, ◌≤◌, ◌<◌, max, true, false, List, [], ◌∷◌, ◌++◌, length, length-append, drop,
  range, leb, ◌||◌, ◌≡◌, refl, sym, ◌∙◌, ap, if_cases, arith,
}
use mathlib.Core.Path.{subst}
use t2s.Publisher.{ResendRing, newest_of, after, missing_after, is_empty, push, drop_oldest}
use t2s.Publisher.Ring.{seqs, after-drop}
use t2s.Publisher.Resend.{run_facts}
use t2s.Publisher.Delivery.Lists.{drop-next, drop-drop, drop-snoc, seqs-drop}

-- The ring holds the rows of P after the first `gone`, the newest one among them.
pub record IsHeld {R : Type 0} (P : List (ℕ × R)) (r : ResendRing R) : Type 0 where
  pub gone : ℕ
  pub room : 0 < r.capacity
  pub held : r.rows ≡ drop gone P
  pub size : gone + length r.rows ≡ length P
  pub newest : 0 < length P → gone < length P

module _ {R : Type 0} where
  pub push-IsHeld :
      (P : List (ℕ × R)) (seq : ℕ) (row : R) (r : ResendRing R)
      → IsHeld P r
      → IsHeld (P ++ ((seq, row) ∷ [])) (push seq row r)
  unfolding push drop_oldest
  push-IsHeld P seq row r h =
      let size = length-append P ((seq, row) ∷ []) in
      let Q : List (ℕ × R) → Type 0 =
        λ rows. IsHeld (P ++ ((seq, row) ∷ [])) (record r { rows = rows ++ ((seq, row) ∷ []) }) in
      if_cases Q (leb r.capacity (length r.rows)) (drop_oldest r.rows) r.rows
        (λ full. full_ring r.rows refl full)
        (λ free.
          let more = length-append r.rows ((seq, row) ∷ []) in
          record {
            gone = h.gone;
            room = h.room;
            held = rw (h.held) (sym (drop-snoc h.gone P (seq, row) (omega (arith, h.size))));
            size = omega (arith, size, more, h.size);
            newest = λ e. omega (arith, size, h.size);
          })
    where
      full_ring :
          (rows : List (ℕ × R))
          → r.rows ≡ rows
          → leb r.capacity (length r.rows) ≡ true
          → IsHeld
              (P ++ ((seq, row) ∷ []))
              (record r { rows = drop_oldest r.rows ++ ((seq, row) ∷ []) })
      full_ring [] e full =
          let none_ : length r.rows ≡ 0 = ap length e in absurd (ground (arith, h.room))
      full_ring (oldest ∷ rows) e full =
          let size = length-append P ((seq, row) ∷ []) in
          let more = length-append rows ((seq, row) ∷ []) in
          let all : length r.rows ≡ suc (length rows) = ap length e in
          let next : drop h.gone P ≡ oldest ∷ rows = sym h.held ∙ e in
          let rest : rows ≡ drop (suc h.gone) P = sym (drop-next h.gone P rows oldest next) in
          let within : suc h.gone ≤ length P = omega (arith, h.size) in
          let end_ : rows ++ ((seq, row) ∷ []) ≡ drop (suc h.gone) (P ++ ((seq, row) ∷ [])) =
            ap (λ zs. zs ++ ((seq, row) ∷ [])) rest
            ∙ sym (drop-snoc (suc h.gone) P (seq, row) within) in
          rw e (record {
            gone = suc h.gone;
            room = h.room;
            held = end_;
            size = omega (arith, size, more, h.size);
            newest = λ f. omega (arith, size, h.size);
          })

  -- What the ring holds is a run of numbers.
  held-run :
      (P : List (ℕ × R)) (r : ResendRing R) (h : IsHeld P r)
      → seqs P ≡ range 1 (length P)
      → seqs r.rows ≡ range (1 + h.gone) (length r.rows)
  held-run P r h run =
      subst (λ rows. seqs rows ≡ range (1 + h.gone) (length rows)) (sym h.held)
        (seqs-drop h.gone 1 P run (omega (arith, h.size)))

  -- The rows that a resend writes, from the last number that TP has seen.
  pub after-held :
      (P : List (ℕ × R)) (seen : ℕ) (r : ResendRing R) (h : IsHeld P r)
      → seqs P ≡ range 1 (length P)
      → after seen r.rows ≡ drop (max h.gone seen) P
  after-held P seen r h run =
      let e : h.gone + (seen + 1 - (1 + h.gone)) ≡ max h.gone seen = ground arith in
      after-drop seen (1 + h.gone) r.rows (held-run P r h run)
      ∙ ap (λ rows. drop (seen + 1 - (1 + h.gone)) rows) h.held
      ∙ drop-drop (seen + 1 - (1 + h.gone)) h.gone P
      ∙ ap (λ m. drop m P) e

  -- Nothing is to be resent exactly when TP has seen all numbers.
  pub at_end :
      (P : List (ℕ × R)) (seen : ℕ) (r : ResendRing R) (h : IsHeld P r)
      → seqs P ≡ range 1 (length P)
      → seen ≤ length P
      → let shown = is_empty r.rows || leb (newest_of r.rows) seen in
        (shown ≡ true → seen ≡ length P)
        × (shown ≡ false
            → (seen < length P) × (missing_after seen r.rows ≡ 1 + h.gone - (seen + 1)))
  at_end P seen r h run within = go r.rows refl
    where
      go :
          (rows : List (ℕ × R))
          → r.rows ≡ rows
          → let shown = is_empty rows || leb (newest_of rows) seen in
            (shown ≡ true → seen ≡ length P)
            × (shown ≡ false
                → (seen < length P) × (missing_after seen rows ≡ 1 + h.gone - (seen + 1)))
      go [] e =
          let size : length r.rows ≡ 0 = ap length e in
          let none_ : length P ≡ 0 = ground (arith, h.newest, h.size, size) in
          (λ f. omega arith, λ f. absurd cc)
      go (x ∷ rows) e =
          let size : length r.rows ≡ suc (length rows) = ap length e in
          let run' =
            subst (λ zs. seqs zs ≡ range (1 + h.gone) (length zs)) e (held-run P r h run) in
          let (full, newest, gone) = run_facts seen (1 + h.gone) (x ∷ rows) run' (omega arith) in
          (
            λ f. ground (arith, newest, h.size, size),
            λ f. (ground (arith, newest, h.size, size), gone),
          )
