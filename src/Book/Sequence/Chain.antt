-- ===== src/Book/Sequence/Chain.antt =====
-- The events a book applies leave no hole: they cover every update id on spot, and on futures each
-- names the one before it.
use t2s.Base.{
  ℕ, ◌≤◌, ◌<◌, ◌≡◌, ◌≢◌, refl, ◌⊎◌, Bool, true, false, some, List, [], ◌∷◌, arith, if_cases, sym,
  ap, ◌∙◌, if◌then◌else◌,
}
use mathlib.Core.Path.{subst}
use t2s.Market.{DepthSync, spot, futures}
use t2s.Book.Types.{BufferedDelta}
use t2s.Book.Sequence.{
  Seq, Verdict, skip, apply, fail, check_sequence, check_sequence_kept, at_event,
}

-- The bookkeeping and the events applied so far, latest first, of a book that reads a stream; a
-- failed check ends the reading.
pub record Reading : Type 0 where
  pub seq : Seq
  pub applied : List BufferedDelta
  pub broken : Bool

abbrev pub judged : Verdict × Seq → BufferedDelta → Reading → Reading
judged (skip, s) d r = record r { seq = s }
judged (apply, s) d r = record { seq = at_event s d; applied = d ∷ r.applied; broken = r.broken }
judged (fail, s) d r = record r { seq = s; broken = true }

unfoldable pub read : DepthSync → List BufferedDelta → Reading → Reading
unfolding check_sequence
read sync [] r = r
read sync (d ∷ ds) r =
    read sync ds (if r.broken then r else judged (check_sequence sync r.seq d) d r)

-- What every check keeps, the reading keeps.
read_induction :
    (P : Reading → Type 0) (sync : DepthSync)
    → ((d : BufferedDelta) (r : Reading) → P r → P (judged (check_sequence sync r.seq d) d r))
    → (ds : List BufferedDelta) (r : Reading) → P r
    → P (read sync ds r)
unfolding read
read_induction P sync step [] r h = h
read_induction P sync step (d ∷ ds) r h =
    read_induction P sync step ds _ (if_cases P r.broken _ _ (λ _. h) (λ _. step d r h))

-- A snapshot with this id has just been loaded.
abbrev pub at_snapshot : ℕ → Reading
at_snapshot id = record {
  seq = record { need_bridge = true; snapshot_id = id; last_id = id };
  applied = [];
  broken = false;
}

abbrev pub Spans : ℕ → BufferedDelta → Type 0
Spans i d = (d.first_update_id ≤ i) × (i ≤ d.final_update_id)

-- Some applied event spans the update id.
abbrev pub IsCovered : ℕ → List BufferedDelta → Type 0
IsCovered i [] = ⊥
IsCovered i (d ∷ ds) = Spans i d ⊎ IsCovered i ds

-- The rule for the first event after a futures snapshot.
abbrev pub Bridges : ℕ → BufferedDelta → Type 0
Bridges id d =
    (d.prev_final_update_id ≡ some id) ⊎ ((d.first_update_id ≤ id) × (id ≤ d.final_update_id))

-- Each event names the last id of the one before it, and the first bridges to the snapshot.
abbrev pub IsLinked : ℕ → List BufferedDelta → Type 0
IsLinked id [] = Unit
IsLinked id (d ∷ []) = Bridges id d
IsLinked id (d ∷ e ∷ ds) = (d.prev_final_update_id ≡ some e.final_update_id) × IsLinked id (e ∷ ds)

-- The invariant of a spot reading.
record SpotInv (id : ℕ) (r : Reading) : Type 0 where
  base : r.seq.snapshot_id ≡ id
  waiting : r.seq.need_bridge ≡ true → r.seq.last_id ≡ id
  covered : (i : ℕ) → id < i → i ≤ r.seq.last_id → IsCovered i r.applied

judged-SpotInv :
    (id : ℕ) (d : BufferedDelta) (r : Reading)
    → SpotInv id r
    → SpotInv id (judged (check_sequence spot r.seq d) d r)
unfolding check_sequence
judged-SpotInv id d r v = record {
  base = ground (arith, v.base);
  waiting = ground (arith, v.waiting);
  covered = λ i h k. ground (arith, v.base, v.waiting, v.covered i h);
}

-- Spot: after any events, each update id from the snapshot's up to the one the book is at lies in an
-- event that was applied; a hole is never skipped over.
pub read_spot-covers :
    (id : ℕ) (ds : List BufferedDelta)
    → let r = read spot ds (at_snapshot id) in
      (i : ℕ) → id < i → i ≤ r.seq.last_id → IsCovered i r.applied
read_spot-covers id ds =
    (read_induction (SpotInv id) spot (judged-SpotInv id) ds (at_snapshot id) (record {
      base = refl;
      waiting = λ _. refl;
      covered = λ i h k. absurd (omega arith);
    })).covered

-- The last id that a reading stands at is that of the last event applied.
abbrev LastId : ℕ → List BufferedDelta → ℕ → Type 0
LastId id [] n = n ≡ id
LastId id (d ∷ ds) n = n ≡ d.final_update_id

-- The invariant of a futures reading.
record FuturesInv (id : ℕ) (r : Reading) : Type 0 where
  base : r.seq.snapshot_id ≡ id
  last : LastId id r.applied r.seq.last_id
  fresh : r.seq.need_bridge ≡ true → r.applied ≡ []
  bridged : r.seq.need_bridge ≡ false → r.applied ≢ []
  linked : IsLinked id r.applied

link :
    (id : ℕ) (d : BufferedDelta) (ds : List BufferedDelta) (s : Seq)
    → s.snapshot_id ≡ id
    → LastId id ds s.last_id
    → (s.need_bridge ≡ true → ds ≡ [])
    → (s.need_bridge ≡ false → ds ≢ [])
    → IsLinked id ds
    → (check_sequence futures s d).0 ≡ apply
    → IsLinked id (d ∷ ds)
unfolding check_sequence
link id d [] s base last fresh bridged linked e = ground (arith, bridged)
link id d (x ∷ ds) s base last fresh bridged linked e = ground (arith, fresh)

judged-FuturesInv :
    (id : ℕ) (d : BufferedDelta) (r : Reading)
    → FuturesInv id r
    → FuturesInv id (judged (check_sequence futures r.seq d) d r)
judged-FuturesInv id d r v = go (check_sequence futures r.seq d) refl
  where
    go : (o : Verdict × Seq) → check_sequence futures r.seq d ≡ o → FuturesInv id (judged o d r)
    go (skip, s) e =
        let same : s ≡ r.seq =
          sym (ap (λ o. o.1) e) ∙ (check_sequence_kept futures r.seq d).1 (ap (λ o. o.0) e) in
        subst (λ q. FuturesInv id (record r { seq = q })) (sym same) v
    go (fail, s) e =
        let same : s ≡ r.seq =
          sym (ap (λ o. o.1) e) ∙ (check_sequence_kept futures r.seq d).2 (ap (λ o. o.0) e) in
        subst (λ q. FuturesInv id (record r { seq = q; broken = true })) (sym same)
          (record {
            base = v.base;
            last = v.last;
            fresh = v.fresh;
            bridged = v.bridged;
            linked = v.linked;
          })
    go (apply, s) e =
        let now : s ≡ record r.seq { need_bridge = false } =
          sym (ap (λ o. o.1) e) ∙ (check_sequence_kept futures r.seq d).0 (ap (λ o. o.0) e) in
        subst
          (λ q.
            FuturesInv id
              (record { seq = at_event q d; applied = d ∷ r.applied; broken = r.broken }))
          (sym now)
          (record {
            base = v.base;
            last = refl;
            fresh = λ h. cc;
            bridged = λ _ h. cc;
            linked =
                link id d r.applied r.seq v.base v.last v.fresh v.bridged v.linked
                  (ap (λ o. o.0) e);
          })

-- Futures: after any events, each applied event names the last id of the one applied before it, and
-- the first one bridges to the snapshot.
pub read_futures-IsLinked :
    (id : ℕ) (ds : List BufferedDelta) → IsLinked id (read futures ds (at_snapshot id)).applied
read_futures-IsLinked id ds =
    (read_induction (FuturesInv id) futures (judged-FuturesInv id) ds (at_snapshot id) (record {
      base = refl;
      last = refl;
      fresh = λ _. refl;
      bridged = λ h _. cc;
      linked = tt;
    })).linked
