-- ===== src/Tickerplant/Logged.antt =====
-- kdb/tick/tp.q: what TP has logged of the rows that a handler published, and what it counted. `before`,
-- `missed` and `disorder` are the log and the two counters at the handler's start.
use t2s.Base.{
  ℕ, suc, ◌+◌, ◌-◌, ◌≤◌, Bool, Option, none, some, List, [], ◌∷◌, ◌++◌, length, length-append, take,
  drop, range, ltb, ◌==◌, if◌then◌else◌, not, ◌≡◌, refl, sym, ◌∙◌, ap, ◌⊎◌, inl, inr, if_cases,
  arith,
}
use mathlib.Core.Path.{subst}
use mathlib.Core.List.{append_assoc}
use t2s.Publisher.{newest_of}
use t2s.Publisher.Ring.{seqs, newest_of-snoc}
use t2s.Publisher.Delivery.Lists.{
  Sublist, keep, end, Sublist-wider, Sublist-++, take-more, take-next, seq_of-drop,
  length-drop-next, drop-next,
}
use t2s.Tickerplant.{Tickerplant, check_seq, upd, read_all}
use t2s.Tickerplant.Session.{IsKnown, IsSameLog, IsMine}

-- Of the n rows P that the handler published, TP has seen the numbers up to l: it logged some of
-- the first l after `before`, in order, and counted as missed those that it did not.
pub record IsLogged {R : Type 0} (before : List (ℕ × R)) (missed disorder : ℕ) (P : List (ℕ × R))
    (l : ℕ) (tp : Tickerplant R) : Type 0 where
  pub ours : List (ℕ × R)
  pub log : tp.log ≡ before ++ ours
  pub kept : Sublist ours (take l P)
  pub count : length ours + tp.missed ≡ l + missed
  pub order : tp.out_of_order ≡ disorder
  pub last_row : (ours ≡ []) ⊎ (newest_of (before ++ ours) ≡ l)
  pub within : l ≤ length P

module _ {R : Type 0} (before : List (ℕ × R)) (missed disorder : ℕ) where
  pub IsLogged-same :
      (P : List (ℕ × R)) (l : ℕ) (tp tp' : Tickerplant R)
      → IsSameLog tp tp'
      → IsLogged before missed disorder P l tp
      → IsLogged before missed disorder P l tp'
  unfolding IsSameLog
  IsLogged-same P l tp tp' (log, miss, order) h = record {
    ours = h.ours;
    log = log ∙ h.log;
    kept = h.kept;
    count = omega (arith, h.count);
    order = order ∙ h.order;
    last_row = h.last_row;
    within = h.within;
  }

  -- checkSeq for the row after the first m that were published, m at least the numbers seen.
  check_seq-IsLogged :
      (P : List (ℕ × R)) (l m seq : ℕ) (row : R) (rest : List (ℕ × R)) (tp : Tickerplant R)
      → seqs P ≡ range 1 (length P)
      → drop m P ≡ (seq, row) ∷ rest
      → l ≤ m
      → IsLogged before missed disorder P l tp
      → let t = check_seq (some l) seq tp in
        IsLogged before missed disorder P (suc m) (record t { log = t.log ++ ((seq, row) ∷ []) })
        × (t.last ≡ some (suc m))
        × (t.session ≡ tp.session)
        × (t.width ≡ tp.width)
        × (m ≡ l → t.missed ≡ tp.missed)
  unfolding check_seq
  check_seq-IsLogged P l m seq row rest tp run next past h =
      let at : seq ≡ suc m = omega (arith, seq_of-drop 1 m P rest seq row run next) in
      let more = length-drop-next m P rest (seq, row) next in
      let wider = Sublist-wider (take (m - l) (drop l P)) h.kept in
      let widest = subst (λ zs. Sublist h.ours zs) (sym (take-more l m P past)) wider in
      let sub : Sublist (h.ours ++ ((seq, row) ∷ [])) (take (suc m) P) =
        subst (λ zs. Sublist (h.ours ++ ((seq, row) ∷ [])) zs)
          (sym (take-next m P rest (seq, row) next)) (Sublist-++ widest (keep (seq, row) end)) in
      let size = length-append h.ours ((seq, row) ∷ []) in
      let newest : newest_of (before ++ (h.ours ++ ((seq, row) ∷ []))) ≡ suc m =
        ap newest_of (sym (append_assoc before h.ours ((seq, row) ∷ [])))
        ∙ newest_of-snoc (before ++ h.ours) seq row
        ∙ at in
      let log =
        ap (λ zs. zs ++ ((seq, row) ∷ [])) h.log ∙ append_assoc before h.ours ((seq, row) ∷ []) in
      let seen : (t : Tickerplant R)
          → t.log ≡ tp.log
          → length h.ours + 1 + t.missed ≡ suc m + missed
          → t.out_of_order ≡ tp.out_of_order
          → IsLogged before missed disorder P (suc m)
              (record t { log = t.log ++ ((seq, row) ∷ []) }) =
        λ t same count order. record {
          ours = h.ours ++ ((seq, row) ∷ []);
          log = ap (λ zs. zs ++ ((seq, row) ∷ [])) same ∙ log;
          kept = sub;
          count = omega (arith, size, count);
          order = order ∙ h.order;
          last_row = inr newest;
          within = more;
        } in
      let jumped = record tp {
        gaps = tp.gaps + 1;
        missed = tp.missed + (seq - l - 1);
        last = some seq;
      } in
      let Q : Tickerplant R → Type 0 = λ t.
        IsLogged before missed disorder P (suc m) (record t { log = t.log ++ ((seq, row) ∷ []) })
        × (t.last ≡ some (suc m))
        × (t.session ≡ tp.session)
        × (t.width ≡ tp.width)
        × (m ≡ l → t.missed ≡ tp.missed) in
      if_cases Q (seq == l + 1) (record tp { last = some seq })
        (if ltb (l + 1) seq then jumped else record tp { out_of_order = tp.out_of_order + 1 })
        (λ e. (
          seen (record tp { last = some seq }) refl (ground (arith, h.count)) refl,
          ap some at,
          refl,
          refl,
          λ g. refl,
        ))
        (λ e.
          if_cases Q (ltb (l + 1) seq) jumped (record tp { out_of_order = tp.out_of_order + 1 })
            (λ f. (
              seen jumped refl (ground (arith, h.count)) refl,
              ap some at,
              refl,
              refl,
              λ g. absurd (ground arith),
            ))
            (λ f. absurd (ground arith)))

  -- TP reads the row after the first m that were published, m at least the numbers that it has
  -- seen: it logs the row and counts those between as missed.
  pub upd-IsLogged :
      (P : List (ℕ × R)) (l m width : ℕ) (row : ℕ × R) (rest : List (ℕ × R)) (tp : Tickerplant R)
      → seqs P ≡ range 1 (length P)
      → drop m P ≡ row ∷ rest
      → l ≤ m
      → width ≡ tp.width
      → tp.last ≡ some l
      → IsLogged before missed disorder P l tp
      → let tp' = upd width row tp in
        IsLogged before missed disorder P (suc m) tp'
        × (tp'.last ≡ some (suc m))
        × (tp'.session ≡ tp.session)
        × (tp'.width ≡ tp.width)
        × (m ≡ l → tp'.missed ≡ tp.missed)
  unfolding upd
  upd-IsLogged P l m width (seq, row) rest tp run next past fits last h =
      let t = check_seq tp.last seq tp in
      let P' : Tickerplant R → Type 0 = λ tp'.
        IsLogged before missed disorder P (suc m) tp'
        × (tp'.last ≡ some (suc m))
        × (tp'.session ≡ tp.session)
        × (tp'.width ≡ tp.width)
        × (m ≡ l → tp'.missed ≡ tp.missed) in
      if_cases P' (not (width == tp.width)) (record tp { schema_mismatch = tp.schema_mismatch + 1 })
        (record t { log = t.log ++ ((seq, row) ∷ []) }) (λ e. absurd (ground arith))
        (λ e.
          subst
            (λ a.
              let t = check_seq a seq tp in
              IsLogged before missed disorder P (suc m)
                (record t { log = t.log ++ ((seq, row) ∷ []) })
              × (t.last ≡ some (suc m))
              × (t.session ≡ tp.session)
              × (t.width ≡ tp.width)
              × (m ≡ l → t.missed ≡ tp.missed))
            (sym last) (check_seq-IsLogged P l m seq row rest tp run next past h))

module _ {R : Type 0} (fresh : Bool) (before : List (ℕ × R)) (missed disorder id width : ℕ) where
  -- TP reads some of the rows after the first `next`, on a registered connection: it has seen the
  -- numbers up to the last one read, and missed none of the rows read when it had seen all before.
  pub read_all-keeps :
      (P rows rest : List (ℕ × R)) (seen next : ℕ) (tp : Tickerplant R)
      → seqs P ≡ range 1 (length P)
      → rows ++ rest ≡ drop next P
      → seen ≤ next
      → (rows ≡ []) ⊎ IsMine id width seen tp
      → IsKnown fresh id (length P) seen tp.session tp.last
      → IsLogged before missed disorder P seen tp
      → let tp' = read_all width rows tp in
        (seen' : ℕ) × IsKnown fresh id (length P) seen' tp'.session tp'.last
        × IsLogged before missed disorder P seen' tp'
        × (next ≡ seen → tp'.missed ≡ tp.missed)
  unfolding read_all IsMine IsKnown
  read_all-keeps P [] rest seen next tp run at past mine known h = (seen, known, h, λ e. refl)
  read_all-keeps P (row ∷ rows) rest seen next tp run at past (inl none_) known h = absurd cc
  read_all-keeps P (row ∷ rows) rest seen next tp run at past (inr (mine, last, fits)) known h =
      let (h', last', session', width', miss') =
        upd-IsLogged before missed disorder P seen next width row (rows ++ rest) tp run (sym at)
          past fits last h in
      let mine' : IsMine id width (suc next) (upd width row tp) =
        (session' ∙ mine, last', fits ∙ sym width') in
      let (seen', known', h'', miss'') =
        read_all-keeps P rows rest (suc next) (suc next) (upd width row tp) run
          (sym (drop-next next P (rows ++ rest) row (sym at))) (omega arith) (inr mine')
          (inl (session' ∙ mine, last')) h' in
      (seen', known', h'', λ e. miss'' refl ∙ miss' e)

module _ {R : Type 0} where
  check_seq-width :
      (last : Option ℕ) (seq : ℕ) (tp : Tickerplant R) → (check_seq last seq tp).width ≡ tp.width
  unfolding check_seq
  check_seq-width none seq tp = refl
  check_seq-width (some last) seq tp =
      let W : Tickerplant R → Type 0 = λ t. t.width ≡ tp.width in
      let jumped = record tp {
        gaps = tp.gaps + 1;
        missed = tp.missed + (seq - last - 1);
        last = some seq;
      } in
      let late = record tp { out_of_order = tp.out_of_order + 1 } in
      if_cases W (seq == last + 1) (record tp { last = some seq })
        (if ltb (last + 1) seq then jumped else late) (λ e. refl)
        (λ e. if_cases W (ltb (last + 1) seq) jumped late (λ f. refl) (λ f. refl))

  pub read_all-width :
      (width : ℕ) (rows : List (ℕ × R)) (tp : Tickerplant R)
      → (read_all width rows tp).width ≡ tp.width
  unfolding read_all upd
  read_all-width width [] tp = refl
  read_all-width width ((seq, row) ∷ rows) tp =
      let checked = check_seq tp.last seq tp in
      read_all-width width rows (upd width (seq, row) tp)
      ∙ if_cases (λ (t : Tickerplant R). t.width ≡ tp.width) (not (width == tp.width))
          (record tp { schema_mismatch = tp.schema_mismatch + 1 })
          (record checked { log = checked.log ++ ((seq, row) ∷ []) }) (λ e. refl)
          (λ e. check_seq-width tp.last seq tp)
