-- ===== src/Tickerplant/Session.antt =====
-- kdb/tick/tp.q: what TP knows of a handler's session, and what it replies to a registration.
use t2s.Base.{
  ℕ, ◌+◌, ◌-◌, Bool, true, false, Option, none, some, ltb, ◌==◌, not, ◌≡◌, ◌≢◌, refl, sym, ◌∙◌, ap,
  ◌⊎◌, inl, inr, if_cases, arith,
}
use mathlib.Core.Path.{subst}
use t2s.Publisher.{Registration, refused, replied}
use t2s.Tickerplant.{Tickerplant, restarted, same_session, recognised, register_session}

-- TP has the handler's session on record with the last fhSeqNo l, or another session or none and
-- then the handler has published nothing.
unfoldable pub IsKnown : (fresh : Bool) (id n l : ℕ) (session last : Option ℕ) → Type 0
IsKnown fresh id n l session last =
    ((session ≡ some id) × (last ≡ some l))
    ⊎ ((fresh ≡ true) × (session ≢ some id) × (n ≡ 0) × (l ≡ 0))

-- The log and the counts of rows that are missed or out of order are the same.
unfoldable pub IsSameLog : {R : Type 0} → Tickerplant R → Tickerplant R → Type 0
IsSameLog tp tp' =
    (tp'.log ≡ tp.log) × (tp'.missed ≡ tp.missed) × (tp'.out_of_order ≡ tp.out_of_order)

-- A registration's reply is the last fhSeqNo logged, or -1 and the handler has published nothing.
unfoldable pub IsReply : (n l : ℕ) → Option ℕ → Type 0
IsReply n l reply = (reply ≡ some l) ⊎ ((reply ≡ none) × (n ≡ 0))

-- TP has the handler's session on record, with the last fhSeqNo `seen`, and takes its rows.
unfoldable pub IsMine : {R : Type 0} → (id width seen : ℕ) → Tickerplant R → Type 0
IsMine id width seen tp = (tp.session ≡ some id) × (tp.last ≡ some seen) × (width ≡ tp.width)

module _ {R : Type 0} where
  recognised-knows :
      (fresh : Bool) (id n l : ℕ) (session last : Option ℕ) (tp : Tickerplant R)
      → tp.last ≡ last
      → IsKnown fresh id n l session last
      → let r = recognised session last id (n + 1) tp in
        IsSameLog tp r.0 × (r.0.last ≡ some l) × (r.0.width ≡ tp.width) × IsReply n l r.1
  unfolding recognised restarted same_session IsKnown IsSameLog IsReply
  recognised-knows fresh id n l none none tp same (inl known) = absurd cc
  recognised-knows fresh id n l none none tp same (inr (fresh_, other, n0, l0)) =
      ((refl, refl, refl), ap some (omega arith), refl, inr (refl, n0))
  recognised-knows fresh id n l none (some a) tp same (inl known) = absurd cc
  recognised-knows fresh id n l none (some a) tp same (inr (fresh_, other, n0, l0)) =
      if_cases
        (λ r. IsSameLog tp r.0 × (r.0.last ≡ some l) × (r.0.width ≡ tp.width) × IsReply n l r.1)
        (ltb (n + 1 - 1) a) (restarted (n + 1) tp) (tp, some a)
        (λ e. ((refl, refl, refl), ap some (omega arith), refl, inr (refl, n0)))
        (λ e.
          let zero_ : a ≡ l = ground arith in
          ((refl, refl, refl), same ∙ ap some zero_, refl, inl (ap some zero_)))
  recognised-knows fresh id n l (some previous) last tp same known =
      if_cases
        (λ r. IsSameLog tp r.0 × (r.0.last ≡ some l) × (r.0.width ≡ tp.width) × IsReply n l r.1)
        (id == previous) (same_session last (n + 1) (record tp { reconnects = tp.reconnects + 1 }))
        (restarted (n + 1) tp) (λ e. ours last same known (ground arith)) (λ e. others known e)
    where
      ours :
          (last : Option ℕ)
          → tp.last ≡ last
          → IsKnown fresh id n l (some previous) last
          → id ≡ previous
          → let r = same_session last (n + 1) (record tp { reconnects = tp.reconnects + 1 }) in
            IsSameLog tp r.0 × (r.0.last ≡ some l) × (r.0.width ≡ tp.width) × IsReply n l r.1
      ours none same (inl known) e = absurd cc
      ours (some a) same (inl (known, at)) e = ((refl, refl, refl), same ∙ at, refl, inl at)
      ours last same (inr (fresh_, other, n0, l0)) e = absurd (other (ap some (sym e)))

      others :
          IsKnown fresh id n l (some previous) last
          → (id == previous) ≡ false
          → let r = restarted (n + 1) tp in
            IsSameLog tp r.0 × (r.0.last ≡ some l) × (r.0.width ≡ tp.width) × IsReply n l r.1
      others (inl (known, at)) e = let id_ : previous ≡ id = cc in absurd (ground arith)
      others (inr (fresh_, other, n0, l0)) e =
          ((refl, refl, refl), ap some (omega arith), refl, inr (refl, n0))

  -- A handler that has published n rows registers for the next: TP keeps its log and counters, and
  -- when it answers, it has the session on record and replies the last fhSeqNo logged.
  pub register_session-knows :
      (fresh : Bool) (id n l width : ℕ) (tp : Tickerplant R)
      → IsKnown fresh id n l tp.session tp.last
      → let r = register_session id (n + 1) width tp in
        IsSameLog tp r.0
        × IsKnown fresh id n l r.0.session r.0.last
        × ((reply : Option ℕ) → r.1 ≡ replied reply → IsReply n l reply × IsMine id width l r.0)
  unfolding register_session IsKnown IsSameLog IsMine
  register_session-knows fresh id n l width tp known =
      let (same, at, width_, reply) =
        recognised-knows fresh id n l tp.session tp.last tp refl known in
      let r = recognised tp.session tp.last id (n + 1) tp in
      if_cases
        (λ (r : Tickerplant R × Registration).
          IsSameLog tp r.0
          × IsKnown fresh id n l r.0.session r.0.last
          × ((reply : Option ℕ) → r.1 ≡ replied reply → IsReply n l reply × IsMine id width l r.0))
        (not (width == tp.width))
        (
          record tp { rejected_registrations = tp.rejected_registrations + 1 },
          refused "schema width mismatch",
        )
        (record r.0 { session = some id; saved_last = r.0.last }, replied r.1)
        (λ e. ((refl, refl, refl), known, λ a f. absurd cc))
        (λ e. (
          same,
          inl (refl, at),
          λ a f.
              let same_ : r.1 ≡ a = cc in
              (subst (λ b. IsReply n l b) same_ reply, (refl, at, ground (arith, width_))),
        ))

  recognised-width :
      (session last : Option ℕ) (session_id next : ℕ) (tp : Tickerplant R)
      → (recognised session last session_id next tp).0.width ≡ tp.width
  unfolding recognised restarted same_session
  recognised-width none none session_id next tp = refl
  recognised-width none (some last) session_id next tp =
      if_cases (λ (r : Tickerplant R × Option ℕ). r.0.width ≡ tp.width) (ltb (next - 1) last)
        (restarted next tp) (tp, some last) (λ e. refl) (λ e. refl)
  recognised-width (some previous) none session_id next tp =
      if_cases (λ (r : Tickerplant R × Option ℕ). r.0.width ≡ tp.width) (session_id == previous)
        (same_session none next (record tp { reconnects = tp.reconnects + 1 })) (restarted next tp)
        (λ e. refl) (λ e. refl)
  recognised-width (some previous) (some last) session_id next tp =
      if_cases (λ (r : Tickerplant R × Option ℕ). r.0.width ≡ tp.width) (session_id == previous)
        (same_session (some last) next (record tp { reconnects = tp.reconnects + 1 }))
        (restarted next tp) (λ e. refl) (λ e. refl)

  -- A registration with the schema's width is answered.
  pub register_session-answers :
      (id next width : ℕ) (tp : Tickerplant R)
      → width ≡ tp.width
      → let r = register_session id next width tp in
        ((reply : Option ℕ) × (r.1 ≡ replied reply)) × (r.0.width ≡ tp.width)
  unfolding register_session
  register_session-answers id next width tp fits =
      let r = recognised tp.session tp.last id next tp in
      if_cases
        (λ (r : Tickerplant R × Registration).
          ((reply : Option ℕ) × (r.1 ≡ replied reply)) × (r.0.width ≡ tp.width))
        (not (width == tp.width))
        (
          record tp { rejected_registrations = tp.rejected_registrations + 1 },
          refused "schema width mismatch",
        )
        (record r.0 { session = some id; saved_last = r.0.last }, replied r.1)
        (λ e. absurd (ground arith))
        (λ e. ((r.1, refl), recognised-width tp.session tp.last id next tp))
