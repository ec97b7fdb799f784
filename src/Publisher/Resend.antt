-- ===== src/Publisher/Resend.antt =====
-- cpp/include/tp_publisher.hpp: after a reconnection TP gets every row that it has not logged.
use t2s.Base.{
  ℕ, suc, ◌+◌, ◌-◌, ◌≤◌, ◌<◌, max, Bool, true, false, Option, none, some, List, [], ◌∷◌, ◌++◌,
  ++-[], length, range, leb, not, if◌then◌else◌, ◌≡◌, refl, sym, ◌∙◌, ap, if_cases, inl, inr, arith,
  ◌⊎◌,
}
use mathlib.Core.Path.{subst}
use t2s.Publisher.{
  ResendRing, Publisher, Attempt, newest_of, after, missing_after, send_rows, is_empty,
  resend_after, resend, register, concluded, connect, push, drop_oldest, publish,
}
use t2s.Publisher.Cases.{sent_after, counted, resend_after_cases, register_cases}
use t2s.Publisher.Ring.{
  seqs, IsRing, push-IsRing, length-snoc, cons-run, after-run, newest_of-run, missing_after-run,
}

-- The wire got the rows from the first that the ring holds after `logged` up to next - 1, in order.
pub IsCaughtUp : {R : Type 0} → (first next logged : ℕ) (w w' : List (ℕ × R)) → Type 0
IsCaughtUp first next logged w w' =
    (sent : _) × (w' ≡ w ++ sent)
    × (seqs sent ≡ range (max first (logged + 1)) (next - max first (logged + 1)))

module _ {R : Type 0} where
  -- The sends of a resend that succeeds are all the rows.
  send_rows-all :
      (rows : List (ℕ × R)) (sends : List Bool)
      → (send_rows rows sends).1 ≡ true
      → (send_rows rows sends).0 ≡ rows
  unfolding send_rows
  send_rows-all [] sends e = refl
  send_rows-all (row ∷ rows) [] e = absurd cc
  send_rows-all (row ∷ rows) (true ∷ sends) e = ap (λ xs. row ∷ xs) (send_rows-all rows sends e)
  send_rows-all (row ∷ rows) (false ∷ sends) e = absurd cc

  pub run_facts :
      (logged first : ℕ) (rows : List (ℕ × R))
      → seqs rows ≡ range first (length rows)
      → 0 < length rows
      → (is_empty rows ≡ false)
        × (newest_of rows + 1 ≡ first + length rows)
        × (missing_after logged rows ≡ first - (logged + 1))
  run_facts logged first [] run some_row = absurd (omega arith)
  run_facts logged first ((n, row) ∷ rows) run some_row =
      let (head, tail) = cons-run n first row rows run in
      (
        refl,
        ground (arith, newest_of-run first (n, row) rows run),
        missing_after-run logged first n row rows head,
      )

  -- TP says that it has logged fhSeqNo `logged`, and the ring holds first … next - 1, at least one
  -- row. If the resend goes through, TP has been sent exactly the rows after `logged` that the ring
  -- still holds, in order and each once, up to the newest, and the rows that TP lacks and the ring
  -- no longer holds are counted: none when first is at most logged + 1.
  pub resend_after-catches_up :
      (first next logged : ℕ) (sends : List Bool) (p : Publisher R)
      → IsRing first next p.ring
      → 0 < length p.ring.rows
      → (resend_after logged sends p).1 ≡ true
      → IsCaughtUp first next logged p.wire (resend_after logged sends p).0.wire
        × ((resend_after logged sends p).0.rows_unresendable
            ≡ p.rows_unresendable + (first - (logged + 1)))
        × ((resend_after logged sends p).0.ring ≡ p.ring)
  unfolding IsCaughtUp seqs sent_after counted
  resend_after-catches_up first next logged sends p ring some_row =
      let rows = p.ring.rows in
      let (full, newest, gone) = run_facts logged first rows ring.run some_row in
      let out = sent_after logged sends p in
      resend_after_cases
        (λ r.
          r.1 ≡ true
          → IsCaughtUp first next logged p.wire r.0.wire
            × (r.0.rows_unresendable ≡ p.rows_unresendable + (first - (logged + 1)))
            × (r.0.ring ≡ p.ring))
        logged sends p
        (λ e t.
          let over : next ≤ logged + 1 = ground (arith, ring.ends) in
          let past : next - max first (logged + 1) ≡ 0 = ground arith in
          (([], ++-[] p.wire, rw past refl), ground (arith, ring.ends), refl))
        (λ e ok t.
          let all = send_rows-all (after logged rows) sends ok in
          (
            (out.0, refl, ap seqs all ∙ after-run logged first rows ring.run ∙ rw ring.ends refl),
            rw gone refl,
            refl,
          ))
        (λ e bad t. absurd cc)

  -- A resend keeps the ring and what TP replied, whether or not it goes through.
  resend-keeps :
      (logged : Option ℕ) (sends : List Bool) (p : Publisher R)
      → ((resend logged sends p).0.ring ≡ p.ring)
        × ((resend logged sends p).0.last_reply ≡ p.last_reply)
  unfolding resend counted
  resend-keeps none sends p = (refl, refl)
  resend-keeps (some logged) sends p =
      resend_after_cases (λ r. (r.0.ring ≡ p.ring) × (r.0.last_reply ≡ p.last_reply)) logged sends p
        (λ e. (refl, refl)) (λ e f. (refl, refl)) (λ e f. (refl, refl))

  -- What a connection gives: TP holds nothing for the session, or it has been caught up.
  pub IsConnectedTo : (first next : ℕ) (r : ResendRing R) (p : Publisher R) → Type 0
  IsConnectedTo first next r p =
      (p.connected ≡ true)
      × (p.ring ≡ r)
      × ((p.last_reply ≡ none)
          ⊎ ((logged : ℕ) × (p.last_reply ≡ some logged)
              × ((earlier : List (ℕ × R)) × IsCaughtUp first next logged earlier p.wire)))

  resend-connects :
      (first next : ℕ) (logged : Option ℕ) (sends : List Bool) (p : Publisher R)
      → IsRing first next p.ring
      → 0 < length p.ring.rows
      → p.last_reply ≡ logged
      → (resend logged sends p).1 ≡ true
      → IsConnectedTo first next p.ring (record (resend logged sends p).0 { connected = true })
  unfolding resend IsConnectedTo
  resend-connects first next none sends p ring some_row reply ok = (refl, refl, inl reply)
  resend-connects first next (some logged) sends p ring some_row reply ok =
      let (caught, counted, same) =
        resend_after-catches_up first next logged sends p ring some_row ok in
      let (kept, answer) = resend-keeps (some logged) sends p in
      (refl, same, inr (logged, answer ∙ reply, (p.wire, caught)))

  -- One attempt connects, or leaves the ring for the next one.
  register-connects :
      (first next : ℕ) (a : Attempt) (p : Publisher R)
      → IsRing first next p.ring
      → 0 < length p.ring.rows
      → (retried : Publisher R × Bool)
      → ((register a p).0.ring ≡ p.ring
          → retried.1 ≡ true
          → IsConnectedTo first next p.ring retried.0)
      → (concluded (register a p) retried).1 ≡ true
      → IsConnectedTo first next p.ring (concluded (register a p) retried).0
  unfolding concluded
  register-connects first next a p ring some_row retried =
      register_cases
        (λ r.
          (r.0.ring ≡ p.ring → retried.1 ≡ true → IsConnectedTo first next p.ring retried.0)
          → (concluded r retried).1 ≡ true
          → IsConnectedTo first next p.ring (concluded r retried).0)
        a p (λ e more ok. more refl ok) (λ why e more ok. absurd cc)
        (λ reply e more ok.
          let q = record p { last_reply = reply } in
          ended (resend reply a.sends q) more ok
            (resend-connects first next reply a.sends q ring some_row refl)
            (resend-keeps reply a.sends q).0)
    where
      ended :
          (sent : Publisher R × Bool)
          → (sent.0.ring ≡ p.ring → retried.1 ≡ true → IsConnectedTo first next p.ring retried.0)
          → (concluded (sent.0, some sent.1) retried).1 ≡ true
          → (sent.1 ≡ true → IsConnectedTo first next p.ring (record sent.0 { connected = true }))
          → sent.0.ring ≡ p.ring
          → IsConnectedTo first next p.ring (concluded (sent.0, some sent.1) retried).0
      ended (q, true) m e ok same = ok refl
      ended (q, false) m e ok same = m same e

  -- Whatever connection attempts it takes, lost ones included, from a ring that is not empty and
  -- holds the newest rows: when connect succeeds, the handler is connected, its ring is as it was,
  -- and on the connection that stands TP, unless it replied that it holds nothing for the session,
  -- was sent exactly the ring's rows after the last one that it has logged, in order and each once,
  -- up to the newest; earlier sends are on connections that died.
  pub connect-catches_up :
      (first next : ℕ) (attempts : List Attempt) (p : Publisher R)
      → IsRing first next p.ring
      → 0 < length p.ring.rows
      → (connect attempts p).1 ≡ true
      → IsConnectedTo first next p.ring (connect attempts p).0
  unfolding connect
  connect-catches_up first next [] p ring some_row = λ e. absurd cc
  connect-catches_up first next (a ∷ attempts) p ring some_row =
      let P : Publisher R × Bool → Type 0 = λ r. r.1 ≡ true → IsConnectedTo first next p.ring r.0 in
      let registered = register a p in
      let last = concluded registered (connect attempts registered.0) in
      if_cases P (not p.running) (p, false) (if not a.opened then connect attempts p else last)
        (λ e. λ f. absurd cc)
        (λ e.
          if_cases P (not a.opened) (connect attempts p) last
            (λ shut. connect-catches_up first next attempts p ring some_row)
            (λ open_.
              register-connects first next a p ring some_row (connect attempts registered.0)
                (λ same.
                  subst
                    (λ r.
                      (connect attempts registered.0).1 ≡ true
                      → IsConnectedTo first next r (connect attempts registered.0).0)
                    same
                    (connect-catches_up first next attempts registered.0
                      (subst (λ r. IsRing first next r) (sym same) ring)
                      (subst (λ (r : ResendRing R). 0 < length r.rows) (sym same) some_row)))))

  push-nonempty : (seq : ℕ) (row : R) (r : ResendRing R) → 0 < length (push seq row r).rows
  unfolding push
  push-nonempty seq row r = ground (
    arith,
    length-snoc (if leb r.capacity (length r.rows) then drop_oldest r.rows else r.rows) (seq, row),
  )

  -- From a ring that holds the newest rows, when publish succeeds for the next row: either the row
  -- went out on the open connection, or the handler reconnected and, unless TP replied that it
  -- holds nothing for the session, TP was sent exactly the ring's rows after the last one that it
  -- has logged, up to this one. In both cases the ring holds the newest rows, this one included.
  pub publish-delivers :
      (first next : ℕ) (row : R) (sent : Bool) (attempts : List Attempt) (p : Publisher R)
      → IsRing first next p.ring
      → (publish row next sent attempts p).1 ≡ true
      → let first' = if leb p.ring.capacity (length p.ring.rows) then suc first else first in
        IsRing first' (suc next) (publish row next sent attempts p).0.ring
        × (((publish row next sent attempts p).0.wire ≡ p.wire ++ ((next, row) ∷ []))
            ⊎ IsConnectedTo first'
                (suc next)
                (push next row p.ring)
                (publish row next sent attempts p).0)
  unfolding publish IsConnectedTo
  publish-delivers first next row sent attempts p ring =
      let r = push next row p.ring in
      let first' = if leb p.ring.capacity (length p.ring.rows) then suc first else first in
      let held = push-IsRing first next row p.ring ring in
      let q = record p { ring = r } in
      let went : Publisher R × Bool = (record q { wire = q.wire ++ ((next, row) ∷ []) }, true) in
      let dead = record q { connected = false; reconnects = q.reconnects + 1 } in
      let P : Publisher R × Bool → Type 0 = λ x.
        x.1 ≡ true
        → IsRing first' (suc next) x.0.ring
          × ((x.0.wire ≡ p.wire ++ ((next, row) ∷ [])) ⊎ IsConnectedTo first' (suc next) r x.0) in
      let reconnected : (p' : Publisher R) → p'.ring ≡ r → P (connect attempts p') = λ p' same ok.
        let c =
          connect-catches_up first' (suc next) attempts p'
            (subst (λ x. IsRing first' (suc next) x) (sym same) held)
            (subst (λ (x : ResendRing R). 0 < length x.rows) (sym same)
              (push-nonempty next row p.ring))
            ok in
        (
          subst (λ x. IsRing first' (suc next) x) (sym (c.1 ∙ same)) held,
          inr (subst (λ x. IsConnectedTo first' (suc next) x (connect attempts p').0) same c),
        ) in
      if_cases P (not p.connected) (connect attempts q)
        (if sent then went else connect attempts dead) (λ e. reconnected q refl)
        (λ e.
          if_cases P sent went (connect attempts dead) (λ f ok. (held, inl refl))
            (λ f. reconnected dead refl))
