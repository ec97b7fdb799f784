-- ===== src/Worker/Queue.antt =====
-- cpp/include/snapshot_worker.hpp: what the bounded queue keeps of a run of pushes.
use t2s.Base.{
  ℕ, zero, suc, ◌-◌, ◌≤◌, ◌<◌, false, List, [], ◌∷◌, ◌++◌, ++-[], length, length-append,
  length-drop, drop, leb, ◌≡◌, refl, sym, ap, ◌∙◌, if_cases, arith,
}
use mathlib.Core.Path.{subst}
use t2s.Worker.{BoundedQueue, drop_front, push}

pub push_all : {T : Type 0} → List T → BoundedQueue T → BoundedQueue T
push_all [] q = q
push_all (x ∷ xs) q = push_all xs (push x q).0

module _ {T : Type 0} where
  -- The queue holds the newest items of a history of pushes, as many as fit.
  unfoldable pub IsNewest : List T → BoundedQueue T → Type 0
  IsNewest history q =
      (q.items ≡ drop (length history - q.capacity) history)
      × (0 < q.capacity)
      × (q.shut_down ≡ false)

  drop-append : (n : ℕ) (xs ys : List T) → n ≤ length xs → drop n (xs ++ ys) ≡ drop n xs ++ ys
  drop-append zero xs ys h = refl
  drop-append (suc n) [] ys h = absurd (omega arith)
  drop-append (suc n) (x ∷ xs) ys h = drop-append n xs ys (omega arith)

  drop_front-drop : (n : ℕ) (xs : List T) → drop_front (drop n xs) ≡ drop (suc n) xs
  unfolding drop_front
  drop_front-drop zero [] = refl
  drop_front-drop zero (x ∷ xs) = refl
  drop_front-drop (suc n) [] = refl
  drop_front-drop (suc n) (x ∷ xs) = drop_front-drop n xs

  push-IsNewest :
      (x : T) (history : List T) (q : BoundedQueue T)
      → IsNewest history q
      → IsNewest (history ++ (x ∷ [])) (push x q).0
  unfolding push IsNewest
  push-IsNewest x history q (items, room, not_shut) =
      let n = length history - q.capacity in
      let size : length q.items ≡ length history - n = ap length items ∙ length-drop n history in
      let longer = length-append history (x ∷ []) in
      rw not_shut (
        if_cases
            (λ l.
              l ++ (x ∷ [])
              ≡ drop (length (history ++ (x ∷ [])) - q.capacity) (history ++ (x ∷ [])))
            (leb q.capacity (length q.items)) (drop_front q.items) q.items
            (λ full.
              let one_more : length (history ++ (x ∷ [])) - q.capacity ≡ suc n =
                ground (arith, longer) in
              ap (λ l. drop_front l ++ (x ∷ [])) items
              ∙ ap (λ l. l ++ (x ∷ [])) (drop_front-drop n history)
              ∙ sym (drop-append (suc n) history (x ∷ []) ground arith)
              ∙ ap (λ k. drop k (history ++ (x ∷ []))) (sym one_more))
            (λ free.
              let same : length (history ++ (x ∷ [])) - q.capacity ≡ n = ground (arith, longer) in
              ap (λ l. l ++ (x ∷ [])) items
              ∙ sym (drop-append n history (x ∷ []) ground arith)
              ∙ ap (λ k. drop k (history ++ (x ∷ []))) (sym same)),
        room,
        refl,
      )

  -- Pushing any items into an open queue leaves the newest ones of all pushed so far, as many as the
  -- capacity, in order.
  pub push_all-IsNewest :
      (xs history : List T) (q : BoundedQueue T)
      → IsNewest history q
      → IsNewest (history ++ xs) (push_all xs q)
  unfolding push_all
  push_all-IsNewest [] history q h = subst (λ l. IsNewest l q) (++-[] history) h
  push_all-IsNewest (x ∷ xs) history q h =
      subst (λ l. IsNewest l (push_all xs (push x q).0)) (append_snoc history x xs)
        (push_all-IsNewest xs (history ++ (x ∷ [])) (push x q).0 (push-IsNewest x history q h))
    where
      append_snoc : (hs : List T) (b : T) (cs : List T) → (hs ++ (b ∷ [])) ++ cs ≡ hs ++ (b ∷ cs)
      append_snoc [] b cs = refl
      append_snoc (h ∷ hs) b cs = ap (λ l. h ∷ l) (append_snoc hs b cs)
