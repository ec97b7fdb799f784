-- ===== src/Tickerplant/Restart.antt =====
-- kdb/tick/tp.q: what TP knows after a restart.
use t2s.Base.{
  ℕ, Option, some, List, [], ◌∷◌, ◌++◌, ++-[], ◌≡◌, ◌≢◌, refl, sym, ◌∙◌, ap, ◌⊎◌, inl, inr,
}
use t2s.Publisher.{newest_of}
use t2s.Tickerplant.{Tickerplant, restart, recovered}
use t2s.Tickerplant.Logged.{IsLogged}

module _ {R : Type 0} where
  recovered-newest :
      (before ours log : List (ℕ × R)) (saved : Option ℕ) (l : ℕ)
      → log ≡ before ++ ours
      → log ≢ before
      → (ours ≡ []) ⊎ (newest_of (before ++ ours) ≡ l)
      → recovered log saved ≡ some l
  unfolding recovered
  recovered-newest before ours log saved l e more (inl empty) =
      absurd (more (e ∙ ap (λ zs. before ++ zs) empty ∙ sym (++-[] before)))
  recovered-newest [] [] [] saved l e more (inr newest) = absurd (more refl)
  recovered-newest [] (x ∷ ours) [] saved l e more (inr newest) = absurd cc
  recovered-newest (x ∷ before) ours [] saved l e more (inr newest) = absurd cc
  recovered-newest before ours (x ∷ log) saved l e more (inr newest) =
      ap some (ap newest_of e ∙ newest)

  -- When TP has logged a row of the handler's session, then after a restart it knows the last
  -- fhSeqNo that it had seen.
  pub restart-knows :
      (before P : List (ℕ × R)) (missed disorder l : ℕ) (tp : Tickerplant R)
      → IsLogged before missed disorder P l tp
      → tp.log ≢ before
      → (restart tp).last ≡ some l
  unfolding restart
  restart-knows before P missed disorder l tp h more =
      recovered-newest before h.ours tp.log tp.saved_last l h.log more h.last_row
