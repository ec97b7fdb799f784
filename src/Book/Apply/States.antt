-- ===== src/Book/Apply/States.antt =====
-- The state machine of a symbol under applyDelta: what the result tells of the next state.
use t2s.Base.{◌≡◌, refl, ◌∙◌, Bool, true, false, arith, if_cases}
use t2s.Book.Types.{BookConfig, BufferedDelta, BookState, valid, invalid}
use t2s.Book.Sequence.{Seq, Verdict, skip, apply, fail, check_sequence}
use t2s.Book.Slot.{Cell}
use t2s.Book.Apply.{apply_live, keep_copy, shadow_step, advance_shadow, after_check, apply_delta}
use t2s.Book.Apply.Invariant.{has_book}

keep_copy-state : (d : BufferedDelta) (c : Cell) → (keep_copy d c).slot.state ≡ c.slot.state
unfolding keep_copy
keep_copy-state d c = ground arith

shadow_step-state :
    (cfg : BookConfig) (d : BufferedDelta) (o : Verdict × Seq) (c : Cell)
    → (shadow_step cfg d o c).slot.state ≡ c.slot.state
unfolding shadow_step
shadow_step-state cfg d (skip, s) c = refl
shadow_step-state cfg d (fail, s) c = refl
shadow_step-state cfg d (apply, s) c = refl

advance_shadow-state :
    (cfg : BookConfig) (d : BufferedDelta) (c : Cell)
    → (advance_shadow cfg d c).slot.state ≡ c.slot.state
unfolding advance_shadow
advance_shadow-state cfg d c =
    if_cases (λ (r : Cell). r.slot.state ≡ c.slot.state) c.slot.shadow.pending _ c
      (λ _. shadow_step-state cfg d (check_sequence cfg.sync c.slot.shadow.seq d) c) (λ _. refl)

tail-state :
    (cfg : BookConfig) (d : BufferedDelta) (c : Cell)
    → (advance_shadow cfg d (keep_copy d c)).slot.state ≡ c.slot.state
tail-state cfg d c = advance_shadow-state cfg d (keep_copy d c) ∙ keep_copy-state d c

-- The next state that a result of the check leads to.
abbrev pub state_after : Verdict → BookState → BookState
state_after skip s = s
state_after apply s = valid
state_after fail s = invalid

abbrev pub succeeds : Verdict → Bool
succeeds skip = true
succeeds apply = true
succeeds fail = false

after_check-state :
    (cfg : BookConfig) (d : BufferedDelta) (o : Verdict × Seq) (c : Cell)
    → ((after_check cfg d o c).0.slot.state ≡ state_after o.0 c.slot.state)
      × ((after_check cfg d o c).1 ≡ succeeds o.0)
unfolding after_check apply_live
after_check-state cfg d (skip, s) c = (tail-state cfg d c, refl)
after_check-state cfg d (apply, s) c = (tail-state cfg d (apply_live cfg d s c), refl)
after_check-state cfg d (fail, s) c = (refl, refl)

-- applyDelta moves the state as the live book's check says: APPLY to VALID, FAIL to INVALID with the
-- result false, SKIP nowhere; in INIT and INVALID it refuses and changes nothing at all.
pub apply_delta_states :
    (cfg : BookConfig) (d : BufferedDelta) (c : Cell)
    → let v = (check_sequence cfg.sync c.slot.seq d).0 in
      (has_book c.slot.state ≡ true
        → ((apply_delta cfg d c).0.slot.state ≡ state_after v c.slot.state)
          × ((apply_delta cfg d c).1 ≡ succeeds v))
      × (has_book c.slot.state ≡ false → apply_delta cfg d c ≡ (c, false))
unfolding apply_delta
apply_delta_states cfg d c =
    (λ e. rw e (after_check-state cfg d (check_sequence cfg.sync c.slot.seq d) c), λ e. rw e)
