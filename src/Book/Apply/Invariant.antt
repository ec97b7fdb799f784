-- ===== src/Book/Apply/Invariant.antt =====
-- The invariant of a symbol's slot, kept by bufferDelta and applyDelta: what is published as the
-- book is exact at the update id that it claims, and so is a shadow.
use mathlib.Core.Path.{subst}
use t2s.Base.{
  ◌+◌, max, ◌≤◌, ◌<◌, ◌≡◌, refl, sym, ap, ◌∙◌, Bool, true, false, ◌||◌, List, [], ◌∷◌, ◌++◌, arith,
  All, All-append, length, length-append, ltb, if_cases,
}
use t2s.Book.Types.{BookConfig, BufferedDelta, BookState, syncing, valid, max_delta_buffer_size}
use t2s.Book.Sequence.{
  Seq, Verdict, skip, apply, fail, check_sequence, check_sequence_kept, at_event,
}
use t2s.Book.Slot.{Slot, Cell, no_shadow, is_init, is_syncing, is_valid_state, invalidate}
use t2s.Book.Apply.{
  pop_front, buffer_delta, apply_levels, apply_live, keep_copy, shadow_step, advance_shadow,
  after_check, apply_delta,
}
use t2s.Book.Apply.Exact.{History, IsFaithful, Stands, apply-Stands}

-- The states in which a snapshot has been loaded.
abbrev pub has_book : BookState → Bool
has_book s = is_syncing s || is_valid_state s

-- The states before the first event bridged.
abbrev pub is_early : BookState → Bool
is_early s = is_init s || is_syncing s

pub record IsCoherent (cfg : BookConfig) (h : History) (s : Slot) : Type 0 where
  -- the live book is exact at the id it is at
  pub live : has_book s.state ≡ true → Stands cfg h s.seq s.book
  -- it waits for the bridging event exactly while SYNCING
  pub waiting : s.state ≡ syncing → s.seq.need_bridge ≡ true
  pub bridged : s.state ≡ valid → s.seq.need_bridge ≡ false
  -- a pending shadow is exact at its snapshot's id, and waits for its bridging event
  pub held : s.shadow.pending ≡ true → Stands cfg h s.shadow.seq s.shadow.book
  pub held_waiting : s.shadow.pending ≡ true → s.shadow.seq.need_bridge ≡ true
  -- and there is none before the book has been VALID
  pub held_late : s.shadow.pending ≡ true → is_early s.state ≡ false
  -- the buffer holds events of the stream, and is capped
  pub buffered : All (IsFaithful cfg.sync h) s.delta_buffer
  pub room : length s.delta_buffer ≤ max_delta_buffer_size

module _ (cfg : BookConfig) (h : History) where
  pop_front-IsFaithful :
      (ds : List BufferedDelta)
      → All (IsFaithful cfg.sync h) ds
      → All (IsFaithful cfg.sync h) (pop_front ds)
  unfolding pop_front
  pop_front-IsFaithful [] a = tt
  pop_front-IsFaithful (d ∷ ds) a = a.1

  length-pop_front : (ds : List BufferedDelta) → length (pop_front ds) + 1 ≤ max 1 (length ds)
  unfolding pop_front
  length-pop_front [] = omega arith
  length-pop_front (d ∷ ds) = omega arith

  pub with_buffer-IsCoherent :
      (s : Slot) (ds : List BufferedDelta)
      → All (IsFaithful cfg.sync h) ds
      → length ds ≤ max_delta_buffer_size
      → IsCoherent cfg h s
      → IsCoherent cfg h (record s { delta_buffer = ds })
  with_buffer-IsCoherent s ds f l c = record {
    live = c.live;
    waiting = c.waiting;
    bridged = c.bridged;
    held = c.held;
    held_waiting = c.held_waiting;
    held_late = c.held_late;
    buffered = f;
    room = l;
  }

  pub buffer_delta-IsCoherent :
      (d : BufferedDelta) (c : Cell)
      → IsFaithful cfg.sync h d
      → IsCoherent cfg h c.slot
      → IsCoherent cfg h (buffer_delta d c).0.slot
  unfolding buffer_delta
  buffer_delta-IsCoherent d c f i =
      if_cases (λ (r : Cell × Bool). IsCoherent cfg h r.0.slot)
        (ltb max_delta_buffer_size (length (c.slot.delta_buffer ++ d ∷ []))) _ _
        (λ e.
          with_buffer-IsCoherent c.slot _ (pop_front-IsFaithful _ longer)
            (omega (
              arith,
              length-pop_front (c.slot.delta_buffer ++ d ∷ []),
              length-append {0} c.slot.delta_buffer (d ∷ []),
              i.room,
            ))
            i)
        (λ e. with_buffer-IsCoherent c.slot _ longer (ground arith) i)
    where
      longer : All (IsFaithful cfg.sync h) (c.slot.delta_buffer ++ d ∷ [])
      longer = All-append _ c.slot.delta_buffer (d ∷ []) i.buffered (f, tt)

  apply_live-IsCoherent :
      (d : BufferedDelta) (c : Cell)
      → 0 < cfg.max_levels
      → IsFaithful cfg.sync h d
      → has_book c.slot.state ≡ true
      → (check_sequence cfg.sync c.slot.seq d).0 ≡ apply
      → IsCoherent cfg h c.slot
      → IsCoherent cfg h (apply_live cfg d (check_sequence cfg.sync c.slot.seq d).1 c).slot
  unfolding apply_live
  apply_live-IsCoherent d c pos f b e i = record {
    live = λ _. apply-Stands cfg h d c.slot.seq c.slot.book pos f e (i.live b);
    waiting = λ w. cc;
    bridged =
        λ _. ap (λ (q : Seq). q.need_bridge) ((check_sequence_kept cfg.sync c.slot.seq d).0 e);
    held = i.held;
    held_waiting = i.held_waiting;
    held_late = λ _. refl;
    buffered = i.buffered;
    room = i.room;
  }

  keep_copy-IsCoherent :
      (d : BufferedDelta) (c : Cell)
      → IsFaithful cfg.sync h d
      → IsCoherent cfg h c.slot
      → IsCoherent cfg h (keep_copy d c).slot
  unfolding keep_copy
  keep_copy-IsCoherent d c f i =
      if_cases (λ (r : Cell). IsCoherent cfg h r.slot) c.slot.refresh_pending _ c
        (λ _. buffer_delta-IsCoherent d c f i) (λ _. i)

  without_shadow-IsCoherent :
      (s : Slot) → IsCoherent cfg h s → IsCoherent cfg h (record s { shadow = no_shadow })
  without_shadow-IsCoherent s i = record {
    live = i.live;
    waiting = i.waiting;
    bridged = i.bridged;
    held = λ w. cc;
    held_waiting = λ w. cc;
    held_late = λ w. cc;
    buffered = i.buffered;
    room = i.room;
  }

  shadow_step-IsCoherent :
      (d : BufferedDelta) (c : Cell) (o : Verdict × Seq)
      → 0 < cfg.max_levels
      → IsFaithful cfg.sync h d
      → c.slot.shadow.pending ≡ true
      → check_sequence cfg.sync c.slot.shadow.seq d ≡ o
      → IsCoherent cfg h c.slot
      → IsCoherent cfg h (shadow_step cfg d o c).slot
  unfolding shadow_step
  shadow_step-IsCoherent d c (skip, seq) pos f p e i = i
  shadow_step-IsCoherent d c (fail, seq) pos f p e i = without_shadow-IsCoherent c.slot i
  shadow_step-IsCoherent d c (apply, seq) pos f p e i = record {
    live = λ _.
        subst
          (λ (o : Verdict × Seq).
            Stands cfg h (at_event o.1 d) (apply_levels cfg d c.slot.shadow.book))
          e
          (apply-Stands cfg h d c.slot.shadow.seq c.slot.shadow.book pos f
            (ap (λ (o : Verdict × Seq). o.0) e) (i.held p));
    waiting = λ w. cc (i.held_late p);
    bridged = λ _.
        ap (λ (q : Seq). q.need_bridge)
          (sym (ap (λ (o : Verdict × Seq). o.1) e)
            ∙ (check_sequence_kept cfg.sync c.slot.shadow.seq d).0
                (ap (λ (o : Verdict × Seq). o.0) e));
    held = λ w. cc;
    held_waiting = λ w. cc;
    held_late = λ w. cc;
    buffered = i.buffered;
    room = i.room;
  }

  advance_shadow-IsCoherent :
      (d : BufferedDelta) (c : Cell)
      → 0 < cfg.max_levels
      → IsFaithful cfg.sync h d
      → IsCoherent cfg h c.slot
      → IsCoherent cfg h (advance_shadow cfg d c).slot
  unfolding advance_shadow
  advance_shadow-IsCoherent d c pos f i =
      if_cases (λ (r : Cell). IsCoherent cfg h r.slot) c.slot.shadow.pending _ c
        (λ p.
          shadow_step-IsCoherent d c (check_sequence cfg.sync c.slot.shadow.seq d) pos f p refl i)
        (λ _. i)

  -- A book that failed its check keeps nothing that is published as exact.
  pub invalidate-IsCoherent : (s : Slot) → IsCoherent cfg h s → IsCoherent cfg h (invalidate s)
  invalidate-IsCoherent s i = record {
    live = λ w. cc;
    waiting = λ w. cc;
    bridged = λ w. cc;
    held = i.held;
    held_waiting = i.held_waiting;
    held_late = λ _. refl;
    buffered = i.buffered;
    room = i.room;
  }

  after_check-IsCoherent :
      (d : BufferedDelta) (c : Cell) (o : Verdict × Seq)
      → 0 < cfg.max_levels
      → IsFaithful cfg.sync h d
      → has_book c.slot.state ≡ true
      → check_sequence cfg.sync c.slot.seq d ≡ o
      → IsCoherent cfg h c.slot
      → IsCoherent cfg h (after_check cfg d o c).0.slot
  unfolding after_check
  after_check-IsCoherent d c (fail, seq) pos f b e i = invalidate-IsCoherent c.slot i
  after_check-IsCoherent d c (skip, seq) pos f b e i =
      advance_shadow-IsCoherent d (keep_copy d c) pos f (keep_copy-IsCoherent d c f i)
  after_check-IsCoherent d c (apply, seq) pos f b e i =
      let applied : IsCoherent cfg h (apply_live cfg d seq c).slot =
        subst (λ (o : Verdict × Seq). IsCoherent cfg h (apply_live cfg d o.1 c).slot) e
          (apply_live-IsCoherent d c pos f b (ap (λ (o : Verdict × Seq). o.0) e) i) in
      advance_shadow-IsCoherent d (keep_copy d (apply_live cfg d seq c)) pos f
        (keep_copy-IsCoherent d (apply_live cfg d seq c) f applied)

  -- Whatever the verdicts on the live book and on a shadow, `applyDelta` keeps the slot coherent.
  pub apply_delta-IsCoherent :
      (d : BufferedDelta) (c : Cell)
      → 0 < cfg.max_levels
      → IsFaithful cfg.sync h d
      → IsCoherent cfg h c.slot
      → IsCoherent cfg h (apply_delta cfg d c).0.slot
  unfolding apply_delta
  apply_delta-IsCoherent d c pos f i =
      if_cases (λ (r : Cell × Bool). IsCoherent cfg h r.0.slot)
        (is_syncing c.slot.state || is_valid_state c.slot.state) _ (c, false)
        (λ b. after_check-IsCoherent d c (check_sequence cfg.sync c.slot.seq d) pos f b refl i)
        (λ _. i)
