-- ===== src/Book/Snapshot/Invariant.antt =====
-- onSnapshot keeps a slot coherent, on the initial sync and on a background refresh.
use mathlib.Core.Path.{subst}
use t2s.Base.{
  ℕ, ◌≤◌, ◌<◌, ◌≡◌, refl, sym, ap, ◌∙◌, Bool, true, false, not, ◌&&◌, List, [], ◌∷◌, arith, All,
  if_cases, ◌==◌, length,
}
use t2s.Book.Types.{
  max_delta_buffer_size, BookConfig, BufferedDelta, BookState, PriceLevel, SnapshotOutcome, init,
  valid,
}
use t2s.Book.Sequence.{
  Seq, Verdict, skip, apply, fail, check_sequence, check_sequence_kept, at_event,
}
use t2s.Book.Slot.{Book, Slot, Cell, is_init, is_valid_state}
use t2s.Book.Apply.{apply_levels, load_book, seq_of_snapshot, apply_snapshot, apply_delta}
use t2s.Book.Apply.Exact.{
  History, IsFaithful, Stands, apply-Stands, IsDepthReply, load_book-Stands, IsExactAt,
}
use t2s.Book.Apply.Invariant.{IsCoherent, is_early, with_buffer-IsCoherent, apply_delta-IsCoherent}
use t2s.Book.Snapshot.{
  Replay, replayed, replay, swap_in, settle, finish_refresh, apply_all, first_sync, on_snapshot,
}

module _ (cfg : BookConfig) (h : History) where
  replayed-Stands :
      (d : BufferedDelta) (r : Replay) (o : Verdict × Seq)
      → 0 < cfg.max_levels
      → IsFaithful cfg.sync h d
      → check_sequence cfg.sync r.seq d ≡ o
      → Stands cfg h r.seq r.book
      → Stands cfg h (replayed cfg d o r).seq (replayed cfg d o r).book
  replayed-Stands d r (skip, seq) pos f e x =
      subst (λ q. Stands cfg h q r.book)
        (sym ((check_sequence_kept cfg.sync r.seq d).1 (ap (λ (o : Verdict × Seq). o.0) e))
          ∙ ap (λ (o : Verdict × Seq). o.1) e)
        x
  replayed-Stands d r (fail, seq) pos f e x =
      subst (λ q. Stands cfg h q r.book)
        (sym ((check_sequence_kept cfg.sync r.seq d).2 (ap (λ (o : Verdict × Seq). o.0) e))
          ∙ ap (λ (o : Verdict × Seq). o.1) e)
        x
  replayed-Stands d r (apply, seq) pos f e x =
      subst (λ (o : Verdict × Seq). Stands cfg h (at_event o.1 d) (apply_levels cfg d r.book)) e
        (apply-Stands cfg h d r.seq r.book pos f (ap (λ (o : Verdict × Seq). o.0) e) x)

  -- The replay of buffered events leaves the shadow exact at the id it has come to.
  replay-Stands :
      (ds : List BufferedDelta) (r : Replay)
      → 0 < cfg.max_levels
      → All (IsFaithful cfg.sync h) ds
      → Stands cfg h r.seq r.book
      → Stands cfg h (replay cfg ds r).seq (replay cfg ds r).book
  unfolding replay
  replay-Stands [] r pos f x = x
  replay-Stands (d ∷ ds) r pos f x = replay-Stands ds _ pos f.1 (
      if_cases (λ (q : Replay). Stands cfg h q.seq q.book) r.failed r _ (λ _. x)
        (λ _. replayed-Stands d r (check_sequence cfg.sync r.seq d) pos f.0 refl x))

  swap_in-IsCoherent :
      (book : Book) (seq : Seq) (c : Cell)
      → c.slot.state ≡ valid
      → seq.need_bridge ≡ false
      → Stands cfg h seq book
      → IsCoherent cfg h c.slot
      → IsCoherent cfg h (swap_in cfg book seq c).slot
  unfolding swap_in
  swap_in-IsCoherent book seq c v n x i = record {
    live = λ _. x;
    waiting = λ w. cc;
    bridged = λ _. n;
    held = i.held;
    held_waiting = i.held_waiting;
    held_late = i.held_late;
    buffered = i.buffered;
    room = i.room;
  }

  hold-IsCoherent :
      (r : Replay) (c : Cell)
      → c.slot.state ≡ valid
      → r.seq.need_bridge ≡ true
      → Stands cfg h r.seq r.book
      → IsCoherent cfg h c.slot
      → IsCoherent cfg h
          (record c.slot { shadow = record { book = r.book; seq = r.seq; pending = true } })
  hold-IsCoherent r c v n x i = record {
    live = i.live;
    waiting = i.waiting;
    bridged = i.bridged;
    held = λ _. x;
    held_waiting = λ _. n;
    held_late = λ _. cc (ap is_early v);
    buffered = i.buffered;
    room = i.room;
  }

  -- A book swapped in under the live bookkeeping is exact at the live id, since its own id is the same.
  at_live_id :
      (id : ℕ) (r : Replay) (s : Slot)
      → r.seq.last_id ≡ id
      → (id == s.seq.last_id) ≡ true
      → s.seq.need_bridge ≡ false
      → Stands cfg h r.seq r.book
      → Stands cfg h s.seq r.book
  at_live_id id r s l e n x = record {
    exact = subst (λ m. IsExactAt cfg h m r.book) (ground arith) x.exact;
    unbridged = λ w. cc;
  }

  settle-IsCoherent :
      (id : ℕ) (r : Replay) (c : Cell)
      → c.slot.state ≡ valid
      → (r.seq.need_bridge ≡ true → r.seq.last_id ≡ id)
      → Stands cfg h r.seq r.book
      → IsCoherent cfg h c.slot
      → IsCoherent cfg h (settle cfg id r c).0.slot
  unfolding settle
  settle-IsCoherent id r c v l x i =
      if_cases (λ (q : Cell × SnapshotOutcome). IsCoherent cfg h q.0.slot) r.failed _ _ (λ _. i)
        (λ _.
          if_cases (λ (q : Cell × SnapshotOutcome). IsCoherent cfg h q.0.slot)
            (r.seq.need_bridge && (id == c.slot.seq.last_id)) _ _
            (λ e.
              swap_in-IsCoherent r.book c.slot.seq c v (i.bridged v)
                (at_live_id id r c.slot (l (ground arith)) (ground arith) (i.bridged v) x) i)
            (λ _.
              if_cases (λ (q : Cell × SnapshotOutcome). IsCoherent cfg h q.0.slot) r.seq.need_bridge
                _ _ (λ e. hold-IsCoherent r c v e x i)
                (λ e. swap_in-IsCoherent r.book r.seq c v e x i)))

  -- A shadow that has not bridged is at the snapshot's id.
  replayed-unbridged :
      (id : ℕ) (d : BufferedDelta) (r : Replay) (o : Verdict × Seq)
      → check_sequence cfg.sync r.seq d ≡ o
      → (r.seq.need_bridge ≡ true → r.seq.last_id ≡ id)
      → (replayed cfg d o r).seq.need_bridge ≡ true
      → (replayed cfg d o r).seq.last_id ≡ id
  replayed-unbridged id d r (skip, seq) e f w =
      let same : r.seq ≡ seq =
        sym ((check_sequence_kept cfg.sync r.seq d).1 (ap (λ (o : Verdict × Seq). o.0) e))
        ∙ ap (λ (o : Verdict × Seq). o.1) e in
      subst (λ (q : Seq). q.need_bridge ≡ true → q.last_id ≡ id) same f w
  replayed-unbridged id d r (fail, seq) e f w =
      let same : r.seq ≡ seq =
        sym ((check_sequence_kept cfg.sync r.seq d).2 (ap (λ (o : Verdict × Seq). o.0) e))
        ∙ ap (λ (o : Verdict × Seq). o.1) e in
      subst (λ (q : Seq). q.need_bridge ≡ true → q.last_id ≡ id) same f w
  replayed-unbridged id d r (apply, seq) e f w =
      let now : seq ≡ record r.seq { need_bridge = false } =
        sym (ap (λ (o : Verdict × Seq). o.1) e)
        ∙ (check_sequence_kept cfg.sync r.seq d).0 (ap (λ (o : Verdict × Seq). o.0) e) in
      cc (ap (λ (q : Seq). q.need_bridge) now)

  replay-unbridged :
      (id : ℕ) (ds : List BufferedDelta) (r : Replay)
      → (r.seq.need_bridge ≡ true → r.seq.last_id ≡ id)
      → (replay cfg ds r).seq.need_bridge ≡ true
      → (replay cfg ds r).seq.last_id ≡ id
  unfolding replay
  replay-unbridged id [] r f = f
  replay-unbridged id (d ∷ ds) r f = replay-unbridged id ds _ (
      if_cases (λ (q : Replay). q.seq.need_bridge ≡ true → q.seq.last_id ≡ id) r.failed r _ (λ _. f)
        (λ _. replayed-unbridged id d r (check_sequence cfg.sync r.seq d) refl f))

  -- Clearing flags and the buffer changes nothing that the invariant speaks of.
  answered-IsCoherent :
      (s : Slot) (requested pending : Bool) (ds : List BufferedDelta)
      → All (IsFaithful cfg.sync h) ds
      → length ds ≤ max_delta_buffer_size
      → IsCoherent cfg h s
      → IsCoherent cfg h (record s {
        snapshot_requested = requested;
        refresh_pending = pending;
        delta_buffer = ds;
      })
  answered-IsCoherent s requested pending ds f l i = record {
    live = i.live;
    waiting = i.waiting;
    bridged = i.bridged;
    held = i.held;
    held_waiting = i.held_waiting;
    held_late = i.held_late;
    buffered = f;
    room = l;
  }

  module _ (id : ℕ) (bids asks : List PriceLevel) (pos : 0 < cfg.snapshot_limit)
      (cap : 0 < cfg.max_levels) (reply : IsDepthReply cfg h id bids asks) where
    loaded-Stands : Stands cfg h (seq_of_snapshot id) (load_book cfg bids asks)
    loaded-Stands = load_book-Stands cfg h id bids asks pos cap reply

    finish_refresh-IsCoherent :
        (c : Cell)
        → c.slot.state ≡ valid
        → IsCoherent cfg h c.slot
        → IsCoherent cfg h (finish_refresh cfg id bids asks c).0.slot
    unfolding finish_refresh
    finish_refresh-IsCoherent c v i =
        settle-IsCoherent id _ _ v (replay-unbridged id c.slot.delta_buffer _ (λ _. refl))
          (replay-Stands c.slot.delta_buffer _ cap i.buffered loaded-Stands)
          (answered-IsCoherent c.slot c.slot.snapshot_requested false [] tt (omega arith) i)

    apply_snapshot-IsCoherent :
        (s : Slot)
        → s.state ≡ init
        → IsCoherent cfg h s
        → IsCoherent cfg h (apply_snapshot cfg id bids asks s)
    unfolding apply_snapshot
    apply_snapshot-IsCoherent s e i = record {
      live = λ _. loaded-Stands;
      waiting = λ _. refl;
      bridged = λ w. cc;
      held = i.held;
      held_waiting = i.held_waiting;
      held_late = λ p. cc (i.held_late p, ap is_early e);
      buffered = i.buffered;
      room = i.room;
    }

    apply_all-IsCoherent :
        (ds : List BufferedDelta) (c : Cell)
        → All (IsFaithful cfg.sync h) ds
        → IsCoherent cfg h c.slot
        → IsCoherent cfg h (apply_all cfg ds c).0.slot
    unfolding apply_all
    apply_all-IsCoherent [] c f i = i
    apply_all-IsCoherent (d ∷ ds) c f i =
        let next = apply_delta-IsCoherent cfg h d c cap f.0 i in
        if_cases (λ (r : Cell × Bool). IsCoherent cfg h r.0.slot) (apply_delta cfg d c).1 _ _
          (λ _. apply_all-IsCoherent ds (apply_delta cfg d c).0 f.1 next) (λ _. next)

    first_sync-IsCoherent :
        (c : Cell)
        → c.slot.state ≡ init
        → IsCoherent cfg h c.slot
        → IsCoherent cfg h (first_sync cfg id bids asks c).0.slot
    unfolding first_sync
    first_sync-IsCoherent c e i = with_buffer-IsCoherent cfg h _ [] tt (omega arith) (
        apply_all-IsCoherent c.slot.delta_buffer _ i.buffered
          (apply_snapshot-IsCoherent c.slot e i))

    -- A snapshot that the exchange took at its id keeps the slot coherent, whatever becomes of it.
    pub on_snapshot-IsCoherent :
        (c : Cell)
        → IsCoherent cfg h c.slot
        → IsCoherent cfg h (on_snapshot cfg id bids asks c).0.slot
    unfolding on_snapshot
    on_snapshot-IsCoherent c i =
        let s = c.slot in
        if_cases (λ (q : Cell × SnapshotOutcome). IsCoherent cfg h q.0.slot)
          (is_valid_state s.state && s.refresh_pending) _ _
          (λ e.
            finish_refresh-IsCoherent _ (valid_of s.state (ground arith))
              (answered-IsCoherent s false s.refresh_pending s.delta_buffer i.buffered i.room i))
          (λ _.
            let idle = answered-IsCoherent s false false s.delta_buffer i.buffered i.room i in
            if_cases (λ (q : Cell × SnapshotOutcome). IsCoherent cfg h q.0.slot)
              (not (is_init s.state)) _ _ (λ _. idle)
              (λ e. first_sync-IsCoherent _ (init_of s.state (ground arith)) idle))
      where
        valid_of : (b : BookState) → is_valid_state b ≡ true → b ≡ valid
        valid_of b e = ground arith

        init_of : (b : BookState) → is_init b ≡ true → b ≡ init
        init_of b e = ground arith
