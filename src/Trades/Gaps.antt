-- ===== src/Trades/Gaps.antt =====
-- cpp/src/trade_feed_handler.cpp: what becomes of the gaps in the exchange's ids.
use t2s.Base.{
  ℕ, ◌+◌, some, String, List, [], ◌∷◌, ◌++◌, length, ltb, length-append, ++-[], if◌then◌else◌,
  if_cases, ◌≡◌, refl, sym, ap, ◌∙◌, arith,
}
use mathlib.Core.Path.{subst}
use mathlib.Core.List.{append_assoc}
use t2s.Book.Double.{Double}
use t2s.Gap.{
  TradeGap, EventResult, Kind, first, in_order, gap, duplicate, out_of_order, on_id, missing,
  GapEventQueue, push, flush,
}
use t2s.Gap.Tracker.{Entry, feed}
use t2s.Gap.Queue.{answered, flush-IsFlushOf}
use t2s.Backfill.{Job, TradeBackfill, add_gap}
use t2s.Trades.{
  TradeMessage, TradeHandler, Timing, record_gap, note_gap, heed_kind, validate_trade_id, publish,
  publish_live, lacks_nq, flush_waiting, process_message,
}

-- The events that a queue was given: those that TP answered, and those that wait.
pub taken : {R : Type 0} → GapEventQueue R → ℕ
taken q = q.acked_rows + q.rejected_rows + length q.pending

taken-flush :
    {R : Type 0} (rs : List EventResult) (q : GapEventQueue R) → taken (flush rs q).queue ≡ taken q
unfolding taken
taken-flush rs q =
    let f = flush-IsFlushOf rs q in
    let l =
      ap length f.kept ∙ length-append (answered (flush rs q).sent) (flush rs q).queue.pending in
    omega (arith, l, f.counted)

taken-push : {R : Type 0} (row : R) (q : GapEventQueue R) → taken (push row q) ≡ taken q + 1
unfolding taken push
taken-push row q = omega (arith, length-append q.pending (row ∷ []))

-- The missing ids of a kind, as the tracker reports them.
pub gaps_of : String → Kind → List TradeGap
gaps_of name (gap a b) =
    record { sym = name; first_id = a; last_id = b; recovered = 0; recovered_through_id = 0 } ∷ []
gaps_of name _ = []

pub all_gaps : List Entry → List TradeGap
unfolding gaps_of
all_gaps [] = []
all_gaps (e ∷ es) = gaps_of e.sym e.kind ++ all_gaps es

pub jobs : List TradeGap → List Job
jobs [] = []
jobs (g ∷ gs) = record { gap = g; failures = 0 } ∷ jobs gs

pub total_missing : List TradeGap → ℕ
total_missing [] = 0
total_missing (g ∷ gs) = missing g + total_missing gs

-- `h'` is `h` with the gaps taken care of: queued for the backfill in order, handed to the queue of gap
-- events, and counted with their ids.
pub record Handles (gs : List TradeGap) (h h' : TradeHandler) : Type 0 where
  pub queued : h'.backfill.queue ≡ h.backfill.queue ++ jobs gs
  pub recorded : taken h'.gap_events ≡ taken h.gap_events + length gs
  pub gaps_counted : h'.ctr_exch_gaps ≡ h.ctr_exch_gaps + length gs
  pub ids_counted : h'.ctr_exch_missed ≡ h.ctr_exch_missed + total_missing gs

jobs-++ : (xs ys : List TradeGap) → jobs (xs ++ ys) ≡ jobs xs ++ jobs ys
unfolding jobs
jobs-++ [] ys = refl
jobs-++ (x ∷ xs) ys = ap (λ l. record { gap = x; failures = 0 } ∷ l) (jobs-++ xs ys)

total_missing-++ :
    (xs ys : List TradeGap) → total_missing (xs ++ ys) ≡ total_missing xs + total_missing ys
unfolding total_missing
total_missing-++ [] ys = omega arith
total_missing-++ (x ∷ xs) ys = omega (arith, total_missing-++ xs ys)

Handles-trans :
    (xs ys : List TradeGap) (h h1 h2 : TradeHandler)
    → Handles xs h h1
    → Handles ys h1 h2
    → Handles (xs ++ ys) h h2
Handles-trans xs ys h h1 h2 a b = record {
  queued =
      b.queued
      ∙ ap (λ q. q ++ jobs ys) a.queued
      ∙ append_assoc h.backfill.queue (jobs xs) (jobs ys)
      ∙ ap (λ l. h.backfill.queue ++ l) (sym (jobs-++ xs ys));
  recorded = omega (arith, a.recorded, b.recorded, length-append xs ys);
  gaps_counted = omega (arith, a.gaps_counted, b.gaps_counted, length-append xs ys);
  ids_counted = omega (arith, a.ids_counted, b.ids_counted, total_missing-++ xs ys);
}

-- Nothing to take care of, and the queues and the counters as they were.
unchanged :
    (h h' : TradeHandler)
    → h'.backfill ≡ h.backfill
    → taken h'.gap_events ≡ taken h.gap_events
    → h'.ctr_exch_gaps ≡ h.ctr_exch_gaps
    → h'.ctr_exch_missed ≡ h.ctr_exch_missed
    → Handles [] h h'
unfolding jobs total_missing
unchanged h h' b t g m = record {
  queued = ap (λ (x : TradeBackfill Double). x.queue) b ∙ ++-[] h.backfill.queue;
  recorded = omega (arith, t);
  gaps_counted = omega (arith, g);
  ids_counted = omega (arith, m);
}

heed_kind-Handles :
    (k : Kind) (name : String) (now : ℕ) (answers : List EventResult) (h : TradeHandler)
    → Handles (gaps_of name k) h (heed_kind k name now answers h)
unfolding heed_kind note_gap record_gap add_gap gaps_of jobs total_missing
heed_kind-Handles first name now answers h = unchanged h _ refl refl refl refl
heed_kind-Handles in_order name now answers h = unchanged h _ refl refl refl refl
heed_kind-Handles duplicate name now answers h = unchanged h _ refl refl refl refl
heed_kind-Handles out_of_order name now answers h = unchanged h _ refl refl refl refl
heed_kind-Handles (gap a b) name now answers h = record {
  queued = refl;
  recorded = taken-flush answers _ ∙ taken-push _ h.gap_events;
  gaps_counted = refl;
  ids_counted = omega arith;
}

heed_kind-id_tracker :
    (k : Kind) (name : String) (now : ℕ) (answers : List EventResult) (h : TradeHandler)
    → (heed_kind k name now answers h).id_tracker ≡ h.id_tracker
unfolding heed_kind note_gap record_gap
heed_kind-id_tracker first name now answers h = refl
heed_kind-id_tracker in_order name now answers h = refl
heed_kind-id_tracker (gap a b) name now answers h = refl
heed_kind-id_tracker duplicate name now answers h = refl
heed_kind-id_tracker out_of_order name now answers h = refl

validate_trade_id-Handles :
    (name : String) (id now : ℕ) (answers : List EventResult) (h : TradeHandler)
    → (Handles
        (gaps_of name (on_id name id h.id_tracker).1.kind)
        h
        (validate_trade_id name id now answers h))
      × ((validate_trade_id name id now answers h).id_tracker ≡ (on_id name id h.id_tracker).0)
unfolding validate_trade_id
validate_trade_id-Handles name id now answers h =
    let r = on_id name id h.id_tracker in
    let k = heed_kind-Handles r.1.kind name now answers (record h { id_tracker = r.0 }) in
    (
      record {
        queued = k.queued;
        recorded = k.recorded;
        gaps_counted = k.gaps_counted;
        ids_counted = k.ids_counted;
      },
      heed_kind-id_tracker r.1.kind name now answers (record h { id_tracker = r.0 }),
    )

-- What follows the check of the id leaves the gaps alone.
rest_of_message-Handles :
    (m : TradeMessage) (t : Timing) (h : TradeHandler)
    → let h' = flush_waiting t.late_answers (publish_live m t.recv t.parse_us t.send_us h) in
      Handles [] h h' × (h'.id_tracker ≡ h.id_tracker)
unfolding flush_waiting publish_live publish
rest_of_message-Handles m t h =
    let sent = publish_live m t.recv t.parse_us t.send_us h in
    let flushed = record sent { gap_events = (flush t.late_answers sent.gap_events).queue } in
    if_cases (λ h'. Handles [] h h' × (h'.id_tracker ≡ h.id_tracker))
      (ltb 0 (length sent.gap_events.pending)) flushed sent
      (λ e. (unchanged h flushed refl (taken-flush t.late_answers h.gap_events) refl refl, refl))
      (λ e. (unchanged h sent refl refl refl refl, refl))

process_message-Handles :
    (m : TradeMessage) (t : Timing) (h : TradeHandler)
    → let r = on_id m.sym m.primary_id h.id_tracker in
      Handles (gaps_of m.sym r.1.kind) h (process_message (some m) t h)
      × ((process_message (some m) t h).id_tracker ≡ r.0)
unfolding process_message
process_message-Handles m t h =
    let counted = record h {
      msgs_received = h.msgs_received + 1;
      ctr_nq_missing = if lacks_nq h.schema m.nq then h.ctr_nq_missing + 1 else h.ctr_nq_missing;
    } in
    let checked = validate_trade_id m.sym m.primary_id t.now t.answers counted in
    let v = validate_trade_id-Handles m.sym m.primary_id t.now t.answers counted in
    let r = rest_of_message-Handles m t checked in
    let gs = gaps_of m.sym (on_id m.sym m.primary_id h.id_tracker).1.kind in
    let first_part : Handles gs h checked = record {
      queued = v.0.queued;
      recorded = v.0.recorded;
      gaps_counted = v.0.gaps_counted;
      ids_counted = v.0.ids_counted;
    } in
    (
      subst (λ l. Handles l h (process_message (some m) t h)) (sym (++-[] gs))
          (Handles-trans gs [] h checked (process_message (some m) t h) first_part r.0),
      r.1 ∙ v.1,
    )

-- Messages between two pumps of the backfill.
pub process_all : List (TradeMessage × Timing) → TradeHandler → TradeHandler
process_all [] h = h
process_all ((m, t) ∷ ms) h = process_all ms (process_message (some m) t h)

pub ids : List (TradeMessage × Timing) → List (String × ℕ)
ids [] = []
ids ((m, t) ∷ ms) = (m.sym, m.primary_id) ∷ ids ms

-- Over any messages that were read, whatever TP answers: each gap that the tracker reports for the
-- stream of their ids, and no other, is queued for the backfill, in the tracker's order and with the
-- tracker's ids; as many events were handed to the queue of gap events, in which each is answered by TP
-- or waits; and the counters grow by the gaps and by their missing ids.
pub process_all-Handles :
    (ms : List (TradeMessage × Timing)) (h : TradeHandler)
    → Handles (all_gaps (feed (ids ms) h.id_tracker).1) h (process_all ms h)
unfolding process_all ids all_gaps feed
process_all-Handles [] h = unchanged h h refl refl refl refl
process_all-Handles ((m, t) ∷ ms) h =
    let r = on_id m.sym m.primary_id h.id_tracker in
    let p = process_message-Handles m t h in
    let h1 = process_message (some m) t h in
    Handles-trans (gaps_of m.sym r.1.kind) (all_gaps (feed (ids ms) r.0).1) h h1 (process_all ms h1)
      p.0
      (subst (λ tracker. Handles (all_gaps (feed (ids ms) tracker).1) h1 (process_all ms h1)) p.1
        (process_all-Handles ms h1))
