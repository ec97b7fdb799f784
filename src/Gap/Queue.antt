-- ===== src/Gap/Queue.antt =====
-- cpp/include/trade_gap.hpp: GapEventQueue.flush loses no event that TP did not answer.
use t2s.Base.{ℕ, ◌+◌, true, false, List, [], ◌∷◌, ◌++◌, length, ◌≡◌, ◌≢◌, refl, ap, arith}
use t2s.Gap.{
  EventResult, acked, connection_lost, rejected, GapEventQueue, Flushed, next_result, later_results,
  flush_from, flush,
}

-- The rows that TP answered, acknowledged or rejected, in the order sent.
pub answered : {R : Type 0} → List (R × EventResult) → List R
answered [] = []
answered ((row, acked) ∷ sent) = row ∷ answered sent
answered ((row, rejected) ∷ sent) = row ∷ answered sent
answered ((row, connection_lost) ∷ sent) = answered sent

-- The rows that TP acknowledged.
pub acknowledged : {R : Type 0} → List (R × EventResult) → List R
acknowledged [] = []
acknowledged ((row, acked) ∷ sent) = row ∷ acknowledged sent
acknowledged ((row, rejected) ∷ sent) = acknowledged sent
acknowledged ((row, connection_lost) ∷ sent) = acknowledged sent

pub record IsFlushOf {R : Type 0} (pending : List R) (acks rejects : ℕ) (out : Flushed R)
    : Type 0 where
  pub kept : pending ≡ answered out.sent ++ out.queue.pending
  pub counted :
      out.queue.acked_rows + out.queue.rejected_rows ≡ acks + rejects + length (answered out.sent)
  pub acks_counted : out.queue.acked_rows ≡ acks + length (acknowledged out.sent)
  pub emptied : out.empty ≡ true → out.queue.pending ≡ []
  pub waiting : out.empty ≡ false → out.queue.pending ≢ []

flush_from-IsFlushOf :
    {R : Type 0} (pending : List R) (rs : List EventResult) (acks rejects : ℕ)
    → IsFlushOf pending acks rejects (flush_from pending rs acks rejects)
unfolding flush_from answered acknowledged
flush_from-IsFlushOf [] rs acks rejects = record {
  kept = refl;
  counted = omega arith;
  acks_counted = omega arith;
  emptied = λ e. refl;
  waiting = λ e. cc;
}
flush_from-IsFlushOf {R} (row ∷ rest) rs acks rejects =
    go (next_result rs) (flush_from-IsFlushOf rest (later_results rs) acks (rejects + 1))
      (flush_from-IsFlushOf rest (later_results rs) (acks + 1) rejects)
  where
    go :
        (r : EventResult)
        → IsFlushOf rest acks (rejects + 1) (flush_from rest (later_results rs) acks (rejects + 1))
        → IsFlushOf rest (acks + 1) rejects (flush_from rest (later_results rs) (acks + 1) rejects)
        → IsFlushOf (row ∷ rest) acks rejects (elim r as (λ _. Flushed R) [
          | connection_lost ↦ record {
            sent = (row, connection_lost) ∷ [];
            queue = record { pending = row ∷ rest; acked_rows = acks; rejected_rows = rejects };
            empty = false;
          }
          | rejected ↦
              let more = flush_from rest (later_results rs) acks (rejects + 1) in
              record more { sent = (row, rejected) ∷ more.sent }
          | acked ↦
              let more = flush_from rest (later_results rs) (acks + 1) rejects in
              record more { sent = (row, acked) ∷ more.sent }
        ])
    go connection_lost h1 h2 = record {
      kept = refl;
      counted = omega arith;
      acks_counted = omega arith;
      emptied = λ e. cc;
      waiting = λ e. λ f. cc;
    }
    go rejected h1 h2 = record {
      kept = ap (λ xs. row ∷ xs) h1.kept;
      counted = ground (arith, h1.counted);
      acks_counted = h1.acks_counted;
      emptied = h1.emptied;
      waiting = h1.waiting;
    }
    go acked h1 h2 = record {
      kept = ap (λ xs. row ∷ xs) h2.kept;
      counted = ground (arith, h2.counted);
      acks_counted = ground (arith, h2.acks_counted);
      emptied = h2.emptied;
      waiting = h2.waiting;
    }

-- Whatever TP answers, a flush sends the queue in order: the rows answered, and then the rows left,
-- are the rows that were queued, so an event leaves the queue only with an answer and none is sent
-- out of order; each answered row is counted once, acknowledged or rejected; and the flush reports an
-- empty queue exactly when no row is left.
pub flush-IsFlushOf :
    {R : Type 0} (rs : List EventResult) (q : GapEventQueue R)
    → IsFlushOf q.pending q.acked_rows q.rejected_rows (flush rs q)
unfolding flush
flush-IsFlushOf rs q = flush_from-IsFlushOf q.pending rs q.acked_rows q.rejected_rows
