-- ===== src/Scheduler/Calls.antt =====
-- cpp/include/snapshot_scheduler.hpp: the calls a client makes, in any order.
use t2s.Base.{ℕ, Option, List, [], ◌∷◌}
use t2s.Scheduler.{Scheduler, try_acquire, on_fetch_ok, on_failure, on_synced}

pub data Call : Type 0 where
  acquire : (sym_idx now : ℕ) → Call
  fetch_ok : (now : ℕ) → Option ℕ → Call
  failure : (sym_idx now status retry_after_sec : ℕ) → Option ℕ → (draw : ℕ) → Call
  synced : (sym_idx : ℕ) → Call

unfoldable pub call : Call → Scheduler → Scheduler
call (acquire sym_idx now) s = (try_acquire sym_idx now s).0
call (fetch_ok now used) s = on_fetch_ok now used s
call (failure sym_idx now status retry used draw) s =
    on_failure sym_idx now status retry used draw s
call (synced sym_idx) s = on_synced sym_idx s

unfoldable pub calls : List Call → Scheduler → Scheduler
calls [] s = s
calls (c ∷ cs) s = calls cs (call c s)
