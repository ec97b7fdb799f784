-- ===== src/Scheduler.antt =====
-- cpp/include/snapshot_scheduler.hpp. Fractions are held in hundredths (0.10 is 10), and tokens in
-- units of 1/6,000,000 of a weight, so that the bucket's arithmetic is exact; `double` rounding is
-- not modelled. The time is the caller's monotonic clock in milliseconds.
use t2s.Base.{
  ℕ, zero, suc, ◌+◌, ◌-◌, ◌*◌, ◌/◌, ◌^◌, min, max, Bool, true, false, ◌||◌, Option, none, some,
  List, ltb, leb, ◌==◌, if◌then◌else◌, replicate, set, get_or,
}
pub mod Examples
pub mod Calls
pub mod Budget
pub mod Backoff
pub mod Pauses

pub record SnapshotSchedulerConfig : Type 0 where
  pub weight_per_request : ℕ
  pub weight_limit_per_min : ℕ
  pub budget_fraction : ℕ
  pub initial_backoff_ms : ℕ
  pub max_backoff_ms : ℕ
  pub jitter_fraction : ℕ
  pub min_pause429_ms : ℕ
  pub min_pause418_ms : ℕ
  pub used_weight_pause_fraction : ℕ
  pub used_weight_pause_ms : ℕ

abbrev pub default_scheduler_config : SnapshotSchedulerConfig
default_scheduler_config = record {
  weight_per_request = 50;
  weight_limit_per_min = 6000;
  budget_fraction = 10;
  initial_backoff_ms = 1000;
  max_backoff_ms = 60000;
  jitter_fraction = 25;
  min_pause429_ms = 60000;
  min_pause418_ms = 300000;
  used_weight_pause_fraction = 50;
  used_weight_pause_ms = 60000;
}

-- The budget per minute in hundredths of a weight: max(weightPerRequest, limit * fraction).
pub budget : SnapshotSchedulerConfig → ℕ
budget cfg = max (cfg.weight_per_request * 100) (cfg.weight_limit_per_min * cfg.budget_fraction)

-- A full bucket, and the cost of a request, in token units.
abbrev pub bucket : SnapshotSchedulerConfig → ℕ
bucket cfg = budget cfg * 60000

abbrev pub cost : SnapshotSchedulerConfig → ℕ
cost cfg = cfg.weight_per_request * 6000000

pub record Scheduler : Type 0 where
  pub cfg : SnapshotSchedulerConfig
  pub failures : List ℕ
  pub next_allowed_ms : List ℕ
  pub tokens : ℕ
  -- `none` is -1: no refill yet
  pub last_refill_ms : Option ℕ
  pub pause_until_ms : ℕ
  pub requests : ℕ
  pub failures_total : ℕ
  pub rate_limit_pauses : ℕ

pub new_scheduler : ℕ → SnapshotSchedulerConfig → Scheduler
new_scheduler num_symbols cfg = record {
  cfg = cfg;
  failures = replicate num_symbols 0;
  next_allowed_ms = replicate num_symbols 0;
  tokens = bucket cfg;
  last_refill_ms = none;
  pause_until_ms = 0;
  requests = 0;
  failures_total = 0;
  rate_limit_pauses = 0;
}

-- The refill after the first one.
pub refill_since : ℕ → ℕ → Scheduler → Scheduler
refill_since now last s = if leb now last then s else record s {
  tokens = min (bucket s.cfg) (s.tokens + budget s.cfg * (now - last));
  last_refill_ms = some now;
}

pub refill : ℕ → Scheduler → Scheduler
unfolding refill_since
refill now s = elim s.last_refill_ms [
  | none ↦ record s { last_refill_ms = some now }
  | some last ↦ refill_since now last s
]

-- May a snapshot for the symbol be requested now? Takes the cost from the bucket on yes.
pub try_acquire : ℕ → ℕ → Scheduler → Scheduler × Bool
try_acquire sym_idx now s0 =
    let s = refill now s0 in
    if ltb now s.pause_until_ms
    then (s, false)
    else if ltb now (get_or s.next_allowed_ms sym_idx 0)
    then (s, false)
    else if ltb s.tokens (cost s.cfg)
    then (s, false)
    else (record s { tokens = s.tokens - cost s.cfg; requests = s.requests + 1 }, true)

pub pause_all : ℕ → ℕ → Scheduler → Scheduler
pause_all now ms s = record s {
  pause_until_ms = if ltb s.pause_until_ms (now + ms) then now + ms else s.pause_until_ms;
  rate_limit_pauses = s.rate_limit_pauses + 1;
}

-- The used-weight header; `none` is -1, absent.
pub check_used_weight : ℕ → Option ℕ → Scheduler → Scheduler
check_used_weight now none s = s
check_used_weight now (some used) s =
    if leb (s.cfg.weight_limit_per_min * s.cfg.used_weight_pause_fraction) (used * 100)
    then pause_all now s.cfg.used_weight_pause_ms s
    else s

pub on_fetch_ok : ℕ → Option ℕ → Scheduler → Scheduler
on_fetch_ok now used s = check_used_weight now used s

-- The loop `for (i = 1; i < n && delay < max; ++i) delay *= 2`, with n - 1 rounds left.
unfoldable pub doubled : ℕ → ℕ → ℕ → ℕ
doubled zero max_ms delay = delay
doubled (suc k) max_ms delay = elim (ltb delay max_ms) [
  | true ↦ doubled k max_ms (delay * 2)
  | false ↦ delay
]

-- The delay after the n-th failure in a row, before the jitter.
pub backoff : SnapshotSchedulerConfig → ℕ → ℕ
unfolding doubled
backoff cfg n = min (doubled (n - 1) cfg.max_backoff_ms cfg.initial_backoff_ms) cfg.max_backoff_ms

-- The jitter source gives draw / 2^53 in [0, 1); the product is truncated to whole milliseconds.
pub jitter : SnapshotSchedulerConfig → ℕ → ℕ → ℕ
jitter cfg draw delay = delay * cfg.jitter_fraction * draw / (100 * 2 ^ 53)

-- HTTP 429 and 418 stop all requests.
pub rate_limited : ℕ → ℕ → ℕ → Scheduler → Scheduler
rate_limited now status retry_after_sec s =
    let floor_ms = if status == 418 then s.cfg.min_pause418_ms else s.cfg.min_pause429_ms in
    if status == 429 || status == 418
    then pause_all now (max floor_ms (retry_after_sec * 1000)) s
    else s

-- The first half of onFailure: the symbol's count and its next allowed time.
pub note_failure : ℕ → ℕ → ℕ → Scheduler → Scheduler
note_failure sym_idx now draw s =
    let n = get_or s.failures sym_idx 0 + 1 in
    let base = backoff s.cfg n in
    let delay = base + jitter s.cfg draw base in
    record s {
      failures_total = s.failures_total + 1;
      failures = set s.failures sym_idx n;
      next_allowed_ms = set s.next_allowed_ms sym_idx (now + delay);
    }

-- A request failed, or its snapshot led to no synced book; status 0 is a transport or sync failure.
pub on_failure : ℕ → ℕ → ℕ → ℕ → Option ℕ → ℕ → Scheduler → Scheduler
on_failure sym_idx now status retry_after_sec used draw s =
    check_used_weight now used
      (rate_limited now status retry_after_sec (note_failure sym_idx now draw s))

pub on_synced : ℕ → Scheduler → Scheduler
on_synced sym_idx s = record s {
  failures = set s.failures sym_idx 0;
  next_allowed_ms = set s.next_allowed_ms sym_idx 0;
}

-- nextAllowedMs(symIdx)
pub next_allowed : ℕ → Scheduler → ℕ
next_allowed sym_idx s = max (get_or s.next_allowed_ms sym_idx 0) s.pause_until_ms
