-- ===== src/Quotes/Setup.antt =====
-- cpp/src/quote_feed_handler.cpp: the constructor. `now` is the steady clock. The numbers of the market
-- configuration are above 0, so the casts between int and size_t keep them.
use t2s.Base.{
  ℕ, zero, suc, ◌≡◌, refl, some, String, List, [], ◌∷◌, map, length, replicate, get_or, get_elem?,
  ltb, ◌/◌, to_upper, if_cases,
}
use mathlib.Core.Option.{some-injective}
use t2s.Market.{QuoteMarketConfig}
use t2s.Book.Types.{BookConfig, default_book_config}
use t2s.Book.Slot.{new_slot, capped}
use t2s.Book.Apply.Exact.{History}
use t2s.Book.Apply.Invariant.{IsCoherent}
use t2s.Book.Lifecycle.{fresh-IsCoherent}
use t2s.Book.Manager.{new_manager, get_symbol_index}
use t2s.Book.Manager.Frame.{get_symbol_index_lem}
use t2s.Scheduler.{SnapshotSchedulerConfig, new_scheduler, default_scheduler_config}
use t2s.Clock.{new_clock}
use t2s.Worker.{new_worker}
use t2s.Worker.Each.{new_worker-HoldEach}
use t2s.Quotes.{QuoteHandler}
use t2s.Quotes.Truth.{history, IsNamed, IsTrueReply, IsTrue}

abbrev pub book_config : QuoteMarketConfig → BookConfig
book_config market = record default_book_config {
  snapshot_limit = market.snapshot_limit;
  sync = market.sync;
  depth = market.depth;
}

abbrev pub scheduler_config : QuoteMarketConfig → SnapshotSchedulerConfig
scheduler_config market = record default_scheduler_config {
  weight_per_request = market.snapshot_weight;
  weight_limit_per_min = market.weight_limit_per_min;
}

-- The symbols are in lower case for the stream's path, and in upper case everywhere else.
unfoldable pub new_quote_handler : List String → QuoteMarketConfig → ℕ → QuoteHandler
unfolding to_upper new_manager
new_quote_handler symbols market now =
    let symbols_upper = map to_upper symbols in
    record {
      book_mgr = new_manager symbols_upper (book_config market) now;
      scheduler = new_scheduler (length symbols_upper) (scheduler_config market);
      worker = new_worker;
      row_clock = new_clock market.clock_lag_ms;
      latest_request_id = replicate (length symbols_upper) 0;
      snapshot_requested_at_ms = replicate (length symbols_upper) 0;
      fh_seq_no = 0;
      parse_failures = 0;
      ctr_sequence_gaps = 0;
      ctr_resyncs = 0;
      ctr_snapshot_failures = 0;
      outbox = [];
    }

-- The cap is on the refresh mark alone.
pub capped_keeps :
    (cfg : BookConfig)
    → ((capped cfg).snapshot_limit ≡ cfg.snapshot_limit)
      × ((capped cfg).max_levels ≡ cfg.max_levels)
      × ((capped cfg).depth ≡ cfg.depth)
      × ((capped cfg).sync ≡ cfg.sync)
unfolding capped
capped_keeps cfg =
    if_cases
      (λ (k : BookConfig).
        (k.snapshot_limit ≡ cfg.snapshot_limit)
        × (k.max_levels ≡ cfg.max_levels)
        × (k.depth ≡ cfg.depth)
        × (k.sync ≡ cfg.sync))
      (ltb (cfg.snapshot_limit / 2) cfg.refresh_low_water)
      (record cfg { refresh_low_water = cfg.snapshot_limit / 2 }) cfg
      (λ _. (refl, refl, refl, refl)) (λ _. (refl, refl, refl, refl))

pub get_or-get_elem? {ℓ} :
    {A : Type ℓ} (xs : List A) (i : ℕ) (a d : A) → get_elem? xs i ≡ some a → get_or xs i d ≡ a
get_or-get_elem? [] i a d e = cc
get_or-get_elem? (x ∷ xs) zero a d e = some-injective _ _ e
get_or-get_elem? (x ∷ xs) (suc i) a d e = get_or-get_elem? xs i a d e

module _ (truth : String → History) where
  fresh_slots :
      (cfg : BookConfig) (now : ℕ) (hist : ℕ → History) (names : List String) (i : ℕ)
      → IsCoherent cfg (hist i) (get_or (map (λ _. new_slot now) names) i (new_slot 0))
  fresh_slots cfg now hist [] i = fresh-IsCoherent cfg (hist i) 0
  fresh_slots cfg now hist (n ∷ ns) zero = fresh-IsCoherent cfg (hist zero) now
  fresh_slots cfg now hist (n ∷ ns) (suc i) = fresh_slots cfg now (λ j. hist (suc j)) ns i

  -- A new handler's books are empty, and nothing is published or waits.
  pub new_quote_handler-IsTrue :
      (symbols : List String) (market : QuoteMarketConfig) (now : ℕ)
      → IsTrue truth
          (capped (book_config market))
          (map to_upper symbols)
          (new_quote_handler symbols market now)
  unfolding new_quote_handler new_manager get_symbol_index
  new_quote_handler-IsTrue symbols market now =
      let names = map to_upper symbols in
      let cfg = capped (book_config market) in
      record {
        cfg_is = refl;
        names_are = refl;
        indexed = λ name i e.
            get_or-get_elem? names i name ""
              ((get_symbol_index_lem names (book_config market) now name).0 i e);
        coherent = fresh_slots cfg now (history truth cfg names) names;
        true_rows = tt;
        waiting = new_worker-HoldEach (IsNamed truth cfg names) (IsTrueReply truth cfg names);
      }
