-- ===== src/Config/QuoteMain/Sound.antt =====
-- cpp/include/quote_fh_main_common.hpp: what a handler that starts is sure to be, and what it then publishes.
use t2s.Base.{
  is_lowercase, ℕ, ℤ, pos_part, ◌≤◌, ◌<◌, ◌≡◌, refl, sym, ◌∙◌, ap, true, false, not, ◌||◌, Option,
  String, List, map, All, str_eq, eq_iff, is_empty, to_upper, if◌then◌else◌, if_cases, arith,
}
use mathlib.Core.Path.{subst}
use t2s.Market.{DepthSync, spot, futures, QuoteMarketConfig}
use t2s.Json.{Strtod}
use t2s.Book.Slot.{capped}
use t2s.Book.Apply.Exact.{History}
use t2s.Config.{Loaded, ok, err, File, FeedHandlerConfig, default_config}
use t2s.Config.Blocks.{load, is_positive}
use t2s.Config.Shared.{IsFromTo, is_positive-IsAbove0}
use t2s.Config.Loading.{IsUsable, load-IsUsable_any}
use t2s.Config.QuoteMain.{
  Built, built, unbuilt, build_for, build_market_config, market_of, Started, running, refused,
  start_market, start_config, start, no_rest_endpoint, no_rest_numbers, no_market_block,
  unknown_schema, wrong_schema,
}
use t2s.Quotes.{QuoteHandler}
use t2s.Quotes.Setup.{book_config, new_quote_handler, new_quote_handler-IsTrue, capped_keeps}
use t2s.Quotes.Truth.{IsTrue}
use t2s.Book.Manager.{new_manager}
use t2s.Quotes.Truth.Acts.{IsHonest, acts-IsTrue}
use t2s.Quotes.Acts.{Act, acts}

-- The schema that a configuration names is the rule that its market follows.
abbrev Follows : String → DepthSync → Type 0
Follows schema sync =
    (schema ≡ "spot_depth" → sync ≡ spot) × (schema ≡ "futures_depth" → sync ≡ futures)

-- What is asked of a market: its rule is the schema's, and the numbers that the handler divides its
-- budget by are above 0.
pub record IsReady (schema : String) (depth : ℤ) (m : QuoteMarketConfig) : Type 0 where
  follows : Follows schema m.sync
  limit : 0 < m.snapshot_limit
  weight : 0 < m.snapshot_weight
  per_min : 0 < m.weight_limit_per_min
  depth_is : m.depth ≡ pos_part depth

abbrev BuiltReady : FeedHandlerConfig → Built → Type 0
BuiltReady c (built m) = IsReady c.market_schema c.quote_depth m
BuiltReady c (unbuilt e) = Unit

positive : (n : ℤ) → is_positive n ≡ true → 0 < pos_part n
positive n e =
    let (k, is_k, above) = is_positive-IsAbove0 n e in subst (λ m. 0 < pos_part m) (sym is_k) above

named_once : (schema : String) → schema ≡ "spot_depth" → schema ≡ "futures_depth" → ⊥
named_once schema e f =
    let differs : str_eq schema "futures_depth" ≡ false =
      subst (λ s. str_eq s "futures_depth" ≡ false) (sym e) refl in
    ground (arith, eq_iff schema "futures_depth")

named_spot : (schema : String) → schema ≡ "spot_depth" → Follows schema spot
named_spot schema e = (λ _. refl, λ f. absurd (named_once schema e f))

named_futures : (schema : String) → schema ≡ "futures_depth" → Follows schema futures
named_futures schema e = (λ f. absurd (named_once schema f e), λ _. refl)

build_for-BuiltReady :
    (sync : DepthSync) (c : FeedHandlerConfig)
    → Follows c.market_schema sync
    → BuiltReady c (build_for sync c)
unfolding build_for
build_for-BuiltReady sync c f =
    let bad =
      not (is_positive c.snapshot_limit)
      || not (is_positive c.snapshot_weight)
      || not (is_positive c.weight_limit_per_min) in
    if_cases (BuiltReady c) (is_empty c.rest_host || is_empty c.rest_path)
      (unbuilt no_rest_endpoint) (if bad then unbuilt no_rest_numbers else built (market_of sync c))
      (λ _. tt)
      (λ _.
        if_cases (BuiltReady c) bad (unbuilt no_rest_numbers) (built (market_of sync c)) (λ _. tt)
          (λ e. record {
            follows = f;
            limit = positive c.snapshot_limit (ground arith);
            weight = positive c.snapshot_weight (ground arith);
            per_min = positive c.weight_limit_per_min (ground arith);
            depth_is = refl;
          }))

build_market_config-BuiltReady : (c : FeedHandlerConfig) → BuiltReady c (build_market_config c)
unfolding build_market_config
build_market_config-BuiltReady c =
    let schema = c.market_schema in
    let then_futures =
      if str_eq schema "futures_depth"
      then build_for futures c
      else unbuilt (unknown_schema schema) in
    if_cases (BuiltReady c) (not c.has_market_block) (unbuilt no_market_block)
      (if str_eq schema "spot_depth" then build_for spot c else then_futures) (λ _. tt)
      (λ _.
        if_cases (BuiltReady c) (str_eq schema "spot_depth") (build_for spot c) then_futures
          (λ e.
            build_for-BuiltReady spot c
              (named_spot schema (ground (arith, eq_iff schema "spot_depth"))))
          (λ _.
            if_cases (BuiltReady c) (str_eq schema "futures_depth") (build_for futures c)
              (unbuilt (unknown_schema schema))
              (λ e.
                build_for-BuiltReady futures c
                  (named_futures schema (ground (arith, eq_iff schema "futures_depth"))))
              (λ _. tt)))

-- A handler of a usable configuration: its books' configuration is the file's.
pub record IsStarted (required_schema : String) (c : FeedHandlerConfig) (h : QuoteHandler)
    : Type 0 where
  pub market : QuoteMarketConfig
  pub now : ℕ
  pub ready : IsReady required_schema c.quote_depth market
  pub is_new : h ≡ new_quote_handler c.symbols market now

abbrev StartedWell : String → FeedHandlerConfig → Started → Type 0
StartedWell required_schema c (running h) = IsStarted required_schema c h
StartedWell required_schema c (refused e) = Unit

start_market-StartedWell :
    (c : FeedHandlerConfig) (now : ℕ) (b : Built)
    → BuiltReady c b
    → StartedWell c.market_schema c (start_market c now b)
unfolding start_market
start_market-StartedWell c now (built m) r = record {
  market = m;
  now = now;
  ready = r;
  is_new = refl;
}
start_market-StartedWell c now (unbuilt e) r = tt

start_config-StartedWell :
    (required_schema : String) (now : ℕ) (c : FeedHandlerConfig)
    → StartedWell required_schema c (start_config required_schema now (ok c))
unfolding start_config
start_config-StartedWell required_schema now c =
    let market = start_market c now (build_market_config c) in
    if_cases (StartedWell required_schema c) (not (str_eq c.market_schema required_schema))
      (refused (wrong_schema c.market_schema)) market (λ _. tt)
      (λ e.
        subst (λ s. StartedWell s c market) (ground (arith, eq_iff c.market_schema required_schema))
          (start_market-StartedWell c now (build_market_config c)
            (build_market_config-BuiltReady c)))

-- What a handler is that has started and then done anything.
pub record IsSound (truth : String → History) (required_schema : String) (h h' : QuoteHandler)
    : Type 0 where
  pub follows : Follows required_schema h.book_mgr.cfg.sync
  pub depth : (1 ≤ h.book_mgr.cfg.depth) × (h.book_mgr.cfg.depth ≤ 50)
  pub is_true : IsTrue truth h.book_mgr.cfg h.book_mgr.idx_to_sym h'

abbrev pub LoadedWell : FeedHandlerConfig → Type 0
LoadedWell = IsUsable (λ s. is_lowercase s ≡ true)

pub start-StartedWell :
    (required_schema : String) (open_file : String → Option File) (env : Option String)
    (path : String) (now : ℕ) (h : QuoteHandler)
    → start required_schema open_file env path now ≡ running h
    → (c : FeedHandlerConfig) × LoadedWell c × IsStarted required_schema c h
unfolding start
start-StartedWell required_schema open_file env path now h e =
    go (load open_file env path default_config) refl e
  where
    go :
        (m : Loaded FeedHandlerConfig)
        → load open_file env path default_config ≡ m
        → start_config required_schema now m ≡ running h
        → (c : FeedHandlerConfig) × LoadedWell c × IsStarted required_schema c h
    go (ok c) l s = (
      c,
      load-IsUsable_any open_file env path c l,
      subst (StartedWell required_schema c) s (start_config-StartedWell required_schema now c),
    )
    go (err f) l s = (unfold start_config in cc)

module _ (truth : String → History) (strtod : String → Strtod) (required_schema : String) where
  abbrev IsSoundFrom : List Act → QuoteHandler → Type 0
  IsSoundFrom as_ h =
      All (IsHonest truth h.book_mgr.cfg strtod) as_
      → IsSound truth required_schema h (acts strtod as_ h)

  new_quote_handler-IsSoundFrom :
      (symbols : List String) (depth : ℤ) (market : QuoteMarketConfig) (now : ℕ) (as_ : List Act)
      → IsFromTo 1 50 depth
      → IsReady required_schema depth market
      → IsSoundFrom as_ (new_quote_handler symbols market now)
  unfolding new_quote_handler new_manager
  new_quote_handler-IsSoundFrom symbols depth market now as_ (k, is_k, low, high) r honest =
      let cfg = capped (book_config market) in
      let (limit_is, levels_are, depth_is, sync_is) = capped_keeps (book_config market) in
      let shown : market.depth ≡ k = r.depth_is ∙ ap pos_part is_k in
      record {
        follows = subst (Follows required_schema) (sym sync_is) r.follows;
        depth = subst (λ n. (1 ≤ n) × (n ≤ 50)) (sym (depth_is ∙ shown)) (low, high);
        is_true =
            acts-IsTrue truth cfg (map to_upper symbols) (subst (λ n. 0 < n) (sym limit_is) r.limit)
              (subst (λ n. 0 < n) (sym levels_are) (omega arith)) strtod as_
              (new_quote_handler symbols market now) honest
              (new_quote_handler-IsTrue truth symbols market now);
      }

  IsStarted-IsSoundFrom :
      (c : FeedHandlerConfig) (h : QuoteHandler) (as_ : List Act)
      → LoadedWell c
      → IsStarted required_schema c h
      → IsSoundFrom as_ h
  IsStarted-IsSoundFrom c h as_ u s = subst (IsSoundFrom as_) (sym s.is_new) (
      new_quote_handler-IsSoundFrom c.symbols c.quote_depth s.market s.now as_ u.shared.depth
        s.ready)

-- A quote handler that starts from its configuration files, whatever they hold, and then does anything
-- with the exchange's own events and depth replies: its books follow the rule of the schema that the
-- program is for, it shows from 1 to 50 levels a side, and every valid row that it has published shows
-- the best levels that the exchange had for the row's symbol at the update id that the row carries.
pub start-IsSound :
    (truth : String → History) (strtod : String → Strtod) (required_schema : String)
    (open_file : String → Option File) (env : Option String) (path : String) (now : ℕ)
    (h : QuoteHandler) (as_ : List Act)
    → start required_schema open_file env path now ≡ running h
    → All (IsHonest truth h.book_mgr.cfg strtod) as_
    → IsSound truth required_schema h (acts strtod as_ h)
start-IsSound truth strtod required_schema open_file env path now h as_ e honest =
    let (c, usable, started) = start-StartedWell required_schema open_file env path now h e in
    IsStarted-IsSoundFrom truth strtod required_schema c h as_ usable started honest
