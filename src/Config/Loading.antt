-- ===== src/Config/Loading.antt =====
-- cpp/include/config.hpp: what a configuration that loads is sure to hold.
use t2s.Base.{
  ◌≡◌, ◌≢◌, refl, sym, ◌∙◌, Bool, true, false, not, ◌&&◌, Option, none, some, String, [], All,
  is_empty, is_lowercase, to_lower-is_lowercase, c_string, if◌then◌else◌, arith,
}
use mathlib.Core.Path.{subst}
use t2s.Json.{Members, Items, object, array, find}
use t2s.Config.{
  backfill_incomplete, has_symbols, ok, err, ◌>>=◌, ◌>>◌, require, File, FeedHandlerConfig,
  default_config, load_shared, document, shared_path_for,
}
use t2s.Config.Blocks.{
  with_backfill, backfill_is_complete, load_tickerplant, load_reconnect, load_market, load_backfill,
  load_logging, load_blocks, handler_members, lacks, load, block, enabled_in,
}
use t2s.Config.Shared.{
  Ensures, Ensures->>=, Ensures-ok, IsFromTo, IsAbove0, IsShared, is_positive-IsAbove0, any_ok,
  SharedOver, load_shared-IsShared,
}
use t2s.Config.Names.{IsStreamName, GivenIn, GivenIn-named, GivenIn-always, NoneIsNul}

-- A backfill that is on has an endpoint and numbers above 0.
pub record CanBackfill (c : FeedHandlerConfig) : Type 0 where
  pub host : is_empty c.backfill_rest_host ≡ false
  pub path : is_empty c.backfill_rest_path ≡ false
  pub weight : IsAbove0 c.backfill_weight
  pub weight_limit : IsAbove0 c.backfill_weight_limit
  pub max_gap_ids : IsAbove0 c.backfill_max_gap_ids

pub record IsUsable (P : String → Type 0) (c : FeedHandlerConfig) : Type 0 where
  pub shared : IsShared P c
  pub backfill : c.backfill_enabled ≡ true → CanBackfill c

backfill_is_complete-CanBackfill :
    (c : FeedHandlerConfig) → backfill_is_complete c ≡ true → CanBackfill c
backfill_is_complete-CanBackfill c e = record {
  host = ground arith;
  path = ground arith;
  weight = is_positive-IsAbove0 c.backfill_weight (ground arith);
  weight_limit = is_positive-IsAbove0 c.backfill_weight_limit (ground arith);
  max_gap_ids = is_positive-IsAbove0 c.backfill_max_gap_ids (ground arith);
}

module _ (P : String → Type 0) where
  abbrev Usable : FeedHandlerConfig → Type 0
  Usable = IsUsable P

  abbrev Shared : FeedHandlerConfig → Type 0
  Shared = IsShared P

  abbrev Over : FeedHandlerConfig → FeedHandlerConfig → Type 0
  Over = SharedOver P

  load_backfill-IsUsable :
      (b : Option Members) (c : FeedHandlerConfig)
      → Shared c
      → c.backfill_enabled ≡ false
      → Ensures Usable (load_backfill b c)
  unfolding load_backfill
  load_backfill-IsUsable none c s off = record { shared = s; backfill = λ on. cc }
  load_backfill-IsUsable (some b) c0 s off = go (enabled_in b) (backfill_is_complete c) refl refl
    where
      c : FeedHandlerConfig
      c = with_backfill b c0

      go :
          (on complete : Bool)
          → enabled_in b ≡ on
          → backfill_is_complete c ≡ complete
          → Ensures Usable (if on && not complete then err backfill_incomplete else ok c)
      go true true e f = record {
        shared = record {
          some_symbol = s.some_symbol;
          names = s.names;
          depth = s.depth;
          lag = s.lag;
        };
        backfill = λ on. backfill_is_complete-CanBackfill c f;
      }
      go true false e f = tt
      go false complete e f = record {
        shared = record {
          some_symbol = s.some_symbol;
          names = s.names;
          depth = s.depth;
          lag = s.lag;
        };
        backfill = λ on. cc;
      }

  IsShared-same :
      (c c' : FeedHandlerConfig)
      → c'.symbols ≡ c.symbols
      → c'.quote_depth ≡ c.quote_depth
      → c'.clock_lag_ms ≡ c.clock_lag_ms
      → Shared c
      → Shared c'
  IsShared-same c c' e f g s = record {
    some_symbol = subst (λ ss. ss ≢ []) (sym e) s.some_symbol;
    names = subst (All P) (sym e) s.names;
    depth = subst (IsFromTo 1 50) (sym f) s.depth;
    lag = subst (IsFromTo 100 3600000) (sym g) s.lag;
  }

  -- The blocks before the backfill leave alone what the shared file gave.
  blocks_before-IsShared :
      (tp rc m : Option Members) (c : FeedHandlerConfig)
      → Shared c
      → let c' = load_market m (load_reconnect rc (load_tickerplant tp c)) in
        Shared c' × (c'.backfill_enabled ≡ c.backfill_enabled)
  unfolding load_market load_reconnect load_tickerplant
  blocks_before-IsShared none none none c s = (s, refl)
  blocks_before-IsShared none none (some m) c s = (IsShared-same c _ refl refl refl s, refl)
  blocks_before-IsShared none (some rc) none c s = (IsShared-same c _ refl refl refl s, refl)
  blocks_before-IsShared none (some rc) (some m) c s = (IsShared-same c _ refl refl refl s, refl)
  blocks_before-IsShared (some tp) none none c s = (IsShared-same c _ refl refl refl s, refl)
  blocks_before-IsShared (some tp) none (some m) c s = (IsShared-same c _ refl refl refl s, refl)
  blocks_before-IsShared (some tp) (some rc) none c s = (IsShared-same c _ refl refl refl s, refl)
  blocks_before-IsShared (some tp) (some rc) (some m) c s =
      (IsShared-same c _ refl refl refl s, refl)

  load_logging-IsUsable :
      (lg : Option Members) (c : FeedHandlerConfig) → Usable c → Usable (load_logging lg c)
  unfolding load_logging
  load_logging-IsUsable none c u = u
  load_logging-IsUsable (some lg) c u = record {
    shared = IsShared-same c _ refl refl refl u.shared;
    backfill = λ on.
        (let b = u.backfill on in
          record {
            host = b.host;
            path = b.path;
            weight = b.weight;
            weight_limit = b.weight_limit;
            max_gap_ids = b.max_gap_ids;
          });
  }

  load_blocks-IsUsable :
      (ms : Members) (c0 c : FeedHandlerConfig)
      → c0.backfill_enabled ≡ false
      → Over c0 c
      → Ensures Usable (load_blocks ms c)
  unfolding load_blocks
  load_blocks-IsUsable ms c0 c off s =
      let before =
        blocks_before-IsShared (block "tickerplant" ms) (block "reconnect" ms) (block "market" ms) c
          s.0 in
      Ensures->>= Usable Usable
        (load_backfill (block "backfill" ms) (
          load_market (block "market" ms)
            (load_reconnect (block "reconnect" ms) (load_tickerplant (block "tickerplant" ms) c))))
        (λ c. ok (load_logging (block "logging" ms) c))
        (load_backfill-IsUsable (block "backfill" ms) _ before.0 (before.1 ∙ s.1 ∙ off))
        (load_logging-IsUsable (block "logging" ms))

  pub loaded-IsUsable :
      (open_file : String → Option File) (env : Option String) (path : String)
      (c : FeedHandlerConfig)
      → GivenIn P (open_file (shared_path_for env path))
      → load open_file env path default_config ≡ ok c
      → Usable c
  unfolding load
  loaded-IsUsable open_file env path c given e =
      let c0 = default_config in
      let rest = λ (ms : Members).
        require (lacks "symbols" ms) has_symbols
        >> (load_shared open_file env path c0 >>= load_blocks ms) in
      Ensures-ok Usable (handler_members path (open_file path) >>= rest) c e (
        Ensures->>= (λ _. Unit {0}) Usable (handler_members path (open_file path)) rest
          (any_ok (handler_members path (open_file path)))
          (λ ms _.
            Ensures->>= (λ _. Unit {0}) Usable (require (lacks "symbols" ms) has_symbols)
              (λ _. load_shared open_file env path c0 >>= load_blocks ms)
              (any_ok (require (lacks "symbols" ms) has_symbols))
              (λ _ _.
                Ensures->>= (Over c0) Usable (load_shared open_file env path c0) (load_blocks ms)
                  (load_shared-IsShared P open_file env path c0
                    (2000, refl, ground arith, ground arith) given)
                  (λ c s. load_blocks-IsUsable ms c0 c refl s))))

-- A configuration that loads over the defaults has at least one symbol, every symbol a text in lower case
-- and, if no text among the shared file's symbols starts with a NUL, not empty; a quote depth from 1 to 50
-- and a clock lag from 100 ms to an hour; and if the backfill is on, an endpoint for it and weights, a limit
-- and a span above 0.
pub load-IsUsable :
    (open_file : String → Option File) (env : Option String) (path : String) (c : FeedHandlerConfig)
    → ((ms : Members) (vs : Items)
        → open_file (shared_path_for env path) ≡ some (document (object ms))
        → find "symbols" ms ≡ some (array vs)
        → NoneIsNul vs)
    → load open_file env path default_config ≡ ok c
    → IsUsable IsStreamName c
load-IsUsable open_file env path c n =
    loaded-IsUsable IsStreamName open_file env path c
      (GivenIn-named (open_file (shared_path_for env path)) n)

-- The same whatever the shared file's symbols are, but for a symbol that is empty.
pub load-IsUsable_any :
    (open_file : String → Option File) (env : Option String) (path : String) (c : FeedHandlerConfig)
    → load open_file env path default_config ≡ ok c
    → IsUsable (λ s. is_lowercase s ≡ true) c
load-IsUsable_any open_file env path c =
    loaded-IsUsable (λ s. is_lowercase s ≡ true) open_file env path c
      (GivenIn-always (λ s. is_lowercase s ≡ true) (λ s. to_lower-is_lowercase (c_string s))
        (open_file (shared_path_for env path)))
