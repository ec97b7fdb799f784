-- ===== src/Config.antt =====
-- cpp/include/config.hpp: FeedHandlerConfig. The file system and the JSON parser are the argument `open`,
-- which gives none for a file that cannot be opened, and `bad` or the document for one that can. What a
-- load that fails has already stored is not modelled: its callers give the configuration up.
pub mod Blocks
pub mod Names
pub mod Shared
pub mod Loading
pub mod QuoteMain
pub mod TradeMain
pub mod Examples
use Prim.Native.Char.{code}
use t2s.Base.{
  ℕ, ℤ, pos, ltb_ℤ, leb_ℤ, Bool, true, false, not, ◌&&◌, ◌||◌, Option, none, some, String, List, [],
  ◌∷◌, ◌==◌, if◌then◌else◌, join, to_lower, c_string, is_empty,
}
use t2s.Json.{
  Json, Items, Members, nil, cons, boolean, integer, text, array, object, find, is_int, is_int64,
}

-- What is written to the error stream.
pub data ConfigError : Type 0 where
  cannot_open cannot_open_shared : String → ConfigError
  not_json : String → ConfigError
  not_an_object : String → ConfigError
  has_symbols symbols_not_an_array symbol_not_a_name : ConfigError
  no_quote_depth quote_depth_out_of_range : ConfigError
  clock_lag_not_an_integer clock_lag_out_of_range : ConfigError
  backfill_incomplete : ConfigError

pub data Loaded {ℓ} (A : Type ℓ) : Type ℓ where
  ok : A → Loaded A
  err : ConfigError → Loaded A

infixl 5 ◌>>=◌ ◌>>◌
abbrev pub ◌>>=◌ {ℓ κ} : {A : Type ℓ} {B : Type κ} → Loaded A → (A → Loaded B) → Loaded B
ok a >>= f = f a
err e >>= f = err e

abbrev pub ◌>>◌ {ℓ} : {B : Type ℓ} → Loaded (Unit {0}) → Loaded B → Loaded B
m >> k = m >>= λ _. k

abbrev pub require : Bool → ConfigError → Loaded (Unit {0})
require true e = ok tt
require false e = err e

pub data File : Type 0 where
  bad : File
  document : Json → File

pub record FeedHandlerConfig : Type 0 where
  pub symbols : List String
  pub tp_host : String
  pub tp_port : ℤ
  pub initial_backoff_ms : ℤ
  pub max_backoff_ms : ℤ
  pub market_host : String
  pub market_port : String
  pub market_stream_suffix : String
  pub market_tp_table : String
  pub market_schema : String
  pub has_market_block : Bool
  pub backfill_enabled : Bool
  pub backfill_rest_host : String
  pub backfill_rest_path : String
  pub backfill_weight : ℤ
  pub backfill_weight_limit : ℤ
  pub backfill_max_gap_ids : ℤ
  pub market_path_prefix : String
  pub rest_host : String
  pub rest_port : String
  pub rest_path : String
  pub snapshot_limit : ℤ
  pub snapshot_weight : ℤ
  pub weight_limit_per_min : ℤ
  pub quote_depth : ℤ
  pub shared_config_path : String
  pub clock_lag_ms : ℤ
  pub log_level : String
  pub log_file : String

abbrev pub default_config : FeedHandlerConfig
default_config = record {
  symbols = [];
  tp_host = "localhost";
  tp_port = pos 5010;
  initial_backoff_ms = pos 1000;
  max_backoff_ms = pos 8000;
  market_host = "stream.binance.com";
  market_port = "9443";
  market_stream_suffix = "@trade";
  market_tp_table = "trade_binance";
  market_schema = "spot_trade";
  has_market_block = false;
  backfill_enabled = false;
  backfill_rest_host = "";
  backfill_rest_path = "";
  backfill_weight = pos 0;
  backfill_weight_limit = pos 0;
  backfill_max_gap_ids = pos 500000;
  market_path_prefix = "";
  rest_host = "";
  rest_port = "443";
  rest_path = "";
  snapshot_limit = pos 0;
  snapshot_weight = pos 0;
  weight_limit_per_min = pos 0;
  quote_depth = pos 5;
  shared_config_path = "";
  clock_lag_ms = pos 2000;
  log_level = "info";
  log_file = "";
}

abbrev pub min_clock_lag_ms : ℤ
min_clock_lag_ms = pos 100

abbrev pub max_clock_lag_ms : ℤ
max_clock_lag_ms = pos 3600000

abbrev pub min_quote_depth : ℤ
min_quote_depth = pos 1

abbrev pub max_quote_depth : ℤ
max_quote_depth = pos 50

-- handlerConfigPath.substr(0, find_last_of('/')), none where there is no slash.
pub dir_of : String → Option String
dir_of String.[] = none
dir_of (String.◌∷◌ c s) = elim (dir_of s) [
  | some d ↦ some (String.◌∷◌ c d)
  | none ↦ if code c == b'/' then some "" else none
]

-- `env` is T2S_SHARED_CONFIG.
unfoldable pub shared_path_for : Option String → String → String
unfolding dir_of join
shared_path_for env handler_config_path =
    let beside : String =
      join (elim (dir_of handler_config_path) [ none ↦ "." | some d ↦ d ]) "/shared.json" in
    elim env [ none ↦ beside | some e ↦ if is_empty e then beside else e ]

-- The loop over the symbols; Binance's stream names are lower case.
unfoldable pub symbols_of : Items → Loaded (List String)
unfolding to_lower c_string
symbols_of nil = ok []
symbols_of (cons (text s) vs) =
    if is_empty s
    then err symbol_not_a_name
    else (symbols_of vs >>= λ rest. ok (to_lower (c_string s) ∷ rest))
symbols_of (cons v vs) = err symbol_not_a_name

unfoldable pub symbols_in : Members → Loaded (List String)
unfolding symbols_of
symbols_in ms = elim (find "symbols" ms) [
  | some (array (cons v vs)) ↦ symbols_of (cons v vs)
  | _ ↦ err symbols_not_an_array
]

abbrev pub within : ℤ → ℤ → ℤ → Bool
within lo hi n = not (ltb_ℤ n lo) && not (ltb_ℤ hi n)

unfoldable pub quote_depth_in : Members → Loaded ℤ
quote_depth_in ms = elim (find "quote_depth" ms) [
  | some (integer n) ↦
      if is_int n
      then (if within min_quote_depth max_quote_depth n then ok n else err quote_depth_out_of_range)
      else err no_quote_depth
  | _ ↦ err no_quote_depth
]

unfoldable pub clock_lag_in : ℤ → Members → Loaded ℤ
clock_lag_in before ms = elim (find "clock_lag_ms" ms) [
  | none ↦ ok before
  | some (integer n) ↦
      if is_int64 n
      then (if within min_clock_lag_ms max_clock_lag_ms n then ok n else err clock_lag_out_of_range)
      else err clock_lag_not_an_integer
  | some v ↦ err clock_lag_not_an_integer
]

unfoldable pub members_of : String → Option File → Loaded Members
members_of path none = err (cannot_open_shared path)
members_of path (some (document (object ms))) = ok ms
members_of path (some file) = err (not_json path)

abbrev pub with_shared : String → FeedHandlerConfig → List String → ℤ → ℤ → FeedHandlerConfig
with_shared path c syms depth lag = record c {
  symbols = syms;
  quote_depth = depth;
  clock_lag_ms = lag;
  shared_config_path = path;
}

unfoldable pub read_shared : String → FeedHandlerConfig → Members → Loaded FeedHandlerConfig
unfolding symbols_in quote_depth_in clock_lag_in
read_shared path c ms = do
  syms ← symbols_in ms
  depth ← quote_depth_in ms
  lag ← clock_lag_in c.clock_lag_ms ms
  ok (with_shared path c syms depth lag)

unfoldable pub load_shared :
    (String → Option File) → Option String → String → FeedHandlerConfig → Loaded FeedHandlerConfig
unfolding shared_path_for members_of read_shared
load_shared open_file env handler_config_path c =
    let path = shared_path_for env handler_config_path in
    members_of path (open_file path) >>= read_shared path c
