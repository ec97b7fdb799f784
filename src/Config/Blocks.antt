-- ===== src/Config/Blocks.antt =====
-- cpp/include/config.hpp: the blocks of a handler's own file, and load.
use t2s.Base.{
  ℤ, pos, ltb_ℤ, Bool, true, false, not, ◌&&◌, Option, none, some, String, if◌then◌else◌, is_empty,
  c_string,
}
use t2s.Json.{Members, boolean, integer, text, object, find, is_int, is_int64}
use t2s.Config.{
  has_symbols, backfill_incomplete, cannot_open, not_json, not_an_object, Loaded, ok, err, ◌>>=◌,
  ◌>>◌, require, File, bad, document, FeedHandlerConfig, load_shared,
}

-- A member that is read only if it has the type wanted, else the value stays.
unfoldable pub text_or : String → String → Members → String
unfolding c_string
text_or before key ms = elim (find key ms) [ some (text s) ↦ c_string s | _ ↦ before ]

unfoldable pub int_or : ℤ → String → Members → ℤ
int_or before key ms = elim (find key ms) [
  | some (integer n) ↦ if is_int n then n else before
  | _ ↦ before
]

unfoldable pub int64_or : ℤ → String → Members → ℤ
int64_or before key ms = elim (find key ms) [
  | some (integer n) ↦ if is_int64 n then n else before
  | _ ↦ before
]

-- A block that is an object.
unfoldable pub block : String → Members → Option Members
block key ms = elim (find key ms) [ some (object b) ↦ some b | _ ↦ none ]

unfoldable pub load_tickerplant : Option Members → FeedHandlerConfig → FeedHandlerConfig
load_tickerplant none c = c
load_tickerplant (some tp) c = record c {
  tp_host = text_or c.tp_host "host" tp;
  tp_port = int_or c.tp_port "port" tp;
}

unfoldable pub load_reconnect : Option Members → FeedHandlerConfig → FeedHandlerConfig
load_reconnect none c = c
load_reconnect (some rc) c = record c {
  initial_backoff_ms = int_or c.initial_backoff_ms "initial_backoff_ms" rc;
  max_backoff_ms = int_or c.max_backoff_ms "max_backoff_ms" rc;
}

unfoldable pub load_market : Option Members → FeedHandlerConfig → FeedHandlerConfig
load_market none c = c
load_market (some m) c = record c {
  has_market_block = true;
  market_path_prefix = text_or c.market_path_prefix "path_prefix" m;
  rest_host = text_or c.rest_host "rest_host" m;
  rest_port = text_or c.rest_port "rest_port" m;
  rest_path = text_or c.rest_path "rest_path" m;
  snapshot_limit = int_or c.snapshot_limit "snapshot_limit" m;
  snapshot_weight = int_or c.snapshot_weight "snapshot_weight" m;
  weight_limit_per_min = int_or c.weight_limit_per_min "weight_limit_per_min" m;
  market_host = text_or c.market_host "host" m;
  market_port = text_or c.market_port "port" m;
  market_stream_suffix = text_or c.market_stream_suffix "stream_suffix" m;
  market_tp_table = text_or c.market_tp_table "tp_table" m;
  market_schema = text_or c.market_schema "schema" m;
}

-- Enabled unless the block says false.
unfoldable pub enabled_in : Members → Bool
enabled_in b = elim (find "enabled" b) [ some (boolean e) ↦ e | _ ↦ true ]

abbrev pub is_positive : ℤ → Bool
is_positive n = ltb_ℤ (pos 0) n

abbrev pub backfill_is_complete : FeedHandlerConfig → Bool
backfill_is_complete c =
    not (is_empty c.backfill_rest_host)
    && not (is_empty c.backfill_rest_path)
    && is_positive c.backfill_weight
    && is_positive c.backfill_weight_limit
    && is_positive c.backfill_max_gap_ids

abbrev pub with_backfill : Members → FeedHandlerConfig → FeedHandlerConfig
with_backfill b c = record c {
  backfill_enabled = enabled_in b;
  backfill_rest_host = text_or c.backfill_rest_host "rest_host" b;
  backfill_rest_path = text_or c.backfill_rest_path "rest_path" b;
  backfill_weight = int_or c.backfill_weight "request_weight" b;
  backfill_weight_limit = int_or c.backfill_weight_limit "weight_limit_per_min" b;
  backfill_max_gap_ids = int64_or c.backfill_max_gap_ids "max_gap_ids" b;
}

unfoldable pub load_backfill : Option Members → FeedHandlerConfig → Loaded FeedHandlerConfig
load_backfill none c = ok c
load_backfill (some b) c0 =
    let c = with_backfill b c0 in
    if c.backfill_enabled && not (backfill_is_complete c) then err backfill_incomplete else ok c

unfoldable pub load_logging : Option Members → FeedHandlerConfig → FeedHandlerConfig
load_logging none c = c
load_logging (some lg) c = record c {
  log_level = text_or c.log_level "level" lg;
  log_file = text_or c.log_file "file" lg;
}

-- The handler's own document. One that is no object is refused here; the source has no test for it, and
-- rapidjson's assertion stops the program.
unfoldable pub handler_members : String → Option File → Loaded Members
handler_members path none = err (cannot_open path)
handler_members path (some bad) = err (not_json path)
handler_members path (some (document (object ms))) = ok ms
handler_members path (some (document v)) = err (not_an_object path)

abbrev pub lacks : String → Members → Bool
lacks key ms = elim (find key ms) [ none ↦ true | some v ↦ false ]

-- The handler's own file over a configuration: every block but the shared one.
unfoldable pub load_blocks : Members → FeedHandlerConfig → Loaded FeedHandlerConfig
unfolding load_tickerplant load_reconnect load_market load_backfill load_logging
load_blocks ms c0 =
    let c1 = load_tickerplant (block "tickerplant" ms) c0 in
    let c2 = load_reconnect (block "reconnect" ms) c1 in
    let c3 = load_market (block "market" ms) c2 in
    load_backfill (block "backfill" ms) c3 >>= λ c. ok (load_logging (block "logging" ms) c)

unfoldable pub load :
    (String → Option File) → Option String → String → FeedHandlerConfig → Loaded FeedHandlerConfig
unfolding handler_members load_shared load_blocks
load open_file env path c0 = do
  ms ← handler_members path (open_file path)
  require (lacks "symbols" ms) has_symbols
  c ← load_shared open_file env path c0
  load_blocks ms c
