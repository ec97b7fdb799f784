-- ===== src/Rest.antt =====
-- cpp/include/rest_client.hpp: RestClient. The HTTPS exchange itself is the argument `http`, of the host, the
-- port and the target, and RapidJSON's parser the argument `parse`. The lines to the console are left out.
pub mod Snapshot
pub mod Examples
use t2s.Base.{
  ℕ, zero, suc, ◌/◌, ◌%◌, ℤ, pos, pos_part, Bool, true, false, not, Option, none, some, String,
  List, [], ◌==◌, ltb, if◌then◌else◌, join, is_empty,
}
use Prim.Native.String
use Prim.Native.String.{char_at}
use t2s.Book.Types.{PriceLevel}
use t2s.Json.{
  Json, Items, Members, nil, integer, text, object, find, is_int, Strtod, Problem, JsonReader,
  has_error, reader_of, int64, array_of, parse_levels, deref,
}

pub record HttpResult : Type 0 where
  -- 0 if no response was received
  pub status : ℕ
  pub body : String
  pub retry_after_sec : ℕ
  -- `none` is -1
  pub used_weight1m : Option ℕ
  -- empty if a response arrived
  pub error : String

-- The texts of SnapshotData's error.
pub data SnapshotError : Type 0 where
  transport : String → SnapshotError
  bad_status : ℕ → SnapshotError
  no_json no_json_object : SnapshotError
  api_error : (code : ℤ) → (msg : String) → SnapshotError
  schema_error : Option Problem → SnapshotError

pub record SnapshotData : Type 0 where
  pub last_update_id : ℕ
  pub bids : List PriceLevel
  pub asks : List PriceLevel
  pub success : Bool
  pub error : Option SnapshotError
  pub http_status : ℕ
  pub retry_after_sec : ℕ
  pub used_weight1m : Option ℕ

pub record RestClient : Type 0 where
  pub host : String
  pub port : String
  pub path : String

-- The C library's and the exchange's part.
pub record Outside : Type 0 where
  pub http : (host port target : String) → HttpResult
  pub parse : String → Option Json
  pub strtod : String → Strtod

abbrev pub no_response : String → HttpResult
no_response error = record {
  status = 0;
  body = "";
  retry_after_sec = 0;
  used_weight1m = none;
  error = error;
}

unfoldable pub get : Outside → RestClient → String → HttpResult
get outside client target =
    if is_empty client.host
    then no_response "REST client has no host configured"
    else outside.http client.host client.port target

-- std::to_string: the digits in front of `rest`.
pub decimal_before : ℕ → ℕ → String → String
decimal_before zero n rest = rest
decimal_before (suc fuel) n rest =
    let here = String.◌∷◌ (char_at "0123456789" (n % 10)) rest in
    elim (ltb n 10) [ true ↦ here | false ↦ decimal_before fuel (n / 10) here ]

unfoldable pub to_string : ℕ → String
unfolding decimal_before
to_string n = decimal_before (suc n) n ""

unfoldable pub target_of : RestClient → String → ℕ → String
unfolding join to_string
target_of client symbol limit =
    join client.path (join "?symbol=" (join symbol (join "&limit=" (to_string limit))))

abbrev pub failed : SnapshotError → SnapshotData → SnapshotData
failed e d = record d { error = some e }

-- The error's number and text, if they have the types expected.
unfoldable pub api_error_of : Json → Members → SnapshotError
api_error_of code ms =
    let number = elim code as (λ _. ℤ) [ integer n ↦ if is_int n then n else pos 0 | _ ↦ pos 0 ] in
    api_error number (elim (find "msg" ms) [ some (text s) ↦ s | _ ↦ "" ])

-- The fields of a response that is no API error.
unfoldable pub read_snapshot : (String → Strtod) → Members → SnapshotData → SnapshotData
unfolding reader_of parse_levels
read_snapshot strtod ms d =
    let id = int64 "lastUpdateId" (reader_of (object ms)) in
    let bids = array_of "bids" id.0 in
    let asks = array_of "asks" bids.0 in
    if has_error asks.0 then failed (schema_error asks.0.err) d else record d {
      last_update_id = pos_part (deref (pos 0) id.1);
      bids = parse_levels strtod (deref nil bids.1);
      asks = parse_levels strtod (deref nil asks.1);
      success = true;
    }

unfoldable pub parse_snapshot_response :
    (String → Strtod) → Option Json → SnapshotData → SnapshotData
unfolding api_error_of read_snapshot
parse_snapshot_response strtod none d = failed no_json d
parse_snapshot_response strtod (some (object ms)) d = elim (find "code" ms) [
  | some code ↦ failed (api_error_of code ms) d
  | none ↦ read_snapshot strtod ms d
]
parse_snapshot_response strtod (some v) d = failed no_json_object d

abbrev pub of_response : HttpResult → SnapshotData
of_response r = record {
  last_update_id = 0;
  bids = [];
  asks = [];
  success = false;
  error = none;
  http_status = r.status;
  retry_after_sec = r.retry_after_sec;
  used_weight1m = r.used_weight1m;
}

-- fetchSnapshot, given the answer to its GET.
unfoldable pub take_response : Outside → HttpResult → SnapshotData
unfolding parse_snapshot_response
take_response outside r =
    let result = of_response r in
    if not (is_empty r.error)
    then failed (transport r.error) result
    else if not (r.status == 200)
    then failed (bad_status r.status) result
    else parse_snapshot_response outside.strtod (outside.parse r.body) result

unfoldable pub fetch_snapshot : Outside → RestClient → String → ℕ → SnapshotData
unfolding get target_of take_response
fetch_snapshot outside client symbol limit =
    take_response outside (get outside client (target_of client symbol limit))
