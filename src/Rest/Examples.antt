-- ===== src/Rest/Examples.antt =====
-- cpp/include/rest_client.hpp: concrete responses of an exchange.
use t2s.Base.{pos, negsuc, true, none, some, [], ◌∷◌, ◌≡◌, refl, if◌then◌else◌, str_eq, join}
use t2s.Book.Double.{above}
use t2s.Json.{
  Members, nil, cons, null, integer, text, array, object, end, member, find, reader_of, access,
  read_found, as_int64, as_array, parse_levels, parse_level_pair,
}
use t2s.Json.Examples.{reads}
use t2s.Rest.{
  RestClient, Outside, api_error, get, target_of, to_string, fetch_snapshot, take_response,
  parse_snapshot_response, read_snapshot, api_error_of,
}
use t2s.Rest.Snapshot.{Reports, fetch_snapshot-Reports}

abbrev client : RestClient
client = record { host = "api.binance.com"; port = "443"; path = "/api/v3/depth" }

-- One bid, and an element that is no level.
abbrev depth : Members
depth = member "lastUpdateId" (integer (pos 100)) (
    member "bids" (array (cons (array (cons (text "4.5") (cons (text "7") nil))) (cons null nil)))
      (member "asks" (array nil) end))

abbrev refusal : Members
refusal = member "code" (integer (negsuc 1120)) (member "msg" (text "Invalid symbol.") end)

-- The bodies of this exchange are the names of its documents.
abbrev outside : Outside
outside = record {
  http = λ host port target. record {
    status = 200;
    body = if str_eq target "/api/v3/depth?symbol=BTCUSDT&limit=1000" then "depth" else "refusal";
    retry_after_sec = 0;
    used_weight1m = some 50;
    error = "";
  };
  parse = λ body. if str_eq body "depth" then some (object depth) else some (object refusal);
  strtod = reads (("4.5", above 45) ∷ ("7", above 7) ∷ []);
}

btc_snapshot : fetch_snapshot outside client "BTCUSDT" 1000 ≡ record {
  last_update_id = 100;
  bids = record { price = above 45; qty = above 7 } ∷ [];
  asks = [];
  success = true;
  error = none;
  http_status = 200;
  retry_after_sec = 0;
  used_weight1m = some 50;
}
unfolding fetch_snapshot get target_of to_string join take_response parse_snapshot_response
    read_snapshot parse_levels parse_level_pair reader_of access find read_found as_int64 as_array
btc_snapshot = refl

unknown_symbol :
    (fetch_snapshot outside client "NONE" 1000).error
    ≡ some (api_error (negsuc 1120) "Invalid symbol.")
unfolding fetch_snapshot get target_of to_string join take_response parse_snapshot_response find
    api_error_of
unknown_symbol = refl

fetch_snapshot-Reports_example :
    Reports outside
      (get outside client (target_of client "BTCUSDT" 1000))
      (fetch_snapshot outside client "BTCUSDT" 1000)
fetch_snapshot-Reports_example = fetch_snapshot-Reports outside client "BTCUSDT" 1000
