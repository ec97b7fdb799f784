-- ===== src/Rest/Snapshot.antt =====
-- cpp/include/rest_client.hpp: what fetchSnapshot tells, whatever comes back.
use t2s.Base.{
  ℕ, ℤ, pos, pos_part, true, false, not, Option, none, some, String, [], ◌==◌, ◌≡◌, refl, sym, ap,
  ◌∙◌, arith, if_cases, if◌then◌else◌, is_empty,
}
use mathlib.Core.Path.{subst}
use mathlib.Core.Option.{some-injective}
use t2s.Json.{
  Json, Items, Members, nil, null, boolean, integer, real, text, array, object, find, Strtod,
  JsonReader, has_error, deref, reader_of, int64, array_of, parse_levels, missing_int64,
  missing_array, as_int64, as_array,
}
use t2s.Json.Reader.{is_given, access-Tells, Tells-IsBound}
use t2s.Json.Given.{Found, access-Found, as_int64-got, as_array-got}
use t2s.Rest.{
  HttpResult, SnapshotData, SnapshotError, RestClient, Outside, get, target_of, failed,
  api_error_of, schema_error, read_snapshot, parse_snapshot_response, of_response, take_response,
  fetch_snapshot, transport, bad_status,
}

-- The object is a snapshot: no API error, an update id, and two arrays of which every well-formed level is
-- taken, in order.
pub record IsRead (strtod : String → Strtod) (ms : Members) (d : SnapshotData) : Type 0 where
  pub id : ℤ
  pub bids : Items
  pub asks : Items
  pub id_at : find "lastUpdateId" ms ≡ some (integer id)
  pub bids_at : find "bids" ms ≡ some (array bids)
  pub asks_at : find "asks" ms ≡ some (array asks)
  pub id_is : d.last_update_id ≡ pos_part id
  pub bids_are : d.bids ≡ parse_levels strtod bids
  pub asks_are : d.asks ≡ parse_levels strtod asks

module _ (strtod : String → Strtod) (ms : Members) where
  -- The three accessors, one after the other.
  abbrev start : JsonReader
  start = record { value = some ms; err = none }

  abbrev id_read : JsonReader × Option ℤ
  id_read = int64 "lastUpdateId" start

  abbrev bids_read : JsonReader × Option Items
  bids_read = array_of "bids" id_read.0

  abbrev asks_read : JsonReader × Option Items
  asks_read = array_of "asks" bids_read.0

  abbrev read_of : SnapshotData → SnapshotData
  read_of d = record d {
    last_update_id = pos_part (deref (pos 0) id_read.1);
    bids = parse_levels strtod (deref nil bids_read.1);
    asks = parse_levels strtod (deref nil asks_read.1);
    success = true;
  }

  int64-at :
      (key : String) (r : JsonReader) (d : ℤ)
      → r.value ≡ some ms
      → Found key (as_int64 key) r (int64 key r).1
      → find key ms ≡ some (integer (deref d (int64 key r).1))
  int64-at key r d e f =
      let same = some-injective _ _ (sym f.bound ∙ e) in
      subst (λ o. find key ms ≡ some (integer (deref d o))) (sym f.is_out)
        (sym (ap (find key) same) ∙ f.here ∙ ap some (as_int64-got key f.found f.given f.reads))

  array_of-at :
      (key : String) (r : JsonReader)
      → r.value ≡ some ms
      → Found key (as_array key) r (array_of key r).1
      → find key ms ≡ some (array (deref nil (array_of key r).1))
  array_of-at key r e f =
      let same = some-injective _ _ (sym f.bound ∙ e) in
      subst (λ o. find key ms ≡ some (array (deref nil o))) (sym f.is_out)
        (sym (ap (find key) same) ∙ f.here ∙ ap some (as_array-got key f.found f.given f.reads))

  -- Without an error, all three gave a value.
  read_of-IsRead : (d : SnapshotData) → has_error asks_read.0 ≡ false → IsRead strtod ms (read_of d)
  read_of-IsRead d e =
      let t1 =
        access-Tells "lastUpdateId" (missing_int64 "lastUpdateId") (as_int64 "lastUpdateId") start
          (λ n. cc) in
      let b1 = Tells-IsBound (is_given id_read.1) start id_read.0 t1 (λ n. cc) in
      let t2 = access-Tells "bids" (missing_array "bids") (as_array "bids") id_read.0 b1 in
      let b2 = Tells-IsBound (is_given bids_read.1) id_read.0 bids_read.0 t2 b1 in
      let t3 = access-Tells "asks" (missing_array "asks") (as_array "asks") bids_read.0 b2 in
      let no_error2 : has_error bids_read.0 ≡ false = ground (arith, t3.told) in
      let no_error1 : has_error id_read.0 ≡ false = ground (arith, t2.told) in
      record {
        id = deref (pos 0) id_read.1;
        bids = deref nil bids_read.1;
        asks = deref nil asks_read.1;
        id_at = int64-at "lastUpdateId" start (pos 0) refl (
            access-Found "lastUpdateId" (missing_int64 "lastUpdateId") (as_int64 "lastUpdateId")
              start (ground (arith, t1.told)));
        bids_at = array_of-at "bids" id_read.0 t1.same (
            access-Found "bids" (missing_array "bids") (as_array "bids") id_read.0
              (ground (arith, t2.told)));
        asks_at = array_of-at "asks" bids_read.0 (t2.same ∙ t1.same) (
            access-Found "asks" (missing_array "asks") (as_array "asks") bids_read.0
              (ground (arith, t3.told)));
        id_is = refl;
        bids_are = refl;
        asks_are = refl;
      }

-- What is told of a response.
pub record Reports (outside : Outside) (r : HttpResult) (d : SnapshotData) : Type 0 where
  pub status : d.http_status ≡ r.status
  pub retry_after : d.retry_after_sec ≡ r.retry_after_sec
  pub used_weight : d.used_weight1m ≡ r.used_weight1m
  pub told : d.success ≡ not (is_given d.error)
  pub nothing : d.success ≡ false → (d.last_update_id ≡ 0) × (d.bids ≡ []) × (d.asks ≡ [])
  pub snapshot :
      d.success ≡ true
      → (is_empty r.error ≡ true)
        × (r.status ≡ 200)
        × ((ms : Members) × (outside.parse r.body ≡ some (object ms))
            × (find "code" ms ≡ none)
            × IsRead outside.strtod ms d)

module _ (outside : Outside) (r : HttpResult) where
  abbrev Good : SnapshotData → Type 0
  Good = Reports outside r

  failed-Reports : (e : SnapshotError) → Good (failed e (of_response r))
  failed-Reports e = record {
    status = refl;
    retry_after = refl;
    used_weight = refl;
    told = refl;
    nothing = λ _. (refl, refl, refl);
    snapshot = λ k. cc;
  }

  module _ (arrived : is_empty r.error ≡ true) (ok_status : r.status ≡ 200) where
    read_snapshot-Reports :
        (ms : Members)
        → outside.parse r.body ≡ some (object ms)
        → find "code" ms ≡ none
        → Good (read_snapshot outside.strtod ms (of_response r))
    unfolding read_snapshot reader_of
    read_snapshot-Reports ms parsed no_code =
        let strtod = outside.strtod in
        let last = (asks_read strtod ms).0 in
        if_cases Good (has_error last) (failed (schema_error last.err) (of_response r))
          (read_of strtod ms (of_response r)) (λ _. failed-Reports (schema_error last.err))
          (λ e. record {
            status = refl;
            retry_after = refl;
            used_weight = refl;
            told = refl;
            nothing = λ k. cc;
            snapshot = λ _. (
              arrived,
              ok_status,
              (ms, parsed, no_code, read_of-IsRead strtod ms (of_response r) e),
            );
          })

    parse_snapshot_response-Reports :
        (doc : Option Json)
        → outside.parse r.body ≡ doc
        → Good (parse_snapshot_response outside.strtod doc (of_response r))
    unfolding parse_snapshot_response
    parse_snapshot_response-Reports none p = failed-Reports _
    parse_snapshot_response-Reports (some null) p = failed-Reports _
    parse_snapshot_response-Reports (some (boolean b)) p = failed-Reports _
    parse_snapshot_response-Reports (some (integer n)) p = failed-Reports _
    parse_snapshot_response-Reports (some (real d)) p = failed-Reports _
    parse_snapshot_response-Reports (some (text s)) p = failed-Reports _
    parse_snapshot_response-Reports (some (array xs)) p = failed-Reports _
    parse_snapshot_response-Reports (some (object ms)) p = go (find "code" ms) refl
      where
        go :
            (c : Option Json)
            → find "code" ms ≡ c
            → Good (elim c as (λ _. SnapshotData) [
              | some code ↦ failed (api_error_of code ms) (of_response r)
              | none ↦ read_snapshot outside.strtod ms (of_response r)
            ])
        go (some code) e = failed-Reports _
        go none e = read_snapshot-Reports ms p e

  take_response-Reports : Good (take_response outside r)
  unfolding take_response
  take_response-Reports =
      let result = of_response r in
      let parsed = parse_snapshot_response outside.strtod (outside.parse r.body) result in
      let status_error = failed (bad_status r.status) result in
      if_cases Good (not (is_empty r.error)) (failed (transport r.error) result)
        (if not (r.status == 200) then status_error else parsed) (λ _. failed-Reports _)
        (λ e.
          if_cases Good (not (r.status == 200)) status_error parsed (λ _. failed-Reports _)
            (λ f.
              parse_snapshot_response-Reports (ground arith) (ground arith) (outside.parse r.body)
                refl))

-- Whatever the exchange answers: the status and the rate-limit headers are handed on; there is an error
-- exactly if the fetch was no success, and then no level and no update id; and a success is a response that
-- arrived with status 200, whose body is an object without an API error, with its update id and exactly the
-- well-formed levels of its bids and asks, in order.
pub fetch_snapshot-Reports :
    (outside : Outside) (client : RestClient) (symbol : String) (limit : ℕ)
    → Reports outside
        (get outside client (target_of client symbol limit))
        (fetch_snapshot outside client symbol limit)
unfolding fetch_snapshot
fetch_snapshot-Reports outside client symbol limit =
    take_response-Reports outside (get outside client (target_of client symbol limit))
