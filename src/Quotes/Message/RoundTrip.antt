-- ===== src/Quotes/Message/RoundTrip.antt =====
-- cpp/src/quote_feed_handler.cpp: the exchange's depth events, as it documents them, are read back.
use t2s.Base.{ℕ, ◌^◌, ◌<◌, pos, true, none, some, String, List, ◌≡◌, refl, arith}
use t2s.Market.{DepthSync, spot, futures}
use t2s.Book.Double.{Double}
use t2s.Book.Types.{BufferedDelta, PriceLevel}
use t2s.Json.{
  Json, Items, Members, integer, text, array, object, end, member, Strtod, is_int64, reader_of, obj,
  access, find, read_found, as_string, as_int64, as_array, as_object,
}
use t2s.Json.Levels.{ReadsBack, Renders, parse_levels-Renders}
use t2s.Quotes.Message.{read_delta}

-- The numbers of a depth event: U, u, E, and the futures events' pu and T.
pub record Event : Type 0 where
  pub first : ℕ
  pub final : ℕ
  pub event_time : ℕ
  pub previous : ℕ
  pub transact_time : ℕ

abbrev pub long : ℕ → Json
long n = integer (pos n)

-- The payload, with the fields in the order of the exchange's documentation.
abbrev pub payload : DepthSync → String → Event → (bids asks : Items) → Members
payload spot name e bids asks = member "e" (text "depthUpdate") (
    member "E" (long e.event_time) (
      member "s" (text name) (
        member "U" (long e.first)
          (member "u" (long e.final) (member "b" (array bids) (member "a" (array asks) end))))))
payload futures name e bids asks = member "e" (text "depthUpdate") (
    member "E" (long e.event_time) (
      member "T" (long e.transact_time) (
        member "s" (text name) (
          member "U" (long e.first) (
            member "u" (long e.final) (
              member "pu" (long e.previous)
                (member "b" (array bids) (member "a" (array asks) end))))))))

abbrev pub event_json : DepthSync → (stream name : String) → Event → (bids asks : Items) → Json
event_json sync stream name e bids asks =
    object
      (member "stream" (text stream) (member "data" (object (payload sync name e bids asks)) end))

abbrev pub event_delta : DepthSync → Event → (bids asks : List PriceLevel) → BufferedDelta
event_delta sync e bids asks = record {
  first_update_id = e.first;
  final_update_id = e.final;
  event_time_ms = e.event_time;
  bids = bids;
  asks = asks;
  prev_final_update_id = elim sync [ futures ↦ some e.previous | spot ↦ none ];
  transact_time_ms = elim sync [ futures ↦ e.transact_time | spot ↦ 0 ];
}

-- Every number of the event fits 64 bits.
abbrev pub Fits : Event → Type 0
Fits e =
    (e.first < 2 ^ 63)
    × (e.final < 2 ^ 63)
    × (e.event_time < 2 ^ 63)
    × (e.previous < 2 ^ 63)
    × (e.transact_time < 2 ^ 63)

long_fits : (n : ℕ) → n < 2 ^ 63 → is_int64 (pos n) ≡ true
long_fits n h = ground arith

-- A depth event of either market, with its levels among elements that are no pair of numbers, is read as
-- its symbol and its delta: each field from its own key, and each level once and in order. The numbers
-- fit 64 bits, and strtod reads back what the exchange writes.
pub read_delta-event_json :
    (strtod : String → Strtod) (render : Double → String) (sync : DepthSync) (stream name : String)
    (e : Event) (bids asks : List PriceLevel) (xs ys : Items)
    → ReadsBack strtod render
    → Fits e
    → Renders strtod render bids xs
    → Renders strtod render asks ys
    → read_delta strtod sync (event_json sync stream name e xs ys)
      ≡ some (name, event_delta sync e bids asks)
unfolding read_delta reader_of obj access find read_found as_string as_int64 as_array as_object
read_delta-event_json strtod render spot stream name e bids asks xs ys back fits bs as_ =
    rw
      (
        long_fits e.first fits.0,
        long_fits e.final fits.1,
        long_fits e.event_time fits.2,
        parse_levels-Renders strtod render back bs,
        parse_levels-Renders strtod render back as_,
      )
      refl
read_delta-event_json strtod render futures stream name e bids asks xs ys back fits bs as_ =
    rw
      (
        long_fits e.first fits.0,
        long_fits e.final fits.1,
        long_fits e.event_time fits.2,
        long_fits e.previous fits.3,
        long_fits e.transact_time fits.4,
        parse_levels-Renders strtod render back bs,
        parse_levels-Renders strtod render back as_,
      )
      refl
