-- ===== src/Json/Examples.antt =====
-- Concrete readers: a payload with a key that is missing.
use t2s.Base.{pos, Bool, if◌then◌else◌, str_eq, true, false, String, List, [], ◌∷◌}
use t2s.Book.Double.{Double, above, nought}
use t2s.Json.{Json, Strtod, JsonReader, integer, text, object, member, end, reader_of}
use t2s.Json.Reader.{
  Call, a_string, an_int64, a_price, an_array, call_all, Tells, call_all-Tells, reader_of-IsBound,
}

-- A strtod that reads the texts of a table.
abbrev pub reads : List (String × Double) → String → Strtod
reads [] s = record { value = nought; converted = false; range_error = false; whole = false }
reads ((t, d) ∷ table) s =
    if str_eq t s
    then record { value = d; converted = true; range_error = false; whole = true }
    else reads table s

abbrev strtod_7 : String → Strtod
strtod_7 = reads (("7", above 7) ∷ [])

abbrev payload : Json
payload =
    object
      (member "s" (text "BTCUSDT") (member "U" (integer (pos 101)) (member "p" (text "7") end)))

-- `E` is missing, and `s` is no array.
abbrev calls : List Call
calls = a_string "s" ∷ an_int64 "U" ∷ a_price "p" ∷ an_int64 "E" ∷ an_array "s" ∷ []

abbrev outcome : JsonReader × Bool
outcome = call_all strtod_7 calls (reader_of payload)

call_all-Tells_example : Tells outcome.1 (reader_of payload) outcome.0
call_all-Tells_example =
    call_all-Tells strtod_7 calls (reader_of payload) (reader_of-IsBound payload)
