-- ===== src/Json.antt =====
-- cpp/include/json_reader.hpp: JsonReader and parseLevelPair. A parsed document is a tree; the parser is
-- rapidjson's and not modelled. `strtod` is the C library's, an argument of what calls it.
pub mod Reader
pub mod Levels
pub mod Given
pub mod Examples
use t2s.Base.{
  ℕ, ℤ, pos, negsuc, leb_ℤ, Bool, true, false, ◌&&◌, ◌||◌, not, Option, none, some, String, List,
  [], ◌∷◌, str_eq, ◌+◌, ◌-◌, ◌^◌, if◌then◌else◌,
}
use t2s.Book.Double.{Double}
use t2s.Book.Types.{PriceLevel}

-- A number is an integer as it was written, or any other number. An object's members stand in the
-- document's order, a key maybe more than once.
mutual
  pub data Json : Type 0 where
    null : Json
    boolean : Bool → Json
    integer : ℤ → Json
    real : Double → Json
    text : String → Json
    array : Items → Json
    object : Members → Json

  pub data Items : Type 0 where
    nil : Items
    cons : Json → Items → Items

  pub data Members : Type 0 where
    end : Members
    member : String → Json → Members → Members

-- FindMember: the first member with the key.
unfoldable pub find : String → Members → Option Json
find key end = none
find key (member k v ms) = if str_eq k key then some v else find key ms

-- IsInt64 and IsInt.
abbrev pub is_int64 : ℤ → Bool
is_int64 n = leb_ℤ (negsuc (2 ^ 63 - 1)) n && leb_ℤ n (pos (2 ^ 63 - 1))

abbrev pub is_int : ℤ → Bool
is_int n = leb_ℤ (negsuc (2 ^ 31 - 1)) n && leb_ℤ n (pos (2 ^ 31 - 1))

-- What strtod leaves of a text: the value, whether it converted anything (`end != s`), whether it set
-- ERANGE, and whether it read to the end of the text.
pub record Strtod : Type 0 where
  pub value : Double
  pub converted : Bool
  pub range_error : Bool
  pub whole : Bool

-- The messages of setError, with their key.
pub data Problem : Type 0 where
  not_a_json_object : Problem
  missing_object not_an_object : String → Problem
  missing_string not_a_string : String → Problem
  missing_int64 not_an_int64 : String → Problem
  missing_int not_an_int : String → Problem
  missing_bool not_a_bool : String → Problem
  strtod_failed : (key content : String) → Problem
  missing_array not_an_array : String → Problem

-- `value` is the object behind `v_`, `err` is none for the empty text.
pub record JsonReader : Type 0 where
  pub value : Option Members
  pub err : Option Problem

abbrev pub has_error : JsonReader → Bool
has_error r = elim r.err [ none ↦ false | some p ↦ true ]

-- The first error stays.
unfoldable pub set_error : Problem → JsonReader → JsonReader
set_error p r = record r { err = elim r.err [ none ↦ some p | some q ↦ some q ] }

unfoldable pub reader_of : Json → JsonReader
reader_of (object ms) = record { value = some ms; err = none }
reader_of v = record { value = none; err = some not_a_json_object }

-- What an accessor makes of the member that it found: a value, or an error.
pub data Read {ℓ} (A : Type ℓ) : Type ℓ where
  got : A → Read A
  refused : Problem → Read A

unfoldable pub read_found {ℓ} : {A : Type ℓ} → Read A → JsonReader → JsonReader × Option A
read_found (got a) r = (r, some a)
read_found (refused p) r = (set_error p r, none)

-- *o, where the program has made sure that there is a value.
abbrev pub deref {ℓ} : {A : Type ℓ} → A → Option A → A
deref d none = d
deref d (some a) = a

-- The shape that the accessors share: nothing of a poisoned reader, an error where the key is missing,
-- and else what `read` says of the member.
unfoldable pub access {ℓ} :
    {A : Type ℓ} → String → Problem → (Json → Read A) → JsonReader → JsonReader × Option A
unfolding find read_found
access key missing read r = elim r.value [
  | none ↦ (r, none)
  | some ms ↦ elim (find key ms) [
    | none ↦ (set_error missing r, none)
    | some f ↦ read_found (read f) r
  ]
]

unfoldable pub as_string : String → Json → Read String
as_string key (text s) = got s
as_string key f = refused (not_a_string key)

abbrev pub string : String → JsonReader → JsonReader × Option String
string key = access key (missing_string key) (as_string key)

unfoldable pub as_int64 : String → Json → Read ℤ
as_int64 key (integer n) = if is_int64 n then got n else refused (not_an_int64 key)
as_int64 key f = refused (not_an_int64 key)

abbrev pub int64 : String → JsonReader → JsonReader × Option ℤ
int64 key = access key (missing_int64 key) (as_int64 key)

unfoldable pub as_int : String → Json → Read ℤ
as_int key (integer n) = if is_int n then got n else refused (not_an_int key)
as_int key f = refused (not_an_int key)

-- `integer()`, 32 bits.
abbrev pub int32 : String → JsonReader → JsonReader × Option ℤ
int32 key = access key (missing_int key) (as_int key)

unfoldable pub as_bool : String → Json → Read Bool
as_bool key (boolean b) = got b
as_bool key f = refused (not_a_bool key)

abbrev pub bool : String → JsonReader → JsonReader × Option Bool
bool key = access key (missing_bool key) (as_bool key)

-- end == s || errno == ERANGE
abbrev pub strtod_fails : Strtod → Bool
strtod_fails d = not d.converted || d.range_error

unfoldable pub as_price : (String → Strtod) → String → Json → Read Double
as_price strtod key (text s) =
    if strtod_fails (strtod s) then refused (strtod_failed key s) else got (strtod s).value
as_price strtod key f = refused (not_a_string key)

abbrev pub price_string : (String → Strtod) → String → JsonReader → JsonReader × Option Double
price_string strtod key = access key (missing_string key) (as_price strtod key)

unfoldable pub as_array : String → Json → Read Items
as_array key (array xs) = got xs
as_array key f = refused (not_an_array key)

abbrev pub array_of : String → JsonReader → JsonReader × Option Items
array_of key = access key (missing_array key) (as_array key)

unfoldable pub as_object : String → Json → Read Members
as_object key (object ms) = got ms
as_object key f = refused (not_an_object key)

-- The reader of a nested object; errors propagate to it.
unfoldable pub obj : String → JsonReader → JsonReader × JsonReader
obj key r =
    let found = access key (missing_object key) (as_object key) r in
    (
      found.0,
      elim found.1 [
        | none ↦ record { value = none; err = found.0.err }
        | some ms ↦ record { value = some ms; err = none }
      ],
    )

-- parseLevelPair: a pair of numeric texts; further elements are ignored.
unfoldable pub parse_level_pair : (String → Strtod) → Json → Option PriceLevel
parse_level_pair strtod (array (cons (text p) (cons (text q) more))) =
    if strtod_fails (strtod p)
    then none
    else if strtod_fails (strtod q)
    then none
    else some (record { price = (strtod p).value; qty = (strtod q).value })
parse_level_pair strtod v = none

-- The loops over a side's levels: malformed ones are skipped.
unfoldable pub parse_levels : (String → Strtod) → Items → List PriceLevel
unfolding parse_level_pair
parse_levels strtod nil = []
parse_levels strtod (cons v vs) = elim (parse_level_pair strtod v) [
  | none ↦ parse_levels strtod vs
  | some l ↦ l ∷ parse_levels strtod vs
]
