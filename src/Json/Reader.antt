-- ===== src/Json/Reader.antt =====
-- cpp/include/json_reader.hpp: what hasError tells after a run of accessors.
use t2s.Base.{
  Bool, true, false, not, ◌&&◌, ◌||◌, Option, none, some, String, List, [], ◌∷◌, ◌≡◌, refl, sym, ap,
  ◌∙◌, arith,
}
use t2s.Json.{
  Json, Members, object, null, boolean, integer, real, text, array, JsonReader, Problem, Read, got,
  refused, Strtod, has_error, set_error, reader_of, read_found, find, access, string, as_string,
  int64, as_int64, int32, as_int, bool, as_bool, price_string, as_price, array_of, as_array,
  as_object, obj, missing_string, missing_int64, missing_int, missing_bool, missing_array,
  missing_object,
}

abbrev pub is_given {ℓ} : {A : Type ℓ} → Option A → Bool
is_given none = false
is_given (some a) = true

-- A reader is bound to an object, or it has an error.
abbrev pub IsBound : JsonReader → Type 0
IsBound r = r.value ≡ none → has_error r ≡ true

-- After one accessor: the same object, an error exactly if there was one or nothing was given, and an
-- error that was there stays.
pub record Tells (given : Bool) (r r' : JsonReader) : Type 0 where
  pub same : r'.value ≡ r.value
  pub told : has_error r' ≡ has_error r || not given
  pub first : (p : Problem) → r.err ≡ some p → r'.err ≡ some p

or_false : (b : Bool) → b ≡ b || false
or_false true = refl
or_false false = refl

set_error-Tells : (p : Problem) (r : JsonReader) → Tells false r (set_error p r)
unfolding set_error
set_error-Tells p r = go r.err refl
  where
    go :
        (e : Option Problem)
        → r.err ≡ e
        → Tells false
            (record r { err = e })
            (record r { err = elim e as (λ _. Option Problem) [ none ↦ some p | some q ↦ some q ] })
    go none h = record { same = refl; told = refl; first = λ q k. cc }
    go (some q) h = record { same = refl; told = refl; first = λ s k. k }

read_found-Tells {ℓ} :
    {A : Type ℓ} (f : Read A) (r : JsonReader)
    → Tells (is_given (read_found f r).1) r (read_found f r).0
unfolding read_found
read_found-Tells (got a) r = record { same = refl; told = or_false (has_error r); first = λ p e. e }
read_found-Tells (refused p) r = set_error-Tells p r

pub access-Tells {ℓ} :
    {A : Type ℓ} (key : String) (missing : Problem) (read : Json → Read A) (r : JsonReader)
    → IsBound r
    → let out = access key missing read r in Tells (is_given out.1) r out.0
unfolding access
access-Tells {A = A} key missing read r bound = go r.value refl
  where
    go :
        (v : Option Members)
        → r.value ≡ v
        → let out = access key missing read (record r { value = v }) in
          Tells (is_given out.1) (record r { value = v }) out.0
    go none e = record { same = refl; told = ground (arith, bound e); first = λ p k. k }
    go (some ms) e = found (find key ms)
      where
        found :
            (f : Option Json)
            → let out = elim f as (λ _. JsonReader × Option A) [
              | none ↦ (set_error missing (record r { value = some ms }), none)
              | some j ↦ read_found (read j) (record r { value = some ms })
            ] in
              Tells (is_given out.1) (record r { value = some ms }) out.0
        found none = set_error-Tells missing (record r { value = some ms })
        found (some j) = read_found-Tells (read j) (record r { value = some ms })

-- The accessors of a message, as a program calls them.
pub data Call : Type 0 where
  a_string an_int64 an_int a_bool a_price an_array : String → Call

-- The reader after the call, and whether a value was given.
pub call : (String → Strtod) → Call → JsonReader → JsonReader × Bool
call strtod (a_string k) r = let out = string k r in (out.0, is_given out.1)
call strtod (an_int64 k) r = let out = int64 k r in (out.0, is_given out.1)
call strtod (an_int k) r = let out = int32 k r in (out.0, is_given out.1)
call strtod (a_bool k) r = let out = bool k r in (out.0, is_given out.1)
call strtod (a_price k) r = let out = price_string strtod k r in (out.0, is_given out.1)
call strtod (an_array k) r = let out = array_of k r in (out.0, is_given out.1)

pub call_all : (String → Strtod) → List Call → JsonReader → JsonReader × Bool
unfolding call
call_all strtod [] r = (r, true)
call_all strtod (c ∷ cs) r =
    let first = call strtod c r in
    let rest = call_all strtod cs first.0 in (rest.0, first.1 && rest.1)

call-Tells :
    (strtod : String → Strtod) (c : Call) (r : JsonReader)
    → IsBound r
    → Tells (call strtod c r).1 r (call strtod c r).0
unfolding call
call-Tells strtod (a_string k) r b = access-Tells k (missing_string k) (as_string k) r b
call-Tells strtod (an_int64 k) r b = access-Tells k (missing_int64 k) (as_int64 k) r b
call-Tells strtod (an_int k) r b = access-Tells k (missing_int k) (as_int k) r b
call-Tells strtod (a_bool k) r b = access-Tells k (missing_bool k) (as_bool k) r b
call-Tells strtod (a_price k) r b = access-Tells k (missing_string k) (as_price strtod k) r b
call-Tells strtod (an_array k) r b = access-Tells k (missing_array k) (as_array k) r b

pub Tells-IsBound : (given : Bool) (r r' : JsonReader) → Tells given r r' → IsBound r → IsBound r'
Tells-IsBound given r r' t b e = t.told ∙ ap (λ x. x || not given) (b (sym t.same ∙ e))

Tells-trans : (g k : Bool) (r s u : JsonReader) → Tells g r s → Tells k s u → Tells (g && k) r u
Tells-trans g k r s u a b = record {
  same = b.same ∙ a.same;
  told = b.told ∙ ap (λ x. x || not k) a.told ∙ joins (has_error r) g k;
  first = λ p e. b.first p (a.first p e);
}
  where
    joins : (x g k : Bool) → (x || not g) || not k ≡ x || not (g && k)
    joins true g k = refl
    joins false true k = refl
    joins false false k = refl

-- From a reader that is bound to an object or has an error, after any run of accessors: hasError is true
-- exactly if it was before or some accessor gave no value, so that without an error every result may be
-- used; an error that was there is still the reader's error; and the reader reads the same object.
pub call_all-Tells :
    (strtod : String → Strtod) (cs : List Call) (r : JsonReader)
    → IsBound r
    → Tells (call_all strtod cs r).1 r (call_all strtod cs r).0
unfolding call_all
call_all-Tells strtod [] r b = record {
  same = refl;
  told = or_false (has_error r);
  first = λ p e. e;
}
call_all-Tells strtod (c ∷ cs) r b =
    let first = call strtod c r in
    let t = call-Tells strtod c r b in
    Tells-trans first.1 (call_all strtod cs first.0).1 r first.0 (call_all strtod cs first.0).0 t
      (call_all-Tells strtod cs first.0 (Tells-IsBound first.1 r first.0 t b))

-- A reader of a document, and of a nested object of a bound one, is bound.
pub reader_of-IsBound : (v : Json) → IsBound (reader_of v)
unfolding reader_of
reader_of-IsBound null e = refl
reader_of-IsBound (boolean b) e = refl
reader_of-IsBound (integer n) e = refl
reader_of-IsBound (real d) e = refl
reader_of-IsBound (text s) e = refl
reader_of-IsBound (array xs) e = refl
reader_of-IsBound (object ms) e = cc

pub obj-IsBound : (key : String) (r : JsonReader) → IsBound r → IsBound (obj key r).1
unfolding obj
obj-IsBound key r b =
    let found = access key (missing_object key) (as_object key) r in
    let t = access-Tells key (missing_object key) (as_object key) r b in go found.0 found.1 t.told
  where
    go :
        (s : JsonReader) (o : Option Members)
        → has_error s ≡ has_error r || not (is_given o)
        → IsBound (elim o as (λ _. JsonReader) [
          | none ↦ record { value = none; err = s.err }
          | some ms ↦ record { value = some ms; err = none }
        ])
    go s none told = λ e. ground (arith, told)
    go s (some ms) told = λ e. cc
