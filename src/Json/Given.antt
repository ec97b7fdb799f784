-- ===== src/Json/Given.antt =====
-- cpp/include/json_reader.hpp: what an accessor that gives a value has found.
use t2s.Base.{ℤ, Bool, true, false, if◌then◌else◌, Option, none, some, String, ◌≡◌, refl, ap}
use t2s.Json.{
  Json, Items, Members, null, boolean, integer, real, text, array, object, find, is_int64,
  JsonReader, Problem, Read, got, refused, read_found, access, as_int64, as_array, set_error,
  not_an_int64,
}
use t2s.Json.Reader.{is_given}

-- The reader's object has the key, and the value is what is read of its member.
pub record Found {ℓ} {A : Type ℓ} (key : String) (read : Json → Read A) (r : JsonReader)
    (out : Option A) : Type ℓ where
  pub members : Members
  pub found : Json
  pub given : A
  pub bound : r.value ≡ some members
  pub here : find key members ≡ some found
  pub reads : read found ≡ got given
  pub is_out : out ≡ some given

pub access-Found {ℓ} :
    {A : Type ℓ} (key : String) (missing : Problem) (read : Json → Read A) (r : JsonReader)
    → is_given (access key missing read r).1 ≡ true
    → Found key read r (access key missing read r).1
unfolding access read_found
access-Found {A = A} key missing read r = go r.value refl
  where
    out : Option Members → JsonReader × Option A
    out v = access key missing read (record r { value = v })

    go : (v : Option Members) → r.value ≡ v → is_given (out v).1 ≡ true → Found key read r (out v).1
    go none e g = cc
    go (some ms) e g = at (find key ms) refl g
      where
        chosen : Option Json → JsonReader × Option A
        chosen none = (set_error missing (record r { value = some ms }), none)
        chosen (some j) = read_found (read j) (record r { value = some ms })

        at :
            (f : Option Json)
            → find key ms ≡ f
            → is_given (chosen f).1 ≡ true
            → Found key read r (chosen f).1
        at none k g = cc
        at (some j) k g = said (read j) refl g
          where
            said :
                (x : Read A)
                → read j ≡ x
                → is_given (read_found x (record r { value = some ms })).1 ≡ true
                → Found key read r (read_found x (record r { value = some ms })).1
            said (refused p) i g = cc
            said (got a) i g = record {
              members = ms;
              found = j;
              given = a;
              bound = e;
              here = k;
              reads = i;
              is_out = refl;
            }

pub as_int64-got : (key : String) (j : Json) (n : ℤ) → as_int64 key j ≡ got n → j ≡ integer n
unfolding as_int64
as_int64-got key (integer n) m e = go (is_int64 n) e
  where
    value : Read ℤ → ℤ
    value (got k) = k
    value (refused p) = m

    go :
        (b : Bool)
        → (if b then got n else refused (not_an_int64 key)) ≡ got m
        → integer n ≡ integer m
    go true e = ap (λ x. integer (value x)) e
    go false e = cc
as_int64-got key null n e = cc
as_int64-got key (boolean b) n e = cc
as_int64-got key (real d) n e = cc
as_int64-got key (text s) n e = cc
as_int64-got key (array xs) n e = cc
as_int64-got key (object ms) n e = cc

pub as_array-got : (key : String) (j : Json) (xs : Items) → as_array key j ≡ got xs → j ≡ array xs
unfolding as_array
as_array-got key (array xs) ys e = ap value e
  where
    value : Read Items → Json
    value (got k) = array k
    value (refused p) = array ys
as_array-got key null xs e = cc
as_array-got key (boolean b) xs e = cc
as_array-got key (integer n) xs e = cc
as_array-got key (real d) xs e = cc
as_array-got key (text s) xs e = cc
as_array-got key (object ms) xs e = cc
