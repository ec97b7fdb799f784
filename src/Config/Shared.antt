-- ===== src/Config/Shared.antt =====
-- cpp/include/config.hpp: what the shared file gives.
use t2s.Base.{
  ℕ, ℤ, pos, negsuc, ◌≤◌, ◌<◌, ◌≡◌, ◌≢◌, refl, Bool, true, false, Option, none, some, String, List,
  [], ◌∷◌, All, is_empty, to_lower, c_string, if◌then◌else◌, arith,
}
use mathlib.Core.Path.{subst}
use t2s.Json.{
  Json, Items, Members, nil, cons, null, boolean, integer, real, text, array, object, find, is_int,
  is_int64,
}
use t2s.Config.{
  ConfigError, symbol_not_a_name, symbols_not_an_array, no_quote_depth, quote_depth_out_of_range,
  clock_lag_not_an_integer, clock_lag_out_of_range, Loaded, ok, err, ◌>>=◌, File, bad, document,
  FeedHandlerConfig, symbols_of, symbols_in, quote_depth_in, clock_lag_in, members_of, load_shared,
  read_shared, with_shared, within, shared_path_for,
}
use t2s.Config.Blocks.{is_positive}
use t2s.Config.Names.{AreGiven, GivenBy, GivenIn}

-- What holds of a value that loads; an error asks for nothing.
abbrev pub Ensures {ℓ κ} : {A : Type ℓ} → (A → Type κ) → Loaded A → Type κ
Ensures P (ok a) = P a
Ensures P (err e) = Unit

pub Ensures->>= {ℓ κ μ ν} :
    {A : Type ℓ} {B : Type κ} (P : A → Type μ) (Q : B → Type ν) (m : Loaded A) (f : A → Loaded B)
    → Ensures P m
    → ((a : A) → P a → Ensures Q (f a))
    → Ensures Q (m >>= f)
Ensures->>= P Q (ok a) f p k = k a p
Ensures->>= P Q (err e) f p k = tt

-- Under a test that refuses.
Ensures-if {ℓ κ} :
    {A : Type ℓ} (P : A → Type κ) (b : Bool) (a : A) (e : ConfigError)
    → (b ≡ true → P a)
    → Ensures P (if b then ok a else err e)
Ensures-if P true a e p = p refl
Ensures-if P false a e p = tt

pub Ensures-ok {ℓ κ} :
    {A : Type ℓ} (P : A → Type κ) (m : Loaded A) (a : A) → m ≡ ok a → Ensures P m → P a
Ensures-ok P m a e p = subst (Ensures P) e p

-- The number is a natural one from `lo` to `hi`.
abbrev pub IsFromTo : ℕ → ℕ → ℤ → Type 0
IsFromTo lo hi n = (k : ℕ) × (n ≡ pos k) × (lo ≤ k) × (k ≤ hi)

abbrev pub IsAbove0 : ℤ → Type 0
IsAbove0 n = (k : ℕ) × (n ≡ pos k) × (0 < k)

-- What the shared file gives; P holds of each symbol.
pub record IsShared (P : String → Type 0) (c : FeedHandlerConfig) : Type 0 where
  pub some_symbol : c.symbols ≢ []
  pub names : All P c.symbols
  pub depth : IsFromTo 1 50 c.quote_depth
  pub lag : IsFromTo 100 3600000 c.clock_lag_ms

within-IsFromTo : (lo hi : ℕ) (n : ℤ) → within (pos lo) (pos hi) n ≡ true → IsFromTo lo hi n
within-IsFromTo lo hi (pos k) e = (k, refl, ground arith, ground arith)
within-IsFromTo lo hi (negsuc k) e = absurd (ground arith)

pub is_positive-IsAbove0 : (n : ℤ) → is_positive n ≡ true → IsAbove0 n
is_positive-IsAbove0 (pos k) e = (k, refl, ground arith)
is_positive-IsAbove0 (negsuc k) e = absurd (ground arith)

symbols_of-names :
    (P : String → Type 0) (vs : Items) → AreGiven P vs → Ensures (All P) (symbols_of vs)
unfolding symbols_of AreGiven
symbols_of-names P nil _ = tt
symbols_of-names P (cons (text s) vs) (named, given) =
    go (is_empty s) refl (symbols_of-names P vs given)
  where
    go :
        (b : Bool)
        → is_empty s ≡ b
        → Ensures (All P) (symbols_of vs)
        → Ensures (All P) (
            if b
            then err symbol_not_a_name
            else (symbols_of vs >>= λ rest. ok (to_lower (c_string s) ∷ rest)))
    go true h ih = tt
    go false h ih =
        Ensures->>= (All P) (All P) (symbols_of vs) (λ rest. ok (to_lower (c_string s) ∷ rest)) ih
          (λ rest p. (named h, p))
symbols_of-names P (cons null vs) _ = tt
symbols_of-names P (cons (boolean b) vs) _ = tt
symbols_of-names P (cons (integer n) vs) _ = tt
symbols_of-names P (cons (real d) vs) _ = tt
symbols_of-names P (cons (array xs) vs) _ = tt
symbols_of-names P (cons (object ms) vs) _ = tt

-- A list that starts with a symbol is not empty.
symbols_of-some : (v : Json) (vs : Items) → Ensures (λ ss. ss ≢ []) (symbols_of (cons v vs))
unfolding symbols_of
symbols_of-some (text s) vs = go (is_empty s)
  where
    go :
        (b : Bool)
        → Ensures
            (λ (ss : List String). ss ≢ [])
            (if b
              then err symbol_not_a_name
              else (symbols_of vs >>= λ rest. ok (to_lower (c_string s) ∷ rest)))
    go true = tt
    go false =
        Ensures->>= (λ _. Unit {0}) (λ (ss : List String). ss ≢ []) (symbols_of vs)
          (λ rest. ok (to_lower (c_string s) ∷ rest)) (any (symbols_of vs)) (λ rest p. λ e. cc)
      where
        any : (m : Loaded (List String)) → Ensures (λ _. Unit {0}) m
        any (ok a) = tt
        any (err e) = tt
symbols_of-some null vs = tt
symbols_of-some (boolean b) vs = tt
symbols_of-some (integer n) vs = tt
symbols_of-some (real d) vs = tt
symbols_of-some (array xs) vs = tt
symbols_of-some (object ms) vs = tt

abbrev AreSymbols : (String → Type 0) → List String → Type 0
AreSymbols P ss = (ss ≢ []) × All P ss

symbols_in-AreSymbols :
    (P : String → Type 0) (ms : Members)
    → GivenBy P (find "symbols" ms)
    → Ensures (AreSymbols P) (symbols_in ms)
unfolding symbols_in GivenBy
symbols_in-AreSymbols P ms = go (find "symbols" ms)
  where
    both :
        (m : Loaded (List String))
        → Ensures (λ ss. ss ≢ []) m
        → Ensures (All P) m
        → Ensures (AreSymbols P) m
    both (ok ss) p q = (p, q)
    both (err e) p q = tt

    go :
        (f : Option Json)
        → GivenBy P f
        → Ensures (AreSymbols P) (elim f as (λ _. Loaded (List String)) [
          | some (array (cons v vs)) ↦ symbols_of (cons v vs)
          | _ ↦ err symbols_not_an_array
        ])
    go none given = tt
    go (some null) given = tt
    go (some (boolean b)) given = tt
    go (some (integer n)) given = tt
    go (some (real d)) given = tt
    go (some (text s)) given = tt
    go (some (object ms)) given = tt
    go (some (array nil)) given = tt
    go (some (array (cons v vs))) given =
        both (symbols_of (cons v vs)) (symbols_of-some v vs) (symbols_of-names P (cons v vs) given)

-- A number of one type that passes its bounds, or is refused.
twice_tested :
    (lo hi : ℕ) (n : ℤ) (typed : Bool) (e f : ConfigError)
    → Ensures
        (IsFromTo lo hi)
        (if typed then (if within (pos lo) (pos hi) n then ok n else err e) else err f)
twice_tested lo hi n true e f =
    Ensures-if (IsFromTo lo hi) (within (pos lo) (pos hi) n) n e (within-IsFromTo lo hi n)
twice_tested lo hi n false e f = tt

quote_depth_in-IsFromTo : (ms : Members) → Ensures (IsFromTo 1 50) (quote_depth_in ms)
unfolding quote_depth_in
quote_depth_in-IsFromTo ms = go (find "quote_depth" ms)
  where
    go :
        (f : Option Json)
        → Ensures (IsFromTo 1 50) (elim f as (λ _. Loaded ℤ) [
          | some (integer n) ↦
              if is_int n
              then (if within (pos 1) (pos 50) n then ok n else err quote_depth_out_of_range)
              else err no_quote_depth
          | _ ↦ err no_quote_depth
        ])
    go none = tt
    go (some null) = tt
    go (some (boolean b)) = tt
    go (some (integer n)) = twice_tested 1 50 n (is_int n) quote_depth_out_of_range no_quote_depth
    go (some (real d)) = tt
    go (some (text s)) = tt
    go (some (array xs)) = tt
    go (some (object ms)) = tt

clock_lag_in-IsFromTo :
    (before : ℤ) (ms : Members)
    → IsFromTo 100 3600000 before
    → Ensures (IsFromTo 100 3600000) (clock_lag_in before ms)
unfolding clock_lag_in
clock_lag_in-IsFromTo before ms was = go (find "clock_lag_ms" ms)
  where
    go :
        (f : Option Json)
        → Ensures (IsFromTo 100 3600000) (elim f as (λ _. Loaded ℤ) [
          | none ↦ ok before
          | some (integer n) ↦
              if is_int64 n
              then (if within (pos 100) (pos 3600000) n then ok n else err clock_lag_out_of_range)
              else err clock_lag_not_an_integer
          | some v ↦ err clock_lag_not_an_integer
        ])
    go none = was
    go (some null) = tt
    go (some (boolean b)) = tt
    go (some (integer n)) =
        twice_tested 100 3600000 n (is_int64 n) clock_lag_out_of_range clock_lag_not_an_integer
    go (some (real d)) = tt
    go (some (text s)) = tt
    go (some (array xs)) = tt
    go (some (object ms)) = tt

pub any_ok {ℓ} : {A : Type ℓ} (m : Loaded A) → Ensures (λ _. Unit {0}) m
any_ok (ok a) = tt
any_ok (err e) = tt

abbrev pub SharedOver : (String → Type 0) → FeedHandlerConfig → FeedHandlerConfig → Type 0
SharedOver P c0 c = IsShared P c × (c.backfill_enabled ≡ c0.backfill_enabled)

module _ (P : String → Type 0) where
  read_shared-IsShared :
      (path : String) (c0 : FeedHandlerConfig) (ms : Members)
      → IsFromTo 100 3600000 c0.clock_lag_ms
      → GivenBy P (find "symbols" ms)
      → Ensures (SharedOver P c0) (read_shared path c0 ms)
  unfolding read_shared
  read_shared-IsShared path c0 ms was given =
      let lags = λ (ss : List String) (depth : ℤ).
        clock_lag_in c0.clock_lag_ms ms >>= λ lag. ok (with_shared path c0 ss depth lag) in
      Ensures->>= (AreSymbols P) (SharedOver P c0) (symbols_in ms)
        (λ ss. quote_depth_in ms >>= lags ss) (symbols_in-AreSymbols P ms given)
        (λ ss named.
          Ensures->>= (IsFromTo 1 50) (SharedOver P c0) (quote_depth_in ms) (lags ss)
            (quote_depth_in-IsFromTo ms)
            (λ depth deep.
              Ensures->>= (IsFromTo 100 3600000) (SharedOver P c0) (clock_lag_in c0.clock_lag_ms ms)
                (λ lag. ok (with_shared path c0 ss depth lag))
                (clock_lag_in-IsFromTo c0.clock_lag_ms ms was)
                (λ lag late. (
                  record { some_symbol = named.0; names = named.1; depth = deep; lag = late },
                  refl,
                ))))

  members_of-GivenBy :
      (path : String) (file : Option File)
      → GivenIn P file
      → Ensures (λ ms. GivenBy P (find "symbols" ms)) (members_of path file)
  unfolding members_of GivenIn
  members_of-GivenBy path none g = tt
  members_of-GivenBy path (some bad) g = tt
  members_of-GivenBy path (some (document null)) g = tt
  members_of-GivenBy path (some (document (boolean b))) g = tt
  members_of-GivenBy path (some (document (integer n))) g = tt
  members_of-GivenBy path (some (document (real d))) g = tt
  members_of-GivenBy path (some (document (text s))) g = tt
  members_of-GivenBy path (some (document (array xs))) g = tt
  members_of-GivenBy path (some (document (object ms))) g = g

  pub load_shared-IsShared :
      (open_file : String → Option File) (env : Option String) (path : String)
      (c0 : FeedHandlerConfig)
      → IsFromTo 100 3600000 c0.clock_lag_ms
      → GivenIn P (open_file (shared_path_for env path))
      → Ensures (SharedOver P c0) (load_shared open_file env path c0)
  unfolding load_shared
  load_shared-IsShared open_file env path c0 was given =
      let shared = shared_path_for env path in
      Ensures->>= (λ ms. GivenBy P (find "symbols" ms)) (SharedOver P c0)
        (members_of shared (open_file shared)) (read_shared shared c0)
        (members_of-GivenBy shared (open_file shared) given)
        (λ ms g. read_shared-IsShared shared c0 ms was g)
