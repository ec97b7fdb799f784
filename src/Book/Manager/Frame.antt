-- ===== src/Book/Manager/Frame.antt =====
-- The manager's symbols: the index of a name, and that a method touches no other symbol.
use t2s.Base.{
  ℕ, zero, suc, ◌≡◌, ◌≢◌, refl, sym, ◌∙◌, ap, drop, Option, none, some, String, List, [], ◌∷◌,
  arith, get_elem?, set, eq_iff,
}
use mathlib.Core.Option.{some-injective}
use t2s.Book.Slot.{Slot, Cell}
use t2s.Book.Types.{BookConfig}
use t2s.Book.Manager.{
  Manager, number_symbols, new_manager, find_index, get_symbol_index, enter, at_symbol,
}

get_elem?-set_ne {ℓ} :
    {A : Type ℓ} (xs : List A) (i j : ℕ) (v : A) → i ≢ j → get_elem? (set xs i v) j ≡ get_elem? xs j
get_elem?-set_ne [] i j v h = refl
get_elem?-set_ne (x ∷ xs) zero zero v h = absurd (h refl)
get_elem?-set_ne (x ∷ xs) zero (suc j) v h = refl
get_elem?-set_ne (x ∷ xs) (suc i) zero v h = refl
get_elem?-set_ne (x ∷ xs) (suc i) (suc j) v h = get_elem?-set_ne xs i j v (λ e. h (ap suc e))

-- A method on one symbol leaves the slots of all others, the names and the configuration as they were.
pub at_symbol_frame :
    {R : Type 0} (i j : ℕ) (f : Cell → Cell × R) (m m' : Manager) (r : R)
    → at_symbol i f m ≡ some (m', r)
    → i ≢ j
    → (get_elem? m'.slots j ≡ get_elem? m.slots j)
      × (m'.cfg ≡ m.cfg)
      × (m'.idx_to_sym ≡ m.idx_to_sym)
      × (m'.sym_to_idx ≡ m.sym_to_idx)
unfolding at_symbol
at_symbol_frame {R} i j f m m' r e h = go (get_elem? m.slots i) e
  where
    go :
        (o : Option Slot)
        → enter i f m o ≡ some (m', r)
        → (get_elem? m'.slots j ≡ get_elem? m.slots j)
          × (m'.cfg ≡ m.cfg)
          × (m'.idx_to_sym ≡ m.idx_to_sym)
          × (m'.sym_to_idx ≡ m.sym_to_idx)
    go none e = cc
    go (some s) e =
        let same = ap (λ (p : Manager × R). p.0) (some-injective _ _ e) in
        (
          sym (ap (λ (q : Manager). get_elem? q.slots j) same) ∙ get_elem?-set_ne m.slots i j _ h,
          sym (ap (λ (q : Manager). q.cfg) same),
          sym (ap (λ (q : Manager). q.idx_to_sym) same),
          sym (ap (λ (q : Manager). q.sym_to_idx) same),
        )

-- Every entry names the symbol at its index.
abbrev Names : List String → List (String × ℕ) → Type 0
Names all [] = Unit
Names all ((s, i) ∷ m) = (get_elem? all i ≡ some s) × Names all m

drop-cons :
    (i : ℕ) (all ss : List String) (s : String)
    → drop i all ≡ s ∷ ss
    → (get_elem? all i ≡ some s) × (drop (suc i) all ≡ ss)
drop-cons zero [] ss s e = cc
drop-cons zero (x ∷ xs) ss s e = ground arith
drop-cons (suc i) [] ss s e = cc
drop-cons (suc i) (x ∷ xs) ss s e = drop-cons i xs ss s e

number_symbols-Names :
    (all : List String) (i : ℕ) (ss : List String) (m : List (String × ℕ))
    → drop i all ≡ ss
    → Names all m
    → Names all (number_symbols i ss m)
unfolding number_symbols
number_symbols-Names all i [] m e n = n
number_symbols-Names all i (s ∷ ss) m e n =
    let (here, next) = drop-cons i all ss s e in
    number_symbols-Names all (suc i) ss ((s, i) ∷ m) next (here, n)

find_index-Names :
    (all : List String) (name : String) (m : List (String × ℕ)) (i : ℕ)
    → Names all m
    → find_index name m ≡ some i
    → get_elem? all i ≡ some name
unfolding find_index
find_index-Names all name [] i n e = cc
find_index-Names all name ((s, k) ∷ m) i n e =
    ground (arith, eq_iff s name, find_index-Names all name m i n.1)

-- A name that has an entry keeps one.
number_symbols-keeps :
    (name : String) (i : ℕ) (ss : List String) (m : List (String × ℕ))
    → find_index name m ≢ none
    → find_index name (number_symbols i ss m) ≢ none
unfolding number_symbols find_index
number_symbols-keeps name i [] m h = h
number_symbols-keeps name i (s ∷ ss) m h =
    number_symbols-keeps name (suc i) ss ((s, i) ∷ m) (ground arith)

number_symbols-finds :
    (name : String) (k i : ℕ) (ss : List String) (m : List (String × ℕ))
    → get_elem? ss k ≡ some name
    → find_index name (number_symbols i ss m) ≢ none
unfolding number_symbols
number_symbols-finds name k i [] m e = cc
number_symbols-finds name zero i (s ∷ ss) m e =
    number_symbols-keeps name (suc i) ss ((s, i) ∷ m) (found s (ground arith))
  where
    found : (s : String) → s ≡ name → find_index name ((s, i) ∷ m) ≢ none
    found s h = unfold find_index in ground (arith, eq_iff s name)
number_symbols-finds name (suc k) i (s ∷ ss) m e =
    number_symbols-finds name k (suc i) ss ((s, i) ∷ m) e

-- The index that a new manager gives for a name is one at which that name stands, and every configured
-- name has one; with a name given twice it is still an index of that name.
pub get_symbol_index_lem :
    (symbols : List String) (cfg : BookConfig) (now : ℕ) (name : String)
    → ((i : ℕ)
        → get_symbol_index name (new_manager symbols cfg now) ≡ some i
        → get_elem? symbols i ≡ some name)
      × ((k : ℕ)
          → get_elem? symbols k ≡ some name
          → get_symbol_index name (new_manager symbols cfg now) ≢ none)
unfolding get_symbol_index new_manager
get_symbol_index_lem symbols cfg now name = (
  λ i.
      find_index-Names symbols name (number_symbols 0 symbols []) i
        (number_symbols-Names symbols 0 symbols [] refl tt),
  λ k. number_symbols-finds name k 0 symbols [],
)
