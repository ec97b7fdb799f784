-- ===== src/Book/Apply/Exact.antt =====
-- applyLevels and applyDelta against the exchange's own book: what "exact" means for a book that
-- stands at an update id, and that applying an event keeps it.
use mathlib.Core.Path.{subst}
use t2s.Base.{ℕ, ◌<◌, ◌≡◌, refl, ap, Bool, true, false, List, [], ◌∷◌, All}
use t2s.Market.{DepthSync}
use t2s.Book.Types.{BookConfig, BufferedDelta, PriceLevel}
use t2s.Book.Side.{Side}
use t2s.Book.Side.Levels.{HasNumbers}
use t2s.Book.Side.Invariant.{IsValid}
use t2s.Book.Side.Cases.{update-IsValid}
use t2s.Book.Side.Truth.{Exchange, moved, IsExact, update-IsExact}
use t2s.Book.Side.Load.{IsSnapshot, load-IsValid, load-IsExact}
use t2s.Book.Sequence.{Seq, apply, check_sequence, check_sequence_kept, at_event}
use t2s.Book.Sequence.Follow.{Follows, apply-Follows}
use t2s.Book.Slot.{Book}
use t2s.Book.Apply.{update_all, apply_levels, load_book, seq_of_snapshot}

-- The exchange's book at each update id.
pub record History : Type 0 where
  pub bid : ℕ → Exchange
  pub ask : ℕ → Exchange

abbrev pub moved_all : List PriceLevel → Exchange → Exchange
moved_all [] t = t
moved_all (u ∷ us) t = moved_all us (moved u t)

-- An event of the stream takes the exchange's book from each id that it may follow to its last id;
-- quantities are absolute, so it may overlap what is already applied.
pub record IsFaithful (sync : DepthSync) (h : History) (d : BufferedDelta) : Type 0 where
  pub bid_numbers : All HasNumbers d.bids
  pub ask_numbers : All HasNumbers d.asks
  pub bid_moves : (n : ℕ) → Follows sync d n → moved_all d.bids (h.bid n) ≡ h.bid d.final_update_id
  pub ask_moves : (n : ℕ) → Follows sync d n → moved_all d.asks (h.ask n) ≡ h.ask d.final_update_id

-- Both sides are well formed and exact at the update id.
pub record IsExactAt (cfg : BookConfig) (h : History) (n : ℕ) (b : Book) : Type 0 where
  pub bid_valid : IsValid true cfg.max_levels b.bid
  pub ask_valid : IsValid false cfg.max_levels b.ask
  pub bid_exact : IsExact true (h.bid n) b.bid
  pub ask_exact : IsExact false (h.ask n) b.ask

-- A book with its bookkeeping: exact at the id it is at, which is the snapshot's until an event
-- bridges.
pub record Stands (cfg : BookConfig) (h : History) (s : Seq) (b : Book) : Type 0 where
  pub exact : IsExactAt cfg h s.last_id b
  pub unbridged : s.need_bridge ≡ true → s.snapshot_id ≡ s.last_id

update_all-IsValid :
    (b : Bool) (k : ℕ) (us : List PriceLevel) (s : Side)
    → All HasNumbers us
    → IsValid b k s
    → IsValid b k (update_all b k us s)
unfolding update_all
update_all-IsValid b k [] s n v = v
update_all-IsValid b k (u ∷ us) s n v =
    update_all-IsValid b k us _ n.1 (update-IsValid b u k s n.0 v)

update_all-IsExact :
    (b : Bool) (t : Exchange) (k : ℕ) (us : List PriceLevel) (s : Side)
    → 0 < k
    → All HasNumbers us
    → IsValid b k s
    → IsExact b t s
    → IsExact b (moved_all us t) (update_all b k us s)
unfolding update_all
update_all-IsExact b t k [] s pos n v x = x
update_all-IsExact b t k (u ∷ us) s pos n v x =
    update_all-IsExact b (moved u t) k us _ pos n.1 (update-IsValid b u k s n.0 v)
      (update-IsExact b t u k s pos n.0 v x)

-- An event that may follow the book's id takes an exact book to an exact book.
pub apply_levels-IsExactAt :
    (cfg : BookConfig) (h : History) (n : ℕ) (d : BufferedDelta) (b : Book)
    → 0 < cfg.max_levels
    → IsFaithful cfg.sync h d
    → Follows cfg.sync d n
    → IsExactAt cfg h n b
    → IsExactAt cfg h d.final_update_id (apply_levels cfg d b)
unfolding apply_levels
apply_levels-IsExactAt cfg h n d b pos f w x = record {
  bid_valid = update_all-IsValid true cfg.max_levels d.bids b.bid f.bid_numbers x.bid_valid;
  ask_valid = update_all-IsValid false cfg.max_levels d.asks b.ask f.ask_numbers x.ask_valid;
  bid_exact =
      subst (λ t. IsExact true t (update_all true cfg.max_levels d.bids b.bid)) (f.bid_moves n w)
        (update_all-IsExact true (h.bid n) cfg.max_levels d.bids b.bid pos f.bid_numbers x.bid_valid
          x.bid_exact);
  ask_exact =
      subst (λ t. IsExact false t (update_all false cfg.max_levels d.asks b.ask)) (f.ask_moves n w)
        (update_all-IsExact false (h.ask n) cfg.max_levels d.asks b.ask pos f.ask_numbers
          x.ask_valid x.ask_exact);
}

-- An event that passes the check keeps the book exact at the id it then is at.
pub apply-Stands :
    (cfg : BookConfig) (h : History) (d : BufferedDelta) (s : Seq) (b : Book)
    → 0 < cfg.max_levels
    → IsFaithful cfg.sync h d
    → (check_sequence cfg.sync s d).0 ≡ apply
    → Stands cfg h s b
    → Stands cfg h (at_event (check_sequence cfg.sync s d).1 d) (apply_levels cfg d b)
apply-Stands cfg h d s b pos f e x = record {
  exact =
      apply_levels-IsExactAt cfg h s.last_id d b pos f (apply-Follows cfg.sync d s x.unbridged e)
        x.exact;
  unbridged = λ w. cc (ap (λ (q : Seq). q.need_bridge) ((check_sequence_kept cfg.sync s d).0 e));
}

-- The snapshot of both sides, as the exchange answers it.
pub record IsDepthReply (cfg : BookConfig) (h : History) (id : ℕ) (bids asks : List PriceLevel)
    : Type 0 where
  pub bid : IsSnapshot true (h.bid id) cfg.snapshot_limit bids
  pub ask : IsSnapshot false (h.ask id) cfg.snapshot_limit asks

-- A freshly loaded snapshot is exact at its own update id.
pub load_book-Stands :
    (cfg : BookConfig) (h : History) (id : ℕ) (bids asks : List PriceLevel)
    → 0 < cfg.snapshot_limit
    → 0 < cfg.max_levels
    → IsDepthReply cfg h id bids asks
    → Stands cfg h (seq_of_snapshot id) (load_book cfg bids asks)
unfolding load_book
load_book-Stands cfg h id bids asks pos room r = record {
  exact = record {
    bid_valid =
        load-IsValid true cfg.snapshot_limit cfg.max_levels bids r.bid.numbers r.bid.distinct;
    ask_valid =
        load-IsValid false cfg.snapshot_limit cfg.max_levels asks r.ask.numbers r.ask.distinct;
    bid_exact = load-IsExact true (h.bid id) cfg.snapshot_limit cfg.max_levels bids pos room r.bid;
    ask_exact = load-IsExact false (h.ask id) cfg.snapshot_limit cfg.max_levels asks pos room r.ask;
  };
  unbridged = λ _. refl;
}
