-- ===== src/Gap/Examples.antt =====
-- cpp/include/trade_gap.hpp: concrete ids and events.
use t2s.Base.{ℕ, ◌+◌, ◌≤◌, ◌<◌, some, String, List, [], ◌∷◌, ◌≡◌, refl}
use t2s.Gap.{find, acked, rejected, GapEventQueue, flush}
use t2s.Gap.Tracker.{feed, total_advance, IsAccounted, ids-IsAccounted}
use t2s.Gap.Queue.{IsFlushOf, flush-IsFlushOf}

-- 9 is known; 12 leaves the gap 10..11, and 13 follows it.
abbrev known_ids : List (String × ℕ)
known_ids = ("btcusdt", 9) ∷ []

abbrev stream : List (String × ℕ)
stream = ("btcusdt", 12) ∷ ("ethusdt", 4) ∷ ("btcusdt", 13) ∷ []

ids-IsAccounted_example :
    let out = feed stream known_ids in
    (end_id : ℕ) × (find "btcusdt" out.0 ≡ some end_id)
    × (9 + total_advance "btcusdt" out.1 ≡ end_id)
    × ((x : ℕ) → 9 < x → x ≤ end_id → IsAccounted "btcusdt" x out.1)
unfolding find
ids-IsAccounted_example = ids-IsAccounted "btcusdt" stream known_ids 9 refl

abbrev three_rows : GapEventQueue ℕ
three_rows = record { pending = 1 ∷ 2 ∷ 3 ∷ []; acked_rows = 0; rejected_rows = 0 }

flush-IsFlushOf_example : IsFlushOf (1 ∷ 2 ∷ 3 ∷ []) 0 0 (flush (acked ∷ rejected ∷ []) three_rows)
flush-IsFlushOf_example = flush-IsFlushOf (acked ∷ rejected ∷ []) three_rows
