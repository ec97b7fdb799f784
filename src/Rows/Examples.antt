-- ===== src/Rows/Examples.antt =====
-- cpp/include/quote_row.hpp and cpp/include/trade_gap.hpp: concrete rows.
use t2s.Base.{◌+◌, ◌≡◌, true, some, get_elem?, length}
use t2s.Book.Types.{default_book_config}
use t2s.Book.Slot.{new_slot}
use t2s.Book.Publish.{get_quote}
use t2s.Rows.{nat_long, quote_row_width, quote_send_us_index, build_quote_row}
use t2s.Rows.Layout.{published_row-layout}

published_row-layout_example :
    let q = get_quote default_book_config "btcusdt" (new_slot 0) 1 7 in
    let row = build_quote_row q 1 2 3 true in
    (length row ≡ quote_row_width default_book_config.depth true)
    × (get_elem? row (quote_send_us_index default_book_config.depth true) ≡ some (nat_long 3))
    × (get_elem? row (quote_send_us_index default_book_config.depth true + 1)
        ≡ some (nat_long q.fh_seq_no))
published_row-layout_example =
    published_row-layout default_book_config "btcusdt" (new_slot 0) 1 7 1 2 3 true
