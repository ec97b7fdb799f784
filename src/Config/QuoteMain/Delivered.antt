-- ===== src/Config/QuoteMain/Delivered.antt =====
-- cpp/include/quote_fh_main_common.hpp, cpp/src/quote_feed_handler.cpp, cpp/include/tp_publisher.hpp and
-- kdb/tick/tp.q: from the exchange's events to the rows in the tickerplant's log.
use t2s.Base.{
  ℕ, true, Option, some, String, List, [], ◌∷◌, ◌++◌, map, length, range, All, ◌≡◌, ◌≢◌, refl, sym,
  ◌∙◌, ap,
}
use mathlib.Core.Path.{subst}
use t2s.Book.Apply.Exact.{History}
use t2s.Json.{Strtod}
use t2s.Config.{File}
use t2s.Config.QuoteMain.{start, running}
use t2s.Config.QuoteMain.Sound.{start-StartedWell, start-IsSound}
use t2s.Quotes.{Sent, QuoteHandler}
use t2s.Quotes.Acts.{Act, acts}
use t2s.Quotes.Sequence.{numbers, IsNumbered}
use t2s.Quotes.Numbering.{acts-IsNumbered}
use t2s.Quotes.Setup.{new_quote_handler}
use t2s.Quotes.Truth.{IsTrueRow}
use t2s.Quotes.Truth.Acts.{IsHonest}
use t2s.Publisher.Delivery.{Contact, Event, published, reconnect, run, drain, rows_of, new_link}
use t2s.Publisher.Delivery.Complete.{every_row_logged, rows_of-published}
use t2s.Tickerplant.{Tickerplant}

abbrev pub number : Sent → ℕ
number s = s.quote.fh_seq_no

-- A row with the fhSeqNo that it carries.
abbrev pub with_number : Sent → ℕ × Sent
with_number s = (number s, s)

map-numbers : (rows : List Sent) → map number rows ≡ numbers rows
unfolding numbers
map-numbers [] = refl
map-numbers (row ∷ rows) = ap (λ ns. number row ∷ ns) (map-numbers rows)

new_quote_handler-IsNumbered :
    (symbols : List String) (market : _) (now : ℕ)
    → IsNumbered 0 (new_quote_handler symbols market now)
unfolding numbers new_quote_handler
new_quote_handler-IsNumbered symbols market now = record { run = refl; last = refl }

-- What the handler publishes is what the link numbers.
rows_of-outbox :
    (strtod : String → Strtod) (required_schema : String) (open_file : String → Option File)
    (env : Option String) (path : String) (now : ℕ) (h : QuoteHandler) (as_ : List Act)
    (events : List (Event Sent))
    → start required_schema open_file env path now ≡ running h
    → published events ≡ (acts strtod as_ h).outbox
    → rows_of 1 events ≡ map with_number (acts strtod as_ h).outbox
rows_of-outbox strtod required_schema open_file env path now h as_ events e sent =
    let (c, usable, started) = start-StartedWell required_schema open_file env path now h e in
    let fresh : IsNumbered 0 h =
      subst (IsNumbered 0) (sym started.is_new)
        (new_quote_handler-IsNumbered c.symbols started.market started.now) in
    let n = acts-IsNumbered 0 strtod as_ h fresh in
    let run =
      subst (λ rows. map number rows ≡ range 1 (length rows)) (sym sent)
        (map-numbers (acts strtod as_ h).outbox ∙ n.run) in
    rows_of-published 1 number events run ∙ ap (λ rows. map with_number rows) sent

-- A quote handler that starts from its configuration files, whatever they hold, and then does anything
-- with the exchange's own events and depth replies, publishes its rows in order on a link to a TP that
-- has no session of it, on which connections die, with rows on them, and attempts to connect fail. If
-- the connection that it has open then works, and it counted no row that it could not resend, then as
-- soon as TP has read what waits on the connection, its log has, after what it held at the start,
-- exactly the handler's rows, each once, in order and under the fhSeqNo that it carries; and each of
-- them that is valid shows the best levels that the exchange had for its symbol at the update id that
-- it carries.
pub log_shows_truth :
    (truth : String → History) (strtod : String → Strtod) (required_schema : String)
    (open_file : String → Option File) (env : Option String) (path : String) (now : ℕ)
    (h : QuoteHandler) (as_ : List Act)
    → start required_schema open_file env path now ≡ running h
    → All (IsHonest truth h.book_mgr.cfg strtod) as_
    → (ring_size session_id width : ℕ) (tp : Tickerplant Sent) (contacts : List Contact)
      (events : List (Event Sent))
    → tp.session ≢ some session_id
    → let first = reconnect contacts (new_link ring_size session_id width tp) in
      first.1 ≡ true
      → let rows = (acts strtod as_ h).outbox in
        published events ≡ rows
        → let l = run events first.0 in
          l.alive ≡ true
          → l.handler.rows_unresendable ≡ 0
          → ((drain l.pipe l).tp.log ≡ tp.log ++ map with_number rows)
            × All (IsTrueRow truth h.book_mgr.cfg h.book_mgr.idx_to_sym) rows
log_shows_truth truth strtod required_schema open_file env path now h as_ e honest ring_size
      session_id width tp contacts events other ok sent on none_gone =
    let logged =
      every_row_logged ring_size session_id width tp contacts events other ok on none_gone in
    let same = rows_of-outbox strtod required_schema open_file env path now h as_ events e sent in
    let sound = start-IsSound truth strtod required_schema open_file env path now h as_ e honest in
    (logged.0 ∙ ap (λ rows. tp.log ++ rows) same, sound.is_true.true_rows)
