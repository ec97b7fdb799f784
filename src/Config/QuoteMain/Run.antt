-- ===== src/Config/QuoteMain/Run.antt =====
-- cpp/include/quote_fh_main_common.hpp and cpp/src/quote_feed_handler.cpp: the whole run of a program.
use t2s.Base.{ℕ, Bool, Option, String, List, All, All-left, ◌≡◌, sym}
use mathlib.Core.Path.{subst}
use t2s.Book.Apply.Exact.{History}
use t2s.Json.{Strtod}
use t2s.Config.{File}
use t2s.Config.QuoteMain.{start, running}
use t2s.Config.QuoteMain.Sound.{IsSound, start-IsSound}
use t2s.Quotes.{QuoteHandler}
use t2s.Quotes.Run.{Stream, run_quotes, stream_acts, run_quotes-acts}
use t2s.Quotes.Truth.Acts.{IsHonest}

-- A quote handler that starts from its configuration files, whatever they hold, and runs until it is
-- stopped, over any connections to the exchange, which fail or end at any time, on which messages and
-- snapshots are the exchange's own, good or bad: its books follow the rule of the schema that the
-- program is for, it shows from 1 to 50 levels a side, and every valid row that it has published shows
-- the best levels that the exchange had for the row's symbol at the update id that the row carries.
pub run-IsSound :
    (truth : String → History) (strtod : String → Strtod) (required_schema : String)
    (open_file : String → Option File) (env : Option String) (path : String) (now : ℕ)
    (h : QuoteHandler) (tp_connects : Bool) (streams : List Stream)
    → start required_schema open_file env path now ≡ running h
    → All (IsHonest truth h.book_mgr.cfg strtod) (stream_acts streams)
    → IsSound truth required_schema h (run_quotes strtod tp_connects streams h).handler
run-IsSound truth strtod required_schema open_file env path now h tp_connects streams e honest =
    let (done, (rest, order), same) = run_quotes-acts strtod tp_connects streams h in
    let P = IsHonest truth h.book_mgr.cfg strtod in
    subst (IsSound truth required_schema h) (sym same) (
      start-IsSound truth strtod required_schema open_file env path now h done e
        (All-left P done rest (subst (All P) order honest)))
