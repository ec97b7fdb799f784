-- ===== src/Lib.antt =====
-- t2s: the C++ feed handlers of the repository (cpp/), which take Binance's depth and trade
-- streams and publish rows to a kdb+ tickerplant (TP).
--
-- The program. A quote handler keeps a local order book per symbol
-- (cpp/include/order_book_manager.hpp), synced from a REST snapshot and the diff stream; it asks
-- a scheduler (cpp/include/snapshot_scheduler.hpp) when a snapshot may be requested, builds rows
-- (cpp/include/quote_row.hpp) whose time comes from a row clock (cpp/include/row_clock.hpp), and
-- sends them through a publisher that resends after a lost connection
-- (cpp/include/tp_publisher.hpp). A trade handler watches the exchange's trade ids for gaps
-- (cpp/include/trade_gap.hpp), reports them to TP and fetches the missing trades
-- (cpp/include/trade_backfill.hpp), also under a scheduler.
--
-- Files. Base passes the library's names on and has the Boolean tests, lists, ranges and integers
-- that the parts share. Market is cpp/include/market_config.hpp. Book is order_book_manager.hpp:
-- Double and Types its values, Side one side of a book, Sequence the rule for update ids, Slot
-- all that the manager keeps for a symbol, Apply bufferDelta, applySnapshot and applyDelta,
-- Snapshot onSnapshot and finishRefresh, Publish getQuote and the publish decisions, Lifecycle
-- the steps of a symbol's book, Manager the lookup of symbols. Scheduler, Gap, Publisher,
-- Backfill, Clock and Rows are the headers named above, one function per method, under the
-- method's name in this library's spelling. Tickerplant is TP's side of a handler's session
-- (kdb/tick/tp.q: .tp.registerSession, .tp.checkSeq and upd), and Publisher.Delivery the two
-- together, with the connection between them. Worker is cpp/include/snapshot_worker.hpp: the
-- bounded queue, each of whose operations holds the mutex and so is one step, and the requests
-- that the worker's thread answers. Quotes is cpp/src/quote_feed_handler.cpp: what a delta, a
-- snapshot, a heartbeat and a new connection do to a symbol's book, the requests and the rows,
-- and Quotes.Acts any sequence of these. Trades is cpp/src/trade_feed_handler.cpp: what a
-- message's id leads to, the rows of live and of backfilled trades, and the gap events. Json is
-- cpp/include/json_reader.hpp, over a document that is a tree; Quotes.Message and Trades.Message
-- are the two processMessage up to the fields that were read, Rest is cpp/include/rest_client.hpp
-- and Backfill.Fetch the fetcher of backfill pages over it. Config is cpp/include/config.hpp,
-- with load in Config.Blocks and the programs' part before a handler runs in Config.QuoteMain
-- (cpp/include/quote_fh_main_common.hpp) and Config.TradeMain (cpp/src/trade_fh_main.cpp, whose
-- copy for futures differs in a warning); Quotes.Setup and Trades.Setup are the handlers'
-- constructors. Reconnect is sleepWithBackoff, which the publisher and both handlers write alike,
-- and Reconnect.Loop the loop of run over the connections to the exchange, which Quotes.Run and
-- Trades.Run take up. The children of a module hold its proofs; a module Examples holds concrete
-- runs.
--
-- The order book's state. The source keeps one vector per field, indexed by symbol; a Slot is one
-- index of all of them, and Stats the counters that the symbols share. Levels stand worst first,
-- as in the source. A History gives the exchange's own book at each update id; IsFaithful says of
-- an event that it takes that book from each id it may follow to its last id, and IsDepthReply
-- says of a snapshot what the depth endpoint documents. These are hypotheses on the exchange,
-- stated in the steps of Lifecycle. std::sort is an insertion sort and std::lower_bound the split
-- at the first level that is not worse.
--
-- Numbers. A double is held by its place in the IEEE 754 order, so that comparisons are exact;
-- -0.0 is 0.0, and NaN compares false. Ids and times are natural numbers, since the exchange's
-- are positive; where the source uses -1 for "absent" the model has an option. 64-bit overflow is
-- not modelled. The scheduler's tokens are in 1/6,000,000 of a weight, which makes its arithmetic
-- exact; rounding of double is not modelled. The jitter is a draw out of 2^53, given as a
-- function of what it is drawn for. The clock's differences are integers, with C++'s division
-- towards zero.
--
-- The environment. The steady and system clocks are arguments. RapidJSON's parser and C's strtod
-- are arguments, and so is the HTTPS exchange of the REST client; a strtod gives the value, and
-- whether it converted anything, left the range or read all of the text. A file is none, bad, or
-- the document that it holds; config.hpp takes a text of it up to its first NUL. The connection
-- to TP is a list of attempts, each with what opening, registering and sending give; when the
-- list is at its end a shutdown was requested, so connect always ends. In Publisher.Delivery the
-- attempts are not assumed but follow from what the network does: a contact says whether the port
-- opens, the registration reaches TP, its answer comes back, which sends go out, and how many of
-- the rows TP reads when the connection dies; a connection can die at any time, with the rows on
-- it, without the handler seeing it, and a row on a dead connection may look sent. A restart of
-- TP (Tickerplant.restart) keeps the day's log and the session file, and loses the counters; the
-- day's change is not modelled, and neither is a row of a dead connection that TP reads after the
-- next registration. The backfill's worker is one step that answers a request, and may come
-- between the passes of pump too; it is on, so inlineFetch is off. pump keeps the source's bound
-- of 100,000 passes as its recursion, of which it uses two at most; a wait's loop has as many
-- ticks of 100 ms as its delay has milliseconds; the digits of a number have one more than the
-- number.
--
-- Not modelled: the websocket, TLS and HTTP (a connection is established or not, and its messages
-- and its end are given), RapidJSON, logging and statistics, signals, the health rows, the kdb+ C
-- library, and the q processes apart from TP's handler sessions. A configuration that fails to
-- load gives an error and no partly filled object, since its callers give it up. The handlers
-- hand their rows to an outbox, numbered from 1 without a hole; what becomes of rows so numbered
-- is stated for the publisher and TP.
pub mod Base
pub mod Market
pub mod Json
pub mod Tickerplant
pub mod Rest
pub mod Reconnect
pub mod Config
pub mod Book
pub mod Scheduler
pub mod Gap
pub mod Publisher
pub mod Backfill
pub mod Clock
pub mod Rows
pub mod Worker
pub mod Quotes
pub mod Trades
