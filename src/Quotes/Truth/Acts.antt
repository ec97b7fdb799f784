-- ===== src/Quotes/Truth/Acts.antt =====
-- cpp/src/quote_feed_handler.cpp: every row that the handler publishes is true, over every sequence of what
-- it does.
use t2s.Base.{
  Option, none, some, ℕ, ◌+◌, ◌<◌, ◌≡◌, refl, sym, true, String, List, [], ◌∷◌, length, All,
  if_cases, if◌then◌else◌,
}
use mathlib.Core.Path.{subst}
use t2s.Book.Types.{BookConfig, BufferedDelta}
use t2s.Book.Apply.Exact.{History, IsFaithful, IsDepthReply}
use t2s.Book.Publish.{get_quote}
use t2s.Book.Manager.{get_symbol_index, get_timeout_publish_needed}
use t2s.Worker.{drain_results}
use t2s.Worker.Each.{work-HoldEach, drain_results-HoldEach}
use t2s.Quotes.{
  QuoteHandler, cell_of, name_of, publish_next, expire_requests, apply_snapshot_results, heartbeats,
  check_publish_timeouts,
}
use t2s.Json.{Json, Strtod}
use t2s.Clock.{note_event}
use t2s.Quotes.Message.{read_delta, process_delta, process_message, count_failure}
use t2s.Quotes.Acts.{Act, message, results, timeouts, connection, works, act, acts}
use t2s.Quotes.Truth.{history, IsTrueReply, IsNamed, IsTrue, publish_next-IsTrue, quote-IsTrue}
use t2s.Quotes.Truth.Deltas.{handle_delta-IsTrue}
use t2s.Quotes.Truth.Snapshots.{expire_requests-IsTrue, take_results-IsTrue}
use t2s.Quotes.Truth.Connections.{begin_connection-IsTrue}

-- The exchange's part: what is read of a message is a faithful event of its symbol's stream, and a
-- snapshot that the worker fetches is a reply of the symbol's depth endpoint.
abbrev pub IsHonest : (String → History) → BookConfig → (String → Strtod) → Act → Type 0
IsHonest truth cfg strtod (message (some doc) recv now draw) =
    (name : String) (d : BufferedDelta)
    → read_delta strtod cfg.sync doc ≡ some (name, d)
    → IsFaithful cfg.sync (truth name) d
IsHonest truth cfg strtod (works fetch) =
    (name : String)
    → (fetch name).success ≡ true
    → IsDepthReply cfg (truth name) (fetch name).last_update_id (fetch name).bids (fetch name).asks
IsHonest truth cfg strtod _ = Unit

module _ (truth : String → History) (cfg : BookConfig) (names : List String)
    (pos : 0 < cfg.snapshot_limit) (cap : 0 < cfg.max_levels) where
  abbrev Holds : QuoteHandler → Type 0
  Holds = IsTrue truth cfg names

  abbrev told_by : ℕ → History
  told_by = history truth cfg names

  heartbeats-IsTrue :
      (is_ : List ℕ) (recv now : ℕ) (h : QuoteHandler) → Holds h → Holds (heartbeats is_ recv now h)
  unfolding heartbeats
  heartbeats-IsTrue [] recv now h t = t
  heartbeats-IsTrue (i ∷ is_) recv now h t =
      let quote =
        get_quote h.book_mgr.cfg (name_of i h) (cell_of i h).slot recv (h.fh_seq_no + 1) in
      let sent = publish_next i now quote h in
      let good = quote-IsTrue truth cfg names pos cap i recv (h.fh_seq_no + 1) h t in
      heartbeats-IsTrue is_ recv now (if quote.is_valid then sent else h) (
        if_cases Holds quote.is_valid sent h
          (λ e. publish_next-IsTrue truth cfg names pos cap i now quote h good t) (λ e. t))

  module _ (strtod : String → Strtod) where
    process_delta-IsTrue :
        (name : String) (o : Option ℕ) (d : BufferedDelta) (recv now draw : ℕ) (h : QuoteHandler)
        → get_symbol_index name h.book_mgr ≡ o
        → IsFaithful cfg.sync (truth name) d
        → Holds h
        → Holds (process_delta o d recv now draw h)
    unfolding process_delta get_symbol_index
    process_delta-IsTrue name none d recv now draw h e f t = t
    process_delta-IsTrue name (some i) d recv now draw h e f t =
        handle_delta-IsTrue truth cfg names pos cap i d recv now draw
          (record h { row_clock = note_event d.event_time_ms h.row_clock })
          (subst (λ n. IsFaithful cfg.sync (truth n) d) (sym (t.indexed name i e)) f) t

    process_message-IsTrue :
        (doc : Option Json) (recv now draw : ℕ) (h : QuoteHandler)
        → IsHonest truth cfg strtod (message doc recv now draw)
        → Holds h
        → Holds (process_message strtod doc recv now draw h)
    unfolding process_message
    process_message-IsTrue none recv now draw h f t = t
    process_message-IsTrue (some doc) recv now draw h f t =
        go (read_delta strtod h.book_mgr.cfg.sync doc) (
          subst
            (λ (k : BookConfig).
              (name : String) (d : BufferedDelta)
              → read_delta strtod k.sync doc ≡ some (name, d)
              → IsFaithful cfg.sync (truth name) d)
            (sym t.cfg_is) f)
      where
        go :
            (o : Option (String × BufferedDelta))
            → ((name : String) (d : BufferedDelta)
                → o ≡ some (name, d)
                → IsFaithful cfg.sync (truth name) d)
            → Holds (elim o as (λ _. QuoteHandler) [
              | none ↦ count_failure h
              | some (name, delta) ↦
                  process_delta (get_symbol_index name h.book_mgr) delta recv now draw h
            ])
        go none f = t
        go (some (name, delta)) f =
            process_delta-IsTrue name (get_symbol_index name h.book_mgr) delta recv now draw h refl
              (f name delta refl) t

    act-IsTrue :
        (a : Act) (h : QuoteHandler)
        → IsHonest truth cfg strtod a
        → Holds h
        → Holds (act strtod a h)
    unfolding act apply_snapshot_results check_publish_timeouts
    act-IsTrue (message doc recv now draw) h f t = process_message-IsTrue doc recv now draw h f t
    act-IsTrue (results now expired answered) h0 f t0 =
        let h = expire_requests 0 (length h0.snapshot_requested_at_ms) now expired h0 in
        let t =
          expire_requests-IsTrue truth cfg names pos cap 0 (length h0.snapshot_requested_at_ms) now
            expired h0 t0 in
        let drained = drain_results h.worker in
        let each =
          drain_results-HoldEach (IsNamed truth cfg names) (IsTrueReply truth cfg names) h.worker
            t.waiting in
        take_results-IsTrue truth cfg names pos cap drained.1 now answered
          (record h { worker = drained.0 }) each.1
          (record {
            cfg_is = t.cfg_is;
            names_are = t.names_are;
            indexed = t.indexed;
            coherent = t.coherent;
            true_rows = t.true_rows;
            waiting = each.0;
          })
    act-IsTrue (timeouts recv now) h f t =
        heartbeats-IsTrue (get_timeout_publish_needed now h.book_mgr) recv now h t
    act-IsTrue (connection on recv now) h f t =
        begin_connection-IsTrue truth cfg names pos cap on recv now h t
    act-IsTrue (works fetch) h f t = record {
      cfg_is = t.cfg_is;
      names_are = t.names_are;
      indexed = t.indexed;
      coherent = t.coherent;
      true_rows = t.true_rows;
      waiting =
          work-HoldEach (IsNamed truth cfg names) (IsTrueReply truth cfg names) fetch h.worker
            (λ r named ok.
              subst
                (λ n.
                  IsDepthReply cfg (truth n) (fetch r.sym).last_update_id (fetch r.sym).bids
                    (fetch r.sym).asks)
                named (f r.sym ok))
            t.waiting;
    }

    -- From a handler whose books and rows are true, with a snapshot limit and a cap on levels above 0, over
    -- any sequence of events of the exchange's streams, snapshots of its depth endpoint whenever they come
    -- back, heartbeats and new connections: every valid row that the handler has published shows the best
    -- levels that the exchange had for the row's symbol at the update id that the row carries, every
    -- symbol's book is coherent, and whatever waits at the worker belongs to its symbol.
    pub acts-IsTrue :
        (as_ : List Act) (h : QuoteHandler)
        → All (IsHonest truth cfg strtod) as_
        → Holds h
        → Holds (acts strtod as_ h)
    unfolding acts
    acts-IsTrue [] h f t = t
    acts-IsTrue (a ∷ as_) h f t = acts-IsTrue as_ (act strtod a h) f.1 (act-IsTrue a h f.0 t)
