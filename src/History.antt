-- ===== src/History.antt =====
-- src/libarr/history.py: the event log.
use libarr.Prelude.{ℕ, Text, Option, [], ◌∷◌, ◌++◌, next_id}
use libarr.Models.{EventKind, HistoryEvent, Session}

abbrev pub event_id : HistoryEvent → ℕ
event_id e = e.id

-- `record(session, kind=…, title=…, book_id=…, details=…)`
unfoldable pub record_event : EventKind → Text → Option ℕ → Option Text → Session → Session
record_event kind title book_id details s = record s {
  history =
      s.history
      ++ record {
        id = next_id event_id s.history;
        book_id = book_id;
        kind = kind;
        title = title;
        details = details;
      }
        ∷ [];
}
