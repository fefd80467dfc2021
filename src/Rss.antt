-- ===== src/Rss.antt =====
-- src/libarr/tasks/rss.py: the releases that the feeds offer for monitored books are queued.
pub mod Added
mod Tests
use libarr.Prelude.{
  ℕ, ◌+◌, Text, codes, text_eq, Bool, false, ◌&&◌, ◌||◌, Option, none, some, List, [], ◌∷◌, ◌++◌,
  select, Result, ok, err, if◌then◌else◌, ◌==◌, ltb,
}
use libarr.Prelude.{sort_by, text_lt}
use libarr.Python.{Unicode}
use libarr.Models.{Book, Indexer, QueueItem, Session, EventKind}
use libarr.History.{record_event}
use libarr.Indexers.{Release}
use libarr.Indexers.Registry.{
  Fault, indexer_error, unexpected, IndexerAdapters, IndexerClient, build_indexer,
}
use libarr.Queue.{find_guid, new_item, add_item}
use libarr.Wanted.{match_release}

-- The value that the statistics hold for an indexer.
pub data IndexerStat : Type 0 where
  counted : ℕ → IndexerStat
  failed : IndexerStat

-- `stats[name] = value`
unfoldable pub put_stat : Text → IndexerStat → List (Text × IndexerStat) → List (Text × IndexerStat)
put_stat name stat [] = (name, stat) ∷ []
put_stat name stat ((n, v) ∷ more) =
    let rest = put_stat name stat more in
    if text_eq n name then (name, stat) ∷ more else (n, v) ∷ rest

-- `order_by(Indexer.priority, Indexer.name)`
abbrev pub row_lt : Indexer → Indexer → Bool
row_lt a b = ltb a.priority b.priority || (a.priority == b.priority && text_lt a.name b.name)

unfoldable pub rss_indexers : Session → List Indexer
unfolding sort_by text_lt
rss_indexers s = sort_by row_lt (select (λ r. r.enabled && r.rss_enabled) s.indexers)

module _ (u : Unicode) (fts : List Text → Session → List ℕ) where
  -- A release of a book, with the item that has its guid.
  unfoldable pub queue_release :
      Indexer → Release → Book → Option QueueItem → Session × ℕ → Session × ℕ
  unfolding record_event
  queue_release row release book (some duplicate) (s, n) = (s, n)
  queue_release row release book none (s, n) = (
    record_event EventKind.grab release.title (some book.id)
        (some (codes "queued from " ++ row.name))
        (add_item (new_item book.id release row.name release.format false s) s),
    n + 1,
  )

  unfoldable pub matched_release : Indexer → Release → Option Book → Session × ℕ → Session × ℕ
  unfolding queue_release find_guid
  matched_release row release none (s, n) = (s, n)
  matched_release row release (some book) (s, n) =
      queue_release row release book (find_guid release.guid s) (s, n)

  unfoldable pub rss_releases : Indexer → List Release → Session × ℕ → Session × ℕ
  unfolding matched_release match_release
  rss_releases row [] (s, n) = (s, n)
  rss_releases row (release ∷ more) (s, n) =
      rss_releases row more (matched_release row release (match_release u fts s release) (s, n))

  -- The rows, the statistics or the exception, the remote programs.
  abbrev pub Sync : Type 0 → Type 0
  Sync W = Session × Result Text (List (Text × IndexerStat)) × W

  -- With the answer to the poll; what is no `IndexerError` is not caught here.
  unfoldable pub rss_answer :
      {W : Type 0}
      → Indexer
      → Result Fault (List Release) × W
      → Session
      → List (Text × IndexerStat)
      → Sync W
  unfolding rss_releases put_stat
  rss_answer row (err (indexer_error m), w) s stats = (s, ok (put_stat row.name failed stats), w)
  rss_answer row (err (unexpected m), w) s stats = (s, err m, w)
  rss_answer row (ok releases, w) s stats =
      let (s', n) = rss_releases row releases (s, 0) in
      (s', ok (put_stat row.name (counted n) stats), w)

  -- The body of the loop; an exception ends it.
  unfoldable pub rss_built :
      {W : Type 0} → Indexer → Result Text (IndexerClient W) → Sync W → Sync W
  unfolding rss_answer put_stat
  rss_built row built (s, err e, w) = (s, err e, w)
  rss_built row (err m) (s, ok stats, w) = (s, ok (put_stat row.name failed stats), w)
  rss_built row (ok client) (s, ok stats, w) = rss_answer row (client.recent 50 w) s stats

  unfoldable pub rss_rows : {W : Type 0} → IndexerAdapters W → List Indexer → Sync W → Sync W
  unfolding rss_built build_indexer
  rss_rows adapters [] state = state
  rss_rows adapters (row ∷ rows) state =
      rss_rows adapters rows (rss_built row (build_indexer adapters row) state)

  unfoldable pub rss_sync : {W : Type 0} → IndexerAdapters W → Session → W → Sync W
  unfolding rss_rows rss_indexers
  rss_sync adapters s w = rss_rows adapters (rss_indexers s) (s, ok [], w)
