-- ===== src/Rss/Added.antt =====
-- src/libarr/tasks/rss.py: the queue after a poll of the feeds.
use libarr.Prelude.{
  All-append, ℕ, Text, ◌≡◌, refl, sym, ap, subst, ◌∙◌, true, false, Option, none, some, List, [],
  ◌∷◌, ◌++◌, Result, ok, err, All, append-nil, append_assoc,
}
use libarr.Prelude.{IsIn}
use libarr.Python.{Unicode}
use libarr.Models.{Book, Indexer, QueueItem, Session, queued}
use libarr.History.{record_event}
use libarr.Indexers.{Release}
use libarr.Indexers.Registry.{
  Fault, indexer_error, unexpected, IndexerAdapters, IndexerClient, build_indexer,
}
use libarr.Queue.{find_guid, new_item}
use libarr.Queue.Guids.{IsTable, append-IsTable}
use libarr.Wanted.{match_release}
use libarr.Wanted.Release.{match_release-IsWorthwhile}
use libarr.Rss.{
  IndexerStat, queue_release, matched_release, rss_releases, rss_answer, rss_built, rss_rows,
  rss_indexers, rss_sync, Sync,
}

-- A queued item for a monitored book, which a client may take.
abbrev pub IsQueuedFor : List Book → QueueItem → Type 0
IsQueuedFor books r =
    (r.status ≡ queued)
    × (r.manual ≡ false)
    × (b : Book) × IsIn b books
    × (b.monitored ≡ true)
    × (r.book_id ≡ b.id)

-- The queue later: the same items, then new ones for monitored books.
abbrev pub IsExtended : Session → Session → Type 0
IsExtended s s' =
    (s'.books ≡ s.books)
    × (new : List QueueItem) × (s'.queue ≡ s.queue ++ new)
    × All (IsQueuedFor s.books) new

abbrev pub IsGrown : Session → Session → Type 0
IsGrown s s' = IsTable s'.queue × IsExtended s s'

IsExtended-refl : (s : Session) → IsExtended s s
IsExtended-refl s = (refl, [], sym (append-nil s.queue), tt)

IsExtended-trans : (a b c : Session) → IsExtended a b → IsExtended b c → IsExtended a c
IsExtended-trans a b c (books, new, e, all_) (books', new', e', all_') = (
  books' ∙ books,
  new ++ new',
  e' ∙ (ap (λ q. q ++ new') e ∙ append_assoc a.queue new new'),
  All-append (IsQueuedFor a.books) new new' all_
      (subst (λ bs. All (IsQueuedFor bs) new') books all_'),
)

IsGrown-trans : (a b c : Session) → IsGrown a b → IsGrown b c → IsGrown a c
IsGrown-trans a b c first rest = (rest.0, IsExtended-trans a b c first.1 rest.1)

module _ (u : Unicode) (fts : List Text → Session → List ℕ) where
  queue_release-IsGrown :
      (row : Indexer) (release : Release) (b : Book) (found : Option QueueItem) (s : Session)
      (n : ℕ)
      → IsTable s.queue
      → find_guid release.guid s ≡ found
      → IsIn b s.books
      → b.monitored ≡ true
      → IsGrown s (queue_release u fts row release b found (s, n)).0
  unfolding queue_release record_event
  queue_release-IsGrown row release b (some r) s n table e here wanted = (table, IsExtended-refl s)
  queue_release-IsGrown row release b none s n table e here wanted = (
    append-IsTable s (new_item b.id release row.name release.format false s) table refl e,
    (
      refl,
      new_item b.id release row.name release.format false s ∷ [],
      refl,
      ((refl, refl, b, here, wanted, refl), tt),
    ),
  )

  matched_release-IsGrown :
      (row : Indexer) (release : Release) (found : Option Book) (s : Session) (n : ℕ)
      → IsTable s.queue
      → match_release u fts s release ≡ found
      → IsGrown s (matched_release u fts row release found (s, n)).0
  unfolding matched_release
  matched_release-IsGrown row release none s n table e = (table, IsExtended-refl s)
  matched_release-IsGrown row release (some b) s n table e =
      let matched = match_release-IsWorthwhile u fts s release b e in
      queue_release-IsGrown row release b (find_guid release.guid s) s n table refl matched.2.0
        matched.0

  rss_releases-IsGrown :
      (row : Indexer) (releases : List Release) (s : Session) (n : ℕ)
      → IsTable s.queue
      → IsGrown s (rss_releases u fts row releases (s, n)).0
  unfolding rss_releases
  rss_releases-IsGrown row [] s n table = (table, IsExtended-refl s)
  rss_releases-IsGrown row (release ∷ more) s n table =
      let later = matched_release u fts row release (match_release u fts s release) (s, n) in
      let first =
        matched_release-IsGrown row release (match_release u fts s release) s n table refl in
      IsGrown-trans s later.0 (rss_releases u fts row more later).0 first
        (rss_releases-IsGrown row more later.0 later.1 first.0)

  module _ {W : Type 0} where
    rss_answer-IsGrown :
        (row : Indexer) (answer : Result Fault (List Release) × W) (s : Session)
        (stats : List (Text × IndexerStat))
        → IsTable s.queue
        → IsGrown s (rss_answer u fts row answer s stats).0
    unfolding rss_answer
    rss_answer-IsGrown row (err (indexer_error m), w) s stats table = (table, IsExtended-refl s)
    rss_answer-IsGrown row (err (unexpected m), w) s stats table = (table, IsExtended-refl s)
    rss_answer-IsGrown row (ok releases, w) s stats table =
        rss_releases-IsGrown row releases s 0 table

    rss_built-IsGrown :
        (row : Indexer) (built : Result Text (IndexerClient W)) (state : Sync u fts W)
        → IsTable state.0.queue
        → IsGrown state.0 (rss_built u fts row built state).0
    unfolding rss_built
    rss_built-IsGrown row built (s, err e, w) table = (table, IsExtended-refl s)
    rss_built-IsGrown row (err m) (s, ok stats, w) table = (table, IsExtended-refl s)
    rss_built-IsGrown row (ok client) (s, ok stats, w) table =
        rss_answer-IsGrown row (client.recent 50 w) s stats table

    module _ (adapters : IndexerAdapters W) where
      rss_rows-IsGrown :
          (rows : List Indexer) (state : Sync u fts W)
          → IsTable state.0.queue
          → IsGrown state.0 (rss_rows u fts adapters rows state).0
      unfolding rss_rows
      rss_rows-IsGrown [] state table = (table, IsExtended-refl state.0)
      rss_rows-IsGrown (row ∷ rows) state table =
          let later = rss_built u fts row (build_indexer adapters row) state in
          let first = rss_built-IsGrown row (build_indexer adapters row) state table in
          IsGrown-trans state.0 later.0 (rss_rows u fts adapters rows later).0 first
            (rss_rows-IsGrown rows later first.0)

      -- Where the queue has one item for each id and for each release, it has after a poll, also one
      -- that raises: the old items stay first and as they were, and every new one is queued for a
      -- monitored book.
      pub rss_sync-IsGrown :
          (s : Session) (w : W) → IsTable s.queue → IsGrown s (rss_sync u fts adapters s w).0
      unfolding rss_sync
      rss_sync-IsGrown s w table = rss_rows-IsGrown (rss_indexers s) (s, ok [], w) table
