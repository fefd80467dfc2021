-- ===== src/Search/Bookmark.antt =====
-- src/libarr/tasks/search.py and src/libarr/tasks/download_watch.py: a manual winner of a search, in
-- the download cycle after it.
use libarr.Prelude.{
  ℕ, ◌<◌, ◌≡◌, refl, sym, ap, subst, ◌∙◌, inl, inr, Bool, true, false, not, ◌&&◌, some, [], ◌∷◌,
  ◌++◌, arith, get_row, get_row-append_fresh, next_id-fresh, ok, All,
}
use libarr.Python.{Unicode}
use libarr.Models.{Book, QueueItem, Session, queued}
use libarr.Notify.{Settings}
use libarr.Clients.{Adapters}
use libarr.Indexers.Registry.{IndexerAdapters}
use libarr.Queue.Guids.{IsTable}
use libarr.Watch.{Cycle, item_id, process_queue, is_downloading, is_queued}
use libarr.Watch.Outcome.{process_queue-idle}
use libarr.Import.Disk.{Files}
use libarr.Import.{default_import_hook}
use libarr.Import.Laws.{default_import_hook-HookLaw}
use libarr.Search.{SearchResult, search_now}
use libarr.Search.Queued.{IsOneMore, search_now-IsOneMore}

-- A queued item that waits for its reader.
abbrev pub IsBookmark : Book → QueueItem → Type 0
IsBookmark book q = (q.book_id ≡ book.id) × (q.manual ≡ true) × (q.status ≡ queued)

-- The item that a search added to the queue, by the title it tells of.
abbrev pub IsWinner : Session → SearchResult → Session → QueueItem → Type 0
IsWinner s r s' q =
    (s'.queue ≡ s.queue ++ q ∷ []) × All (λ x. x.id < q.id) s.queue × (r.winner ≡ some q.title)

module _ (u : Unicode) (book : Book) where
  one_more-IsBookmark :
      (s s' : Session) (r : SearchResult)
      → IsOneMore u book s r s'
      → r.queued ≡ true
      → r.manual ≡ true
      → (q : QueueItem) × IsWinner s r s' q
        × (get_row item_id q.id s'.queue ≡ some q)
        × IsBookmark book q
  one_more-IsBookmark s s' r (inl h) yes_ manual = cc
  one_more-IsBookmark s s' r (inr (c, q, told, title, same, rows, (good, is))) yes_ manual = (
    q,
    (rows, fresh, title),
    ap (get_row item_id q.id) rows ∙ last,
    (ap (λ x. x.book_id) is, sym same ∙ manual, ap (λ x. x.status) is),
  )
    where
      fresh : All (λ x. x.id < q.id) s.queue
      fresh =
          subst (λ k. All (λ x. x.id < k) s.queue) (sym (ap (λ x. x.id) is))
            (next_id-fresh item_id s.queue)

      last : get_row item_id q.id (s.queue ++ q ∷ []) ≡ some q
      last = get_row-append_fresh item_id q.id s.queue q fresh refl

  module _ (now : ℕ) {W : Type 0} (settings : Settings) (fs : Files W) (tells : Bool) where
    -- Where the queue has one item for each id and for each release, and a search says that it queued
    -- a manual winner, the search added one item to the end of the queue, with a new id and the title
    -- of the winner, and after a cycle of the download watch, with the import hook, that follows the
    -- search and returns, that item is still there, with every column as the search wrote it: a
    -- queued manual item for the book.
    pub search_now-IsBookmark :
        (indexers : IndexerAdapters W) (clients : Adapters W) (s : Session) (w w' : W) (c : Cycle W)
        → IsTable s.queue
        → (search_now u now settings fs.send tells indexers s book w).0.queued ≡ true
        → (search_now u now settings fs.send tells indexers s book w).0.manual ≡ true
        → process_queue clients
            (some (default_import_hook u fs settings))
            (search_now u now settings fs.send tells indexers s book w).1
            w'
          ≡ ok c
        → (q : QueueItem) × IsWinner s
            (search_now u now settings fs.send tells indexers s book w).0
            (search_now u now settings fs.send tells indexers s book w).1
            q
          × (get_row item_id q.id c.session.queue ≡ some q)
          × IsBookmark book q
    search_now-IsBookmark indexers clients s w w' c table yes_ manual ran =
        let found = search_now u now settings fs.send tells indexers s book w in
        let (table', more) =
          search_now-IsOneMore u now settings fs.send tells indexers s book w table in
        let (q, added, here, mark) = one_more-IsBookmark s found.1 found.0 more yes_ manual in
        (
          q,
          added,
          process_queue-idle clients (some (default_import_hook u fs settings))
              (default_import_hook-HookLaw u fs settings) found.1 w' c ran table'.0 q.id q here
              (not_grabbed q mark.1) (not_downloading q mark.2),
          mark,
        )
      where
        not_grabbed :
            (q : QueueItem) → q.manual ≡ true → (is_queued q.status && not q.manual) ≡ false
        not_grabbed q e = ground arith

        not_downloading : (q : QueueItem) → q.status ≡ queued → is_downloading q.status ≡ false
        not_downloading q e = ap is_downloading e
