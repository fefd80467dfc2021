-- ===== src/Rss/Tests.antt =====
-- A poll of one feed.
use libarr.Prelude.{ℕ, Text, codes, ◌≡◌, refl, true, false, List, [], ◌∷◌, map, ok, err}
use libarr.Python.{ascii}
use libarr.Models.{Session}
use libarr.Samples.{empty_session, sample_book, sample_item, sample_release, sample_indexer}
use libarr.Indexers.Registry.{IndexerAdapters, unexpected}
use libarr.Queue.Guids.{IsTable}
use libarr.Relations.{book_id}
use libarr.Rss.{rss_sync, failed}
use libarr.Rss.Added.{IsGrown, rss_sync-IsGrown}

abbrev feeds : IndexerAdapters ℕ
feeds = record {
  search = λ row query w. (ok (sample_release (codes "Dune") true ∷ []), w);
  recent = λ row limit w.
      (ok (sample_release (codes "Dune") false ∷ sample_release (codes "Dune") false ∷ []), w);
}

abbrev before : Session
before = record empty_session {
  books = sample_book 4 (codes "Dune") ∷ [];
  indexers = sample_indexer 1 (codes "gutenberg") ∷ sample_indexer 2 (codes "rss") ∷ [];
  queue = sample_item 1 false ∷ [];
}

abbrev all_books : List Text → Session → List ℕ
all_books tokens s = map book_id s.books

before-IsTable : IsTable before.queue
before-IsTable = ((tt, tt), (tt, tt))

-- The second of the two releases is a duplicate, and a row of an unknown kind is an error.
polled : (rss_sync ascii all_books feeds before 0).1 ≡ ok ((codes "i", failed) ∷ [])
unfolding rss_sync
polled = refl

-- An answer that is no JSON is not caught in the loop.
abbrev broken : IndexerAdapters ℕ
broken = record feeds { recent = λ row limit w. (err (unexpected (codes "no JSON")), w) }

raised : rss_sync ascii all_books broken before 0 ≡ (before, err (codes "no JSON"), 0)
unfolding rss_sync
raised = refl

rss_sync-IsGrown_example : IsGrown before (rss_sync ascii all_books feeds before 0).0
rss_sync-IsGrown_example = rss_sync-IsGrown ascii all_books feeds before 0 before-IsTable
