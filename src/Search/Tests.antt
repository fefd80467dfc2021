-- ===== src/Search/Tests.antt =====
-- A search that finds one manual link.
use libarr.Decision.{best_of, fill_score, is_eligible, max_by_score}
use libarr.Quality.{format_score}
use libarr.Watch.{watch_items}
use libarr.Prelude.{ℕ, codes, ◌≡◌, refl, true, false, some, [], ◌∷◌, get_row, ok, err}
use libarr.Prelude.{upper_ascii}
use libarr.Python.{ascii}
use libarr.Models.{QueueItem, Session}
use libarr.Samples.{
  empty_session, sample_book, sample_item, sample_client, sample_release, sample_indexer,
}
use libarr.Notify.{Settings}
use libarr.Clients.{Adapters}
use libarr.Indexers.Registry.{indexer_error, IndexerAdapters}
use libarr.Queue.Guids.{IsTable}
use libarr.Import.Samples.{disk}
use libarr.Import.Disk.{Files}
use libarr.Import.{default_import_hook}
use libarr.Watch.{Cycle, item_id, process_queue}
use libarr.Search.{SearchResult, search_now}
use libarr.Search.Queued.{IsOneMore, search_now-IsOneMore}
use libarr.Search.Bookmark.{IsWinner, IsBookmark, search_now-IsBookmark}

abbrev sources : IndexerAdapters ℕ
sources = record {
  search = λ row query w. (ok (sample_release (codes "Dune") true ∷ []), w);
  recent = λ row limit w. (err (indexer_error (codes "no feed")), w);
}

abbrev before : Session
before = record empty_session {
  books = sample_book 4 (codes "Dune") ∷ [];
  indexers = sample_indexer 1 (codes "annasarchive") ∷ [];
  queue = sample_item 1 true ∷ [];
  clients = sample_client 1 (codes "deluge") true ∷ [];
}

before-IsTable : IsTable before.queue
before-IsTable = ((tt, tt), (tt, tt))

abbrev silent : Settings
silent = record {
  apprise_urls = [];
  library_dir = codes "lib";
  import_template = codes "{Book Title}.{Extension}";
  import_mode = codes "copy";
  conversion_out_dir = [];
}

-- A file system that has nothing.
abbrev nothing : Files ℕ
nothing = record disk { rglob = λ p w. []; is_file = λ p w. false; is_dir = λ p w. false }

abbrev result : SearchResult × Session × ℕ
result =
    search_now ascii 0 silent nothing.send false sources before (sample_book 4 (codes "Dune")) 0

abbrev idle_clients : Adapters ℕ
idle_clients = record { add_url = λ row url w. (ok url, w); list_items = λ row w. (ok [], w) }

search_now-IsOneMore_example :
    IsTable result.1.queue × IsOneMore ascii (sample_book 4 (codes "Dune")) before result.0 result.1
search_now-IsOneMore_example =
    search_now-IsOneMore ascii 0 silent nothing.send false sources before
      (sample_book 4 (codes "Dune")) 0 before-IsTable

queued_manual : (result.0.queued ≡ true) × (result.0.manual ≡ true)
unfolding search_now best_of is_eligible format_score upper_ascii max_by_score fill_score
queued_manual = (refl, refl)

abbrev after : Cycle ℕ
after = record {
  session = result.1;
  world = 0;
  stats = record { grabbed = 0; completed = 0; failures = 0 };
}

cycled :
    process_queue idle_clients (some (default_import_hook ascii nothing silent)) result.1 0
    ≡ ok after
unfolding search_now process_queue best_of is_eligible format_score upper_ascii max_by_score
    fill_score watch_items
cycled = refl

search_now-IsBookmark_example :
    (q : QueueItem) × IsWinner before
      (search_now ascii 0 silent nothing.send false sources before
        (sample_book 4 (codes "Dune"))
        0).0
      (search_now ascii 0 silent nothing.send false sources before
        (sample_book 4 (codes "Dune"))
        0).1
      q
    × (get_row item_id q.id after.session.queue ≡ some q)
    × IsBookmark (sample_book 4 (codes "Dune")) q
search_now-IsBookmark_example =
    search_now-IsBookmark ascii (sample_book 4 (codes "Dune")) 0 silent nothing false sources
      idle_clients before 0 0 after before-IsTable queued_manual.0 queued_manual.1 cycled
