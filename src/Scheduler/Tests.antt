-- ===== src/Scheduler/Tests.antt =====
-- A monitoring cycle with every service at hand.
use libarr.Prelude.{ℕ, ◌+◌, codes, ◌≡◌, refl, true, false, some, [], ◌∷◌, ◌++◌, get_row, ok, err}
use libarr.Python.{ascii}
use libarr.Models.{Session}
use libarr.Import.Samples.{disk, settings}
use libarr.Samples.{
  empty_session, sample_book, sample_item, sample_client, sample_indexer, sample_release,
}
use libarr.Queue.Guids.{IsTable}
use libarr.Watch.{item_id}
use libarr.Scheduler.{Services, run_cycles}
use libarr.Scheduler.Idle.{run_cycles-idle}

abbrev services : Services ℕ
services = record {
  unicode = ascii;
  settings = settings;
  now = 5;
  fts = λ tokens s. [];
  indexers = record {
    search = λ row query w. (ok [], w);
    recent = λ row limit w. (ok (sample_release (codes "Dune") false ∷ []), w);
  };
  clients = record {
    add_url = λ row url w. (ok url, w + 1);
    list_items = λ row w. (err (codes "offline"), w);
  };
  files = disk;
  providers = record {
    search_subject = λ genre low high language limit w. (ok [], w);
    search = λ q w. (ok (sample_release (codes "Emma") false ∷ []), w);
    google = λ q cache w. (ok [], cache, w);
  };
  loads = λ t. some (err (codes "TypeError"));
  host = record {
    is_file = λ p w. true;
    size = λ p w. ok 1;
    mkdir = λ p w. (some (codes "disk full"), w);
    stem = λ p. p;
    join_path = λ p q. p ++ q;
    run = λ command w. (err (codes "no converter"), w);
  };
}

-- A feed offers the monitored book, a client is enabled, and the bookmark stays.
abbrev before : Session
before = record empty_session {
  books = sample_book 4 (codes "Dune") ∷ [];
  indexers = sample_indexer 1 (codes "gutenberg") ∷ [];
  clients = sample_client 1 (codes "deluge") true ∷ [];
  queue = sample_item 1 true ∷ [];
}

before-IsTable : IsTable before.queue
before-IsTable = ((tt, tt), (tt, tt))

run_cycles-idle_example :
    get_row item_id 1 (run_cycles services before 0).1.queue ≡ some (sample_item 1 true)
run_cycles-idle_example =
    run_cycles-idle services 1 (sample_item 1 true) (refl, refl) before 0 before-IsTable
      (unfold get_row in refl)
