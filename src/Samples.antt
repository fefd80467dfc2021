-- ===== src/Samples.antt =====
-- Small databases for the tests.
use libarr.Prelude.{ℕ, Text, codes, Bool, true, none, some, []}
use libarr.Indexers.{Release}
use libarr.Models.{Indexer, Author, Session, Book, QueueItem, DownloadClientRow, queued, User}

abbrev pub empty_session : Session
empty_session = record {
  authors = [];
  series = [];
  books = [];
  editions = [];
  files = [];
  subjects = [];
  indexers = [];
  clients = [];
  queue = [];
  history = [];
  discovery_lists = [];
  jobs = [];
  koreader = [];
  shelves = [];
  shelf_books = [];
  users = [];
  progress = [];
  cache = [];
}

abbrev pub sample_book : ℕ → Text → Book
sample_book id title = record {
  id = id;
  author_id = none;
  title = title;
  subtitle = none;
  series_id = none;
  series_position = none;
  work_key = none;
  language = none;
  description = none;
  page_count = none;
  year = none;
  cover_path = none;
  monitored = true;
  path = none;
  metadata_json = none;
}

abbrev pub sample_item : ℕ → Bool → QueueItem
sample_item id manual = record {
  id = id;
  book_id = 1;
  release_guid = codes "g";
  title = codes "Dune";
  indexer_name = codes "i";
  download_url = some (codes "u");
  format = none;
  size_bytes = none;
  client_name = none;
  client_download_id = none;
  manual = manual;
  status = queued;
  error = none;
}

abbrev pub sample_client : ℕ → Text → Bool → DownloadClientRow
sample_client id kind enabled = record {
  id = id;
  name = codes "c";
  kind = kind;
  url = none;
  username = none;
  password = none;
  api_key = none;
  enabled = enabled;
  priority = 100;
  remote_path = none;
  local_path = none;
}

abbrev pub sample_user : ℕ → Text → Text → User
sample_user id username role = record {
  id = id;
  username = username;
  password_hash = codes "h";
  api_key = none;
  notify_events = [];
  oidc_sub = none;
  role = role;
}

abbrev pub sample_author : ℕ → Text → Author
sample_author id name = record {
  id = id;
  name = name;
  sort_name = none;
  slug = none;
  biography = none;
  ol_key = none;
  cover_path = none;
  metadata_json = none;
  monitored = true;
}

abbrev pub sample_release : Text → Bool → Release
sample_release title manual = record {
  title = title;
  indexer_name = codes "i";
  download_url = codes "http://x";
  guid = title;
  author = none;
  year = none;
  isbn = none;
  format = some (codes "EPUB");
  size_bytes = none;
  seeders = none;
  peers = none;
  published_at = none;
  page_url = none;
  subjects = [];
  manual = manual;
}

abbrev pub sample_indexer : ℕ → Text → Indexer
sample_indexer id kind = record {
  id = id;
  name = codes "i";
  kind = kind;
  url = none;
  api_key = none;
  categories = [];
  priority = 1;
  enabled = true;
  rss_enabled = true;
}
