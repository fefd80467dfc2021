-- ===== src/Queue.antt =====
-- The queue that src/libarr/tasks/rss.py and src/libarr/tasks/search.py add items to.
pub mod Guids
use libarr.Prelude.{ℕ, Text, text_eq, Bool, Option, none, some, [], ◌∷◌, ◌++◌, next_id, find}
use libarr.Models.{QueueItem, Session, queued}
use libarr.Indexers.{Release}
use libarr.Watch.{item_id}

-- `select(QueueItem).where(QueueItem.release_guid == guid)`, its first row.
unfoldable pub find_guid : Text → Session → Option QueueItem
find_guid guid s = find (λ r. text_eq r.release_guid guid) s.queue

-- `QueueItem(…)`: the columns that are not given take their defaults.
abbrev pub new_item : ℕ → Release → Text → Option Text → Bool → Session → QueueItem
new_item book release indexer format manual s = record {
  id = next_id item_id s.queue;
  book_id = book;
  release_guid = release.guid;
  title = release.title;
  indexer_name = indexer;
  download_url = some release.download_url;
  format = format;
  size_bytes = release.size_bytes;
  client_name = none;
  client_download_id = none;
  manual = manual;
  status = queued;
  error = none;
}

-- `session.add(QueueItem(…))`
abbrev pub add_item : QueueItem → Session → Session
add_item r s = record s { queue = s.queue ++ r ∷ [] }
