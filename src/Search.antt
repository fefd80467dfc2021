-- ===== src/Search.antt =====
-- src/libarr/tasks/search.py: every enabled indexer is searched for one book, and the best release is
-- queued.
--
-- The JSON of the notification settings is a parameter, with `none` for text that is no JSON.
pub mod Queued
pub mod Bookmark
mod Tests
use libarr.Prelude.{
  ℕ, Text, codes, is_empty, mem_text, Bool, true, false, Option, none, some, List, [], ◌∷◌, ◌++◌,
  select, Result, ok, err, if◌then◌else◌, or_else,
}
use libarr.Python.{Unicode, strip}
use libarr.Models.{Book, Indexer, QueueItem, Session, User, EventKind}
use libarr.History.{record_event}
use libarr.Notify.{Settings, notify}
use libarr.Indexers.{Release}
use libarr.Indexers.Registry.{IndexerAdapters, IndexerClient, build_indexer}
use libarr.Candidates.{Candidate, normalize_candidate}
use libarr.Decision.{pick_best}
use libarr.Quality.{default_profile}
use libarr.Relations.{author_of}
use libarr.Queue.{find_guid, new_item, add_item}

pub record SearchResult : Type 0 where
  pub queued : Bool
  pub winner : Option Text
  pub already_queued : Bool
  pub manual : Bool
  pub download_url : Option Text

-- `_user_wants_search_notifications`
unfoldable pub user_wants_search_notifications : (Text → Option (List Text)) → Option User → Bool
unfolding mem_text
user_wants_search_notifications loads none = true
user_wants_search_notifications loads (some user) =
    mem_text (codes "search")
      (or_else [] (loads (if is_empty user.notify_events then codes "[]" else user.notify_events)))

module _ (u : Unicode) (now : ℕ) where
  unfoldable pub search_query : Session → Book → Text
  unfolding strip
  search_query s book =
      strip u.is_space
        (book.title ++ 32 ∷ elim (author_of book s) [ none ↦ [] | some author ↦ author.name ])

  unfoldable pub candidates_of : Indexer → List Release → List Candidate
  unfolding normalize_candidate
  candidates_of row [] = []
  candidates_of row (release ∷ more) =
      let rest = candidates_of row more in
      elim (normalize_candidate u now release row.priority none) [ none ↦ rest | some c ↦ c ∷ rest ]

  module _ {W : Type 0} where
    unfoldable pub search_answer :
        Indexer → Result Text (List Release) × W → List Candidate → List Candidate × W
    unfolding candidates_of
    search_answer row (err m, w) found = (found, w)
    search_answer row (ok releases, w) found = (found ++ candidates_of row releases, w)

    unfoldable pub search_built :
        Indexer → Text → Result Text (IndexerClient W) → List Candidate × W → List Candidate × W
    unfolding search_answer
    search_built row query (err m) (found, w) = (found, w)
    search_built row query (ok client) (found, w) = search_answer row (client.search query w) found

    unfoldable pub search_rows :
        IndexerAdapters W → Text → List Indexer → List Candidate × W → List Candidate × W
    unfolding search_built build_indexer
    search_rows adapters query [] state = state
    search_rows adapters query (row ∷ rows) state =
        search_rows adapters query rows (search_built row query (build_indexer adapters row) state)

    module _ (settings : Settings) (send : List Text → Text → Text → W → Bool × W)
        (tells : Bool) where
      -- The notification, for a user who wants it.
      unfoldable pub tell : Text → W → W
      unfolding notify
      tell body w = if tells then (notify u settings send (codes "Search complete") body w).1 else w

      abbrev pub details_of : Candidate → Text
      details_of winner =
          codes "search-now from "
          ++ winner.release.indexer_name
          ++ (if winner.manual then codes " (manual download)" else [])

      -- The winner, with the item that has its guid.
      unfoldable pub queue_winner :
          Book → Candidate → Option QueueItem → Session → W → SearchResult × Session × W
      unfolding tell record_event
      queue_winner book winner (some duplicate) s w = (
        record {
          queued = false;
          winner = some winner.release.title;
          already_queued = true;
          manual = false;
          download_url = none;
        },
        s,
        tell (book.title ++ codes " is already queued") w,
      )
      queue_winner book winner none s w = (
        record {
          queued = true;
          winner = some winner.release.title;
          already_queued = false;
          manual = winner.manual;
          download_url = if winner.manual then some winner.release.download_url else none;
        },
        record_event EventKind.grab winner.release.title (some book.id) (some (details_of winner)) (
            add_item
              (new_item book.id winner.release winner.release.indexer_name winner.fmt winner.manual
                s)
              s),
        tell (codes "Queued: " ++ winner.release.title) w,
      )

      unfoldable pub queue_best : Book → Option Candidate → Session → W → SearchResult × Session × W
      unfolding tell queue_winner find_guid
      queue_best book none s w = (
        record {
          queued = false;
          winner = none;
          already_queued = false;
          manual = false;
          download_url = none;
        },
        s,
        tell (codes "No release found for " ++ book.title) w,
      )
      queue_best book (some winner) s w =
          queue_winner book winner (find_guid winner.release.guid s) s w

      unfoldable pub search_now :
          IndexerAdapters W → Session → Book → W → SearchResult × Session × W
      unfolding queue_best pick_best search_rows search_query
      search_now adapters s book w =
          let (candidates, w') =
            search_rows adapters (search_query s book) (select (λ r. r.enabled) s.indexers)
              ([], w) in
          queue_best book (pick_best u default_profile candidates) s w'
