-- ===== src/Queue/Guids.antt =====
-- The unique columns of the table `queue_items`, of src/libarr/models/__init__.py.
use libarr.Prelude.{
  ◌<◌, Text, ◌≡◌, sym, subst, none, List, [], ◌∷◌, ◌++◌, next_id, next_id-fresh, HasDistinctIds,
  All,
}
use libarr.Prelude.{HasDistinctKeys, append-HasDistinctKeys, append-HasDistinctIds}
use libarr.Models.{QueueItem, Session}
use libarr.Watch.{item_id}
use libarr.Queue.{find_guid}

abbrev pub guid_of : QueueItem → Text
guid_of r = r.release_guid

-- What the table `queue_items` asks of its rows: no two items have one id, or are of one release.
abbrev pub IsTable : List QueueItem → Type 0
IsTable rows = HasDistinctIds item_id rows × HasDistinctKeys guid_of rows

-- An item with the next id, of a release that was not found.
pub append-IsTable :
    (s : Session) (new : QueueItem)
    → IsTable s.queue
    → new.id ≡ next_id item_id s.queue
    → find_guid new.release_guid s ≡ none
    → IsTable (s.queue ++ new ∷ [])
unfolding find_guid
append-IsTable s new (ids, guids) same e = (
  append-HasDistinctIds item_id s.queue new ids
      (subst (λ k. All (λ r. r.id < k) s.queue) (sym same) (next_id-fresh item_id s.queue)),
  append-HasDistinctKeys guid_of s.queue new guids e,
)
