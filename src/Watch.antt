-- ===== src/Watch.antt =====
-- src/libarr/tasks/download_watch.py: one cycle over the queue, first the grab of queued items by
-- the first enabled client, then the watch of every enabled client for completed downloads.
--
-- An ORM object is the row with its id: an assignment to it is an update of that row, and a query
-- returns the ids of its rows, which are read again where the code reads the object.
pub mod Lifecycle
pub mod Grabbing
pub mod Hooks
pub mod Moves
pub mod Progress
pub mod Outcome
mod Tests
use libarr.Prelude.{
  ℕ, ◌+◌, Text, codes, text_eq, opt_eq, or_empty, is_empty, Bool, true, false, not, ◌&&◌, Option,
  none, some, List, [], ◌∷◌, ◌++◌, map, find, select, get_row, update_row, Result, ok, err,
  if◌then◌else◌, ◌>>=◌,
}
use mathlib.Core.List.{reverse}
use libarr.Models.{
  DownloadClientRow, QueueItem, Session, Status, queued, downloading, importing, imported, failed,
}
use libarr.Clients.{ClientItem, ClientStatus, DownloadClient, Adapters, build_client}

pub record Stats : Type 0 where
  pub grabbed : ℕ
  pub completed : ℕ
  pub failures : ℕ

-- What a cycle reads and writes: the database, the remote programs, the counters.
pub record Cycle (W : Type 0) : Type 0 where
  pub session : Session
  pub world : W
  pub stats : Stats

abbrev pub item_id : QueueItem → ℕ
item_id r = r.id

abbrev pub is_queued : Status → Bool
is_queued queued = true
is_queued _ = false

abbrev pub is_downloading : Status → Bool
is_downloading downloading = true
is_downloading _ = false

-- The import hook gets the id of the item, and returns the text of the exception that it raises.
abbrev pub Hook : Type 0 → Type 0
Hook W = ℕ → ClientItem → Session → W → Option Text × Session × W

abbrev pub to_failed : Text → QueueItem → QueueItem
to_failed message r = record r { status = failed; error = some message }

-- The selection of the grab phase: queued and not manual.
abbrev pub is_grabbable : QueueItem → Bool
is_grabbable r = is_queued r.status && not r.manual

-- `by_id.get(…)`: of two items with one id the dictionary holds the later.
unfoldable pub find_item : Text → List ClientItem → Option ClientItem
find_item id items = find (λ i. text_eq i.id id) (reverse items)

-- The selection of the watch phase: downloading, and grabbed by this client.
abbrev pub is_active : Text → QueueItem → Bool
is_active name r = is_downloading r.status && opt_eq r.client_name name

-- The enabled clients. The query has no `order_by`, so they come in the order of their ids.
abbrev pub enabled_rows : Session → List DownloadClientRow
enabled_rows s = select (λ r. r.enabled) s.clients

module _ {W : Type 0} where
  -- Assignments to the columns of a queue item.
  unfoldable pub set_item : ℕ → (QueueItem → QueueItem) → Cycle W → Cycle W
  set_item k f c = record c {
    session = record c.session { queue = update_row item_id k f c.session.queue };
  }

  unfoldable pub count_failed : Cycle W → Cycle W
  count_failed c = record c { stats = record c.stats { failures = c.stats.failures + 1 } }

  unfoldable pub count_completed : Cycle W → Cycle W
  count_completed c = record c { stats = record c.stats { completed = c.stats.completed + 1 } }

  -- The item and its client's answer to `add_url`.
  unfoldable pub grabbed : Text → QueueItem → Result Text Text × W → Cycle W → Cycle W
  unfolding set_item count_failed
  grabbed name item (ok download_id, w) c =
      set_item item.id
        (λ r. record r {
          client_download_id = some download_id;
          client_name = some name;
          status = downloading;
        })
        (record c { world = w; stats = record c.stats { grabbed = c.stats.grabbed + 1 } })
  grabbed name item (err message, w) c =
      count_failed (set_item item.id (to_failed message) (record c { world = w }))

  -- The body of the grab loop.
  unfoldable pub grab_item : DownloadClient W → QueueItem → Cycle W → Cycle W
  unfolding grabbed
  grab_item client item c =
      let url = or_empty item.download_url in
      if is_empty url
      then count_failed (set_item item.id (to_failed (codes "no download URL")) c)
      else grabbed client.name item (client.add_url url c.world) c

  unfoldable pub grab : DownloadClient W → List QueueItem → Cycle W → Cycle W
  grab client [] c = c
  grab client (item ∷ items) c = grab client items (grab_item client item c)

  -- What follows the hook.
  unfoldable pub after_hook : ℕ → Option Text × Session × W → Cycle W → Cycle W
  unfolding set_item count_failed count_completed
  after_hook k (none, s, w) c = count_completed (record c { session = s; world = w })
  after_hook k (some message, s, w) c = count_completed (
      count_failed (
        set_item k (to_failed (codes "import failed: " ++ message))
          (record c { session = s; world = w })))

  unfoldable pub complete_item : Option (Hook W) → ℕ → ClientItem → Cycle W → Cycle W
  unfolding set_item after_hook count_completed
  complete_item none k item c = count_completed (
      set_item k (λ r. record r { status = imported })
        (set_item k (λ r. record r { status = importing }) c))
  complete_item (some hook) k item c =
      let c' = set_item k (λ r. record r { status = importing }) c in
      after_hook k (hook k item c'.session c'.world) c'

  unfoldable pub watch_status : Option (Hook W) → ℕ → ClientItem → ClientStatus → Cycle W → Cycle W
  unfolding set_item count_failed complete_item
  watch_status hook k item ClientStatus.error c =
      count_failed (set_item k (to_failed (codes "download client reported an error")) c)
  watch_status hook k item ClientStatus.complete c = complete_item hook k item c
  watch_status hook k item _ c = c

  -- The body of the watch loop, for an item that the client shows or does not.
  unfoldable pub watch_found : Option (Hook W) → ℕ → Option ClientItem → Cycle W → Cycle W
  unfolding watch_status
  watch_found hook k none c = c
  watch_found hook k (some item) c = watch_status hook k item item.status c

  unfoldable pub watch_item : Option (Hook W) → List ClientItem → ℕ → Cycle W → Cycle W
  unfolding watch_found find_item
  watch_item hook items k c = elim (get_row item_id k c.session.queue) [
    | none ↦ c
    | some r ↦ watch_found hook k (find_item (or_empty r.client_download_id) items) c
  ]

  unfoldable pub watch_items : Option (Hook W) → List ClientItem → List ℕ → Cycle W → Cycle W
  watch_items hook items [] c = c
  watch_items hook items (k ∷ ks) c = watch_items hook items ks (watch_item hook items k c)

  unfoldable pub watch_client :
      Option (Hook W) → Text → Result Text (List ClientItem) × W → Cycle W → Cycle W
  watch_client hook name (err message, w) c = record c { world = w }
  watch_client hook name (ok items, w) c =
      watch_items hook items (map item_id (select (is_active name) c.session.queue))
        (record c { world = w })

  -- One client that cannot be built or that fails is passed over.
  unfoldable pub watch_built :
      Option (Hook W) → Text → Result Text (DownloadClient W) → Cycle W → Cycle W
  unfolding watch_client
  watch_built hook name (err message) c = c
  watch_built hook name (ok client) c = watch_client hook name (client.list_items c.world) c

  module _ (adapters : Adapters W) where
    unfoldable pub watch : Option (Hook W) → List DownloadClientRow → Cycle W → Cycle W
    unfolding watch_built build_client
    watch hook [] c = c
    watch hook (row ∷ rows) c =
        watch hook rows (watch_built hook row.name (build_client adapters row) c)

    abbrev pub start : Session → W → Cycle W
    start s w = record {
      session = s;
      world = w;
      stats = record { grabbed = 0; completed = 0; failures = 0 };
    }

    -- With enabled rows at hand. A first row of an unknown kind raises.
    unfoldable pub run_queue :
        Option (Hook W) → List DownloadClientRow → Session → W → Result Text (Cycle W)
    unfolding grab watch build_client
    run_queue hook [] s w = ok (start s w)
    run_queue hook (row ∷ rows) s w = do
      client ← build_client adapters row
      ok (watch hook (row ∷ rows) (grab client (select is_grabbable s.queue) (start s w)))

    unfoldable pub process_queue : Option (Hook W) → Session → W → Result Text (Cycle W)
    unfolding run_queue
    process_queue hook s w = run_queue hook (enabled_rows s) s w
