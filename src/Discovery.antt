-- ===== src/Discovery.antt =====
-- src/libarr/api/routes.py: the saved discovery lists, and the latest rows of the queue and of the
-- conversions.
pub mod Saved
mod Tests
use libarr.Prelude.{
  ℕ, Text, codes, Bool, not, Option, none, some, List, [], ◌∷◌, ◌++◌, get_row, delete_row, next_id,
  ok, err, take,
}
use mathlib.Core.List.{reverse}
use libarr.Models.{DiscoveryList, QueueItem, ConversionJob, Session}
use libarr.Http.{not_found, Reply}

abbrev pub list_id : DiscoveryList → ℕ
list_id row = row.id

-- `DiscoveryListIn`, with the query as the text of its JSON.
pub record DiscoveryListIn : Type 0 where
  pub name : Text
  pub query : Text
  pub schedule_days : ℕ
  pub max_per_run : ℕ
  pub auto_monitor : Bool
  pub enabled : Bool

abbrev pub new_list : DiscoveryListIn → Session → DiscoveryList
new_list body s = record {
  id = next_id list_id s.discovery_lists;
  name = body.name;
  query = body.query;
  schedule_days = body.schedule_days;
  max_per_run = body.max_per_run;
  auto_monitor = body.auto_monitor;
  enabled = body.enabled;
  last_run_at = none;
}

unfoldable pub create_discovery_list : DiscoveryListIn → Session → DiscoveryList × Session
create_discovery_list body s =
    (new_list body s, record s { discovery_lists = s.discovery_lists ++ new_list body s ∷ [] })

unfoldable pub delete_found : Option DiscoveryList → Session → Reply Session
delete_found none s = err (not_found (codes "Discovery list not found"))
delete_found (some row) s =
    ok (record s { discovery_lists = delete_row list_id row.id s.discovery_lists })

unfoldable pub delete_discovery_list : ℕ → Session → Reply Session
delete_discovery_list k s = delete_found (get_row list_id k s.discovery_lists) s

-- `order_by(….id.desc()).limit(limit)`
unfoldable pub latest_rows : {A : Type 0} → ℕ → List A → List A
latest_rows limit rows = take limit (reverse rows)

unfoldable pub list_queue : ℕ → Session → List QueueItem
list_queue limit s = latest_rows limit s.queue

unfoldable pub list_conversions : ℕ → Session → List ConversionJob
list_conversions limit s = latest_rows limit s.jobs
