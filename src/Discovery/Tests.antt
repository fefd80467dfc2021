-- ===== src/Discovery/Tests.antt =====
-- One list, created and deleted.
use libarr.Prelude.{codes, ◌≡◌, refl, true, [], ◌∷◌}
use libarr.Samples.{empty_session, sample_item}
use libarr.Discovery.{DiscoveryListIn, latest_rows, list_queue}

abbrev body : DiscoveryListIn
body = record {
  name = codes "n";
  query = codes "{}";
  schedule_days = 7;
  max_per_run = 10;
  auto_monitor = true;
  enabled = true;
}

newest_first :
    list_queue 1 (record empty_session { queue = sample_item 1 true ∷ sample_item 2 true ∷ [] })
    ≡ sample_item 2 true ∷ []
unfolding list_queue latest_rows
newest_first = refl
