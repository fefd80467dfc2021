-- ===== src/Watch/Tests.antt =====
-- A cycle over two items and one client.
use libarr.Prelude.{
  ℕ, ◌+◌, codes, ◌≡◌, refl, ◌≢◌, true, false, none, some, [], ◌∷◌, arith, get_row, update_row,
  HasDistinctIds, ok,
}
use libarr.Models.{QueueItem, Session, queued, imported}
use libarr.Samples.{empty_session, sample_item, sample_client}
use libarr.Clients.{DownloadClient, Adapters, ClientStatus}
use libarr.Watch.{watch_item, grab_item, watch_items, Cycle, item_id, process_queue}
use libarr.Watch.Hooks.{Later}
use libarr.Watch.Outcome.{process_queue-Later, process_queue-idle, process_queue-leaves_queued}

-- A client that takes everything under the id "u", and shows it as complete.
abbrev eager : Adapters ℕ
eager = record {
  add_url = λ row url w. (ok url, w + 1);
  list_items = λ row w. (
    ok (
        record {
          id = codes "u";
          name = [];
          status = ClientStatus.complete;
          progress = 100;
          size_bytes = none;
          save_path = none;
        }
        ∷ []),
    w,
  );
}

abbrev before : Session
before = record empty_session {
  clients = sample_client 1 (codes "deluge") true ∷ [];
  queue = sample_item 1 false ∷ sample_item 2 true ∷ [];
}

abbrev grabbed_item : QueueItem
grabbed_item = record (sample_item 1 false) {
  client_download_id = some (codes "u");
  client_name = some (codes "c");
  status = imported;
}

abbrev after : Cycle ℕ
after = record {
  session = record before { queue = grabbed_item ∷ sample_item 2 true ∷ [] };
  world = 1;
  stats = record { grabbed = 1; completed = 1; failures = 0 };
}

process_queue-before : process_queue eager none before 0 ≡ ok after
unfolding process_queue codes watch_items grab_item update_row watch_item get_row
process_queue-before = refl

distinct_items : HasDistinctIds item_id before.queue
distinct_items = omega arith

process_queue-Later_example : Later 1 (sample_item 1 false) after.session.queue
process_queue-Later_example =
    process_queue-Later eager none tt before 0 after process_queue-before distinct_items 1
      (sample_item 1 false) (unfold get_row in refl)

process_queue-idle_example : get_row item_id 2 after.session.queue ≡ some (sample_item 2 true)
process_queue-idle_example =
    process_queue-idle eager none tt before 0 after process_queue-before distinct_items 2
      (sample_item 2 true) (unfold get_row in refl) refl refl

process_queue-leaves_queued_example :
    (r' : QueueItem) × (get_row item_id 1 after.session.queue ≡ some r') × (r'.status ≢ queued)
process_queue-leaves_queued_example =
    process_queue-leaves_queued eager none tt before 0 after process_queue-before distinct_items 1
      (sample_item 1 false) (unfold get_row in refl) (λ e. cc) refl

abbrev eager_client : DownloadClient ℕ
eager_client = record {
  name = codes "c";
  add_url = eager.add_url (sample_client 1 (codes "deluge") true);
  list_items = eager.list_items (sample_client 1 (codes "deluge") true);
}
