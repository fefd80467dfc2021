-- ===== src/Catalog/Tests.antt =====
-- Runs of the handlers on small tables.
use libarr.Prelude.{
  ◌==◌, if◌then◌else◌, ℕ, Text, codes, text_eq, mem_text, ◌≡◌, refl, true, none, some, [], ◌∷◌,
  get_row, update_row, delete_row, next_id, ok,
}
use libarr.Models.{ReadingProgress, User, Session}
use libarr.Clients.{client_kinds}
use libarr.Samples.{empty_session, sample_book, sample_user}
use libarr.Catalog.{
  supported_kinds, user_id, IndexerIn, ClientIn, indexer_row, client_row, supported_kinds, found_or,
  create_indexer, create_client, get_indexer, delete_indexer, set_progress, put_progress, set_role,
  set_user_role,
}
use libarr.Catalog.Names.{HasDistinctNames, create_indexer-HasDistinctNames}
use libarr.Catalog.Rows.{set_user_role-keeps_admin}

abbrev indexer_in : IndexerIn
indexer_in = record {
  name = codes "a";
  kind = codes "torznab";
  url = none;
  api_key = none;
  categories = codes "7000";
  priority = 100;
  enabled = true;
  rss_enabled = true;
}

abbrev with_indexer : Session
with_indexer = record empty_session { indexers = indexer_row 1 indexer_in ∷ [] }

indexer_created :
    create_indexer indexer_in empty_session ≡ ok (indexer_row 1 indexer_in, with_indexer)
unfolding create_indexer supported_kinds codes mem_text next_id
indexer_created = refl

create_indexer-HasDistinctNames_example :
    (mem_text indexer_in.kind supported_kinds ≡ true)
    × HasDistinctNames (λ r. r.name) with_indexer.indexers
    × ((j : ℕ)
        → get_indexer j with_indexer
          ≡ (if j == 1 then ok (indexer_row 1 indexer_in) else get_indexer j empty_session))
create_indexer-HasDistinctNames_example =
    create_indexer-HasDistinctNames indexer_in empty_session (indexer_row 1 indexer_in) with_indexer
      tt indexer_created

indexer_deleted : delete_indexer 1 with_indexer ≡ ok empty_session
unfolding delete_indexer get_indexer found_or get_row delete_row
indexer_deleted = refl

abbrev client_in : ClientIn
client_in = record {
  name = codes "a";
  kind = codes "deluge";
  url = none;
  username = none;
  password = none;
  api_key = none;
  enabled = true;
  priority = 100;
  remote_path = none;
  local_path = none;
}

abbrev with_client : Session
with_client = record empty_session { clients = client_row 1 client_in ∷ [] }

client_created : create_client client_in empty_session ≡ ok (client_row 1 client_in, with_client)
unfolding create_client client_kinds codes mem_text next_id
client_created = refl

abbrev half : ReadingProgress
half = record { book_id = 5; profile = codes "p"; position = 500000; location = none }

abbrev unread : Session
unread = record empty_session { books = sample_book 5 (codes "A") ∷ [] }

abbrev half_read : Session
half_read = record unread { progress = half ∷ [] }

progress_put : put_progress half unread ≡ ok (half, half_read)
unfolding put_progress found_or get_row set_progress
progress_put = refl

abbrev ann : User
ann = sample_user 1 (codes "ann") (codes "admin")

abbrev ann_and_bob : Text → Session
ann_and_bob role = record empty_session { users = ann ∷ sample_user 2 (codes "bob") role ∷ [] }

bob_promoted :
    set_user_role ann (codes "bob") (codes "admin") (ann_and_bob (codes "user"))
    ≡ ok (ann_and_bob (codes "admin"))
unfolding set_user_role set_role found_or update_row codes text_eq
bob_promoted = refl

set_user_role-keeps_admin_example :
    (u : User) × (get_row user_id 1 (ann_and_bob (codes "admin")).users ≡ some u)
    × (u.role ≡ codes "admin")
set_user_role-keeps_admin_example =
    set_user_role-keeps_admin ann (codes "bob") (codes "admin") (ann_and_bob (codes "user"))
      (ann_and_bob (codes "admin")) (unfold get_row in refl) refl bob_promoted
