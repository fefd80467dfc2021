-- ===== src/Discovery/Saved.antt =====
-- src/libarr/api/routes.py: saved lists.
use libarr.Prelude.{
  delete_row-append_new, ◌≡◌, refl, next_id, get_row-append_fresh, next_id-fresh, ok,
}
use libarr.Models.{Session}
use libarr.Discovery.{
  list_id, DiscoveryListIn, new_list, create_discovery_list, delete_found, delete_discovery_list,
}

-- Deleting the discovery list that was just created succeeds and leaves the database as it was.
delete_discovery_list-create_discovery_list :
    (body : DiscoveryListIn) (s : Session)
    → delete_discovery_list (create_discovery_list body s).0.id (create_discovery_list body s).1
      ≡ ok s
unfolding delete_discovery_list create_discovery_list delete_found
delete_discovery_list-create_discovery_list body s =
    let fresh = next_id-fresh list_id s.discovery_lists in
    let k = next_id list_id s.discovery_lists in
    rw
      (
        get_row-append_fresh list_id k s.discovery_lists (new_list body s) fresh refl,
        delete_row-append_new list_id k s.discovery_lists (new_list body s) fresh refl,
      )
      refl
