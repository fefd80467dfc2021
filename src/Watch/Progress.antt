-- ===== src/Watch/Progress.antt =====
-- src/libarr/tasks/download_watch.py: the two phases of a cycle, put together.
use libarr.Prelude.{
  get_row-none, ℕ, Text, opt_eq, ◌≡◌, refl, sym, subst, ◌∙◌, ◌≢◌, true, false, ◌&&◌, Option, none,
  some, List, [], ◌∷◌, map, arith, get_row, get_row-select, select, select-HasDistinctIds, keep_if,
  HasDistinctIds, ℕ_discrete, Result, ok, err, All, if◌then◌else◌,
}
use libarr.Models.{QueueItem, Status, queued, downloading, importing, imported, failed}
use libarr.Clients.{ClientItem}
use libarr.Watch.{
  Cycle, Hook, item_id, is_active, is_downloading, watch_item, watch_items, watch_client,
}
use libarr.Watch.Lifecycle.{here, SameItem-refl}
use libarr.Watch.Hooks.{Later}
use libarr.Watch.Moves.{HookLaws, watch_item-Moves}

module _ {W : Type 0} (hook : Option (Hook W)) (law : HookLaws hook) where
  watch_items-distinct :
      (items : List ClientItem) (ks : List ℕ) (c : Cycle W)
      → HasDistinctIds item_id c.session.queue
      → HasDistinctIds item_id (watch_items hook items ks c).session.queue
  unfolding watch_items
  watch_items-distinct items [] c d = d
  watch_items-distinct items (k ∷ ks) c d =
      watch_items-distinct items ks (watch_item hook items k c)
        ((watch_item-Moves hook law items k).distinct c d)

  watch_items-other :
      (items : List ClientItem) (rows : List QueueItem) (j : ℕ) (c : Cycle W)
      → All (λ i. i.id ≢ j) rows
      → get_row item_id j (watch_items hook items (map item_id rows) c).session.queue
        ≡ get_row item_id j c.session.queue
  unfolding watch_items
  watch_items-other items [] j c h = refl
  watch_items-other items (row ∷ rows) j c h =
      watch_items-other items rows j (watch_item hook items row.id c) h.1
      ∙ (watch_item-Moves hook law items row.id).other j c h.0

  -- A row that is not selected, or is selected once and downloading.
  watch_items-Later :
      (items : List ClientItem) (rows : List QueueItem) (k : ℕ) (r : QueueItem) (c : Cycle W)
      → HasDistinctIds item_id rows
      → get_row item_id k c.session.queue ≡ some r
      → ((i : QueueItem) → get_row item_id k rows ≡ some i → r.status ≡ downloading)
      → Later k r (watch_items hook items (map item_id rows) c).session.queue
  unfolding watch_items get_row
  watch_items-Later items [] k r c d h active = record {
    row = r;
    found = h;
    same = SameItem-refl r;
    status = here;
  }
  watch_items-Later items (row ∷ rows) k r c d h active = elim (ℕ_discrete row.id k) [
    | yes e ↦
        let l = (watch_item-Moves hook law items k).self c r h (active row (ground arith)) in
        record {
          row = l.row;
          found = rw e (
              watch_items-other items rows k (watch_item hook items k c)
                (subst (λ j. All (λ i. i.id ≢ j) rows) e d.0)
              ∙ l.found);
          same = l.same;
          status = l.status;
        }
    | no ne ↦
        watch_items-Later items rows k r (watch_item hook items row.id c) d.1
          ((watch_item-Moves hook law items row.id).other k c ne ∙ h)
          (λ i m. active i (ground arith))
  ]

  pub watch_client-Later :
      (name : Text) (reply : Result Text (List ClientItem) × W) (k : ℕ) (r : QueueItem)
      (c : Cycle W)
      → HasDistinctIds item_id c.session.queue
      → get_row item_id k c.session.queue ≡ some r
      → Later k r (watch_client hook name reply c).session.queue
  unfolding watch_client
  watch_client-Later name (err m, w) k r c d h = record {
    row = r;
    found = h;
    same = SameItem-refl r;
    status = here;
  }
  watch_client-Later name (ok items, w) k r c d h =
      watch_items-Later items (select (is_active name) c.session.queue) k r (record c { world = w })
        (select-HasDistinctIds item_id (is_active name) _ d) h
        λ i m. selected i (sym (get_row-select item_id (is_active name) k _ d) ∙ m)
    where
      active :
          (i : QueueItem)
          → (if is_active name r then some r else none) ≡ some i
          → is_active name r ≡ true
      active i e = ground arith

      only : (s : Status) → (is_downloading s && opt_eq r.client_name name) ≡ true → s ≡ downloading
      only downloading e = refl
      only queued e = cc
      only importing e = cc
      only imported e = cc
      only failed e = cc

      selected :
          (i : QueueItem)
          → keep_if (is_active name) (get_row item_id k c.session.queue) ≡ some i
          → r.status ≡ downloading
      selected i m = only r.status (active i (subst (λ o. keep_if (is_active name) o ≡ some i) h m))

  pub watch_client-distinct :
      (name : Text) (reply : Result Text (List ClientItem) × W) (c : Cycle W)
      → HasDistinctIds item_id c.session.queue
      → HasDistinctIds item_id (watch_client hook name reply c).session.queue
  unfolding watch_client
  watch_client-distinct name (err m, w) c d = d
  watch_client-distinct name (ok items, w) c d =
      watch_items-distinct items _ (record c { world = w }) d

  -- A row that is not downloading is not touched.
  pub watch_client-idle :
      (name : Text) (reply : Result Text (List ClientItem) × W) (k : ℕ) (r : QueueItem)
      (c : Cycle W)
      → HasDistinctIds item_id c.session.queue
      → get_row item_id k c.session.queue ≡ some r
      → is_downloading r.status ≡ false
      → get_row item_id k (watch_client hook name reply c).session.queue ≡ some r
  unfolding watch_client
  watch_client-idle name (err m, w) k r c d h idle = h
  watch_client-idle name (ok items, w) k r c d h idle =
      watch_items-other items (select (is_active name) c.session.queue) k (record c { world = w })
        (get_row-none item_id k _ (get_row-select item_id (is_active name) k _ d ∙ unselected))
      ∙ h
    where
      unselected : keep_if (is_active name) (get_row item_id k c.session.queue) ≡ none
      unselected = rw (h, idle)
