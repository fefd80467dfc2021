-- ===== src/Watch/Hooks.antt =====
-- src/libarr/tasks/download_watch.py: the import hook, as the watch phase relies on it.
use libarr.Prelude.{
  ℕ, Text, codes, ◌≡◌, refl, ◌∙◌, ◌≢◌, Option, none, some, List, ◌++◌, arith, get_row,
  get_row-update_row, update_row-HasDistinctIds, HasDistinctIds,
}
use libarr.Models.{QueueItem, Session, importing, imported, failed}
use libarr.Clients.{ClientItem}
use libarr.Watch.{Cycle, Hook, item_id, to_failed, set_item, after_hook}
use libarr.Watch.Lifecycle.{Reach, here, next, broken, SameItem, SameItem-trans}

-- A row of the table, later: the same item, at a status that its old one leads to.
pub record Later (k : ℕ) (r : QueueItem) (table : List QueueItem) : Type 0 where
  pub row : QueueItem
  pub found : get_row item_id k table ≡ some row
  pub same : SameItem r row
  pub status : Reach r.status row.status

-- What the cycle relies on of an import hook: it leaves the other items alone, and takes its own,
-- which is `importing`, nowhere but along the arrows.
pub record HookLaw {W : Type 0} (hook : Hook W) : Type 0 where
  pub others :
      (k j : ℕ) (i : ClientItem) (s : Session) (w : W)
      → k ≢ j
      → get_row item_id j (hook k i s w).1.queue ≡ get_row item_id j s.queue
  pub own :
      (k : ℕ) (i : ClientItem) (s : Session) (w : W) (r : QueueItem)
      → get_row item_id k s.queue ≡ some r
      → r.status ≡ importing
      → Later k r (hook k i s w).1.queue
  pub distinct :
      (k : ℕ) (i : ClientItem) (s : Session) (w : W)
      → HasDistinctIds item_id s.queue
      → HasDistinctIds item_id (hook k i s w).1.queue

abbrev pub importing_row : QueueItem → QueueItem
importing_row r = record r { status = importing }

abbrev pub imported_row : QueueItem → QueueItem
imported_row r = record r { status = imported }

module _ {W : Type 0} where
  pub set-other :
      (k j : ℕ) (f : QueueItem → QueueItem)
      → ((r : QueueItem) → (f r).id ≡ r.id)
      → (c : Cycle W) → k ≢ j
      → get_row item_id j (set_item k f c).session.queue ≡ get_row item_id j c.session.queue
  unfolding set_item
  set-other k j f same c ne = ground (arith, get_row-update_row item_id k j f same c.session.queue)

  pub set_self :
      (k : ℕ) (f : QueueItem → QueueItem)
      → ((r : QueueItem) → (f r).id ≡ r.id)
      → (c : Cycle W) (r : QueueItem) → get_row item_id k c.session.queue ≡ some r
      → get_row item_id k (set_item k f c).session.queue ≡ some (f r)
  unfolding set_item
  set_self k f same c r h = ground (arith, get_row-update_row item_id k k f same c.session.queue)

  pub set-distinct :
      (k : ℕ) (f : QueueItem → QueueItem)
      → ((r : QueueItem) → (f r).id ≡ r.id)
      → (c : Cycle W) → HasDistinctIds item_id c.session.queue
      → HasDistinctIds item_id (set_item k f c).session.queue
  unfolding set_item
  set-distinct k f same c d = update_row-HasDistinctIds item_id k f same c.session.queue d

  -- A failure after `downloading` or `importing`.
  pub fail-Later :
      (k : ℕ) (m : Text) (c : Cycle W) (r : QueueItem)
      → get_row item_id k c.session.queue ≡ some r
      → Reach r.status failed
      → Later k r (set_item k (to_failed m) c).session.queue
  fail-Later k m c r h path = record {
    row = to_failed m r;
    found = set_self k (to_failed m) (λ q. refl) c r h;
    same = ground arith;
    status = path;
  }

  -- The first half of a completion: the item is `importing`.
  abbrev pub marked : ℕ → Cycle W → Cycle W
  marked k c = set_item k importing_row c

  module _ (hook : Hook W) (law : HookLaw hook) (k : ℕ) (item : ClientItem) where
    open law use {others, own, distinct}

    pub after_hook-other :
        (j : ℕ) (c d : Cycle W) (s : Session) (w : W) (raised : Option Text)
        → k ≢ j
        → get_row item_id j s.queue ≡ get_row item_id j c.session.queue
        → get_row item_id j (after_hook k (raised, s, w) d).session.queue
          ≡ get_row item_id j c.session.queue
    unfolding after_hook
    after_hook-other j c d s w none ne h = h
    after_hook-other j c d s w (some m) ne h =
        set-other k j (to_failed (codes "import failed: " ++ m)) (λ r. refl)
          (record d { session = s; world = w }) ne
        ∙ h

    pub after_hook_self :
        (d : Cycle W) (s : Session) (w : W) (raised : Option Text) (r : QueueItem)
        → r.status ≡ importing
        → Later k r s.queue
        → Later k r (after_hook k (raised, s, w) d).session.queue
    unfolding after_hook
    after_hook_self d s w none r e l = l
    after_hook_self d s w (some m) r e l = record {
      row = to_failed (codes "import failed: " ++ m) l.row;
      found =
          set_self k (to_failed (codes "import failed: " ++ m)) (λ q. refl)
            (record d { session = s; world = w }) l.row l.found;
      same = SameItem-trans l.same (ground arith);
      status = rw e (next here broken);
    }

    pub after_hook-distinct :
        (d : Cycle W) (s : Session) (w : W) (raised : Option Text)
        → HasDistinctIds item_id s.queue
        → HasDistinctIds item_id (after_hook k (raised, s, w) d).session.queue
    unfolding after_hook
    after_hook-distinct d s w none h = h
    after_hook-distinct d s w (some m) h =
        set-distinct k (to_failed (codes "import failed: " ++ m)) (λ r. refl)
          (record d { session = s; world = w }) h
