-- ===== src/Watch/Moves.antt =====
-- src/libarr/tasks/download_watch.py: one step of the watch phase.
use libarr.Prelude.{
  ℕ, Text, or_empty, ◌≡◌, refl, sym, subst, ◌∙◌, ◌≢◌, Option, none, some, List, arith, get_row,
  HasDistinctIds,
}
use libarr.Models.{QueueItem, downloading}
use libarr.Clients.{ClientItem, ClientStatus}
use libarr.Watch.{
  Cycle, Hook, item_id, to_failed, set_item, count_failed, count_completed, complete_item,
  find_item, watch_status, watch_found, watch_item,
}
use libarr.Watch.Lifecycle.{
  here, next, arrived, finished, lost, Reach-trans, SameItem-refl, SameItem-trans,
}
use libarr.Watch.Hooks.{
  Later, HookLaw, imported_row, importing_row, set-other, set_self, set-distinct, fail-Later,
  marked, after_hook-other, after_hook_self, after_hook-distinct,
}

-- What a step of the watch does to the table: the row of one id moves on, the others stay.
pub record Moves {W : Type 0} (k : ℕ) (step : Cycle W → Cycle W) : Type 0 where
  pub other :
      (j : ℕ) (c : Cycle W)
      → k ≢ j
      → get_row item_id j (step c).session.queue ≡ get_row item_id j c.session.queue
  pub self :
      (c : Cycle W) (r : QueueItem)
      → get_row item_id k c.session.queue ≡ some r
      → r.status ≡ downloading
      → Later k r (step c).session.queue
  pub distinct :
      (c : Cycle W)
      → HasDistinctIds item_id c.session.queue
      → HasDistinctIds item_id (step c).session.queue

abbrev pub HookLaws : {W : Type 0} → Option (Hook W) → Type 0
HookLaws none = Unit
HookLaws (some h) = HookLaw h

module _ {W : Type 0} where
  pub complete_item-Moves :
      (hook : Option (Hook W))
      → HookLaws hook
      → (k : ℕ) (item : ClientItem) → Moves k (complete_item hook k item)
  complete_item-Moves none law k item = record {
    other = λ j c ne.
        unfold complete_item count_completed in
        set-other k j imported_row (λ r. refl) (marked k c) ne
        ∙ set-other k j importing_row (λ r. refl) c ne;
    self = λ c r h e. record {
      row = imported_row (importing_row r);
      found =
          unfold complete_item count_completed in
          set_self k imported_row (λ q. refl) (marked k c) (importing_row r)
            (set_self k importing_row (λ q. refl) c r h);
      same = ground arith;
      status = rw e (next (next here arrived) finished);
    };
    distinct = λ c d.
        unfold complete_item count_completed in
        set-distinct k imported_row (λ r. refl) (marked k c)
          (set-distinct k importing_row (λ r. refl) c d);
  }
  complete_item-Moves (some hook) law k item = record {
    other = λ j c ne.
        unfold complete_item in
        after_hook-other hook law k item j c (marked k c) _ _ _ ne
          (law.others k j item _ _ ne ∙ set-other k j importing_row (λ r. refl) c ne);
    self = λ c r h e.
        unfold complete_item in
        let at = set_self k importing_row (λ q. refl) c r h in
        let l =
          after_hook_self hook law k item (marked k c) _ _ _ (importing_row r) refl
            (law.own k item _ _ (importing_row r) at refl) in
        record {
          row = l.row;
          found = l.found;
          same = SameItem-trans (ground arith) l.same;
          status = rw e (Reach-trans (next here arrived) l.status);
        };
    distinct = λ c d.
        unfold complete_item in
        after_hook-distinct hook law k item (marked k c) _ _ _
          (law.distinct k item _ _ (set-distinct k importing_row (λ r. refl) c d));
  }

  pub stay-Moves : (k : ℕ) → Moves {W = W} k (λ c. c)
  stay-Moves k = record {
    other = λ j c ne. refl;
    self = λ c r h e. record { row = r; found = h; same = SameItem-refl r; status = here };
    distinct = λ c d. d;
  }

  pub fail-Moves :
      (k : ℕ) (m : Text) → Moves {W = W} k (λ c. count_failed (set_item k (to_failed m) c))
  fail-Moves k m = record {
    other = λ j c ne. unfold count_failed in set-other k j (to_failed m) (λ r. refl) c ne;
    self = λ c r h e. unfold count_failed in fail-Later k m c r h (rw e (next here lost));
    distinct = λ c d. unfold count_failed in set-distinct k (to_failed m) (λ r. refl) c d;
  }

  pub watch_found-Moves :
      (hook : Option (Hook W))
      → HookLaws hook
      → (k : ℕ) (found : Option ClientItem) → Moves k (watch_found hook k found)
  unfolding watch_found
  watch_found-Moves hook law k none = stay-Moves k
  watch_found-Moves hook law k (some item) = go item.status
    where
      go : (st : ClientStatus) → Moves k (watch_status hook k item st)
      go ClientStatus.error = fail-Moves k _
      go ClientStatus.complete = complete_item-Moves hook law k item
      go _ = stay-Moves k

  -- The item is looked up first; it has a row whenever `self` is used.
  pub watch_item-Moves :
      (hook : Option (Hook W))
      → HookLaws hook
      → (items : List ClientItem) (k : ℕ) → Moves k (watch_item hook items k)
  watch_item-Moves hook law items k = record {
    other = λ j c ne. unfold watch_item in go-other j c ne (get_row item_id k c.session.queue);
    self = λ c r h e.
        unfold watch_item in
        subst (λ o. Later k r (read c o).session.queue) (sym h)
          ((watch_found-Moves hook law k _).self c r h e);
    distinct = λ c d. unfold watch_item in go-distinct c d (get_row item_id k c.session.queue);
  }
    where
      read : Cycle W → Option QueueItem → Cycle W
      read c o = elim o [
        | none ↦ c
        | some r ↦ watch_found hook k (find_item (or_empty r.client_download_id) items) c
      ]

      go-other :
          (j : ℕ) (c : Cycle W)
          → k ≢ j
          → (o : Option QueueItem)
          → get_row item_id j (read c o).session.queue ≡ get_row item_id j c.session.queue
      go-other j c ne none = refl
      go-other j c ne (some r) = (watch_found-Moves hook law k _).other j c ne

      go-distinct :
          (c : Cycle W)
          → HasDistinctIds item_id c.session.queue
          → (o : Option QueueItem) → HasDistinctIds item_id (read c o).session.queue
      go-distinct c d none = d
      go-distinct c d (some r) = (watch_found-Moves hook law k _).distinct c d
