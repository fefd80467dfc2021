-- ===== src/Import/Laws.antt =====
-- src/libarr/acquisition/import_pipeline.py: `default_import_hook` and the law of a hook.
use libarr.Prelude.{
  ℕ, Text, ◌≡◌, refl, sym, ap, subst, ◌∙◌, ◌≢◌, ◌⊎◌, inl, inr, Option, none, some, List, arith,
  get_row, update_row, get_row-update_row, get_row-id, update_row-HasDistinctIds, HasDistinctIds,
  ok, err,
}
use libarr.Python.{Unicode}
use libarr.Models.{QueueItem, Session, importing}
use libarr.Clients.{ClientItem}
use libarr.Notify.{Settings}
use libarr.Watch.{item_id}
use libarr.Watch.Lifecycle.{here, next, finished, broken, SameItem-refl}
use libarr.Watch.Hooks.{Later, HookLaw}
use libarr.Import.Disk.{Files}
use libarr.Import.{
  Outcome, mark_failed, mark_imported, import_item, default_import_hook, import_download,
}
use libarr.Import.Settled.{IsSettled, import_download-IsSettled}

-- The rows of the queue after a hook for one item.
abbrev IsQueue : ℕ → List QueueItem → List QueueItem → Type 0
IsQueue k before after =
    (after ≡ before)
    ⊎ ((m : Text) × (after ≡ update_row item_id k (mark_failed m) before))
    ⊎ (after ≡ update_row item_id k mark_imported before)

module _ {W : Type 0} where
  settled-IsQueue :
      (item : QueueItem) (s : Session) (o : Outcome W)
      → IsSettled item s o
      → IsQueue item.id s.queue o.1.queue
  settled-IsQueue item s (err e, s', w) h = inl h.0
  settled-IsQueue item s (ok r, s', w) (inl h) = inr (inl (h.0, h.2))
  settled-IsQueue item s (ok r, s', w) (inr h) = inr (inr h.4)

  module _ (u : Unicode) (fs : Files W) (settings : Settings) where
    import_item-IsQueue :
        (k : ℕ) (found : Option QueueItem) (i : ClientItem) (s : Session) (w : W)
        → get_row item_id k s.queue ≡ found
        → IsQueue k s.queue (import_item u fs settings found i s w).1.queue
    unfolding import_item
    import_item-IsQueue k none i s w e = inl refl
    import_item-IsQueue k (some item) i s w e =
        subst (λ j. IsQueue j s.queue (import_item u fs settings (some item) i s w).1.queue)
          (get_row-id item_id k s.queue e)
          (settled-IsQueue item s (import_download u fs settings item i s w)
            (import_download-IsSettled u fs settings item i s w))

    hook-IsQueue :
        (k : ℕ) (i : ClientItem) (s : Session) (w : W)
        → IsQueue k s.queue (default_import_hook u fs settings k i s w).1.queue
    unfolding default_import_hook
    hook-IsQueue k i s w = import_item-IsQueue k (get_row item_id k s.queue) i s w refl

-- An update of one row, which keeps its id.
updated-other :
    (k j : ℕ) (f : QueueItem → QueueItem)
    → ((r : QueueItem) → (f r).id ≡ r.id)
    → (rows : List QueueItem) → k ≢ j
    → get_row item_id j (update_row item_id k f rows) ≡ get_row item_id j rows
updated-other k j f same rows ne = ground (arith, get_row-update_row item_id k j f same rows)

pub updated_self :
    (k : ℕ) (f : QueueItem → QueueItem)
    → ((r : QueueItem) → (f r).id ≡ r.id)
    → (rows : List QueueItem) (r : QueueItem) → get_row item_id k rows ≡ some r
    → get_row item_id k (update_row item_id k f rows) ≡ some (f r)
updated_self k f same rows r h = ground (arith, get_row-update_row item_id k k f same rows)

IsQueue-other :
    (k j : ℕ) (rows after : List QueueItem)
    → k ≢ j
    → IsQueue k rows after
    → get_row item_id j after ≡ get_row item_id j rows
IsQueue-other k j rows after ne (inl e) = ap (get_row item_id j) e
IsQueue-other k j rows after ne (inr (inl (m, e))) =
    ap (get_row item_id j) e ∙ updated-other k j (mark_failed m) (λ r. refl) rows ne
IsQueue-other k j rows after ne (inr (inr e)) =
    ap (get_row item_id j) e ∙ updated-other k j mark_imported (λ r. refl) rows ne

IsQueue-own :
    (k : ℕ) (rows after : List QueueItem) (r : QueueItem)
    → get_row item_id k rows ≡ some r
    → r.status ≡ importing
    → IsQueue k rows after
    → Later k r after
IsQueue-own k rows after r h e (inl q) = record {
  row = r;
  found = ap (get_row item_id k) q ∙ h;
  same = SameItem-refl r;
  status = here;
}
IsQueue-own k rows after r h e (inr (inl (m, q))) = record {
  row = mark_failed m r;
  found = ap (get_row item_id k) q ∙ updated_self k (mark_failed m) (λ r. refl) rows r h;
  same = ground arith;
  status = rw e (next here broken);
}
IsQueue-own k rows after r h e (inr (inr q)) = record {
  row = mark_imported r;
  found = ap (get_row item_id k) q ∙ updated_self k mark_imported (λ r. refl) rows r h;
  same = ground arith;
  status = rw e (next here finished);
}

IsQueue-distinct :
    (k : ℕ) (rows after : List QueueItem)
    → HasDistinctIds item_id rows
    → IsQueue k rows after
    → HasDistinctIds item_id after
IsQueue-distinct k rows after d (inl q) = subst (HasDistinctIds item_id) (sym q) d
IsQueue-distinct k rows after d (inr (inl (m, q))) =
    subst (HasDistinctIds item_id) (sym q)
      (update_row-HasDistinctIds item_id k (mark_failed m) (λ r. refl) rows d)
IsQueue-distinct k rows after d (inr (inr q)) =
    subst (HasDistinctIds item_id) (sym q)
      (update_row-HasDistinctIds item_id k mark_imported (λ r. refl) rows d)

module _ {W : Type 0} (u : Unicode) (fs : Files W) (settings : Settings) where
  -- The import keeps what the download watch asks of a hook: it leaves the other items of the queue
  -- alone, and takes its own from `importing` to `imported` or `failed` or leaves it there.
  pub default_import_hook-HookLaw : HookLaw (default_import_hook u fs settings)
  default_import_hook-HookLaw = record {
    others = λ k j i s w ne. IsQueue-other k j s.queue _ ne (hook-IsQueue u fs settings k i s w);
    own = λ k i s w r h e. IsQueue-own k s.queue _ r h e (hook-IsQueue u fs settings k i s w);
    distinct = λ k i s w d. IsQueue-distinct k s.queue _ d (hook-IsQueue u fs settings k i s w);
  }
