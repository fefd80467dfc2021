-- ===== src/Import/Finished.antt =====
-- src/libarr/acquisition/import_pipeline.py and src/libarr/tasks/download_watch.py: a completed download
-- after its import.
use libarr.Prelude.{
  Bool, find, text_eq, HasDistinctKeys, append-HasDistinctKeys, ℕ, Text, codes, ◌≡◌, refl, sym, ap,
  subst, ◌∙◌, ◌⊎◌, inl, inr, Option, none, some, ◌++◌, get_row, update_row, get_row-id, ok, err,
}
use libarr.Python.{Unicode}
use libarr.Models.{File, QueueItem, Session, imported, failed}
use libarr.Clients.{ClientItem}
use libarr.Notify.{Settings}
use libarr.Watch.{Cycle, item_id, to_failed, set_item, after_hook, complete_item}
use libarr.Watch.Hooks.{Later, HookLaw, importing_row, set_self}
use libarr.Python.Paths.{PurePath, path_text}
use libarr.Import.Disk.{Files}
use libarr.Import.{
  done, Outcome, mark_imported, import_item, default_import_hook, raised_of, import_download,
}
use libarr.Import.Settled.{IsSettled, import_download-IsSettled}
use libarr.Import.Laws.{default_import_hook-HookLaw, updated_self}

-- A hook that does not raise has imported the item.
abbrev IsQuiet : {W : Type 0} → ℕ → Session → Option Text × Session × W → Type 0
IsQuiet k s (some m, s', w) = Unit
IsQuiet k s (none, s', w) = s'.queue ≡ update_row item_id k mark_imported s.queue

abbrev pub path : File → Text
path f = f.path

abbrev pub IsOver : {W : Type 0} → ℕ → Cycle W → Type 0
IsOver k c =
    (r : QueueItem) × (get_row item_id k c.session.queue ≡ some r)
    × ((r.status ≡ imported) ⊎ (r.status ≡ failed))

module _ {W : Type 0} (u : Unicode) (fs : Files W) (settings : Settings) where
  settled-IsQuiet :
      (item : QueueItem) (s : Session) (o : Outcome W)
      → IsSettled item s o
      → IsQuiet item.id s (raised_of u fs settings o.0, o.1, o.2)
  unfolding raised_of
  settled-IsQuiet item s (err e, s', w) h = tt
  settled-IsQuiet item s (ok r, s', w) (inl (m, is, q, f)) =
      subst (λ q. IsQuiet item.id s (raised_of u fs settings (ok q), s', w)) (sym is) tt
  settled-IsQuiet item s (ok r, s', w) (inr h) =
      subst (λ q. IsQuiet item.id s (raised_of u fs settings (ok q), s', w)) (sym h.3) h.4

  import_item-IsQuiet :
      (k : ℕ) (i : ClientItem) (s : Session) (w : W) (r : QueueItem)
      → get_row item_id k s.queue ≡ some r
      → IsQuiet k s (default_import_hook u fs settings k i s w)
  unfolding default_import_hook import_item
  import_item-IsQuiet k i s w r e =
      subst (λ found. IsQuiet k s (import_item u fs settings found i s w)) (sym e)
        (subst (λ j. IsQuiet j s (import_item u fs settings (some r) i s w))
          (get_row-id item_id k s.queue e)
          (settled-IsQuiet r s (import_download u fs settings r i s w)
            (import_download-IsSettled u fs settings r i s w)))

  after_hook-IsOver :
      (k : ℕ) (o : Option Text × Session × W) (d : Cycle W) (r : QueueItem) (s : Session)
      → get_row item_id k s.queue ≡ some r
      → IsQuiet k s o
      → Later k r o.1.queue
      → IsOver k (after_hook k o d)
  unfolding after_hook
  after_hook-IsOver k (none, s', w) d r s h q l = (
    mark_imported r,
    ap (get_row item_id k) q ∙ updated_self k mark_imported (λ x. refl) s.queue r h,
    inl refl,
  )
  after_hook-IsOver k (some m, s', w) d r s h q l = (
    to_failed (codes "import failed: " ++ m) l.row,
    set_self k (to_failed (codes "import failed: " ++ m)) (λ x. refl)
        (record d { session = s'; world = w }) l.row l.found,
    inr refl,
  )

  import-IsOver :
      (k : ℕ) (i : ClientItem) (c : Cycle W) (r : QueueItem)
      → get_row item_id k c.session.queue ≡ some r
      → IsOver k (complete_item (some (default_import_hook u fs settings)) k i c)
  unfolding complete_item
  import-IsOver k i c r h =
      after_hook-IsOver k (default_import_hook u fs settings k i c'.session c'.world) c'
        (importing_row r) c'.session found
        (import_item-IsQuiet k i c'.session c'.world (importing_row r) found)
        (law.own k i c'.session c'.world (importing_row r) found refl)
    where
      law : HookLaw (default_import_hook u fs settings)
      law = default_import_hook-HookLaw u fs settings

      c' : Cycle W
      c' = set_item k importing_row c

      found : get_row item_id k c'.session.queue ≡ some (importing_row r)
      found = set_self k importing_row (λ x. refl) c r h

  settled-paths :
      (item : QueueItem) (s : Session) (o : Outcome W)
      → IsSettled item s o
      → HasDistinctKeys path s.files
      → ((dest : PurePath) (linked : Bool)
          → o.0 ≡ ok (done dest linked)
          → find (λ f. text_eq (path f) (path_text dest)) s.files ≡ none)
      → HasDistinctKeys path o.1.files
  settled-paths item s (err e, s', w) h d fresh = subst (HasDistinctKeys path) (sym h.1) d
  settled-paths item s (ok r, s', w) (inl h) d fresh = subst (HasDistinctKeys path) (sym h.3) d
  settled-paths item s (ok r, s', w) (inr (dest, linked, f, is, q, files, filed)) d fresh =
      subst (HasDistinctKeys path) (sym files) (
        append-HasDistinctKeys path s.files f d (
          subst (λ t. find (λ g. text_eq (path g) t) s.files ≡ none) (sym filed.0)
            (fresh dest linked (ap ok is))))

  import_item-paths :
      (k : ℕ) (i : ClientItem) (s : Session) (w : W) (r : QueueItem)
      → get_row item_id k s.queue ≡ some r
      → HasDistinctKeys path s.files
      → ((dest : PurePath) (linked : Bool)
          → (import_download u fs settings r i s w).0 ≡ ok (done dest linked)
          → find (λ f. text_eq (path f) (path_text dest)) s.files ≡ none)
      → HasDistinctKeys path (default_import_hook u fs settings k i s w).1.files
  unfolding default_import_hook import_item
  import_item-paths k i s w r e d fresh =
      subst (λ found. HasDistinctKeys path (import_item u fs settings found i s w).1.files) (sym e)
        (settled-paths r s (import_download u fs settings r i s w)
          (import_download-IsSettled u fs settings r i s w) d fresh)

  after_hook-files :
      (k : ℕ) (o : Option Text × Session × W) (c : Cycle W)
      → (after_hook k o c).session.files ≡ o.1.files
  unfolding after_hook set_item
  after_hook-files k (none, s', w) c = refl
  after_hook-files k (some m, s', w) c = refl

  -- An item whose download the client shows as complete is `imported` or `failed` when its import
  -- returns or raises; it does not stay `importing`. The condition is that no two rows of `files`
  -- share a path, and that none has the path that the import reports as its destination, if it
  -- succeeds: there the database refuses the new row. The paths are then distinct afterwards, too.
  pub complete_item-IsOver :
      (k : ℕ) (i : ClientItem) (c : Cycle W) (r : QueueItem)
      → get_row item_id k c.session.queue ≡ some r
      → HasDistinctKeys path c.session.files
      → ((dest : PurePath) (linked : Bool)
          → (import_download u fs settings
              (importing_row r)
              i
              (set_item k importing_row c).session
              c.world).0
            ≡ ok (done dest linked)
          → find (λ f. text_eq (path f) (path_text dest)) c.session.files ≡ none)
      → IsOver k (complete_item (some (default_import_hook u fs settings)) k i c)
        × HasDistinctKeys path
            (complete_item (some (default_import_hook u fs settings)) k i c).session.files
  unfolding complete_item set_item
  complete_item-IsOver k i c r h d fresh = (
    import-IsOver k i c r h,
    subst (HasDistinctKeys path)
        (sym (after_hook-files k (default_import_hook u fs settings k i c'.session c'.world) c'))
        (import_item-paths k i c'.session c'.world (importing_row r)
          (set_self k importing_row (λ x. refl) c r h) d fresh),
  )
    where
      c' : Cycle W
      c' = set_item k importing_row c
