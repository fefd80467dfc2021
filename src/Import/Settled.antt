-- ===== src/Import/Settled.antt =====
-- src/libarr/acquisition/import_pipeline.py: the tables after one import.
use libarr.Prelude.{
  ℕ, Text, ◌≡◌, refl, sym, ap, subst, ◌∙◌, ◌⊎◌, inl, inr, Bool, Option, none, some, List, [], ◌∷◌,
  ◌++◌, get_row, update_row, get_row-id, Result, ok, err, ◌==◌, ==_iff,
}
use libarr.Prelude.{IsIn, IsIn-select, IsIn-append_last, if-ind}
use libarr.Python.{Unicode}
use libarr.Python.Paths.{PurePath, path_text}
use libarr.Models.{Book, Edition, File, QueueItem, Session}
use libarr.Clients.{ClientItem}
use libarr.History.{record_event}
use libarr.Notify.{Settings}
use libarr.Relations.{editions_of, book_id}
use libarr.Watch.{item_id}
use libarr.Import.Disk.{Raised, Files}
use libarr.Import.Locate.{verify}
use libarr.Import.{
  ImportResult, Outcome, failure, done, mark_failed, mark_imported, fail, fail_marked,
  file_imported, file_measured, file_placed, edition_for, had_files, measure, import_picked,
  import_located, import_book, import_download, new_edition, new_file,
}

abbrev pub queue_after : (QueueItem → QueueItem) → QueueItem → Session → List QueueItem
queue_after f item s = update_row item_id item.id f s.queue

-- A row of `files` for the path, of an edition of the item's book.
abbrev pub IsFiled : QueueItem → PurePath → File → Session → Type 0
IsFiled item dest f s =
    (f.path ≡ path_text dest)
    × (e : Edition) × IsIn e s.editions
    × (e.book_id ≡ item.book_id)
    × (f.edition_id ≡ some e.id)

-- A failed import leaves the files as they were, and the item `failed` with the message; one that
-- succeeds adds one row for the destination, and leaves the item `imported`.
abbrev pub IsReported : QueueItem → Session → ImportResult → Session → Type 0
IsReported item s r s' =
    ((m : Text) × (r ≡ failure m)
      × (s'.queue ≡ queue_after (mark_failed m) item s)
      × (s'.files ≡ s.files))
    ⊎ ((dest : PurePath) × (linked : Bool) × (f : File) × (r ≡ done dest linked)
        × (s'.queue ≡ queue_after mark_imported item s)
        × (s'.files ≡ s.files ++ f ∷ [])
        × IsFiled item dest f s')

-- An import that raises changes neither the queue nor the files.
abbrev pub IsSettled : {W : Type 0} → QueueItem → Session → Outcome W → Type 0
IsSettled item s (err e, s', w) = (s'.queue ≡ s.queue) × (s'.files ≡ s.files)
IsSettled item s (ok r, s', w) = IsReported item s r s'

module _ {W : Type 0} (u : Unicode) (fs : Files W) (settings : Settings) (item : QueueItem) where
  fail_marked-IsSettled :
      (m : Text) (s : Session) (o : Option Raised × W)
      → IsSettled item s (fail_marked u fs settings item m s o)
  unfolding fail_marked record_event
  fail_marked-IsSettled m s (some e, w) = (refl, refl)
  fail_marked-IsSettled m s (none, w) = inl (m, refl, refl, refl)

  fail-IsSettled :
      (m : Text) (s : Session) (w : W) → IsSettled item s (fail u fs settings item m s w)
  unfolding fail
  fail-IsSettled m s w = fail_marked-IsSettled m s _

  -- The edition that the file is filed under.
  abbrev IsEditionOf : ℕ → Session → Session → Type 0
  IsEditionOf k s s' =
      (s'.queue ≡ s.queue)
      × (s'.files ≡ s.files)
      × (e : Edition) × IsIn e s'.editions
      × (e.book_id ≡ item.book_id)
      × (k ≡ e.id)

  file_measured-IsSettled :
      (book : Book) (src dest : PurePath) (linked had : Bool) (k : ℕ) (s s' : Session)
      (measures : Result Raised (ℕ × Text)) (w : W)
      → IsEditionOf k s s'
      → IsSettled item s
          (file_measured u fs settings item book src dest linked had (k, s') measures w)
  unfolding file_measured file_imported record_event
  file_measured-IsSettled book src dest linked had k s s' (err e) w h = (h.0, h.1)
  file_measured-IsSettled book src dest linked had k s s' (ok (size, digest)) w
        (q, f, e, here, of_book, same) =
      inr (
        dest,
        linked,
        new_file u fs settings k src dest size digest s',
        refl,
        ap (update_row item_id item.id _) q,
        ap (λ files. files ++ new_file u fs settings k src dest size digest s' ∷ []) f,
        (refl, e, here, of_book, ap some same),
      )

  edition_for-IsEditionOf :
      (book : Book) (src : PurePath) (s : Session) (es : List Edition)
      → book.id ≡ item.book_id
      → editions_of book s ≡ es
      → IsEditionOf
          (edition_for u fs settings book src es s).0
          s
          (edition_for u fs settings book src es s).1
  unfolding edition_for
  edition_for-IsEditionOf book src s [] h e = (
    refl,
    refl,
    new_edition u fs settings book src s,
    IsIn-append_last s.editions (new_edition u fs settings book src s),
    h,
    refl,
  )
  edition_for-IsEditionOf book src s (x ∷ es) h e =
      let (here, same) =
        IsIn-select (λ y. y.book_id == book.id) s.editions x (subst (IsIn x) (sym e) (inl refl)) in
      (refl, refl, x, here, (==_iff x.book_id book.id).0 same ∙ h, refl)

  module _ (book : Book) (h : book.id ≡ item.book_id) where
    file_placed-IsSettled :
        (src dest : PurePath) (s : Session) (o : Result Raised (Result Text Bool) × W)
        → IsSettled item s (file_placed u fs settings item book src dest s o)
    unfolding file_placed
    file_placed-IsSettled src dest s (err e, w) = (refl, refl)
    file_placed-IsSettled src dest s (ok (err m), w) = fail-IsSettled _ s w
    file_placed-IsSettled src dest s (ok (ok linked), w) =
        file_measured-IsSettled book src dest linked
          (had_files u fs settings (editions_of book s) s) _ s _ (measure u fs settings dest w) w
          (edition_for-IsEditionOf book src s (editions_of book s) h refl)

    import_picked-IsSettled :
        (src : PurePath) (s : Session) (w : W)
        → IsSettled item s (import_picked u fs settings item book src s w)
    unfolding import_picked
    import_picked-IsSettled src s w =
        if-ind (λ (o : Outcome W). IsSettled item s o) (verify u fs s book src w)
          (file_placed-IsSettled src _ s _) (fail-IsSettled _ s w)

    import_located-IsSettled :
        (s : Session) (o : Result Raised (List PurePath) × W)
        → IsSettled item s (import_located u fs settings item book s o)
    unfolding import_located
    import_located-IsSettled s (err e, w) = (refl, refl)
    import_located-IsSettled s (ok [], w) = fail-IsSettled _ s w
    import_located-IsSettled s (ok (f ∷ more), w) = import_picked-IsSettled _ s w

  import_book-IsSettled :
      (client_item : ClientItem) (found : Option Book) (s : Session) (w : W)
      → get_row book_id item.book_id s.books ≡ found
      → IsSettled item s (import_book u fs settings item client_item found s w)
  unfolding import_book
  import_book-IsSettled client_item none s w e = fail-IsSettled _ s w
  import_book-IsSettled client_item (some book) s w e =
      import_located-IsSettled book (get_row-id book_id item.book_id s.books e) s _

  -- An import fails or succeeds as a whole, or raises and changes no row of the queue and no file.
  pub import_download-IsSettled :
      (client_item : ClientItem) (s : Session) (w : W)
      → IsSettled item s (import_download u fs settings item client_item s w)
  unfolding import_download
  import_download-IsSettled client_item s w =
      import_book-IsSettled client_item (get_row book_id item.book_id s.books) s w refl
