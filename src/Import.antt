-- ===== src/Import.antt =====
-- src/libarr/acquisition/import_pipeline.py: a completed download is located, verified, linked into
-- the library and filed.
--
-- The file system is a parameter; an exception is a value. What a call raises after it has changed
-- rows leaves those changes in the session, as the code does before its `commit`.
pub mod Naming
pub mod Disk
pub mod Locate
pub mod Place
pub mod Settled
pub mod Laws
pub mod Finished
pub mod Safe
pub mod Samples
mod Tests
use libarr.Prelude.{
  ℕ, Text, codes, opt_eq, truthy, Bool, true, false, not, Option, none, some, List, [], ◌∷◌, ◌++◌,
  get_row, update_row, next_id, find, length, Result, ok, err, ◌>>=◌, if◌then◌else◌, ltb, or_else,
  drop,
}
use libarr.Python.{Unicode}
use libarr.Python.Paths.{PurePath, to_path, path_text, path_join, path_name, path_suffix}
use libarr.Models.{
  Book, Author, DownloadClientRow, Edition, File, QueueItem, Session, EventKind, imported, failed,
}
use libarr.Clients.{ClientItem}
use libarr.History.{record_event}
use libarr.Notify.{Settings, notify}
use libarr.Parser.{ParsedName}
use libarr.Relations.{author_of, series_of, editions_of, files_of, book_id}
use libarr.Watch.{Hook, item_id}
use libarr.Import.Naming.{render_template}
use libarr.Import.Disk.{Raised, message_of, Files}
use libarr.Import.Place.{place_file}
use libarr.Import.Locate.{locate_files, pick_file, verify, parsed_src}

pub record ImportResult : Type 0 where
  pub is_ok : Bool
  pub destination : Option PurePath
  pub hardlinked : Bool
  pub error : Option Text

-- What a run gives: its result or its exception, the tables, the files.
abbrev pub Outcome : Type 0 → Type 0
Outcome W = Result Raised ImportResult × Session × W

abbrev pub set_status : ℕ → (QueueItem → QueueItem) → Session → Session
set_status k f s = record s { queue = update_row item_id k f s.queue }

abbrev pub mark_failed : Text → QueueItem → QueueItem
mark_failed message r = record r { status = failed; error = some message }

abbrev pub mark_imported : QueueItem → QueueItem
mark_imported r = record r { status = imported; error = none }

abbrev pub failure : Text → ImportResult
failure message = record {
  is_ok = false;
  destination = none;
  hardlinked = false;
  error = some message;
}

abbrev pub done : PurePath → Bool → ImportResult
done dest linked = record {
  is_ok = true;
  destination = some dest;
  hardlinked = linked;
  error = none;
}

module _ {W : Type 0} (u : Unicode) (fs : Files W) (settings : Settings) where
  abbrev pub library_root : PurePath
  library_root = to_path settings.library_dir

  unfoldable pub fail_marked : QueueItem → Text → Session → Option Raised × W → Outcome W
  unfolding record_event notify
  fail_marked item message s (some e, w) = (err e, s, w)
  fail_marked item message s (none, w) = (
    ok (failure message),
    record_event EventKind.fail item.title (some item.book_id) (some message)
        (set_status item.id (mark_failed message) s),
    (notify u settings fs.send (codes "Import failed") message w).1,
  )

  -- `_fail`
  unfoldable pub fail : QueueItem → Text → Session → W → Outcome W
  unfolding fail_marked
  fail item message s w =
      fail_marked item message s
        (fs.mkdir (path_join library_root (to_path (codes "quarantine"))) w)

  -- `src.suffix[1:]`
  abbrev pub extension_of : PurePath → Text
  extension_of src = drop 1 (path_suffix src)

  unfoldable pub author_name : Option Author → Option ParsedName → Option Text
  author_name (some author) parsed = some author.name
  author_name none none = none
  author_name none (some parsed) = parsed.author

  unfoldable pub destination_of : Session → Book → PurePath → PurePath
  unfolding author_name render_template
  destination_of s book src = path_join library_root (
      render_template u settings.import_template
        (author_name (author_of book s) (parsed_src u fs src))
        (elim (series_of book s) [ none ↦ none | some r ↦ some r.title ]) (some book.title)
        book.year (some (extension_of src)))

  abbrev pub edition_id : Edition → ℕ
  edition_id e = e.id

  abbrev pub file_id : File → ℕ
  file_id f = f.id

  abbrev pub new_edition : Book → PurePath → Session → Edition
  new_edition book src s = record {
    id = next_id edition_id s.editions;
    book_id = book.id;
    isbn13 = none;
    isbn10 = none;
    publisher = none;
    published_at = none;
    format = some (u.upper (extension_of src));
    page_count = none;
    ol_edition_key = none;
    google_volume_id = none;
    metadata_json = none;
  }

  -- The first edition of the book, which is added where there is none.
  unfoldable pub edition_for : Book → PurePath → List Edition → Session → ℕ × Session
  edition_for book src (e ∷ es) s = (e.id, s)
  edition_for book src [] s = (
    next_id edition_id s.editions,
    record s { editions = s.editions ++ new_edition book src s ∷ [] },
  )

  unfoldable pub had_files : List Edition → Session → Bool
  had_files [] s = false
  had_files (e ∷ es) s = ltb 0 (length (files_of e.id s))

  abbrev pub new_file : ℕ → PurePath → PurePath → ℕ → Text → Session → File
  new_file edition src dest size digest s = record {
    id = next_id file_id s.files;
    edition_id = some edition;
    path = path_text dest;
    format = u.upper (extension_of src);
    size_bytes = size;
    sha256 = digest;
  }

  -- The file's row, the item's status and the event.
  unfoldable pub file_imported :
      QueueItem → Book → PurePath → PurePath → Bool → ℕ → ℕ × Text → Session → Session
  unfolding record_event path_text
  file_imported item book src dest had edition (size, digest) s =
      record_event (if had then EventKind.upgrade else EventKind.import) book.title (some book.id)
        (some (path_text dest))
        (set_status item.id mark_imported
          (record s { files = s.files ++ new_file edition src dest size digest s ∷ [] }))

  unfoldable pub file_measured :
      QueueItem
      → Book
      → PurePath
      → PurePath
      → Bool
      → Bool
      → ℕ × Session
      → Result Raised (ℕ × Text)
      → W
      → Outcome W
  unfolding file_imported notify path_text
  file_measured item book src dest linked had (edition, s) (err e) w = (err e, s, w)
  file_measured item book src dest linked had (edition, s) (ok measures) w = (
    ok (done dest linked),
    file_imported item book src dest had edition measures s,
    (notify u settings fs.send (codes "Book imported") (book.title ++ codes " → " ++ path_text dest)
        w).1,
  )

  -- `dest.stat().st_size` and `_sha256(dest)`
  unfoldable pub measure : PurePath → W → Result Raised (ℕ × Text)
  measure dest w = do size ← fs.size dest w; digest ← fs.sha256 dest w; ok (size, digest)

  unfoldable pub file_placed :
      QueueItem
      → Book
      → PurePath
      → PurePath
      → Session
      → Result Raised (Result Text Bool) × W
      → Outcome W
  unfolding fail file_measured edition_for had_files measure
  file_placed item book src dest s (err e, w) = (err e, s, w)
  file_placed item book src dest s (ok (err m), w) = fail item (codes "link/copy failed: " ++ m) s w
  file_placed item book src dest s (ok (ok linked), w) =
      file_measured item book src dest linked (had_files (editions_of book s) s)
        (edition_for book src (editions_of book s) s) (measure dest w) w

  unfoldable pub import_picked : QueueItem → Book → PurePath → Session → W → Outcome W
  unfolding verify fail file_placed place_file destination_of
  import_picked item book src s w =
      if verify u fs s book src w
      then file_placed item book src (destination_of s book src) s
          (place_file u fs settings src (destination_of s book src) w)
      else fail item
          (codes "metadata mismatch: " ++ path_name src ++ codes " does not match " ++ book.title) s
          w

  unfoldable pub import_located :
      QueueItem → Book → Session → Result Raised (List PurePath) × W → Outcome W
  unfolding fail import_picked pick_file
  import_located item book s (err e, w) = (err e, s, w)
  import_located item book s (ok [], w) =
      fail item (codes "no ebook file found in download directory") s w
  import_located item book s (ok (f ∷ more), w) =
      import_picked item book (pick_file u fs f more item.format) s w

  unfoldable pub import_book : QueueItem → ClientItem → Option Book → Session → W → Outcome W
  unfolding fail import_located locate_files
  import_book item client_item none s w = fail item (codes "queued book no longer exists") s w
  import_book item client_item (some book) s w =
      import_located item book s (locate_files u fs client_item (client_row item s) w)
    where
      client_row : QueueItem → Session → Option DownloadClientRow
      client_row item s =
          if truthy item.client_name
          then find (λ (r : DownloadClientRow). opt_eq item.client_name r.name) s.clients
          else none

  unfoldable pub import_download : QueueItem → ClientItem → Session → W → Outcome W
  unfolding import_book
  import_download item client_item s w =
      import_book item client_item (get_row book_id item.book_id s.books) s w

  -- The exception that the hook raises: that of the import, or `ImportError`.
  unfoldable pub raised_of : Result Raised ImportResult → Option Text
  unfolding message_of
  raised_of (err e) = some (message_of e)
  raised_of (ok result) =
      if result.is_ok
      then none
      else some
          (or_else (codes "import failed") (if truthy result.error then result.error else none))

  unfoldable pub import_item :
      Option QueueItem → ClientItem → Session → W → Option Text × Session × W
  unfolding raised_of import_download
  import_item none client_item s w = (none, s, w)
  import_item (some item) client_item s w =
      let (result, s', w') = import_download item client_item s w in (raised_of result, s', w')

  -- `default_import_hook`, for the item with an id.
  unfoldable pub default_import_hook : Hook W
  unfolding import_item
  default_import_hook k client_item s w = import_item (get_row item_id k s.queue) client_item s w
