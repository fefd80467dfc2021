-- ===== src/Scan.antt =====
-- src/libarr/acquisition/library_scan.py: the files of the library become rows.
--
-- What a call raises after it has changed rows leaves those changes in the session.
pub mod Rows
pub mod Distinct
mod Tests
use libarr.Prelude.{
  ℕ, ◌+◌, Text, codes, text_eq, truthy, mem_text, Bool, true, false, ◌&&◌, Option, none, some, List,
  [], ◌∷◌, ◌++◌, update_row, find, Result, ok, err, if◌then◌else◌,
}
use libarr.Prelude.{sort_by}
use libarr.Python.{Unicode}
use libarr.Python.Paths.{PurePath, path_text, path_name, path_suffix, path_lt}
use libarr.Models.{File, Session}
use libarr.Parser.{parse_book_filename, ebook_extensions, strong_extensions}
use libarr.Normalize.{normalize_isbn}
use libarr.Epub.{OpfMetadata, opf_metadata}
use libarr.Fts.{FtsRow, reindex_book}
use libarr.Import.Disk.{Raised, other, Command, Files}
use libarr.Scan.Rows.{Identity, place_of, identity_of, extension_of, new_file, file_id}

pub record ScanResult : Type 0 where
  pub files_found : ℕ
  pub files_added : ℕ
  pub files_updated : ℕ
  pub errors : ℕ

module _ (u : Unicode) {W : Type 0} (fs : Files W) (write : FtsRow → Command W) where
  -- The result, the rows, the disk.
  abbrev pub Upsert : Type 0
  Upsert = Result Raised Bool × Session × W

  abbrev pub reindexed : Session → Option Raised × W → Upsert
  reindexed s (some e, w) = (err e, s, w)
  reindexed s (none, w) = (ok true, s, w)

  unfoldable pub add_file : PurePath → Text → ℕ × ℕ × Session → Result Raised ℕ → W → Upsert
  unfolding reindex_book path_text
  add_file path sha (book, edition, s) (err e) w = (err e, s, w)
  add_file path sha (book, edition, s) (ok size) w =
      let s' = record s { files = s.files ++ new_file u edition path size sha s ∷ [] } in
      reindexed s' (reindex_book write book s' w)

  unfoldable pub upsert_isbn :
      PurePath → Text → Identity → Result Text (Option Text) → Session → W → Upsert
  unfolding add_file place_of
  upsert_isbn path sha identity (err m) s w = (err (other m), s, w)
  upsert_isbn path sha identity (ok isbn) s w =
      add_file path sha (place_of u path identity isbn s) (fs.size path w) w

  -- A file without a row.
  unfoldable pub upsert_new : PurePath → Text → Identity → Session → W → Upsert
  unfolding upsert_isbn normalize_isbn
  upsert_new path sha identity s w =
      if truthy identity.title
      then upsert_isbn path sha identity (normalize_isbn identity.isbn) s w
      else (ok false, s, w)

  abbrev pub set_sha : Text → File → File
  set_sha sha f = record f { sha256 = sha }

  abbrev pub set_size : ℕ → File → File
  set_size size f = record f { size_bytes = size }

  -- A file with a row. The hash is written before the size is read.
  unfoldable pub update_file : File → Text → Result Raised ℕ → Session → W → Upsert
  update_file f sha (err e) s w =
      (err e, record s { files = update_row file_id f.id (set_sha sha) s.files }, w)
  update_file f sha (ok size) s w = (
    ok false,
    record s { files = update_row file_id f.id (λ x. set_size size (set_sha sha x)) s.files },
    w,
  )

  unfoldable pub opf_of : PurePath → W → Option OpfMetadata
  unfolding opf_metadata path_suffix text_eq
  opf_of path w =
      if text_eq (u.lower (path_suffix path)) (codes ".epub")
      then elim (fs.opf_package path w) [ none ↦ none | some p ↦ some (opf_metadata u p) ]
      else none

  unfoldable pub upsert_known : PurePath → Text → Option File → Session → W → Upsert
  unfolding update_file upsert_new opf_of identity_of parse_book_filename path_name
  upsert_known path sha (some f) s w = update_file f sha (fs.size path w) s w
  upsert_known path sha none s w =
      upsert_new path sha (identity_of u (opf_of path w) (parse_book_filename u (path_name path))) s
        w

  abbrev pub find_file : PurePath → Session → Option File
  find_file path s = find (λ f. text_eq f.path (path_text path)) s.files

  unfoldable pub upsert_hashed : PurePath → Result Raised Text → Session → W → Upsert
  unfolding upsert_known
  upsert_hashed path (err e) s w = (err e, s, w)
  upsert_hashed path (ok sha) s w = upsert_known path sha (find_file path s) s w

  unfoldable pub upsert_file : PurePath → Session → W → Upsert
  unfolding upsert_hashed
  upsert_file path s w = upsert_hashed path (fs.sha256 path w) s w

  unfoldable pub count_upsert : Result Raised Bool → ScanResult → ScanResult
  count_upsert (err e) r = record r { errors = r.errors + 1 }
  count_upsert (ok true) r = record r { files_added = r.files_added + 1 }
  count_upsert (ok false) r = record r { files_updated = r.files_updated + 1 }

  abbrev pub is_scanned : PurePath → W → Bool
  is_scanned path w =
      fs.is_file path w
      && (mem_text (extension_of u path) ebook_extensions
          && mem_text (extension_of u path) strong_extensions)

  -- The body of the loop.
  unfoldable pub scan_path : PurePath → ScanResult × Session × W → ScanResult × Session × W
  unfolding upsert_file count_upsert
  scan_path path (r, s, w) =
      if is_scanned path w
      then (let (result, s', w') = upsert_file path s w in
          (count_upsert result (record r { files_found = r.files_found + 1 }), s', w'))
      else (r, s, w)

  unfoldable pub scan_paths : List PurePath → ScanResult × Session × W → ScanResult × Session × W
  unfolding scan_path
  scan_paths [] state = state
  scan_paths (path ∷ paths) state = scan_paths paths (scan_path path state)

  abbrev pub no_result : ScanResult
  no_result = record { files_found = 0; files_added = 0; files_updated = 0; errors = 0 }

  unfoldable pub scan_library : PurePath → Session → W → ScanResult × Session × W
  unfolding scan_paths sort_by path_lt
  scan_library root s w =
      if fs.is_dir root w
      then scan_paths (sort_by path_lt (fs.rglob root w)) (no_result, s, w)
      else (no_result, s, w)
