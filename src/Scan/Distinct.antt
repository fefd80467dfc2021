-- ===== src/Scan/Distinct.antt =====
-- src/libarr/acquisition/library_scan.py: the paths and the counters of a scan.
use libarr.Prelude.{
  ℕ, ◌+◌, Text, text_eq, or_empty, truthy, ◌≡◌, refl, sym, ap, subst, ◌∙◌, Bool, true, false,
  Option, none, some, List, [], ◌∷◌, ◌++◌, arith, find, Result, ok, err,
}
use libarr.Prelude.{
  sort_by, HasDistinctKeys, append-HasDistinctKeys, update_row-HasDistinctKeys, if-ind,
}
use libarr.Python.{Unicode}
use libarr.Python.Paths.{PurePath, path_text, path_name, path_lt}
use libarr.Models.{Author, Book, Edition, File, Session}
use libarr.Parser.{parse_book_filename}
use libarr.Fts.{FtsRow}
use libarr.Import.Disk.{Raised, Command, Files}
use libarr.Normalize.{normalize_isbn}
use libarr.Scan.Rows.{
  Identity, author_found, upsert_author, author_of_file, book_found, edition_found, upsert_edition,
  place_of, new_file, identity_of, extension_of, file_id,
}
use libarr.Scan.{
  is_scanned, reindexed, ScanResult, add_file, upsert_isbn, upsert_new, update_file, upsert_known,
  find_file, upsert_hashed, upsert_file, scan_path, scan_paths, scan_library, count_upsert, opf_of,
  Upsert, no_result,
}

abbrev pub path_of : File → Text
path_of f = f.path

module _ (u : Unicode) where
  author_found-files :
      (name : Text) (found : Option Author) (s : Session)
      → (author_found u name found s).1.files ≡ s.files
  unfolding author_found
  author_found-files name none s = refl
  author_found-files name (some a) s = refl

  author_of_file-files :
      (name : Option Text) (s : Session) → (author_of_file u name s).1.files ≡ s.files
  unfolding author_of_file upsert_author
  author_of_file-files name s =
      if-ind (λ (r : Option ℕ × Session). r.1.files ≡ s.files) (truthy name)
        (author_found-files (or_empty name) _ s) refl

  book_found-files :
      (found : Option Book) (author : Option ℕ) (title : Text) (year : Option ℕ)
      (language : Option Text) (s : Session)
      → (book_found u found author title year language s).1.files ≡ s.files
  unfolding book_found
  book_found-files none author title year language s = refl
  book_found-files (some b) author title year language s = refl

  edition_found-files :
      (found : Option Edition) (book : Book) (isbn : Option Text) (fmt : Text) (s : Session)
      → (edition_found u found book isbn fmt s).1.files ≡ s.files
  unfolding edition_found
  edition_found-files none book isbn fmt s = refl
  edition_found-files (some e) book isbn fmt s = refl

  place_of-files :
      (path : PurePath) (identity : Identity) (isbn : Option Text) (s : Session)
      → (place_of u path identity isbn s).2.files ≡ s.files
  unfolding place_of upsert_edition
  place_of-files path identity isbn s =
      edition_found-files _ _ isbn (extension_of u path) _
      ∙ (book_found-files _ _ (or_empty identity.title) identity.year identity.language _
          ∙ author_of_file-files identity.author s)

  module _ {W : Type 0} (fs : Files W) (write : FtsRow → Command W) where
    abbrev pub IsUnique : Session → Type 0
    IsUnique s = HasDistinctKeys path_of s.files

    reindexed-IsUnique :
        (s : Session) (o : Option Raised × W) → IsUnique s → IsUnique (reindexed u fs write s o).1
    reindexed-IsUnique s (none, w) h = h
    reindexed-IsUnique s (some e, w) h = h

    add_file-IsUnique :
        (path : PurePath) (sha : Text) (book edition : ℕ) (s : Session) (size : Result Raised ℕ)
        (w : W)
        → IsUnique s
        → find_file u fs write path s ≡ none
        → IsUnique (add_file u fs write path sha (book, edition, s) size w).1
    unfolding add_file
    add_file-IsUnique path sha book edition s (err e) w h fresh = h
    add_file-IsUnique path sha book edition s (ok size) w h fresh =
        reindexed-IsUnique (record s { files = s.files ++ new_file u edition path size sha s ∷ [] })
          _ (append-HasDistinctKeys path_of s.files (new_file u edition path size sha s) h fresh)

    module _ (path : PurePath) (s : Session) (h : IsUnique s) where
      upsert_isbn-IsUnique :
          (sha : Text) (identity : Identity) (isbn : Result Text (Option Text)) (w : W)
          → find_file u fs write path s ≡ none
          → IsUnique (upsert_isbn u fs write path sha identity isbn s w).1
      unfolding upsert_isbn
      upsert_isbn-IsUnique sha identity (err m) w fresh = h
      upsert_isbn-IsUnique sha identity (ok isbn) w fresh =
          let same = place_of-files path identity isbn s in
          add_file-IsUnique path sha _ _ (place_of u path identity isbn s).2 (fs.size path w) w
            (subst (HasDistinctKeys path_of) (sym same) h)
            (ap (find (λ f. text_eq f.path (path_text path))) same ∙ fresh)

      upsert_new-IsUnique :
          (sha : Text) (identity : Identity) (w : W)
          → find_file u fs write path s ≡ none
          → IsUnique (upsert_new u fs write path sha identity s w).1
      unfolding upsert_new
      upsert_new-IsUnique sha identity w fresh =
          if-ind (λ (o : Upsert u fs write). IsUnique o.1) (truthy identity.title)
            (upsert_isbn-IsUnique sha identity (normalize_isbn identity.isbn) w fresh) h

      update_file-IsUnique :
          (f : File) (sha : Text) (size : Result Raised ℕ) (w : W)
          → IsUnique (update_file u fs write f sha size s w).1
      unfolding update_file
      update_file-IsUnique f sha (err e) w =
          update_row-HasDistinctKeys path_of file_id f.id _ (λ x. refl) s.files h
      update_file-IsUnique f sha (ok size) w =
          update_row-HasDistinctKeys path_of file_id f.id _ (λ x. refl) s.files h

      upsert_known-IsUnique :
          (sha : Text) (found : Option File) (w : W)
          → find_file u fs write path s ≡ found
          → IsUnique (upsert_known u fs write path sha found s w).1
      unfolding upsert_known
      upsert_known-IsUnique sha (some f) w e = update_file-IsUnique f sha (fs.size path w) w
      upsert_known-IsUnique sha none w e =
          upsert_new-IsUnique sha
            (identity_of u (opf_of u fs write path w) (parse_book_filename u (path_name path))) w e

      upsert_hashed-IsUnique :
          (sha : Result Raised Text) (w : W) → IsUnique (upsert_hashed u fs write path sha s w).1
      unfolding upsert_hashed
      upsert_hashed-IsUnique (err e) w = h
      upsert_hashed-IsUnique (ok sha) w =
          upsert_known-IsUnique sha (find_file u fs write path s) w refl

    -- Every file that was found is counted once more.
    abbrev pub IsTallied : ScanResult → Type 0
    IsTallied r = r.files_found ≡ r.files_added + r.files_updated + r.errors

    count_upsert-IsTallied :
        (o : Result Raised Bool) (r : ScanResult)
        → IsTallied r
        → IsTallied (count_upsert u fs write o (record r { files_found = r.files_found + 1 }))
    unfolding count_upsert
    count_upsert-IsTallied (err e) r h = omega (arith, h)
    count_upsert-IsTallied (ok true) r h = omega (arith, h)
    count_upsert-IsTallied (ok false) r h = omega (arith, h)

    abbrev pub IsScan : ScanResult × Session × W → Type 0
    IsScan state = IsTallied state.0 × HasDistinctKeys path_of state.1.files

    scan_path-IsScan :
        (path : PurePath) (r : ScanResult) (s : Session) (w : W)
        → IsScan (r, s, w)
        → IsScan (scan_path u fs write path (r, s, w))
    unfolding scan_path upsert_file
    scan_path-IsScan path r s w (tally, unique) =
        if-ind IsScan (is_scanned u fs write path w)
          (
            count_upsert-IsTallied (upsert_hashed u fs write path (fs.sha256 path w) s w).0 r tally,
            upsert_hashed-IsUnique path s unique (fs.sha256 path w) w,
          )
          (tally, unique)

    scan_paths-IsScan :
        (paths : List PurePath) (state : ScanResult × Session × W)
        → IsScan state
        → IsScan (scan_paths u fs write paths state)
    unfolding scan_paths
    scan_paths-IsScan [] state h = h
    scan_paths-IsScan (path ∷ paths) (r, s, w) h =
        scan_paths-IsScan paths (scan_path u fs write path (r, s, w))
          (scan_path-IsScan path r s w h)

    -- Where no two files of the table have one path, none have after a scan, whatever the disk
    -- holds and whichever calls raise; and the files that the scan found are those that it added,
    -- those that it did not add, and those that raised.
    pub scan_library-IsScan :
        (root : PurePath) (s : Session) (w : W)
        → HasDistinctKeys path_of s.files
        → IsScan (scan_library u fs write root s w)
    unfolding scan_library
    scan_library-IsScan root s w h =
        if-ind IsScan (fs.is_dir root w) {no_ = (no_result u fs write, s, w)}
          (scan_paths-IsScan (sort_by path_lt (fs.rglob root w)) (no_result u fs write, s, w)
            (refl, h))
          (refl, h)
