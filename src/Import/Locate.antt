-- ===== src/Import/Locate.antt =====
-- src/libarr/acquisition/import_pipeline.py: the file of a download that is imported, and the check
-- that it is the queued book.
use libarr.Prelude.{
  Text, codes, text_eq, or_empty, truthy, mem_text, Bool, true, false, ◌&&◌, ◌||◌, Option, none,
  some, List, [], ◌∷◌, select, find, Result, ok, err, if◌then◌else◌, or_else,
}
use libarr.Prelude.{is_prefix, sort_by}
use libarr.Python.{Unicode}
use libarr.Python.Paths.{
  PurePath, to_path, path_text, path_join, path_name, path_suffix, relative_to, path_lt,
}
use libarr.Models.{Book, Author, DownloadClientRow, Session}
use libarr.Clients.{ClientItem}
use libarr.Parser.{ParsedName, parse_book_filename}
use libarr.Candidates.{normalize_release_title}
use libarr.Normalize.{normalize_text}
use libarr.Epub.{Package, opf_metadata}
use libarr.Relations.{author_of}
use libarr.Import.Disk.{Raised, other, Files, ebook_extensions, expand_archives}

module _ {W : Type 0} (u : Unicode) (fs : Files W) where
  abbrev is_ebook : W → PurePath → Bool
  is_ebook w p = fs.is_file p w && mem_text (u.lower (path_suffix p)) ebook_extensions

  -- The remote path mapping. `relative_to` raises where the one path only begins like the other.
  unfoldable pub mapped_path : Text → Option DownloadClientRow → Result Raised Text
  unfolding relative_to path_text path_join to_path is_prefix
  mapped_path save none = ok save
  mapped_path save (some row) =
      if truthy row.remote_path && is_prefix (or_empty row.remote_path) save
      then elim (relative_to (to_path (or_empty row.remote_path)) (to_path save)) [
        | none ↦ err (other (codes "not in the subpath"))
        | some rest ↦ ok (path_text (path_join (to_path (or_empty row.local_path)) rest))
      ]
      else ok save

  unfoldable pub ebooks_below : PurePath → Option Raised × W → Result Raised (List PurePath) × W
  unfolding sort_by path_lt ebook_extensions mem_text
  ebooks_below root (some e, w) = (err e, w)
  ebooks_below root (none, w) = (ok (sort_by path_lt (select (is_ebook w) (fs.rglob root w))), w)

  unfoldable pub locate_mapped : Result Raised Text → W → Result Raised (List PurePath) × W
  unfolding ebooks_below expand_archives
  locate_mapped (err e) w = (err e, w)
  locate_mapped (ok save) w =
      let root = to_path save in
      if fs.is_dir root w
      then ebooks_below root (expand_archives u fs root (fs.rglob root w) w)
      else (ok [], w)

  -- `_locate_files`
  unfoldable pub locate_files :
      ClientItem → Option DownloadClientRow → W → Result Raised (List PurePath) × W
  unfolding mapped_path locate_mapped
  locate_files item row w = locate_mapped (mapped_path (or_empty item.save_path) row) w

  -- `_pick_file`, of the files that were found.
  unfoldable pub pick_file : PurePath → List PurePath → Option Text → PurePath
  pick_file first more preferred =
      if truthy preferred
      then or_else first (
          find (λ p. text_eq (u.lower (path_suffix p)) (b'.' ∷ u.lower (or_empty preferred)))
            (first ∷ more))
      else first

  abbrev same_text : Text → Text → Bool
  same_text s t = text_eq (normalize_text u s) (normalize_text u t)

  unfoldable pub opf_agrees : Book → Option Package → Bool
  unfolding opf_metadata
  opf_agrees book none = false
  opf_agrees book (some p) = same_text (or_empty (opf_metadata u p).title) book.title

  unfoldable pub author_agrees : Option Text → Option Author → Bool
  author_agrees parsed none = false
  author_agrees parsed (some author) = truthy parsed && same_text (or_empty parsed) author.name

  unfoldable pub name_agrees : Session → Book → PurePath → W → Option ParsedName → Bool
  unfolding opf_agrees author_agrees
  name_agrees s book src w none = true
  name_agrees s book src w (some parsed) =
      if truthy parsed.title
      then same_text (or_empty parsed.title) book.title
        || (text_eq (u.lower (path_suffix src)) (codes ".epub")
            && opf_agrees book (fs.opf_package src w))
        || author_agrees parsed.author (author_of book s)
      else true

  abbrev pub parsed_src : PurePath → Option ParsedName
  parsed_src src = parse_book_filename u (normalize_release_title u (path_name src))

  -- `_verify`
  unfoldable pub verify : Session → Book → PurePath → W → Bool
  unfolding name_agrees
  verify s book src w = name_agrees s book src w (parsed_src src)
