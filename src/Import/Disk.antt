-- ===== src/Import/Disk.antt =====
-- src/libarr/acquisition/import_pipeline.py: the files that a download left, and the unpacking of the
-- archives among them.
use libarr.Prelude.{
  ℕ, Text, codes, text_eq, mem_text, Bool, not, ◌||◌, Option, none, some, List, [], ◌∷◌, ◌++◌, find,
  Result, ok, err, if◌then◌else◌, is_some,
}
use libarr.Python.{Unicode}
use libarr.Python.Paths.{PurePath, to_path, path_join, path_name, path_suffix, relative_to}
use libarr.Epub.{Package}

-- The exceptions that the pipeline tells apart: an `OSError`, a broken archive, any other.
pub data Raised : Type 0 where
  os_error bad_archive other : Text → Raised

-- `str(exc)`
unfoldable pub message_of : Raised → Text
message_of (os_error m) = m
message_of (bad_archive m) = m
message_of (other m) = m

-- A call that returns nothing or raises.
abbrev pub Command : Type 0 → Type 0
Command W = W → Option Raised × W

-- The file system, `zipfile`, `tarfile`, `hashlib`, and Apprise.
pub record Files (W : Type 0) : Type 0 where
  pub rglob : PurePath → W → List PurePath
  pub is_file : PurePath → W → Bool
  pub is_dir : PurePath → W → Bool
  pub exists : PurePath → W → Bool
  pub resolve : PurePath → W → PurePath
  pub mkdir : PurePath → Command W
  pub zip_members : PurePath → W → Result Raised (List Text)
  pub extract_zip : PurePath → PurePath → Command W
  -- `tarfile`'s `extractall`, with `filter="data"` and without a filter.
  pub extract_tar_data : PurePath → PurePath → Command W
  pub extract_tar : PurePath → PurePath → Command W
  pub is_type_error : Raised → Bool
  pub link : PurePath → PurePath → Command W
  pub copy : PurePath → PurePath → Command W
  pub move : PurePath → PurePath → Command W
  pub size : PurePath → W → Result Raised ℕ
  pub sha256 : PurePath → W → Result Raised Text
  -- `none` where the archive or a document in it cannot be read.
  pub opf_package : PurePath → W → Option Package
  pub send : List Text → Text → Text → W → Bool × W

unfoldable pub ebook_extensions : List Text
unfolding codes
ebook_extensions =
    codes ".epub"
    ∷ codes ".pdf"
    ∷ codes ".mobi"
    ∷ codes ".azw3"
    ∷ codes ".fb2"
    ∷ codes ".m4b"
    ∷ codes ".mp3"
    ∷ []

unfoldable pub archive_extensions : List Text
unfolding codes
archive_extensions = codes ".zip" ∷ codes ".tar" ∷ codes ".gz" ∷ codes ".bz2" ∷ []

module _ {W : Type 0} (u : Unicode) (fs : Files W) where
  -- `dest.is_relative_to(target.resolve())`
  unfoldable pub is_inside : PurePath → W → Text → Bool
  unfolding relative_to
  is_inside target w member =
      is_some (relative_to (fs.resolve target w) (fs.resolve (path_join target (to_path member)) w))

  -- With the first member whose path leaves the target.
  unfoldable pub extract_unless : PurePath → PurePath → Option Text → Command W
  extract_unless archive target (some m) w =
      (some (bad_archive (codes "unsafe member path: " ++ m)), w)
  extract_unless archive target none w = fs.extract_zip archive target w

  unfoldable pub extract_if_safe : PurePath → PurePath → Result Raised (List Text) → Command W
  unfolding extract_unless
  extract_if_safe archive target (err e) w = (some e, w)
  extract_if_safe archive target (ok members) w =
      extract_unless archive target (find (λ m. not (is_inside target w m)) members) w

  -- `_safe_extract_zip`
  unfoldable pub safe_extract_zip : PurePath → PurePath → Command W
  unfolding extract_if_safe
  safe_extract_zip archive target w = extract_if_safe archive target (fs.zip_members archive w) w

  -- A Python whose `tarfile` knows no filters raises a `TypeError`.
  abbrev pub or_unfiltered : PurePath → PurePath → Option Raised × W → Option Raised × W
  or_unfiltered archive target (none, w) = (none, w)
  or_unfiltered archive target (some e, w) =
      if fs.is_type_error e then fs.extract_tar archive target w else (some e, w)

  -- `_safe_extract_tar`
  abbrev pub safe_extract_tar : PurePath → PurePath → Command W
  safe_extract_tar archive target w =
      or_unfiltered archive target (fs.extract_tar_data archive target w)

  -- A broken archive is passed over.
  unfoldable pub after_extract : Option Raised × W → Option Raised × W
  after_extract (none, w) = (none, w)
  after_extract (some (os_error m), w) = (none, w)
  after_extract (some (bad_archive m), w) = (none, w)
  after_extract (some (other m), w) = (some (other m), w)

  unfoldable pub extract_into : PurePath → PurePath → Option Raised × W → Option Raised × W
  unfolding after_extract safe_extract_zip
  extract_into archive target (some e, w) = (some e, w)
  extract_into archive target (none, w) = after_extract (
      if text_eq (u.lower (path_suffix archive)) (codes ".zip")
      then safe_extract_zip archive target w
      else safe_extract_tar archive target w)

  -- The body of the loop of `_expand_archives`.
  unfoldable pub expand_archive : PurePath → PurePath → Command W
  unfolding extract_into archive_extensions mem_text
  expand_archive root archive w =
      let target = path_join root (to_path (path_name archive ++ codes ".unpacked")) in
      if not (fs.is_file archive w)
        || not (mem_text (u.lower (path_suffix archive)) archive_extensions)
      then (none, w)
      else if fs.exists target w
      then (none, w)
      else extract_into archive target (fs.mkdir target w)

  unfoldable pub then_do : Option Raised × W → Command W → Option Raised × W
  then_do (some e, w) next = (some e, w)
  then_do (none, w) next = next w

  -- `_expand_archives`
  unfoldable pub expand_archives : PurePath → List PurePath → Command W
  unfolding then_do expand_archive
  expand_archives root [] w = (none, w)
  expand_archives root (archive ∷ more) w =
      then_do (expand_archive root archive w) (λ w'. expand_archives root more w')
