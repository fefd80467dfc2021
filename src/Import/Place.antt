-- ===== src/Import/Place.antt =====
-- src/libarr/acquisition/import_pipeline.py: the file is linked, copied or moved into the library.
use libarr.Prelude.{
  Text, codes, text_eq, Bool, true, false, Option, none, some, Result, ok, err, if◌then◌else◌,
}
use libarr.Python.{Unicode}
use libarr.Python.Paths.{PurePath, path_parent}
use libarr.Notify.{Settings}
use libarr.Import.Disk.{Raised, os_error, bad_archive, other, Files}

module _ {W : Type 0} (u : Unicode) (fs : Files W) (settings : Settings) where
  -- An `OSError` is caught: it is the text of `err`. Anything else is raised.
  unfoldable pub caught : Bool → Option Raised × W → Result Raised (Result Text Bool) × W
  caught linked (none, w) = (ok (ok linked), w)
  caught linked (some (os_error m), w) = (ok (err m), w)
  caught linked (some (bad_archive m), w) = (err (bad_archive m), w)
  caught linked (some (other m), w) = (err (other m), w)

  unfoldable pub link_or_copy :
      PurePath → PurePath → Option Raised × W → Result Raised (Result Text Bool) × W
  unfolding caught
  link_or_copy src dest (some (os_error m), w) = caught false (fs.copy src dest w)
  link_or_copy src dest (other_outcome, w) = caught true (other_outcome, w)

  unfoldable pub place_in :
      PurePath → PurePath → Option Raised × W → Result Raised (Result Text Bool) × W
  unfolding caught link_or_copy
  place_in src dest (some e, w) = caught false (some e, w)
  place_in src dest (none, w) =
      if text_eq settings.import_mode (codes "hardlink")
      then link_or_copy src dest (fs.link src dest w)
      else if text_eq settings.import_mode (codes "copy")
      then caught false (fs.copy src dest w)
      else caught false (fs.move src dest w)

  -- The `try` around the link, the copy or the move.
  unfoldable pub place_file : PurePath → PurePath → W → Result Raised (Result Text Bool) × W
  unfolding place_in
  place_file src dest w = place_in src dest (fs.mkdir (path_parent dest) w)
