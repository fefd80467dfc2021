-- ===== src/Scan/Tests.antt =====
-- A scan of one EPUB, twice.
use libarr.Scan.Rows.{extension_of}
use libarr.Prelude.{ℕ, ◌+◌, codes, mem_text, ◌≡◌, refl, none, [], ◌∷◌, get_row, next_id}
use libarr.Prelude.{is_prefix}
use libarr.Python.{ascii}
use libarr.Python.Paths.{PurePath, to_path, path_join}
use libarr.Models.{Session}
use libarr.Samples.{empty_session}
use libarr.Fts.{FtsRow}
use libarr.Import.Samples.{disk}
use libarr.Import.Disk.{Command, Files}
use libarr.Scan.{ScanResult, scan_library}
use libarr.Scan.Distinct.{IsScan, scan_library-IsScan}

abbrev shelf : Files ℕ
shelf = record disk {
  rglob = λ p w. path_join p (to_path (codes "Dune - Frank Herbert.epub")) ∷ [];
}

abbrev write : FtsRow → Command ℕ
write row w = (none, w + 1)

abbrev root : PurePath
root = to_path (codes "/books")

abbrev once : ScanResult × Session × ℕ
once = scan_library ascii shelf write root empty_session 0

counted_once :
    (once.0.files_added ≡ 1) × ((scan_library ascii shelf write root once.1 0).0.files_updated ≡ 1)
unfolding scan_library mem_text extension_of path_join to_path is_prefix get_row next_id
counted_once = (refl, refl)

scan_library-IsScan_example : IsScan ascii shelf write once
scan_library-IsScan_example = scan_library-IsScan ascii shelf write root empty_session 0 tt
