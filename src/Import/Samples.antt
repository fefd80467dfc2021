-- ===== src/Import/Samples.antt =====
-- A disk and settings for the tests.
use libarr.Prelude.{ℕ, ◌+◌, codes, true, false, none, [], ◌∷◌, ok}
use libarr.Python.Paths.{to_path, path_join}
use libarr.Notify.{Settings}
use libarr.Import.Disk.{Files}

-- One file in one folder. The world counts what was written.
abbrev pub disk : Files ℕ
disk = record {
  rglob = λ p w. path_join p (to_path (codes "Dune.epub")) ∷ [];
  is_file = λ p w. true;
  is_dir = λ p w. true;
  exists = λ p w. false;
  resolve = λ p w. p;
  mkdir = λ p w. (none, w + 1);
  zip_members = λ p w. ok (codes "a/b.epub" ∷ []);
  extract_zip = λ p q w. (none, w + 1);
  extract_tar_data = λ p q w. (none, w + 1);
  extract_tar = λ p q w. (none, w + 1);
  is_type_error = λ e. false;
  link = λ p q w. (none, w + 1);
  copy = λ p q w. (none, w + 1);
  move = λ p q w. (none, w + 1);
  size = λ p w. ok 7;
  sha256 = λ p w. ok (codes "d");
  opf_package = λ p w. none;
  send = λ services title body w. (true, w + 1);
}

abbrev pub settings : Settings
settings = record {
  apprise_urls = [];
  library_dir = codes "lib";
  import_template = codes "{Author Name}/{Book Title}.{Extension}";
  import_mode = codes "hardlink";
  conversion_out_dir = [];
}
