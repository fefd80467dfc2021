-- ===== src/Import/Tests.antt =====
-- An import of one file into an empty library.
use libarr.Prelude.{
  HasDistinctKeys, ◌⊎◌, ℕ, Text, codes, text_eq, ◌≡◌, refl, true, false, none, some, List, [], ◌∷◌,
  get_row, err,
}
use libarr.Prelude.{lower_ascii, is_prefix, join}
use libarr.Python.{ascii}
use libarr.Python.Paths.{to_path, path_text, path_join, relative_to}
use libarr.Models.{QueueItem, Session, importing}
use libarr.Clients.{ClientItem, ClientStatus}
use libarr.Samples.{empty_session, sample_book, sample_item, sample_author}
use libarr.Watch.{Cycle, complete_item}
use libarr.Watch.Hooks.{HookLaw}
use libarr.Import.Samples.{disk, settings}
use libarr.Import.Disk.{other, safe_extract_zip, is_inside}
use libarr.Import.Locate.{mapped_path}
use libarr.Import.Naming.{render_template, sanitize_segment, collapse, fill_in}
use libarr.Import.{default_import_hook, import_download}
use libarr.Import.Settled.{IsSettled, import_download-IsSettled}
use libarr.Import.Laws.{default_import_hook-HookLaw}
use libarr.Import.Finished.{path, IsOver, complete_item-IsOver}
use libarr.Import.Safe.{IsRefused, IsExtracted, safe_extract_zip-IsExtracted}

abbrev arrived : ClientItem
arrived = record {
  id = codes "u";
  name = [];
  status = ClientStatus.complete;
  progress = 100;
  size_bytes = none;
  save_path = some (codes "/downloads");
}

abbrev item : QueueItem
item = record (sample_item 1 false) { status = importing; book_id = 4 }

abbrev before : Session
before = record empty_session {
  books = record (sample_book 4 (codes "Dune")) { author_id = some 1 } ∷ [];
  authors = sample_author 1 (codes "Frank Herbert") ∷ [];
  queue = item ∷ [];
}

-- The default template keeps the word that stands for a missing series.
abbrev with_series : Text
with_series = codes "{Author Name}/{Series} - {Book Title}.{Extension}"

rendered_without_series :
    path_text (
      render_template ascii with_series
        (some (codes "A"))
        none
        (some (codes "T"))
        none
        (some (codes "epub")))
    ≡ codes "A/Unknown - T.epub"
unfolding render_template codes path_text to_path sanitize_segment collapse fill_in lower_ascii
    is_prefix join
rendered_without_series = refl

import_download-IsSettled_example :
    IsSettled item before (import_download ascii disk settings item arrived before 0)
import_download-IsSettled_example =
    import_download-IsSettled ascii disk settings item arrived before 0

default_import_hook-HookLaw_example : HookLaw (default_import_hook ascii disk settings)
default_import_hook-HookLaw_example = default_import_hook-HookLaw ascii disk settings

abbrev cycle : Cycle ℕ
cycle = record {
  session = before;
  world = 0;
  stats = record { grabbed = 0; completed = 0; failures = 0 };
}

complete_item-IsOver_example :
    IsOver 1 (complete_item (some (default_import_hook ascii disk settings)) 1 arrived cycle)
    × HasDistinctKeys path
        (complete_item
          (some (default_import_hook ascii disk settings))
          1
          arrived
          cycle).session.files
complete_item-IsOver_example =
    complete_item-IsOver ascii disk settings 1 arrived cycle item (unfold get_row in refl) tt
      (λ dest linked e. refl)

-- A zip with one member is handed over, in a world that counts the calls.
zip_extracted :
    safe_extract_zip ascii disk (to_path (codes "a.zip")) (to_path (codes "lib/a")) 0 ≡ (none, 1)
unfolding safe_extract_zip is_inside relative_to path_join to_path codes is_prefix text_eq
zip_extracted = refl

safe_extract_zip-IsExtracted_example :
    IsRefused ascii disk 0
      (safe_extract_zip ascii disk (to_path (codes "a.zip")) (to_path (codes "lib/a")) 0)
    ⊎ ((members : List Text) × IsExtracted ascii disk
          (to_path (codes "a.zip"))
          (to_path (codes "lib/a"))
          0
          (safe_extract_zip ascii disk (to_path (codes "a.zip")) (to_path (codes "lib/a")) 0)
          members)
safe_extract_zip-IsExtracted_example =
    safe_extract_zip-IsExtracted ascii disk (to_path (codes "a.zip")) (to_path (codes "lib/a")) 0

-- A save path that only begins like the remote path makes the mapping raise.
mapped_beside :
    mapped_path ascii disk (codes "/downloads2/x") (
      some (record (libarr.Samples.sample_client 1 (codes "deluge") true) {
        remote_path = some (codes "/downloads");
        local_path = some (codes "/data");
      }))
    ≡ err (other (codes "not in the subpath"))
unfolding mapped_path codes text_eq
mapped_beside = refl
