-- ===== src/Fts.antt =====
-- src/libarr/fts.py: the row of the full-text index for a book.
use libarr.Prelude.{ℕ, Text, codes, or_empty, Option, none, some, [], map, get_row}
use libarr.Prelude.{join, sort_by, text_lt}
use libarr.Models.{Book, Session, Subject}
use libarr.Relations.{author_of, subjects_of, book_id}
use libarr.Import.Disk.{Command}

pub record FtsRow : Type 0 where
  pub id : ℕ
  pub title : Text
  pub author : Text
  pub description : Text
  pub subjects : Text

unfoldable pub fts_row : Session → Book → FtsRow
unfolding sort_by text_lt join
fts_row s book = record {
  id = book.id;
  title = book.title;
  author = elim (author_of book s) [ none ↦ [] | some a ↦ a.name ];
  description = or_empty book.description;
  subjects =
      join (codes ", ") (sort_by text_lt (map (λ (t : Subject). t.name) (subjects_of book s)));
}

-- `write` replaces the row of `book_fts` with the id.
module _ {W : Type 0} (write : FtsRow → Command W) where
  unfoldable pub reindex_found : Option Book → Session → Command W
  unfolding fts_row
  reindex_found none s w = (none, w)
  reindex_found (some book) s w = write (fts_row s book) w

  unfoldable pub reindex_book : ℕ → Session → Command W
  unfolding reindex_found
  reindex_book k s w = reindex_found (get_row book_id k s.books) s w
