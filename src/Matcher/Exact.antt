-- ===== src/Matcher/Exact.antt =====
-- src/libarr/metadata/matcher.py: the passes by exact title and by ISBN.
use libarr.Prelude.{
  ℕ, Text, opt_eq, is_empty, ◌≡◌, refl, false, Option, some, List, get_row, find, ok,
}
use libarr.Python.{Unicode}
use libarr.Models.{Edition, Session}
use libarr.Relations.{book_id}
use libarr.Normalize.{normalize_isbn}
use libarr.Matcher.{match_isbn, match_isbn13, match_book}

module _ (u : Unicode) (fts : List Text → Session → List ℕ) (s : Session) where
  -- The ISBN is the canonical key: where it is one of an edition of the library, the match is the
  -- book of that edition, whatever the title and the author are.
  pub match_book-of_isbn :
      (title : Text) (author : Option Text) (isbn isbn13 : Text) (edition : Edition)
      → is_empty isbn ≡ false
      → normalize_isbn (some isbn) ≡ ok (some isbn13)
      → find (λ e. opt_eq e.isbn13 isbn13) s.editions ≡ some edition
      → match_book u fts s title author (some isbn) ≡ ok (get_row book_id edition.book_id s.books)
  unfolding match_book match_isbn match_isbn13
  match_book-of_isbn title author isbn isbn13 edition filled valid found =
      rw (filled, valid, found) refl
