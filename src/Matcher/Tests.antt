-- ===== src/Matcher/Tests.antt =====
-- Matches in a library of two books.
use libarr.Prelude.{
  ℕ, Text, codes, text_eq, mem_text, ◌≡◌, refl, none, some, List, [], ◌∷◌, map, get_row, ok,
}
use libarr.Prelude.{lower_ascii, join}
use libarr.Python.{ascii, words}
use libarr.Models.{Book, Edition, Session}
use libarr.Samples.{empty_session, sample_book, sample_author}
use libarr.Relations.{book_id}
use libarr.Normalize.{
  normalize_text, normalize_isbn, normalize_digits, isbn_digits, from_isbn13, isbn13_valid,
  weighted,
}
use libarr.Matcher.{
  stopwords, overlap, distinct_texts, books_by, iter_books, exact_match, stripped_match,
  strip_edition_keywords, token_match, fts_match, best_match, better, score_of_book, first_found,
  match_title, match_book,
}
use libarr.Parser.{edition_keywords}
use libarr.Matcher.Exact.{match_book-of_isbn}

abbrev by_herbert : ℕ → Text → Book
by_herbert id title = record (sample_book id title) { author_id = some 1 }

abbrev edition : Edition
edition = record {
  id = 3;
  book_id = 5;
  isbn13 = some (codes "9780061120084");
  isbn10 = none;
  publisher = none;
  published_at = none;
  format = none;
  page_count = none;
  ol_edition_key = none;
  google_volume_id = none;
  metadata_json = none;
}

abbrev shelf : Session
shelf = record empty_session {
  authors = sample_author 1 (codes "Frank Herbert") ∷ [];
  books = by_herbert 4 (codes "Dune Messiah") ∷ by_herbert 5 (codes "Dune") ∷ [];
  editions = edition ∷ [];
}

-- A full-text index that finds every book.
abbrev all_books : List Text → Session → List ℕ
all_books tokens s = map book_id s.books

matched_by_words :
    match_title ascii all_books shelf (codes "Messiah of Dune, retold") none
    ≡ some (by_herbert 4 (codes "Dune Messiah"))
unfolding match_title exact_match stripped_match strip_edition_keywords token_match fts_match
    best_match better score_of_book overlap distinct_texts iter_books books_by normalize_text codes
    text_eq lower_ascii first_found stopwords words get_row edition_keywords mem_text join
matched_by_words = refl

match_book-of_isbn_example :
    match_book ascii all_books shelf (codes "x") none (some (codes "9780061120084"))
    ≡ ok (get_row book_id 5 shelf.books)
match_book-of_isbn_example =
    match_book-of_isbn ascii all_books shelf (codes "x") none (codes "9780061120084")
      (codes "9780061120084") edition (unfold codes in refl)
      (unfold normalize_isbn normalize_digits isbn_digits from_isbn13 isbn13_valid weighted codes in
        refl)
      (unfold text_eq codes in refl)
