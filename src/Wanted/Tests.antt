-- ===== src/Wanted/Tests.antt =====
-- A book with a PDF and an EPUB file.
use libarr.Prelude.{upper_ascii, ℕ, ◌≤◌, Text, codes, ◌≡◌, refl, none, some, [], ◌∷◌, All}
use libarr.Python.{ascii}
use libarr.Models.{Edition, File, Session}
use libarr.Samples.{empty_session, sample_book}
use libarr.Prelude.{List}
use libarr.Quality.{format_score}
use libarr.Wanted.{
  formats_of, max_format, best_format, best_imported_format, is_missing, wanted_missing,
}
use libarr.Wanted.Formats.{score_of_format, best_imported_format-greatest}

abbrev edition : Edition
edition = record {
  id = 3;
  book_id = 1;
  isbn13 = none;
  isbn10 = none;
  publisher = none;
  published_at = none;
  format = none;
  page_count = none;
  ol_edition_key = none;
  google_volume_id = none;
  metadata_json = none;
}

abbrev file : ℕ → Text → File
file id format = record {
  id = id;
  edition_id = some 3;
  path = codes "f";
  format = format;
  size_bytes = 1;
  sha256 = codes "h";
}

abbrev session : Session
session = record empty_session {
  books = sample_book 1 (codes "A") ∷ sample_book 2 (codes "B") ∷ [];
  editions = edition ∷ [];
  files = file 1 (codes "PDF") ∷ file 2 (codes "EPUB") ∷ [];
}

best_is_epub : best_imported_format ascii session (sample_book 1 (codes "A")) ≡ some (codes "EPUB")
unfolding best_imported_format best_format max_format formats_of format_score codes upper_ascii
best_is_epub = refl

missing_b : wanted_missing ascii session ≡ sample_book 2 (codes "B") ∷ []
unfolding wanted_missing is_missing best_imported_format best_format max_format formats_of
missing_b = refl

best_imported_format-greatest_example :
    All
      (λ f. score_of_format ascii f ≤ score_of_format ascii (codes "EPUB"))
      (formats_of (sample_book 1 (codes "A")) session)
best_imported_format-greatest_example =
    best_imported_format-greatest ascii session (sample_book 1 (codes "A")) (codes "EPUB")
      best_is_epub

abbrev no_index : List Text → Session → List ℕ
no_index tokens s = []
