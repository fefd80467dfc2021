-- ===== src/Enrich/Tests.antt =====
-- One book with a year of its own.
use libarr.Prelude.{ℕ, codes, ◌≡◌, refl, none, some, [], ◌∷◌, map, get_row, if◌then◌else◌, ◌==◌}
use mathlib.Core.Option
use libarr.Prelude.{lower_ascii}
use libarr.Python.{ascii}
use libarr.Models.{Book, Session, Subject}
use libarr.Samples.{empty_session, sample_book}
use libarr.Relations.{book_id}
use libarr.Enrich.{BookMetadata, filled, applied, add_subjects}
use libarr.Enrich.Gaps.{IsFilled, applied-IsFilled}

abbrev meta : BookMetadata
meta = record {
  work_key = some (codes "OL1W");
  description = some (codes "Sand.");
  year = some 1984;
  page_count = none;
  language = none;
  publisher = none;
  subjects = codes "Sci-fi" ∷ codes "Science fiction" ∷ [];
  json = codes "{}";
}

abbrev dune : Book
dune = record (sample_book 4 (codes "Dune")) { year = some 1965 }

abbrev before : Session
before = record empty_session { books = dune ∷ [] }

-- Two names of one genre give two slugs.
two_slugs :
    map (λ (t : Subject). t.slug) (add_subjects ascii 4 (codes "openlibrary") [] meta.subjects [])
    ≡ codes "sci-fi" ∷ codes "science-fiction" ∷ []
unfolding add_subjects codes lower_ascii
two_slugs = refl

applied-IsFilled_example :
    ((b : Book) × (get_row book_id 4 (applied ascii dune meta (codes "openlibrary") before).books
        ≡ some b)
      × IsFilled meta dune b)
    × ((j : ℕ)
        → get_row book_id j (applied ascii dune meta (codes "openlibrary") before).books ≡ (
            if 4 == j
            then Option.map (filled meta) (get_row book_id j before.books)
            else get_row book_id j before.books))
applied-IsFilled_example =
    applied-IsFilled ascii dune dune meta (codes "openlibrary") before (unfold get_row in refl)
