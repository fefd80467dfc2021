-- ===== src/Works/Tests.antt =====
-- Two spellings of one work, into a library that has its author.
use libarr.Prelude.{Text, codes, ◌≡◌, refl, inr, true, false, some, [], ◌∷◌, get_row}
use libarr.Prelude.{lower_ascii, is_prefix}
use libarr.Python.{ascii}
use libarr.Models.{Session}
use libarr.Samples.{empty_session, sample_book, sample_author}
use libarr.Subjects.{normalize_subject}
use libarr.Works.{DiscoveryWork, dedupe, import_works}
use libarr.Works.Keys.{IsSound}
use libarr.Works.Again.{import_works-twice}

abbrev work : Text → DiscoveryWork
work title = record {
  title = title;
  author = some (codes "Frank Herbert");
  year = some 1965;
  subjects = codes "Fantasy" ∷ codes "Fantasy fiction" ∷ [];
  source = codes "openlibrary";
  source_key = codes "k";
}

abbrev before : Session
before = record empty_session {
  authors = sample_author 1 (codes "Frank Herbert") ∷ [];
  books = record (sample_book 4 (codes "Dune Messiah")) { author_id = some 1 } ∷ [];
}

sf_alias : normalize_subject ascii (codes " Sci-Fi ") ≡ codes "science fiction"
unfolding normalize_subject is_prefix lower_ascii
sf_alias = refl

one_of_two :
    dedupe ascii (work (codes "Dune") ∷ work (codes "DUNE!") ∷ []) ≡ work (codes "Dune") ∷ []
unfolding dedupe lower_ascii
one_of_two = refl

two_added :
    (import_works ascii
      (work (codes "Dune") ∷ work (codes "DUNE!") ∷ work (codes "Emma") ∷ [])
      true
      before).0
    ≡ 2
unfolding import_works lower_ascii
two_added = refl

before-IsSound : IsSound before
before-IsSound =
    ((tt, tt), (inr (1, sample_author 1 (codes "Frank Herbert"), refl, unfold get_row in refl), tt))

import_works-twice_example :
    import_works ascii
      (work (codes "Dune") ∷ [])
      false
      (import_works ascii (work (codes "Dune") ∷ []) true before).1
    ≡ (0, (import_works ascii (work (codes "Dune") ∷ []) true before).1)
import_works-twice_example =
    import_works-twice ascii (work (codes "Dune") ∷ []) true false before before-IsSound
