-- ===== src/Wanted/Release.antt =====
-- src/libarr/acquisition/wanted.py: the book that a release is matched to.
use libarr.Prelude.{
  some_inj, ℕ, Text, ◌≡◌, refl, subst, ◌⊎◌, Bool, true, false, not, ◌&&◌, ◌||◌, Option, none, some,
  List, arith,
}
use libarr.Python.{Unicode}
use libarr.Models.{Book, Session}
use libarr.Indexers
use libarr.Parser.{ParsedName, parse_book_filename}
use libarr.Normalize.{normalize_text}
use libarr.Candidates.{normalize_release_title}
use libarr.Quality.{is_upgrade, default_profile}
use libarr.Matcher.{match_title, norm_author_of}
use libarr.Matcher.Sound.{IsMatch, match_title-IsMatch}
use libarr.Wanted.{
  book_has_format, best_imported_format, accept_book, match_release, release_title, release_author,
}

module _ (u : Unicode) (fts : List Text → Session → List ℕ) where
  -- The book lacks the format, or the format is an upgrade of its best file.
  abbrev pub IsWorthwhile : Session → Option Text → Book → Type 0
  IsWorthwhile s format b =
      (book_has_format s b format ≡ false)
      ⊎ (is_upgrade u (best_imported_format u s b) format default_profile ≡ true)

  abbrev pub parsed_of : libarr.Indexers.Release → Option ParsedName
  parsed_of release = parse_book_filename u (normalize_release_title u release.title)

  accept_book-eq_some :
      (s : Session) (format : Option Text) (found : Option Book) (b : Book)
      → accept_book u fts s format found ≡ some b
      → (found ≡ some b) × (b.monitored ≡ true) × IsWorthwhile s format b
  unfolding accept_book
  accept_book-eq_some s format none b e = cc
  accept_book-eq_some s format (some c) b e = subst Kept (some_inj same) (refl, wanted, worth)
    where
      has : Bool
      has = book_has_format s c format

      up : Bool
      up = is_upgrade u (best_imported_format u s c) format default_profile

      passed : (not c.monitored || (has && not up)) ≡ false
      passed = ground arith

      same : some c ≡ some b
      same = ground arith

      Kept : Book → Type 0
      Kept d = (some c ≡ some d) × (d.monitored ≡ true) × IsWorthwhile s format d

      wanted : c.monitored ≡ true
      wanted = ground arith

      worth : IsWorthwhile s format c
      worth = ground arith

  pub match_release-IsWorthwhile :
      (s : Session) (release : libarr.Indexers.Release) (b : Book)
      → match_release u fts s release ≡ some b
      → (b.monitored ≡ true)
        × IsWorthwhile s release.format b
        × IsMatch u s
            (norm_author_of u (release_author u (parsed_of release) release.author))
            (normalize_text u (release_title u (parsed_of release) release.title))
            b
  unfolding match_release
  match_release-IsWorthwhile s release b e =
      let (same, wanted, worth) = accept_book-eq_some s release.format found b e in
      (
        wanted,
        worth,
        match_title-IsMatch u fts s (release_title u parsed release.title)
            (release_author u parsed release.author) b same,
      )
    where
      parsed : Option ParsedName
      parsed = parse_book_filename u (normalize_release_title u release.title)

      found : Option Book
      found =
          match_title u fts s (release_title u parsed release.title)
            (release_author u parsed release.author)
