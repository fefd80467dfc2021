-- ===== src/Wanted.antt =====
-- src/libarr/acquisition/wanted.py: the monitored books without a file, and those whose best file is
-- below the cutoff.
pub mod Formats
pub mod Release
mod Tests
use libarr.Prelude.{
  ℕ, Text, text_eq, or_empty, truthy, Bool, true, false, not, ◌&&◌, ◌||◌, Option, none, some, List,
  [], ◌∷◌, map, select, any, if◌then◌else◌, ◌==◌, ltb,
}
use libarr.Python.{Unicode}
use libarr.Parser.{ParsedName, parse_book_filename}
use libarr.Candidates.{normalize_release_title}
use libarr.Matcher.{match_title}
use libarr.Quality.{is_upgrade}
use libarr.Indexers
use libarr.Models.{Book, Edition, File, Session}
use libarr.Quality.{default_profile, format_score, meets_cutoff}

-- `[e.id for e in book.editions]`
abbrev pub edition_ids : Book → Session → List ℕ
edition_ids book s = map (λ (e : Edition). e.id) (select (λ e. e.book_id == book.id) s.editions)

-- `File.edition_id.in_(edition_ids)`
abbrev is_in : List ℕ → Option ℕ → Bool
is_in ids none = false
is_in ids (some k) = any (λ id. id == k) ids

-- `select(File.format).where(File.edition_id.in_(edition_ids))`
unfoldable pub formats_of : Book → Session → List Text
formats_of book s =
    map (λ (f : File). f.format) (select (λ f. is_in (edition_ids book s) f.edition_id) s.files)

unfoldable pub book_has_format : Session → Book → Option Text → Bool
book_has_format s book fmt =
    if truthy fmt then any (λ f. text_eq f (or_empty fmt)) (formats_of book s) else false

module _ (u : Unicode) where
  -- `max(formats, key=…)`: the first of the greatest.
  unfoldable pub max_format : Text → List Text → Text
  max_format best [] = best
  max_format best (f ∷ fs) =
      max_format
        (if ltb (format_score u default_profile (some best))
            (format_score u default_profile (some f))
          then f
          else best)
        fs

  unfoldable pub best_format : List Text → Option Text
  best_format [] = none
  best_format (f ∷ fs) = some (max_format f fs)

  unfoldable pub best_imported_format : Session → Book → Option Text
  best_imported_format s book = best_format (formats_of book s)

  unfoldable pub is_missing : Option Text → Bool
  is_missing none = true
  is_missing (some best) = false

  unfoldable pub is_below_cutoff : Option Text → Bool
  is_below_cutoff none = false
  is_below_cutoff (some best) = not (meets_cutoff u (some best) default_profile)

  abbrev pub monitored : Session → List Book
  monitored s = select (λ book. book.monitored) s.books

  unfoldable pub wanted_missing : Session → List Book
  wanted_missing s = select (λ book. is_missing (best_imported_format s book)) (monitored s)

  unfoldable pub wanted_cutoff : Session → List Book
  wanted_cutoff s = select (λ book. is_below_cutoff (best_imported_format s book)) (monitored s)

  -- The title and the author that `match_release` looks for.
  unfoldable pub release_title : Option ParsedName → Text → Text
  release_title none title = title
  release_title (some parsed) title = if truthy parsed.title then or_empty parsed.title else title

  unfoldable pub release_author : Option ParsedName → Option Text → Option Text
  release_author none author = author
  release_author (some parsed) author = parsed.author

  module _ (fts : List Text → Session → List ℕ) where
    -- What follows the match of the book.
    unfoldable pub accept_book : Session → Option Text → Option Book → Option Book
    accept_book s format none = none
    accept_book s format (some book) =
        if not book.monitored
          || (book_has_format s book format
              && not (is_upgrade u (best_imported_format s book) format default_profile))
        then none
        else some book

    -- `match_book` gets no ISBN here.
    unfoldable pub match_release : Session → libarr.Indexers.Release → Option Book
    match_release s release =
        let parsed = parse_book_filename u (normalize_release_title u release.title) in
        accept_book s release.format (
          match_title u fts s (release_title parsed release.title)
            (release_author parsed release.author))
