-- ===== src/Enrich.antt =====
-- src/libarr/metadata/enrich.py: what the providers know of a book is written to its row.
--
-- The providers are parameters, and so is the JSON of their answer.
pub mod Gaps
mod Tests
use libarr.Prelude.{
  ℕ, zero, suc, ◌+◌, Text, codes, or_empty, truthy, mem_text, Bool, true, false, ◌||◌, Option, none,
  some, List, [], ◌∷◌, ◌++◌, map, get_row, update_row, next_id, find, Result, ok, err,
  if◌then◌else◌,
}
use libarr.Python.{Unicode, decimal}
use libarr.Models.{Book, Edition, Session, Subject}
use libarr.Notify.{Settings, notify}
use libarr.Normalize.{slugify}
use libarr.Relations.{book_id, editions_of, subjects_of}
use libarr.Fts.{FtsRow, reindex_book}
use libarr.Import.Disk.{Raised, Command}

-- `BookMetadata`, as far as it is read, and its JSON.
pub record BookMetadata : Type 0 where
  pub work_key : Option Text
  pub description : Option Text
  pub year : Option ℕ
  pub page_count : Option ℕ
  pub language : Option Text
  pub publisher : Option Text
  pub subjects : List Text
  pub json : Text

-- `a or b`
abbrev pub or_text : Option Text → Option Text → Option Text
or_text a b = if truthy a then a else b

unfoldable pub or_number : Option ℕ → Option ℕ → Option ℕ
or_number none b = b
or_number (some zero) b = b
or_number (some (suc n)) b = some (suc n)

abbrev pub edition_id : Edition → ℕ
edition_id e = e.id

abbrev pub subject_id : Subject → ℕ
subject_id t = t.id

-- The assignments to the columns of the book.
unfoldable pub filled : BookMetadata → Book → Book
unfolding or_number
filled meta book = record book {
  work_key = or_text book.work_key meta.work_key;
  description = or_text book.description meta.description;
  year = or_number book.year meta.year;
  page_count = or_number book.page_count meta.page_count;
  language = or_text book.language meta.language;
  metadata_json = some meta.json;
}

-- `edition.publisher = meta.publisher`, where it has none.
unfoldable pub publish : Option Text → Edition → Edition
publish publisher e = record e { publisher = or_text e.publisher publisher }

-- The first edition of the book gets the publisher.
unfoldable pub publish_first : Option Text → List Edition → List Edition → List Edition
unfolding publish
publish_first publisher [] rows = rows
publish_first publisher (e ∷ es) rows =
    if truthy publisher then update_row edition_id e.id (publish publisher) rows else rows

module _ (u : Unicode) where
  -- A row for each slug that the book does not have.
  unfoldable pub add_subjects : ℕ → Text → List Text → List Text → List Subject → List Subject
  unfolding slugify mem_text
  add_subjects book source seen [] rows = rows
  add_subjects book source seen (name ∷ names) rows =
      let slug = slugify u name in
      let skipped = add_subjects book source seen names rows in
      let kept = add_subjects book source (slug ∷ seen) names (
        rows
        ++ record {
          id = next_id subject_id rows;
          book_id = book;
          name = name;
          slug = slug;
          source = source;
        }
          ∷ []) in
      if mem_text slug seen then skipped else kept

  unfoldable pub applied : Book → BookMetadata → Text → Session → Session
  unfolding filled publish_first add_subjects
  applied book meta source s = record s {
    books = update_row book_id book.id (filled meta) s.books;
    editions = publish_first meta.publisher (editions_of book s) s.editions;
    subjects =
        add_subjects book.id source (map (λ (t : Subject). t.slug) (subjects_of book s))
          meta.subjects s.subjects;
  }

  -- `lookup_by_isbn` of the two providers. Each keeps its answers in the cache of the session, and
  -- `none` stands for an unknown ISBN.
  pub record Lookups (W : Type 0) : Type 0 where
    pub open_library : Text → Session → W → Result Raised (Option BookMetadata) × Session × W
    pub google_books : Text → Session → W → Result Raised (Option BookMetadata) × Session × W
    pub is_provider_error : Raised → Bool

  module _ {W : Type 0} (lookups : Lookups W) (write : FtsRow → Command W) where
    -- A run: whether metadata was applied, the rows, the outside world.
    abbrev pub Run : Type 0
    Run = Result Raised Bool × Session × W

    -- `_apply`
    unfoldable pub apply_meta : Book → BookMetadata → Text → Session → W → Run
    unfolding applied reindex_book
    apply_meta book meta source s w =
        let s' = applied book meta source s in
        let (raised, w') = reindex_book write book.id s' w in
        elim raised [ none ↦ (ok true, s', w') | some e ↦ (err e, s', w') ]

    unfoldable pub after_google : Book → Result Raised (Option BookMetadata) × Session × W → Run
    unfolding apply_meta
    after_google book (err e, s, w) =
        if lookups.is_provider_error e then (ok false, s, w) else (err e, s, w)
    after_google book (ok none, s, w) = (ok false, s, w)
    after_google book (ok (some meta), s, w) = apply_meta book meta (codes "googlebooks") s w

    unfoldable pub after_open_library :
        Book → Text → Result Raised (Option BookMetadata) × Session × W → Run
    unfolding apply_meta after_google
    after_open_library book isbn (err e, s, w) =
        if lookups.is_provider_error e
        then after_google book (lookups.google_books isbn s w)
        else (err e, s, w)
    after_open_library book isbn (ok none, s, w) = after_google book (lookups.google_books isbn s w)
    after_open_library book isbn (ok (some meta), s, w) =
        apply_meta book meta (codes "openlibrary") s w

    -- With the first edition that has an ISBN.
    unfoldable pub enrich_edition : Book → Option Edition → Session → W → Run
    unfolding after_open_library
    enrich_edition book none s w = (ok false, s, w)
    enrich_edition book (some e) s w =
        after_open_library book (or_empty e.isbn13) (lookups.open_library (or_empty e.isbn13) s w)

    abbrev pub is_enriched : Book → Bool
    is_enriched book = truthy book.work_key || truthy book.description

    unfoldable pub enrich_book : Book → Session → W → Run
    unfolding enrich_edition
    enrich_book book s w =
        if is_enriched book
        then (ok false, s, w)
        else enrich_edition book (find (λ e. truthy e.isbn13) (editions_of book s)) s w

    -- A `ProviderError` is passed over, anything else ends the run.
    unfoldable pub count_run : Run → ℕ → Result Raised ℕ × Session × W
    count_run (err e, s, w) n = if lookups.is_provider_error e then (ok n, s, w) else (err e, s, w)
    count_run (ok true, s, w) n = (ok (n + 1), s, w)
    count_run (ok false, s, w) n = (ok n, s, w)

    -- The loop, over the ids of the books, each of which is read again.
    unfoldable pub enrich_each :
        List ℕ → Result Raised ℕ × Session × W → Result Raised ℕ × Session × W
    unfolding count_run enrich_book
    enrich_each [] state = state
    enrich_each (k ∷ ks) (err e, s, w) = (err e, s, w)
    enrich_each (k ∷ ks) (ok n, s, w) = enrich_each ks (elim (get_row book_id k s.books) [
      | none ↦ (ok n, s, w)
      | some book ↦ count_run (enrich_book book s w) n
    ])

    module _ (settings : Settings) (send : List Text → Text → Text → W → Bool × W) where
      unfoldable pub tell_enriched : Result Raised ℕ × Session × W → Result Raised ℕ × Session × W
      unfolding notify decimal
      tell_enriched (err e, s, w) = (err e, s, w)
      tell_enriched (ok zero, s, w) = (ok 0, s, w)
      tell_enriched (ok (suc n), s, w) = (
        ok (suc n),
        s,
        (notify u settings send (codes "Library enriched")
            (decimal (suc n) ++ codes " book(s) enriched from metadata providers") w).1,
      )

      unfoldable pub enrich_library : Session → W → Result Raised ℕ × Session × W
      unfolding tell_enriched enrich_each
      enrich_library s w = tell_enriched (enrich_each (map book_id s.books) (ok 0, s, w))
