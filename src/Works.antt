-- ===== src/Works.antt =====
-- src/libarr/discovery.py: works that the providers find are added to the library.
--
-- The providers are parameters, and so is the JSON of a list's query.
pub mod Keys
pub mod Again
pub mod Lists
pub mod Queue
mod Tests
use libarr.Prelude.{
  ℕ, zero, suc, ◌+◌, Text, codes, text_eq, or_empty, truthy, mem_text, Bool, false, not, ◌&&◌,
  Option, none, some, List, [], ◌∷◌, ◌++◌, map, next_id, select, find, any, Result, ok, err,
  if◌then◌else◌, ltb, take,
}
use libarr.Prelude.{join}
use libarr.Python.{Unicode, strip, decimal}
use libarr.Models.{MetadataCache, Author, Book, Subject, Session, EventKind}
use libarr.History.{record_event}
use libarr.Indexers.{Release}
use libarr.Normalize.{normalize_text}
use libarr.Relations.{author_id, book_id, author_of}
use libarr.Subjects.{subject_slug}

pub record DiscoveryWork : Type 0 where
  pub title : Text
  pub author : Option Text
  pub year : Option ℕ
  pub subjects : List Text
  pub source : Text
  pub source_key : Text

-- The fields that are read of an answer of Google Books.
pub record FoundMeta : Type 0 where
  pub title : Option Text
  pub authors : List Text
  pub year : Option ℕ
  pub subjects : List Text
  pub work_key : Option Text

-- The query of a discovery list.
pub record Query : Type 0 where
  pub q : Option Text
  pub genre : Option Text
  pub year_min : Option ℕ
  pub year_max : Option ℕ
  pub language : Option Text

-- Open Library's indexer, and Google Books, which reads and writes the metadata cache of the session.
pub record Providers (W : Type 0) : Type 0 where
  pub search_subject :
      Text → Option ℕ → Option ℕ → Option Text → ℕ → W → Result Text (List Release) × W
  pub search : Text → W → Result Text (List Release) × W
  pub google : Text → List MetadataCache → W → Result Text (List FoundMeta) × List MetadataCache × W

-- `(normalize_text(title), normalize_text(author))`
abbrev pub Key : Type 0
Key = Text × Text

abbrev pub same_key : Key → Key → Bool
same_key (a, b) (c, d) = text_eq a c && text_eq b d

unfoldable pub has_key : Key → List Key → Bool
unfolding text_eq
has_key k ks = any (same_key k) ks

module _ (u : Unicode) where
  unfoldable pub key_of : Text → Text → Key
  unfolding normalize_text
  key_of title author = (normalize_text u title, normalize_text u author)

  unfoldable pub work_key : DiscoveryWork → Key
  unfolding key_of
  work_key work = key_of work.title (or_empty work.author)

  unfoldable pub dedupe_from : List Key → List DiscoveryWork → List DiscoveryWork
  unfolding has_key work_key
  dedupe_from seen [] = []
  dedupe_from seen (work ∷ works) =
      let skipped = dedupe_from seen works in
      let kept = work ∷ dedupe_from (work_key work ∷ seen) works in
      if has_key (work_key work) seen then skipped else kept

  -- `_dedupe`
  unfoldable pub dedupe : List DiscoveryWork → List DiscoveryWork
  unfolding dedupe_from
  dedupe works = dedupe_from [] works

  unfoldable pub work_of_release : Release → DiscoveryWork
  work_of_release release = record {
    title = release.title;
    author = release.author;
    year = release.year;
    subjects = release.subjects;
    source = codes "openlibrary";
    source_key = release.guid;
  }

  -- `bound is not None and release.year is not None and release.year < bound`
  abbrev before_year : Option ℕ → Option ℕ → Bool
  before_year none year = false
  before_year (some bound) none = false
  before_year (some bound) (some year) = ltb year bound

  abbrev after_year : Option ℕ → Option ℕ → Bool
  after_year none year = false
  after_year (some bound) none = false
  after_year (some bound) (some year) = ltb bound year

  unfoldable pub in_years : Query → Release → Bool
  in_years query release =
      not (before_year query.year_min release.year) && not (after_year query.year_max release.year)

  abbrev first_author : List Text → Option Text
  first_author [] = none
  first_author (a ∷ as_) = some a

  unfoldable pub work_of_meta : FoundMeta → DiscoveryWork
  work_of_meta meta = record {
    title = or_empty meta.title;
    author = first_author meta.authors;
    year = meta.year;
    subjects = meta.subjects;
    source = codes "googlebooks";
    source_key = or_empty meta.work_key;
  }

  -- A provider that fails found nothing.
  abbrev pub found_by : {E A : Type 0} → Result E (List A) → List A
  found_by (err e) = []
  found_by (ok found) = found

  module _ {W : Type 0} (providers : Providers W) where
    unfoldable pub open_library : Query → ℕ → W → List DiscoveryWork × W
    unfolding in_years work_of_release
    open_library query limit w =
        if truthy query.genre
        then (let (found, w') =
              providers.search_subject (or_empty query.genre) query.year_min query.year_max
                query.language limit w in
            (map work_of_release (select (in_years query) (found_by found)), w'))
        else if truthy query.q
        then (let (found, w') = providers.search (or_empty query.q) w in
            (map work_of_release (found_by found), w'))
        else ([], w)

    unfoldable pub google_query : Query → Text
    unfolding strip
    google_query query =
        if truthy query.genre
        then strip u.is_space (codes "subject:" ++ or_empty query.genre ++ 32 ∷ or_empty query.q)
        else or_empty query.q

    unfoldable pub or_google :
        Query → Session → List DiscoveryWork × W → List DiscoveryWork × Session × W
    unfolding work_of_meta google_query
    or_google query s (work ∷ works, w) = (work ∷ works, s, w)
    or_google query s ([], w) =
        if truthy query.q
        then (let (found, cache, w') = providers.google (google_query query) s.cache w in
            (map work_of_meta (found_by found), record s { cache = cache }, w'))
        else ([], s, w)

    unfoldable pub search_works : Query → ℕ → Session → W → List DiscoveryWork × Session × W
    unfolding dedupe or_google open_library
    search_works query limit s w =
        let (works, s', w') = or_google query s (open_library query limit w) in
        (dedupe works, s', w')

  -- The key of a book, with the name of the author that its `author_id` leads to.
  abbrev pub name_of : Option Author → Text
  name_of none = []
  name_of (some a) = a.name

  unfoldable pub book_key : Session → Book → Key
  unfolding key_of
  book_key s b = key_of b.title (name_of (author_of b s))

  -- `existing`
  unfoldable pub existing_keys : Session → List Key
  unfolding book_key
  existing_keys s = map (book_key s) s.books

  abbrev pub new_author : Text → Session → Author
  new_author name s = record {
    id = next_id author_id s.authors;
    name = name;
    sort_name = none;
    slug = none;
    biography = none;
    ol_key = none;
    cover_path = none;
    metadata_json = none;
    monitored = false;
  }

  unfoldable pub author_named : Text → Option Author → Session → Option ℕ × Session
  author_named name (some a) s = (some a.id, s)
  author_named name none s = (
    some (next_id author_id s.authors),
    record s { authors = s.authors ++ new_author name s ∷ [] },
  )

  -- The author of a work, who is added where no author has the name.
  unfoldable pub author_for : Option Text → Session → Option ℕ × Session
  unfolding author_named
  author_for none s = (none, s)
  author_for (some []) s = (none, s)
  author_for (some (c ∷ name)) s =
      author_named (c ∷ name) (find (λ a. text_eq a.name (c ∷ name)) s.authors) s

  abbrev pub new_book : DiscoveryWork → Option ℕ → Bool → Session → Book
  new_book work author monitored s = record {
    id = next_id book_id s.books;
    author_id = author;
    title = work.title;
    subtitle = none;
    series_id = none;
    series_position = none;
    work_key = none;
    language = none;
    description = none;
    page_count = none;
    year = work.year;
    cover_path = none;
    monitored = monitored;
    path = none;
    metadata_json = none;
  }

  abbrev pub subject_id : Subject → ℕ
  subject_id t = t.id

  -- One row for each slug.
  unfoldable pub add_subjects : ℕ → Text → List Text → List Text → List Subject → List Subject
  unfolding mem_text
  add_subjects book source seen [] rows = rows
  add_subjects book source seen (name ∷ names) rows =
      let slug = subject_slug u name in
      let skipped = add_subjects book source seen names rows in
      let kept = add_subjects book source (slug ∷ seen) names (
        rows
        ++ record {
          id = next_id subject_id rows;
          book_id = book;
          name = name;
          slug = slug;
          source = source;
        }
          ∷ []) in
      if mem_text slug seen then skipped else kept

  unfoldable pub add_book : DiscoveryWork → Bool → Option ℕ × Session → Session
  unfolding add_subjects
  add_book work monitored (author, s) =
      let book = new_book work author monitored s in
      record s {
        books = s.books ++ book ∷ [];
        subjects = add_subjects book.id work.source [] (take 5 work.subjects) s.subjects;
      }

  -- The body of the loop of `import_works`: the rows, `existing`, and `added`.
  unfoldable pub import_work :
      Bool → DiscoveryWork → Session × List Key × ℕ → Session × List Key × ℕ
  unfolding has_key work_key add_book author_for
  import_work monitored work (s, existing, added) =
      if has_key (work_key work) existing
      then (s, existing, added)
      else (add_book work monitored (author_for work.author s), work_key work ∷ existing, added + 1)

  unfoldable pub import_each :
      Bool → List DiscoveryWork → Session × List Key × ℕ → Session × List Key × ℕ
  unfolding import_work
  import_each monitored [] state = state
  import_each monitored (work ∷ works) state =
      import_each monitored works (import_work monitored work state)

  -- The event of a run that added something.
  unfoldable pub tell_added : List DiscoveryWork → ℕ → Session → Session
  unfolding record_event join decimal
  tell_added works zero s = s
  tell_added works (suc n) s =
      record_event EventKind.discovery (decimal (suc n) ++ codes " new work(s) added") none
        (some (join (codes ", ") (map (λ (w : DiscoveryWork). w.title) (take 5 works)))) s

  unfoldable pub import_works : List DiscoveryWork → Bool → Session → ℕ × Session
  unfolding tell_added import_each existing_keys
  import_works works monitored s =
      let (s', existing, added) = import_each monitored works (s, existing_keys s, 0) in
      (added, tell_added works added s')
