-- ===== src/Scan/Rows.antt =====
-- src/libarr/acquisition/library_scan.py: the author, the book and the edition that a file belongs to.
use libarr.Prelude.{
  ℕ, Text, text_eq, opt_eq, or_empty, truthy, Bool, true, false, Option, none, some, [], ◌∷◌, ◌++◌,
  next_id, select, find, if◌then◌else◌, ◌==◌,
}
use libarr.Python.{Unicode, strip_left}
use libarr.Python.Paths.{PurePath, path_text, path_suffix}
use libarr.Models.{Author, Book, Edition, File, Session}
use libarr.Parser.{ParsedName}
use libarr.Normalize.{normalize_text}
use libarr.Epub.{OpfMetadata}
use libarr.Relations.{author_id, book_id, editions_of}

abbrev pub file_id : File → ℕ
file_id f = f.id

abbrev pub edition_id : Edition → ℕ
edition_id e = e.id

-- `Book.author_id == author_id`, which is `IS NULL` for `None`.
abbrev pub same_author : Option ℕ → Option ℕ → Bool
same_author none none = true
same_author none (some k) = false
same_author (some j) none = false
same_author (some j) (some k) = j == k

-- `a or b`
abbrev pub or_other : Option Text → Option Text → Option Text
or_other a b = if truthy a then a else b

-- What the OPF and the file name say.
pub record Identity : Type 0 where
  pub title : Option Text
  pub author : Option Text
  pub isbn : Option Text
  pub year : Option ℕ
  pub language : Option Text

module _ (u : Unicode) where
  abbrev pub new_author : Text → Session → Author
  new_author name s = record {
    id = next_id author_id s.authors;
    name = name;
    sort_name = none;
    slug = none;
    biography = none;
    ol_key = none;
    cover_path = none;
    metadata_json = none;
    monitored = false;
  }

  unfoldable pub author_found : Text → Option Author → Session → ℕ × Session
  author_found name (some a) s = (a.id, s)
  author_found name none s =
      (next_id author_id s.authors, record s { authors = s.authors ++ new_author name s ∷ [] })

  -- `_upsert_author`
  unfoldable pub upsert_author : Text → Session → ℕ × Session
  unfolding author_found normalize_text text_eq
  upsert_author name s =
      author_found name
        (find (λ a. text_eq (normalize_text u a.name) (normalize_text u name)) s.authors) s

  -- The author of a file, where its name is known.
  unfoldable pub author_of_file : Option Text → Session → Option ℕ × Session
  unfolding upsert_author
  author_of_file name s =
      if truthy name
      then (let (k, s') = upsert_author (or_empty name) s in (some k, s'))
      else (none, s)

  -- `_find_book`
  unfoldable pub find_book : Session → Option ℕ → Text → Option Book
  unfolding normalize_text text_eq
  find_book s author title =
      find (λ b. text_eq (normalize_text u b.title) (normalize_text u title))
        (select (λ b. same_author b.author_id author) s.books)

  abbrev pub new_book : Option ℕ → Text → Option ℕ → Option Text → Session → Book
  new_book author title year language s = record {
    id = next_id book_id s.books;
    author_id = author;
    title = title;
    subtitle = none;
    series_id = none;
    series_position = none;
    work_key = none;
    language = language;
    description = none;
    page_count = none;
    year = year;
    cover_path = none;
    monitored = false;
    path = none;
    metadata_json = none;
  }

  unfoldable pub book_found :
      Option Book → Option ℕ → Text → Option ℕ → Option Text → Session → Book × Session
  book_found (some b) author title year language s = (b, s)
  book_found none author title year language s = (
    new_book author title year language s,
    record s { books = s.books ++ new_book author title year language s ∷ [] },
  )

  abbrev pub new_edition : ℕ → Option Text → Text → Session → Edition
  new_edition book isbn fmt s = record {
    id = next_id edition_id s.editions;
    book_id = book;
    isbn13 = isbn;
    isbn10 = none;
    publisher = none;
    published_at = none;
    format = some (u.upper fmt);
    page_count = none;
    ol_edition_key = none;
    google_volume_id = none;
    metadata_json = none;
  }

  -- The edition that `_upsert_edition` finds.
  unfoldable pub find_edition : Session → Book → Option Text → Text → Option Edition
  unfolding text_eq
  find_edition s book (some isbn) fmt = find (λ e. opt_eq e.isbn13 isbn) s.editions
  find_edition s book none fmt =
      find (λ e. text_eq (u.lower (or_empty e.format)) fmt) (editions_of book s)

  unfoldable pub edition_found : Option Edition → Book → Option Text → Text → Session → ℕ × Session
  edition_found (some e) book isbn fmt s = (e.id, s)
  edition_found none book isbn fmt s = (
    next_id edition_id s.editions,
    record s { editions = s.editions ++ new_edition book.id isbn fmt s ∷ [] },
  )

  -- `_upsert_edition`
  unfoldable pub upsert_edition : Book → Option Text → Text → Session → ℕ × Session
  unfolding edition_found find_edition
  upsert_edition book isbn fmt s = edition_found (find_edition s book isbn fmt) book isbn fmt s

  -- `path.suffix.lower().lstrip(".")`
  unfoldable pub extension_of : PurePath → Text
  unfolding strip_left path_suffix
  extension_of path = strip_left (λ c. c == b'.') (u.lower (path_suffix path))

  abbrev title_of : Option OpfMetadata → Option Text
  title_of none = none
  title_of (some opf) = opf.title

  abbrev isbn_of : Option OpfMetadata → Option Text
  isbn_of none = none
  isbn_of (some opf) = opf.isbn

  abbrev language_of : Option OpfMetadata → Option Text
  language_of none = none
  language_of (some opf) = opf.language

  abbrev first_author : Option OpfMetadata → Option Text → Option Text
  first_author none parsed = parsed
  first_author (some opf) parsed = elim opf.authors [ [] ↦ parsed | a ∷ as_ ↦ some a ]

  abbrev parsed_field : {A : Type 0} → (ParsedName → Option A) → Option ParsedName → Option A
  parsed_field f none = none
  parsed_field f (some p) = f p

  unfoldable pub identity_of : Option OpfMetadata → Option ParsedName → Identity
  identity_of opf parsed = record {
    title = or_other (title_of opf) (parsed_field (λ p. p.title) parsed);
    author = first_author opf (parsed_field (λ p. p.author) parsed);
    isbn = or_other (isbn_of opf) (parsed_field (λ p. p.isbn) parsed);
    year = parsed_field (λ p. p.year) parsed;
    language = language_of opf;
  }

  abbrev pub new_file : ℕ → PurePath → ℕ → Text → Session → File
  new_file edition path size sha s = record {
    id = next_id file_id s.files;
    edition_id = some edition;
    path = path_text path;
    format = u.upper (extension_of path);
    size_bytes = size;
    sha256 = sha;
  }

  -- The book and the edition of a file.
  unfoldable pub place_of : PurePath → Identity → Option Text → Session → ℕ × ℕ × Session
  unfolding author_of_file find_book book_found upsert_edition
  place_of path identity isbn s =
      let (author, s1) = author_of_file identity.author s in
      let (book, s2) =
        book_found (find_book s1 author (or_empty identity.title)) author (or_empty identity.title)
          identity.year identity.language s1 in
      let (edition, s3) = upsert_edition book isbn (extension_of path) s2 in (book.id, edition, s3)
