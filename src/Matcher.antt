-- ===== src/Matcher.antt =====
-- src/libarr/metadata/matcher.py: the book of the library that a candidate belongs to.
--
-- The full-text query of pass 4 is SQL of the database and a parameter: the ids of at most ten books
-- for a list of words.
pub mod Sound
pub mod Exact
mod Tests
use libarr.Prelude.{
  join, ℕ, Text, codes, text_eq, opt_eq, or_empty, truthy, is_empty, mem_text, Bool, true, false,
  not, ◌&&◌, Option, none, some, List, [], ◌∷◌, ◌++◌, map, get_row, select, find, length, Result,
  ok, ◌>>=◌, if◌then◌else◌, leb, ltb, is_some,
}
use libarr.Python.{Unicode, words}
use libarr.Models.{Author, Book, Edition, Session}
use libarr.Relations.{author_id, book_id, author_of, is_key}
use libarr.Normalize.{normalize_text, normalize_isbn}
use libarr.Parser.{edition_keywords}

-- `STOPWORDS`
unfoldable pub stopwords : List Text
unfolding codes
stopwords =
    codes "the"
    ∷ codes "a"
    ∷ codes "an"
    ∷ codes "and"
    ∷ codes "of"
    ∷ codes "or"
    ∷ codes "in"
    ∷ codes "on"
    ∷ codes "to"
    ∷ codes "for"
    ∷ codes "with"
    ∷ codes "by"
    ∷ codes "at"
    ∷ codes "de"
    ∷ codes "la"
    ∷ codes "le"
    ∷ codes "el"
    ∷ codes "il"
    ∷ codes "der"
    ∷ codes "die"
    ∷ codes "das"
    ∷ []

abbrev pub is_stopword : Text → Bool
is_stopword w = mem_text w stopwords

-- A list of texts as a set.
unfoldable pub distinct_texts : List Text → List Text
distinct_texts [] = []
distinct_texts (t ∷ ts) = let rest = distinct_texts ts in if mem_text t ts then rest else t ∷ rest

-- `len(a & b)`
unfoldable pub overlap : List Text → List Text → ℕ
overlap a b = length (select (λ t. mem_text t b) (distinct_texts a))

-- `" ".join(words) or None`
abbrev pub joined : List Text → Option Text
joined [] = none
joined (w ∷ ws) = some (join (32 ∷ []) (w ∷ ws))

abbrev pub opt_text_eq : Option Text → Option Text → Bool
opt_text_eq none none = true
opt_text_eq none (some t) = false
opt_text_eq (some s) o = opt_eq o s

unfoldable pub first_found : Option Book → Option Book → Option Book
first_found none next = next
first_found (some b) next = some b

unfoldable pub books_by : List ℕ → List Book → List Book
books_by [] books = []
books_by (k ∷ ks) books = select (λ b. is_key k b.author_id) books ++ books_by ks books

module _ (u : Unicode) where
  -- `_strip_edition_keywords`
  unfoldable pub strip_edition_keywords : Text → Option Text
  strip_edition_keywords norm_title = joined (
      select (λ w. not (mem_text w edition_keywords) && not (is_stopword w))
        (words u.is_space norm_title))

  abbrev pub has_name : Text → Author → Bool
  has_name norm a = text_eq (normalize_text u a.name) norm

  -- `_iter_books`
  unfoldable pub iter_books : Session → Option Text → List Book
  iter_books s norm_author =
      if truthy norm_author
      then books_by (map author_id (select (has_name (or_empty norm_author)) s.authors)) s.books
      else s.books

  abbrev pub tokens_of : Text → List Text
  tokens_of norm_title = select (λ w. not (is_stopword w)) (words u.is_space norm_title)

  abbrev pub author_differs : Option Text → Option Author → Bool
  author_differs none a = false
  author_differs (some norm) none = false
  author_differs (some norm) (some a) = not (has_name norm a)

  -- The overlap with a book, 0 where the row is passed over.
  unfoldable pub score_of_book : Session → List Text → Option Text → Book → ℕ
  score_of_book s tokens norm_author book =
      if author_differs norm_author (author_of book s)
      then 0
      else overlap tokens (tokens_of (normalize_text u book.title))

  -- One row of `_fts_match`: the best so far, with its overlap.
  unfoldable pub better :
      Session → List Text → Option Text → Option Book → Option Book × ℕ → Option Book × ℕ
  better s tokens norm_author none best = best
  better s tokens norm_author (some book) best =
      let m = score_of_book s tokens norm_author book in
      if leb 2 m && ltb best.1 m then (some book, m) else best

  unfoldable pub best_match :
      Session → List Text → Option Text → List ℕ → Option Book × ℕ → Option Book
  best_match s tokens norm_author [] best = best.0
  best_match s tokens norm_author (k ∷ ks) best =
      best_match s tokens norm_author ks
        (better s tokens norm_author (get_row book_id k s.books) best)

  -- Pass 2.
  unfoldable pub exact_match : Session → Text → Option Text → Option Book
  exact_match s norm_title norm_author =
      find (λ b. text_eq (normalize_text u b.title) norm_title) (iter_books s norm_author)

  -- Pass 3.
  unfoldable pub stripped_match : Session → Text → Option Text → Option Book
  stripped_match s norm_title norm_author =
      let stripped = strip_edition_keywords norm_title in
      if is_some stripped && not (opt_text_eq stripped (some norm_title))
      then find (λ b. opt_text_eq (strip_edition_keywords (normalize_text u b.title)) stripped)
          (iter_books s norm_author)
      else none

  abbrev pub norm_author_of : Option Text → Option Text
  norm_author_of author = if truthy author then some (normalize_text u (or_empty author)) else none

  module _ (fts : List Text → Session → List ℕ) where
    unfoldable pub fts_match : Session → List Text → Option Text → Option Book
    fts_match s tokens norm_author = best_match s tokens norm_author (fts tokens s) (none, 0)

    -- Pass 4.
    unfoldable pub token_match : Session → Text → Option Text → Option Book
    token_match s norm_title norm_author =
        if leb 2 (length (tokens_of norm_title))
        then fts_match s (tokens_of norm_title) norm_author
        else none

    -- `match_book` without an ISBN.
    unfoldable pub match_title : Session → Text → Option Text → Option Book
    match_title s title author =
        let norm_title = normalize_text u title in
        let norm_author = norm_author_of author in
        if is_empty norm_title
        then none
        else first_found (exact_match s norm_title norm_author) (
            first_found (stripped_match s norm_title norm_author)
              (token_match s norm_title norm_author))

    -- The edition with the ISBN, and its book.
    unfoldable pub match_isbn13 : Session → Text → Option Text → Option Edition → Option Book
    match_isbn13 s title author none = match_title s title author
    match_isbn13 s title author (some edition) = get_row book_id edition.book_id s.books

    abbrev pub edition_with : Option Text → Session → Option Edition
    edition_with none s = none
    edition_with (some isbn13) s = find (λ e. opt_eq e.isbn13 isbn13) s.editions

    unfoldable pub match_isbn :
        Session → Text → Option Text → Option Text → Result Text (Option Book)
    match_isbn s title author isbn = do
      isbn13 ← normalize_isbn isbn
      ok (match_isbn13 s title author (edition_with isbn13 s))

    unfoldable pub match_book :
        Session → Text → Option Text → Option Text → Result Text (Option Book)
    match_book s title author isbn =
        if truthy isbn then match_isbn s title author isbn else ok (match_title s title author)
