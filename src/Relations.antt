-- ===== src/Relations.antt =====
-- The relationships of the ORM classes in src/libarr/models: the queries that stand for them.
use libarr.Prelude.{ℕ, Bool, false, Option, none, some, List, get_row, select, ◌==◌}
use libarr.Models.{Author, Series, Book, Edition, File, Subject, Session}

abbrev pub author_id : Author → ℕ
author_id a = a.id

abbrev pub series_id : Series → ℕ
series_id r = r.id

abbrev pub book_id : Book → ℕ
book_id b = b.id

-- A row by a key that may be NULL.
abbrev pub row_at {ℓ} : {R : Type ℓ} → (R → ℕ) → Option ℕ → List R → Option R
row_at id none rows = none
row_at id (some k) rows = get_row id k rows

-- `book.author`
abbrev pub author_of : Book → Session → Option Author
author_of book s = row_at author_id book.author_id s.authors

-- `book.series`
abbrev pub series_of : Book → Session → Option Series
series_of book s = row_at series_id book.series_id s.series

-- `book.editions`
abbrev pub editions_of : Book → Session → List Edition
editions_of book s = select (λ e. e.book_id == book.id) s.editions

-- A key column compared with a key: false on NULL.
abbrev pub is_key : ℕ → Option ℕ → Bool
is_key k none = false
is_key k (some j) = j == k

-- `edition.files`
abbrev pub files_of : ℕ → Session → List File
files_of edition s = select (λ f. is_key edition f.edition_id) s.files

-- `book.subjects`
abbrev pub subjects_of : Book → Session → List Subject
subjects_of book s = select (λ t. t.book_id == book.id) s.subjects
