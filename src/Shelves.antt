-- ===== src/Shelves.antt =====
-- src/libarr/api/routes.py: the shelves of a user.
--
-- `shelf.books` is the list of the ids of the books that the table `shelf_books` joins to the shelf,
-- and an assignment to it replaces the rows of the shelf.
pub mod Ownership
mod Tests
use libarr.Prelude.{
  is_digit, ℕ, Text, codes, is_empty, Bool, true, not, ◌&&◌, Option, none, some, List, [], ◌∷◌,
  ◌++◌, map, get_row, delete_row, next_id, select, any, all, ok, err, ◌>>=◌, if◌then◌else◌, ◌==◌,
  is_some,
}
use libarr.Python.{Unicode, strip, int}
use libarr.Models.{Book, Shelf, ShelfBook, User, Session}
use libarr.Http.{not_found, server_error, Reply}

abbrev pub shelf_id : Shelf → ℕ
shelf_id shelf = shelf.id

abbrev pub book_id : Book → ℕ
book_id book = book.id

abbrev pub mem_id : ℕ → List ℕ → Bool
mem_id k ids = any (λ j. j == k) ids

-- `[b.id for b in shelf.books]`
unfoldable pub books_of : ℕ → List ShelfBook → List ℕ
books_of k [] = []
books_of k (row ∷ rows) =
    if row.shelf_id == k then row.book_id ∷ books_of k rows else books_of k rows

-- `shelf.books = ids`
unfoldable pub drop_books : ℕ → List ShelfBook → List ShelfBook
drop_books k [] = []
drop_books k (row ∷ rows) = if row.shelf_id == k then drop_books k rows else row ∷ drop_books k rows

unfoldable pub rows_of : ℕ → List ℕ → List ShelfBook
rows_of k [] = []
rows_of k (id ∷ ids) = record { shelf_id = k; book_id = id } ∷ rows_of k ids

unfoldable pub set_books : ℕ → List ℕ → List ShelfBook → List ShelfBook
set_books k ids rows = drop_books k rows ++ rows_of k ids

abbrev pub new_shelf : User → Text → Session → Shelf
new_shelf user name s = record { id = next_id shelf_id s.shelves; user_id = user.id; name = name }

unfoldable pub create_shelf : User → Text → Session → Shelf × Session
create_shelf user name s =
    (new_shelf user name s, record s { shelves = s.shelves ++ new_shelf user name s ∷ [] })

abbrev pub shelf_error : {A : Type 0} → Reply A
shelf_error = err (not_found (codes "Shelf not found"))

unfoldable pub only_owner : User → Option Shelf → Reply Shelf
only_owner user none = shelf_error
only_owner user (some shelf) = if shelf.user_id == user.id then ok shelf else shelf_error

-- `_owned_shelf`
unfoldable pub owned_shelf : User → ℕ → Session → Reply Shelf
owned_shelf user k s = only_owner user (get_row shelf_id k s.shelves)

-- `get_shelf`: the ids of its books.
unfoldable pub get_shelf : User → ℕ → Session → Reply (Shelf × List ℕ)
get_shelf user k s = do shelf ← owned_shelf user k s; ok (shelf, books_of shelf.id s.shelf_books)

-- The loop of `add_shelf_books`: the books that it appends.
unfoldable pub new_books : List ℕ → List Book → List ℕ → List ℕ
new_books existing books [] = []
new_books existing books (id ∷ ids) =
    let rest = new_books existing books ids in
    if not (mem_id id existing) && is_some (get_row book_id id books) then id ∷ rest else rest

unfoldable pub with_books : ℕ → List ℕ → Session → List ℕ × Session
with_books k ids s = (ids, record s { shelf_books = set_books k ids s.shelf_books })

unfoldable pub added : List ℕ → Session → ℕ → List ℕ
added ids s k = books_of k s.shelf_books ++ new_books (books_of k s.shelf_books) s.books ids

-- `IntegrityError`, from the commit: the pair of a shelf and a book is the key of `shelf_books`.
abbrev pub integrity_error : {A : Type 0} → Reply A
integrity_error = err (server_error (codes "IntegrityError"))

unfoldable pub is_distinct : List ℕ → Bool
is_distinct [] = true
is_distinct (id ∷ ids) = not (mem_id id ids) && is_distinct ids

-- The assignment, and the commit.
unfoldable pub commit_books : ℕ → List ℕ → Session → Reply (List ℕ × Session)
unfolding is_distinct with_books
commit_books k ids s = if is_distinct ids then ok (with_books k ids s) else integrity_error

-- The ids come back in the order in which they were appended; after the `refresh` it is the
-- database's.
unfoldable pub add_shelf_books : User → ℕ → List ℕ → Session → Reply (List ℕ × Session)
unfolding commit_books added
add_shelf_books user k ids s = do
  shelf ← owned_shelf user k s
  commit_books shelf.id (added ids s shelf.id) s

-- `text.split(",")`
unfoldable pub split_comma : Text → List Text
split_comma [] = [] ∷ []
split_comma (c ∷ t) = elim (split_comma t) [
  | [] ↦ []
  | part ∷ parts ↦ if c == b',' then [] ∷ part ∷ parts else (c ∷ part) ∷ parts
]

abbrev pub is_number : Text → Bool
is_number t = not (is_empty t) && all is_digit t

module _ (u : Unicode) where
  unfoldable pub book_ids_of : Text → List ℕ
  book_ids_of text =
      map (λ part. int (strip u.is_space part))
        (select (λ part. is_number (strip u.is_space part)) (split_comma text))

  unfoldable pub remaining : Text → Session → ℕ → List ℕ
  remaining text s k = select (λ id. not (mem_id id (book_ids_of text))) (books_of k s.shelf_books)

  unfoldable pub remove_shelf_books : User → ℕ → Text → Session → Reply (List ℕ × Session)
  remove_shelf_books user k text s = do
    shelf ← owned_shelf user k s
    ok (with_books shelf.id (remaining text s shelf.id) s)

-- `delete_shelf`: the rows of its books go with it.
unfoldable pub without_shelf : ℕ → Session → Session
without_shelf k s = record s {
  shelves = delete_row shelf_id k s.shelves;
  shelf_books = drop_books k s.shelf_books;
}

unfoldable pub delete_shelf : User → ℕ → Session → Reply Session
delete_shelf user k s = do shelf ← owned_shelf user k s; ok (without_shelf shelf.id s)
