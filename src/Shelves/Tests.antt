-- ===== src/Shelves/Tests.antt =====
-- A shelf with one of three books.
use libarr.Prelude.{ℕ, codes, ◌≡◌, refl, List, [], ◌∷◌, get_row, ok, err}
use libarr.Http.{server_error}
use libarr.Python.{ascii, strip, int}
use libarr.Models.{ShelfBook, User, Session}
use libarr.Samples.{empty_session, sample_book, sample_user}
use libarr.Shelves.{
  books_of, drop_books, rows_of, set_books, only_owner, owned_shelf, new_books, with_books, added,
  is_distinct, commit_books, add_shelf_books, book_ids_of, split_comma, remaining,
  remove_shelf_books,
}
use libarr.Shelves.Ownership.{IsUnion, IsDistinct, Owns, SetsOnly, add_shelf_books-SetsOnly}

abbrev bob : User
bob = sample_user 2 (codes "bob") (codes "user")

abbrev row : ℕ → ShelfBook
row id = record { shelf_id = 1; book_id = id }

abbrev session_of : List ShelfBook → Session
session_of rows = record empty_session {
  books = sample_book 5 (codes "A") ∷ sample_book 6 (codes "B") ∷ sample_book 7 (codes "C") ∷ [];
  shelves = record { id = 1; user_id = 2; name = codes "s" } ∷ [];
  shelf_books = rows;
}

abbrev one_book : Session
one_book = session_of (row 5 ∷ [])

added_6 :
    add_shelf_books bob 1 (5 ∷ 6 ∷ 9 ∷ []) one_book
    ≡ ok (5 ∷ 6 ∷ [], session_of (row 5 ∷ row 6 ∷ []))
unfolding add_shelf_books commit_books is_distinct added owned_shelf only_owner with_books set_books
    drop_books rows_of books_of new_books get_row
added_6 = refl

-- A request with one id twice is refused by the database.
added_twice :
    add_shelf_books bob 1 (6 ∷ 6 ∷ []) one_book ≡ err (server_error (codes "IntegrityError"))
unfolding add_shelf_books commit_books is_distinct added owned_shelf only_owner books_of new_books
    get_row
added_twice = refl

removed_5 : remove_shelf_books ascii bob 1 (codes "5, x,") one_book ≡ ok ([], session_of [])
unfolding remove_shelf_books remaining owned_shelf only_owner with_books set_books drop_books
    rows_of books_of get_row book_ids_of split_comma codes strip int
removed_5 = refl

add_shelf_books-SetsOnly_example :
    Owns bob 1 one_book
    × IsUnion (books_of 1 one_book.shelf_books) (5 ∷ 6 ∷ 9 ∷ []) one_book (5 ∷ 6 ∷ [])
    × IsDistinct (5 ∷ 6 ∷ [])
    × SetsOnly 1 (5 ∷ 6 ∷ []) one_book.shelf_books (row 5 ∷ row 6 ∷ [])
add_shelf_books-SetsOnly_example =
    add_shelf_books-SetsOnly bob 1 one_book (5 ∷ 6 ∷ []) (session_of (row 5 ∷ row 6 ∷ []))
      (5 ∷ 6 ∷ 9 ∷ []) added_6
