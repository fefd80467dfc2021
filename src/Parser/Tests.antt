-- ===== src/Parser/Tests.antt =====
-- The parser on file names.
use libarr.Prelude.{codes, mem_text, ◌≡◌, refl, none, some}
use libarr.Python.{ascii}
use libarr.Parser.{ParsedName, parse_book_filename}
use libarr.Parser.Shape.{HasTitle, parse_book_filename-HasTitle}
use libarr.Prelude.{lower_ascii}

abbrev the_stand : ParsedName
the_stand = record {
  title = some (codes "The Stand");
  author = some (codes "Stephen King");
  year = some 1990;
  series = none;
  series_position = none;
  edition_hint = none;
  isbn = none;
}

parse_author_and_year :
    parse_book_filename ascii (codes "The Stand - Stephen King (1990).epub") ≡ some the_stand
unfolding parse_book_filename codes mem_text lower_ascii
parse_author_and_year = refl

parse_isbn_prefix :
    parse_book_filename ascii (codes "9780061120084 - The Road - Cormac McCarthy.epub")
    ≡ some (record {
      title = some (codes "The Road");
      author = some (codes "Cormac McCarthy");
      year = none;
      series = none;
      series_position = none;
      edition_hint = none;
      isbn = some (codes "9780061120084");
    })
unfolding parse_book_filename codes mem_text lower_ascii
parse_isbn_prefix = refl

parse_series :
    parse_book_filename ascii
      (codes "Dune - 2 - [retail] Dune_Messiah -  Frank Herbert [1969].mobi")
    ≡ some (record {
      title = some (codes "Dune Messiah");
      author = some (codes "Frank Herbert");
      year = some 1969;
      series = some (codes "Dune");
      series_position = some 2;
      edition_hint = none;
      isbn = none;
    })
unfolding parse_book_filename codes mem_text lower_ascii
parse_series = refl

parse_book_filename-HasTitle_example : HasTitle the_stand
parse_book_filename-HasTitle_example =
    parse_book_filename-HasTitle ascii (codes "The Stand - Stephen King (1990).epub") the_stand
      parse_author_and_year
