-- ===== src/Parser.antt =====
-- src/libarr/acquisition/parser.py: the parts of a book's file name.
--
-- `\d` is taken as the digits of ASCII.
pub mod Shape
mod Tests
use mathlib.Core.Option
use libarr.Prelude.{
  ℕ, zero, suc, ◌+◌, Text, codes, is_empty, mem_text, Bool, true, false, not, ◌||◌, Option, none,
  some, List, [], ◌∷◌, ◌++◌, map, select, if◌then◌else◌, ◌==◌, is_some, take, drop,
}
use libarr.Prelude.{join, is_digit}
use libarr.Python.{Unicode, strip, int, rfind}
use libarr.Python.Regex.{
  Re, chr, seq, star, opt, not_ahead, plus, times, one_of, find_match, sub_re, split_re, full_match,
}

pub record ParsedName : Type 0 where
  pub title : Option Text
  pub author : Option Text
  pub year : Option ℕ
  pub series : Option Text
  pub series_position : Option ℕ
  pub edition_hint : Option Text
  pub isbn : Option Text

-- `ParsedName()`
abbrev no_name : ParsedName
no_name = record {
  title = none;
  author = none;
  year = none;
  series = none;
  series_position = none;
  edition_hint = none;
  isbn = none;
}

unfoldable pub strong_extensions : List Text
unfolding codes
strong_extensions =
    codes "epub"
    ∷ codes "mobi"
    ∷ codes "azw"
    ∷ codes "azw3"
    ∷ codes "azw4"
    ∷ codes "pdf"
    ∷ codes "fb2"
    ∷ codes "cbz"
    ∷ codes "cbr"
    ∷ codes "m4b"
    ∷ codes "mp3"
    ∷ codes "aax"
    ∷ []

unfoldable pub weak_extensions : List Text
unfolding codes
weak_extensions = codes "txt" ∷ []

unfoldable pub ebook_extensions : List Text
unfolding strong_extensions weak_extensions
ebook_extensions = strong_extensions ++ weak_extensions

unfoldable pub edition_keywords : List Text
unfolding codes
edition_keywords =
    codes "unabridged"
    ∷ codes "abridged"
    ∷ codes "annotated"
    ∷ codes "illustrated"
    ∷ codes "revised"
    ∷ codes "expanded"
    ∷ codes "special edition"
    ∷ codes "collectors edition"
    ∷ codes "collector's edition"
    ∷ codes "2nd edition"
    ∷ codes "3rd edition"
    ∷ codes "deluxe"
    ∷ codes "omnibus"
    ∷ codes "uncut"
    ∷ []

abbrev digit : Re
digit = chr is_digit

-- `[\(\[](\d{4})[\)\]]`
unfoldable pub year_re : Re
unfolding times
year_re =
    seq (chr (one_of (b'(' ∷ b'[' ∷ []))) (seq (times 4 digit) (chr (one_of (b')' ∷ b']' ∷ []))))

-- `^\d{13}$` and `^\d{9}[\dX]$`, of a text with no line break
unfoldable pub isbn13_re : Re
unfolding times
isbn13_re = times 13 digit

unfoldable pub isbn10_re : Re
unfolding times
isbn10_re = seq (times 9 digit) (chr (λ c. is_digit c || c == b'X'))

-- `\[(?!\d{4}\])[^\]]*\]`
unfoldable pub tag_re : Re
unfolding times
tag_re = seq (chr (λ c. c == b'[')) (
    seq (not_ahead (seq (times 4 digit) (chr (λ c. c == b']'))))
      (seq (star (chr (λ c. not (c == b']')))) (chr (λ c. c == b']'))))

abbrev replace_char : ℕ → ℕ → Text → Text
replace_char from to t = map (λ c. if c == from then to else c) t

abbrev is_no_parts : List Text → Bool
is_no_parts [] = true
is_no_parts (p ∷ ps) = false

abbrev not_empty : Text → Option Text
not_empty t = if is_empty t then none else some t

unfoldable pub is_ebook : Text → Bool
is_ebook ext = mem_text ext ebook_extensions

unfoldable pub is_weak : Text → Bool
is_weak ext = mem_text ext weak_extensions

module _ (u : Unicode) where
  -- `\s*[-–—]\s*`
  unfoldable pub sep_re : Re
  sep_re =
      seq (star (chr u.is_space))
        (seq (chr (one_of (b'-' ∷ 8211 ∷ 8212 ∷ []))) (star (chr u.is_space)))

  -- `_clean_title` and `_clean_author`, which have one body
  unfoldable pub clean_title : Text → Option Text
  clean_title text = not_empty (
      strip (one_of (32 ∷ b'.' ∷ []))
        (sub_re u.is_word (plus (chr u.is_space)) (λ m. 32 ∷ []) (replace_char b'_' 32 text)))

  unfoldable pub clean_author : Text → Option Text
  clean_author text = not_empty (
      strip (one_of (32 ∷ b'.' ∷ []))
        (sub_re u.is_word (plus (chr u.is_space)) (λ m. 32 ∷ []) (replace_char b'_' 32 text)))

  unfoldable pub find_isbn : Text → Option Text
  find_isbn part =
      let digits = select (λ c. not (u.is_space c || c == b'-')) part in
      if full_match u.is_word isbn13_re digits || full_match u.is_word isbn10_re digits
      then some digits
      else none

  -- The loop that takes the first year out of the parts, and drops the parts that are left empty.
  unfoldable pub take_year : Option ℕ → List Text → Option ℕ × List Text
  take_year year [] = (year, [])
  take_year year (part ∷ parts) =
      let matched = find_match u.is_word year_re part in
      let year' : Option ℕ =
        if is_some year then year else Option.map (λ m. int (take 4 (drop 1 m))) matched in
      let bare = strip u.is_space (sub_re u.is_word year_re (λ m. []) part) in
      let (last, rest) = take_year year' parts in
      (last, if is_empty bare then rest else bare ∷ rest)

  -- `return result if result.title else None`
  unfoldable pub titled : ParsedName → Option ParsedName
  titled result = if is_some result.title then some result else none

  abbrev init : List Text → List Text
  init [] = []
  init (p ∷ []) = []
  init (p ∷ q ∷ ps) = p ∷ init (q ∷ ps)

  abbrev last_or : Text → List Text → Text
  last_or p [] = p
  last_or p (q ∷ qs) = last_or q qs

  -- `re.fullmatch(r"\d{1,3}", part)`
  unfoldable pub is_position : Text → Bool
  is_position part = full_match u.is_word (seq digit (seq (opt digit) (opt digit))) part

  unfoldable pub is_edition : Text → Bool
  is_edition part = mem_text (u.lower part) edition_keywords

  -- Three or more parts, `p0`, `p1` and `p2 ∷ ps`: the last is the author, the second decides.
  unfoldable pub parse_many : ParsedName → Text → Text → Text → List Text → Option ParsedName
  parse_many result p0 p1 p2 ps =
      let author = clean_author (last_or p2 ps) in
      let dash : Text = 32 ∷ b'-' ∷ 32 ∷ [] in
      if is_position p1
      then titled (record result {
        series = clean_title p0;
        series_position = some (int p1);
        title = clean_title (if is_no_parts ps then p2 else join dash (init (p2 ∷ ps)));
        author = author;
      })
      else if is_edition p1
      then titled
          (record result { edition_hint = some p1; title = clean_title p0; author = author })
      else titled (record result {
        series = clean_title p0;
        title = clean_title (join dash (p1 ∷ init (p2 ∷ ps)));
        author = author;
      })

  -- The parts that are left after the ISBN and the year.
  unfoldable pub parse_parts : Text → ParsedName → List Text → Option ParsedName
  parse_parts ext result [] = none
  parse_parts ext result (p ∷ []) =
      if is_weak ext then none else titled (record result { title = clean_title p })
  parse_parts ext result (p ∷ q ∷ []) =
      titled (record result { title = clean_title p; author = clean_author q })
  parse_parts ext result (p ∷ q ∷ r ∷ ps) = parse_many result p q r ps

  unfoldable pub parse_years : Text → ParsedName → List Text → Option ParsedName
  parse_years ext result parts =
      let (year, cleaned) = take_year none parts in
      parse_parts ext (record result { year = year }) cleaned

  -- `[p.strip() for p in _SEP_RE.split(stem) if p.strip()]`
  unfoldable pub split_parts : Text → List Text
  split_parts stem =
      select (λ p. not (is_empty p)) (map (strip u.is_space) (split_re u.is_word sep_re stem))

  unfoldable pub parse_stem : Text → Text → Option ParsedName
  parse_stem ext stem =
      let bare = sub_re u.is_word tag_re (λ m. 32 ∷ []) stem in
      elim (split_parts bare) [
        | [] ↦ none
        | p ∷ ps ↦ elim (find_isbn p) [
          | none ↦ parse_years ext no_name (p ∷ ps)
          | some isbn ↦ parse_years ext (record no_name { isbn = some isbn }) ps
        ]
      ]

  -- With the position of the last dot, which must not be the first character.
  unfoldable pub parse_at : Text → Option ℕ → Option ParsedName
  parse_at name none = none
  parse_at name (some zero) = none
  parse_at name (some (suc i)) =
      let ext = u.lower (drop (i + 2) name) in
      if is_ebook ext then parse_stem ext (take (i + 1) name) else none

  unfoldable pub parse_book_filename : Text → Option ParsedName
  unfolding parse_at is_ebook is_position is_edition is_weak strip rfind ebook_extensions
      weak_extensions edition_keywords parse_stem parse_years parse_parts parse_many take_year
      titled clean_title clean_author find_isbn split_parts split_re sub_re find_match full_match
      sep_re tag_re year_re isbn13_re isbn10_re times int join
  parse_book_filename filename =
      let name = strip u.is_space filename in parse_at name (rfind b'.' name)
