-- ===== src/Epub.antt =====
-- src/libarr/acquisition/epub_meta.py: what the package document of an EPUB says.
--
-- Opening the archive and finding the elements of the document are the work of `zipfile` and
-- `xml.etree`: here their result is a `Package`.
use libarr.Prelude.{
  ℕ, zero, suc, Text, codes, or_empty, truthy, is_empty, Bool, not, ◌||◌, Option, none, some, List,
  [], ◌∷◌, map, select, length, if◌then◌else◌, ◌==◌, or_else, drop,
}
use libarr.Prelude.{is_digit}
use libarr.Python.{Unicode, strip}
use libarr.Python.Regex.{Re, chr, seq, opt, star, lit_ci, times, one_of, search_re, find_match}

-- The texts of the Dublin Core elements of each tag, in the order of the document.
pub record Package : Type 0 where
  pub titles : List (Option Text)
  pub creators : List (Option Text)
  pub languages : List (Option Text)
  pub publishers : List (Option Text)
  pub identifiers : List (Option Text)

pub record OpfMetadata : Type 0 where
  pub title : Option Text
  pub authors : List Text
  pub language : Option Text
  pub publisher : Option Text
  pub identifiers : List Text
  pub isbn : Option Text

-- `[0-9Xx]`
abbrev is_isbn_char : ℕ → Bool
is_isbn_char c = is_digit c || c == b'X' || c == b'x'

-- `re.sub(r"[^0-9Xx]", "", text)`
unfoldable pub isbn_chars : Text → Text
isbn_chars t = select is_isbn_char t

-- What stands before and after the first colon: the whole text twice, where there is none.
unfoldable pub before_colon : Text → Option Text
before_colon [] = none
before_colon (c ∷ t) =
    let more = before_colon t in
    if c == b':' then some [] else elim more [ none ↦ none | some s ↦ some (c ∷ s) ]

unfoldable pub after_colon : Text → Option Text
after_colon [] = none
after_colon (c ∷ t) = let more = after_colon t in if c == b':' then some t else more

-- At most `n` times.
up_to : ℕ → Re → Re
up_to zero r = Re.eps
up_to (suc n) r = opt (seq r (up_to n r))

module _ (u : Unicode) where
  -- `ISBN(?:-1[03])?[:\s]*`, and the whole of `_ISBN_TEXT_RE`
  abbrev label_re : Re
  label_re = seq (lit_ci (codes "isbn")) (
      seq
        (opt (
          seq (chr (one_of (b'-' ∷ [])))
            (seq (chr (one_of (b'1' ∷ []))) (chr (one_of (b'0' ∷ b'3' ∷ []))))))
        (star (chr (λ c. c == b':' || u.is_space c))))

  abbrev is_inner : ℕ → Bool
  is_inner c = is_digit c || c == b'-' || c == 32

  unfoldable pub isbn_text_re : Re
  unfolding lit_ci codes times up_to
  isbn_text_re = seq label_re (
      seq (chr is_isbn_char)
        (seq (times 8 (chr is_inner)) (seq (up_to 9 (chr is_inner)) (chr is_isbn_char))))

  -- An identifier whose scheme says ISBN.
  unfoldable pub of_scheme : List Text → Option Text
  unfolding search_re isbn_chars after_colon before_colon lit_ci
  of_scheme [] = none
  of_scheme (t ∷ ts) =
      let more = of_scheme ts in
      if search_re u.is_word (lit_ci (codes "isbn")) (or_empty (before_colon t))
      then some (isbn_chars (or_else t (after_colon t)))
      else more

  -- The number after the label.
  unfoldable pub group_of : Text → Text
  unfolding find_match isbn_chars
  group_of matched =
      isbn_chars (drop (length (or_empty (find_match u.is_word label_re matched))) matched)

  unfoldable pub of_text : List Text → Option Text
  unfolding find_match isbn_text_re group_of
  of_text [] = none
  of_text (t ∷ ts) =
      let more = of_text ts in
      elim (find_match u.is_word isbn_text_re t) [
        | some matched ↦ some (group_of matched)
        | none ↦ more
      ]

  -- An identifier that is shaped like one.
  unfoldable pub of_shape : List Text → Option Text
  unfolding isbn_chars
  of_shape [] = none
  of_shape (t ∷ ts) =
      let digits = isbn_chars t in
      let more = of_shape ts in
      if length digits == 10 || length digits == 13 then some digits else more

  abbrev first_of : Option Text → Option Text → Option Text
  first_of none b = b
  first_of (some a) b = some a

  -- `_pick_isbn`
  unfoldable pub pick_isbn : List Text → Option Text
  unfolding of_scheme of_text of_shape
  pick_isbn ids = first_of (of_scheme ids) (first_of (of_text ids) (of_shape ids))

  -- `el.text.strip()`, where there is text.
  abbrev stripped : Option Text → Text
  stripped t = strip u.is_space (or_empty t)

  -- `_text(tag)`: the first element, if its text is not blank.
  unfoldable pub text_of : List (Option Text) → Option Text
  text_of [] = none
  text_of (t ∷ ts) = if is_empty (stripped t) then none else some (stripped t)

  unfoldable pub identifiers_of : List (Option Text) → List Text
  identifiers_of ts = select (λ t. not (is_empty t)) (map stripped ts)

  unfoldable pub authors_of : List (Option Text) → List Text
  authors_of ts = map stripped (select truthy ts)

  -- `read_opf_metadata`, of a package that could be read.
  unfoldable pub opf_metadata : Package → OpfMetadata
  unfolding text_of identifiers_of authors_of pick_isbn
  opf_metadata p = record {
    title = text_of p.titles;
    authors = authors_of p.creators;
    language = text_of p.languages;
    publisher = text_of p.publishers;
    identifiers = identifiers_of p.identifiers;
    isbn = pick_isbn (identifiers_of p.identifiers);
  }
