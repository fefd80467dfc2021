-- ===== src/Normalize.antt =====
-- src/libarr/metadata/normalize.py: text folding, slugs and ISBNs.
pub mod Isbn
pub mod Slug
mod Tests
use libarr.Prelude.{
  ℕ, ◌+◌, ◌-◌, ◌*◌, ◌%◌, Text, codes, is_empty, Bool, true, false, not, ◌||◌, Option, none, some,
  [], ◌∷◌, ◌++◌, map, select, length, Result, ok, err, ◌>>=◌, if◌then◌else◌, ◌==◌, ltb, take,
}
use libarr.Prelude.{is_digit, is_lower, lower_ascii, get_elem?}
use libarr.Python.{Unicode, strip, int}
use libarr.Python.Regex.{chr, plus, sub_re}

-- `_LIGATURES`
unfoldable pub ligature : ℕ → Text
unfolding codes
ligature c =
    if c == 230
    then codes "ae"
    else if c == 339
    then codes "oe"
    else if c == 223
    then codes "ss"
    else if c == 248
    then codes "oe"
    else if c == 240
    then codes "d"
    else if c == 254
    then codes "th"
    else if c == 273
    then codes "d"
    else if c == 322
    then codes "l"
    else if c == 305
    then codes "i"
    else c ∷ []

-- `text.translate(_LIGATURES)`
unfoldable pub translate : Text → Text
translate [] = []
translate (c ∷ t) = ligature c ++ translate t

module _ (u : Unicode) where
  unfoldable pub normalize_text : Text → Text
  unfolding translate ligature sub_re strip
  normalize_text text =
      let base = select (λ c. not (u.combining c)) (u.nfkd text) in
      let folded = translate (u.lower base) in
      let spaced = map (λ c. if u.is_word c || u.is_space c then c else 32) folded in
      strip u.is_space (sub_re u.is_word (plus (chr u.is_space)) (λ m. 32 ∷ []) spaced)

-- The characters of a slug.
abbrev pub is_slug_char : ℕ → Bool
is_slug_char c = is_lower c || is_digit c

-- `re.sub(r"[^a-z0-9]+", "-", text)`: `gap` says that the last character stood for a run.
unfoldable pub dashes : Bool → Text → Text
dashes gap [] = []
dashes gap (c ∷ t) =
    let kept = c ∷ dashes false t in
    let run = if gap then dashes true t else b'-' ∷ dashes true t in
    if is_slug_char c then kept else run

abbrev pub is_dash : ℕ → Bool
is_dash c = c == b'-'

unfoldable pub slugify : Unicode → Text → Text
unfolding dashes strip
slugify u text =
    let plain = select (λ c. ltb c 128) (u.nfkd text) in
    let slug = strip is_dash (dashes false (map lower_ascii plain)) in
    if is_empty slug then codes "untitled" else slug

-- `int(c)` of one character, which raises for an `X`.
unfoldable pub digit_of : ℕ → Result Text ℕ
digit_of c = if is_digit c then ok (c - 48) else err (codes "invalid literal for int()")

-- The weight of a place: 1 or 3.
abbrev pub weight : Bool → ℕ
weight false = 1
weight true = 3

-- `int(c) * (1 if i % 2 == 0 else 3)`, summed from an even or odd place on.
unfoldable pub weighted : Bool → Text → Result Text ℕ
unfolding digit_of
weighted odd [] = ok 0
weighted odd (c ∷ t) = do v ← digit_of c; rest ← weighted (not odd) t; ok (v * weight odd + rest)

abbrev pub check_digit : ℕ → ℕ
check_digit total = (10 - total % 10) % 10

abbrev pub checked_last : ℕ → Option ℕ → Result Text Bool
checked_last total none = err (codes "string index out of range")
checked_last total (some c) = do v ← digit_of c; ok (check_digit total == v)

unfoldable pub isbn13_valid : Text → Result Text Bool
unfolding weighted digit_of
isbn13_valid digits = do
  total ← weighted false (take 12 digits)
  checked_last total (get_elem? digits 12)

-- `(10 - i) * (10 if c == "X" else int(c))`, summed from the weight 10 - i on.
unfoldable pub weighted10 : ℕ → Text → Result Text ℕ
unfolding digit_of
weighted10 w [] = ok 0
weighted10 w (c ∷ t) = do
  v ← (if c == b'X' then ok 10 else digit_of c)
  rest ← weighted10 (w - 1) t
  ok (w * v + rest)

unfoldable pub isbn10_valid : Text → Result Text Bool
unfolding weighted10
isbn10_valid digits = do total ← weighted10 10 digits; ok (total % 11 == 0)

abbrev pub isbn_base : Text → Text
isbn_base digits = b'9' ∷ b'7' ∷ b'8' ∷ take 9 digits

unfoldable pub isbn10_to_13 : Text → Result Text Text
unfolding weighted
isbn10_to_13 digits = do
  total ← weighted false (isbn_base digits)
  ok (isbn_base digits ++ (48 + check_digit total) ∷ [])

-- `re.sub(r"[^0-9Xx]", "", raw).upper()`
unfoldable pub isbn_digits : Text → Text
isbn_digits raw =
    map (λ c. if c == b'x' then b'X' else c)
      (select (λ c. is_digit c || c == b'X' || c == b'x') raw)

abbrev pub return_if : {A : Type 0} → A → Bool → Result Text (Option A)
return_if a true = ok (some a)
return_if a false = ok none

unfoldable pub from_isbn13 : Text → Result Text (Option Text)
from_isbn13 digits = do valid ← isbn13_valid digits; return_if digits valid

abbrev pub convert_if : Text → Bool → Result Text (Option Text)
convert_if digits true = do isbn ← isbn10_to_13 digits; ok (some isbn)
convert_if digits false = ok none

unfoldable pub from_isbn10 : Text → Result Text (Option Text)
from_isbn10 digits = do valid ← isbn10_valid digits; convert_if digits valid

-- The part that follows the cleaning of the text.
unfoldable pub normalize_digits : Text → Result Text (Option Text)
normalize_digits digits =
    if length digits == 13
    then from_isbn13 digits
    else if length digits == 10
    then from_isbn10 digits
    else ok none

-- `ok none` is a missing or an invalid ISBN; an error is an exception that nothing catches.
unfoldable pub normalize_isbn : Option Text → Result Text (Option Text)
unfolding isbn_digits normalize_digits from_isbn13 from_isbn10 isbn13_valid isbn10_valid
    isbn10_to_13
normalize_isbn none = ok none
normalize_isbn (some raw) = if is_empty raw then ok none else normalize_digits (isbn_digits raw)
