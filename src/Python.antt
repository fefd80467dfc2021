-- ===== src/Python.antt =====
-- What the code uses of Python's text: the Unicode tables as parameters, and `re` as a matcher.
pub mod Regex
pub mod Paths
use mathlib.Core.List.{reverse}
use libarr.Prelude.{
  zero, suc, ◌/◌, ◌%◌, length, is_prefix, is_prefix, length, ◌/◌, suc, some, none, Option, none,
  ◌-◌, ◌++◌, Option, ◌*◌, is_empty, ℕ, ◌+◌, Text, Bool, false, ◌&&◌, ◌||◌, List, [], ◌∷◌, map,
  is_digit, is_lower, is_upper, lower_ascii, upper_ascii, ◌==◌, leb, if◌then◌else◌,
}

-- The Unicode database: `str.lower`, `str.upper`, `unicodedata.normalize("NFKD", …)`,
-- `unicodedata.combining`, and the classes `\w` and `\s`.
pub record Unicode : Type 0 where
  pub lower : Text → Text
  pub upper : Text → Text
  pub nfkd : Text → Text
  pub combining : ℕ → Bool
  pub is_word : ℕ → Bool
  pub is_space : ℕ → Bool

abbrev pub is_word_ascii : ℕ → Bool
is_word_ascii c = is_digit c || is_lower c || is_upper c || c == b'_'

abbrev pub is_space_ascii : ℕ → Bool
is_space_ascii c = c == 32 || (leb 9 c && leb c 13)

-- The tables on ASCII text.
abbrev pub ascii : Unicode
ascii = record {
  lower = map lower_ascii;
  upper = map upper_ascii;
  nfkd = λ t. t;
  combining = λ c. false;
  is_word = is_word_ascii;
  is_space = is_space_ascii;
}

-- `text.strip()` from the left, for a class of characters.
unfoldable pub strip_left : (ℕ → Bool) → Text → Text
strip_left p [] = []
strip_left p (c ∷ t) = if p c then strip_left p t else c ∷ t

-- `text.strip()`, and `text.strip(chars)` for a class of characters.
unfoldable pub strip : (ℕ → Bool) → Text → Text
unfolding strip_left
strip p t = reverse (strip_left p (reverse (strip_left p t)))

-- `text.split()` at whitespace: `cur` is the word so far.
words_from : (ℕ → Bool) → Text → Text → List Text
words_from space cur [] = if is_empty cur then [] else cur ∷ []
words_from space cur (c ∷ t) =
    let closed = if is_empty cur then words_from space [] t else cur ∷ words_from space [] t in
    let longer = words_from space (cur ++ c ∷ []) t in if space c then closed else longer

unfoldable pub words : (ℕ → Bool) → Text → List Text
unfolding words_from
words space t = words_from space [] t

-- `int(digits)`
int_from : ℕ → Text → ℕ
int_from n [] = n
int_from n (c ∷ t) = int_from (n * 10 + (c - 48)) t

unfoldable pub int : Text → ℕ
unfolding int_from
int t = int_from 0 t

-- The position of the last occurrence of a character: `text.rfind(c)`.
unfoldable pub rfind : ℕ → Text → Option ℕ
rfind c [] = none
rfind c (d ∷ t) = elim (rfind c t) [
  | some i ↦ some (i + 1)
  | none ↦ if d == c then some 0 else none
]

-- `str(n)`: a number has at most as many digits as its successor counts.
decimal_from : ℕ → ℕ → Text
decimal_from zero n = []
decimal_from (suc k) n = elim (n / 10) [
  | zero ↦ (48 + n) ∷ []
  | suc m ↦ decimal_from k (suc m) ++ (48 + n % 10) ∷ []
]

unfoldable pub decimal : ℕ → Text
unfolding decimal_from
decimal n = decimal_from (suc n) n

-- `text.replace(old, new)` for an `old` that is not empty; `skip` counts the characters left of an
-- occurrence.
replace_from : Text → Text → ℕ → Text → Text
replace_from old new skip [] = []
replace_from old new (suc skip) (c ∷ t) = replace_from old new skip t
replace_from old new zero (c ∷ t) =
    let hit = new ++ replace_from old new (length old - 1) t in
    let miss = c ∷ replace_from old new 0 t in if is_prefix old (c ∷ t) then hit else miss

unfoldable pub replace : Text → Text → Text → Text
unfolding replace_from
replace old new t = replace_from old new 0 t
