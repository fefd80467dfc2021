-- ===== src/Parser/Shape.antt =====
-- src/libarr/acquisition/parser.py: the title of what `parse_book_filename` returns.

use libarr.Prelude.{
  if-ind, ℕ, zero, suc, Text, is_empty, ◌≡◌, refl, ◌≢◌, Option, none, some, List, [], ◌∷◌, arith,
  if◌then◌else◌,
}
use libarr.Python.{rfind, strip, Unicode}
use libarr.Parser.{
  is_ebook, parse_at, is_edition, is_position, is_weak, split_parts, no_name, ParsedName,
  parse_book_filename, parse_stem, parse_years, parse_parts, parse_many, titled, find_isbn,
  clean_title,
}

-- The title is there, and is not empty.
pub record HasTitle (n : ParsedName) : Type 0 where
  pub text : Text
  pub found : n.title ≡ some text
  pub not_empty : text ≢ []

abbrev IsFilled : Option Text → Type 0
IsFilled none = Unit
IsFilled (some t) = t ≢ []

module _ (u : Unicode) where
  clean_title-IsFilled : (t : Text) → IsFilled (clean_title u t)
  unfolding clean_title
  clean_title-IsFilled t = filled _
    where
      filled : (s : Text) → IsFilled (if is_empty s then none else some s)
      filled [] = tt
      filled (c ∷ s) = λ e. cc

  titled-HasTitle : (n m : ParsedName) → IsFilled n.title → titled u n ≡ some m → HasTitle m
  unfolding titled
  titled-HasTitle n m h e = go n.title refl h
    where
      go : (o : Option Text) → n.title ≡ o → IsFilled o → HasTitle m
      go none missing filled = absurd (ground arith)
      go (some t) is filled = record { text = t; found = ground arith; not_empty = filled }

  abbrev Titled : Option ParsedName → Type 0
  Titled o = (m : ParsedName) → o ≡ some m → HasTitle m

  titled-Titled : (n : ParsedName) → IsFilled n.title → Titled (titled u n)
  titled-Titled n h m e = titled-HasTitle n m h e

  parse_many-Titled :
      (result : ParsedName) (p0 p1 p2 : Text) (ps : List Text)
      → Titled (parse_many u result p0 p1 p2 ps)
  unfolding parse_many
  parse_many-Titled result p0 p1 p2 ps =
      if-ind Titled (is_position u p1) (titled-Titled _ (clean_title-IsFilled _)) (
        if-ind Titled (is_edition u p1) (titled-Titled _ (clean_title-IsFilled _))
          (titled-Titled _ (clean_title-IsFilled _)))

  parse_parts-Titled :
      (ext : Text) (result : ParsedName) (parts : List Text)
      → Titled (parse_parts u ext result parts)
  unfolding parse_parts
  parse_parts-Titled ext result [] = λ m e. cc
  parse_parts-Titled ext result (p ∷ []) =
      if-ind Titled (is_weak ext) (λ m e. cc) (titled-Titled _ (clean_title-IsFilled _))
  parse_parts-Titled ext result (p ∷ q ∷ []) = titled-Titled _ (clean_title-IsFilled _)
  parse_parts-Titled ext result (p ∷ q ∷ r ∷ ps) = parse_many-Titled result p q r ps

  parse_stem-Titled : (ext stem : Text) → Titled (parse_stem u ext stem)
  unfolding parse_stem parse_years
  parse_stem-Titled ext stem = from_parts (split_parts u _)
    where
      from_isbn :
          (p : Text) (ps : List Text) (i : Option Text)
          → Titled (elim i [
            | none ↦ parse_years u ext no_name (p ∷ ps)
            | some isbn ↦ parse_years u ext (record no_name { isbn = some isbn }) ps
          ])
      from_isbn p ps none = parse_parts-Titled ext _ _
      from_isbn p ps (some i) = parse_parts-Titled ext _ _

      from_parts :
          (parts : List Text)
          → Titled (elim parts [
            | [] ↦ none
            | p ∷ ps ↦ elim (find_isbn u p) [
              | none ↦ parse_years u ext no_name (p ∷ ps)
              | some isbn ↦ parse_years u ext (record no_name { isbn = some isbn }) ps
            ]
          ])
      from_parts [] = λ m e. cc
      from_parts (p ∷ ps) = from_isbn p ps (find_isbn u p)

  parse_at-Titled : (name : Text) (dot : Option ℕ) → Titled (parse_at u name dot)
  unfolding parse_at
  parse_at-Titled name none = λ m e. cc
  parse_at-Titled name (some zero) = λ m e. cc
  parse_at-Titled name (some (suc i)) =
      if-ind Titled (is_ebook _) (parse_stem-Titled _ _) (λ m e. cc)

-- A file name that parses has a title that is not empty, whatever the Unicode tables.
pub parse_book_filename-HasTitle :
    (u : Unicode) (filename : Text) (n : ParsedName)
    → parse_book_filename u filename ≡ some n
    → HasTitle n
parse_book_filename-HasTitle u filename n e =
    parse_at-Titled u (strip u.is_space filename) (rfind b'.' (strip u.is_space filename)) n
      (unfold parse_book_filename in e)
