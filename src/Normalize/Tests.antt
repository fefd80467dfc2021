-- ===== src/Normalize/Tests.antt =====
-- Runs of the normalisers, and the theorems about them at concrete texts.
use libarr.Prelude.{ℕ, ◌+◌, Text, codes, ◌≡◌, refl, ◌≢◌, none, some, [], ◌∷◌, map, ok, err}
use libarr.Prelude.{lower_ascii}
use libarr.Python.{ascii}
use libarr.Normalize.{isbn_digits, normalize_isbn, slugify, normalize_text}
use libarr.Normalize.Isbn.{
  IsIsbn13, normalize_isbn-IsIsbn13, normalize_isbn-of_IsIsbn13, normalize_isbn-raises,
}
use libarr.Normalize.Slug.{IsSlugText, slugify-IsSlugText}

abbrev road : Text
road = map (λ (d : ℕ). 48 + d) (9 ∷ 7 ∷ 8 ∷ 0 ∷ 0 ∷ 6 ∷ 1 ∷ 1 ∷ 2 ∷ 0 ∷ 0 ∷ 8 ∷ 4 ∷ [])

from_isbn10_text : normalize_isbn (some (codes "0-06-112008-1")) ≡ ok (some road)
unfolding normalize_isbn codes
from_isbn10_text = refl

wrong_check_digit : normalize_isbn (some (codes "978-0-06-112008-5")) ≡ ok none
unfolding normalize_isbn codes
wrong_check_digit = refl

slug_of_title : slugify ascii (codes "  Sci-Fi & Fantasy!") ≡ codes "sci-fi-fantasy"
unfolding slugify codes lower_ascii
slug_of_title = refl

folded_title : normalize_text ascii (codes "The  Road: a novel") ≡ codes "the road a novel"
unfolding normalize_text codes lower_ascii
folded_title = refl

normalize_isbn-IsIsbn13_example : IsIsbn13 road
normalize_isbn-IsIsbn13_example =
    normalize_isbn-IsIsbn13 (some (codes "0-06-112008-1")) road from_isbn10_text

normalize_isbn-of_IsIsbn13_example : normalize_isbn (some road) ≡ ok (some road)
normalize_isbn-of_IsIsbn13_example =
    normalize_isbn-of_IsIsbn13 road
      (normalize_isbn-IsIsbn13 (some (codes "0-06-112008-1")) road from_isbn10_text)

abbrev with_x : Text
with_x = map (λ (d : ℕ). 48 + d) (9 ∷ 7 ∷ 8 ∷ 40 ∷ 0 ∷ 6 ∷ 1 ∷ 1 ∷ 2 ∷ 0 ∷ 0 ∷ 8 ∷ 4 ∷ [])

normalize_isbn-raises_example : (m : Text) × (normalize_isbn (some with_x) ≡ err m)
normalize_isbn-raises_example =
    normalize_isbn-raises with_x (unfold isbn_digits in refl) (unfold isbn_digits in refl)

slugify-IsSlugText_example :
    IsSlugText (slugify ascii (codes "Été!")) × (slugify ascii (codes "Été!") ≢ [])
slugify-IsSlugText_example = slugify-IsSlugText ascii (codes "Été!")
