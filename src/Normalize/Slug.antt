-- ===== src/Normalize/Slug.antt =====
-- src/libarr/metadata/normalize.py: the characters of slugs.
use mathlib.Core.List.{reverse}
use libarr.Prelude.{
  if-ind, ℕ, Text, codes, is_empty, ◌≡◌, refl, ◌≢◌, inl, inr, Bool, true, false, ◌||◌, [], ◌∷◌, map,
  arith, select, All, Bool-cases, if◌then◌else◌, ltb,
}
use libarr.Prelude.{lower_ascii, All-reverse}
use libarr.Python.{Unicode, strip, strip_left}
use libarr.Normalize.{is_slug_char, is_dash, dashes, slugify}

-- A letter, a digit or a dash.
abbrev pub IsSlugText : Text → Type 0
IsSlugText t = All (λ c. (is_slug_char c || is_dash c) ≡ true) t

dashes-IsSlugText : (gap : Bool) (t : Text) → IsSlugText (dashes gap t)
unfolding dashes
dashes-IsSlugText gap [] = tt
dashes-IsSlugText true (c ∷ t) = elim (Bool-cases (is_slug_char c)) [
  | inl kept ↦ rw kept (rw kept, dashes-IsSlugText false t)
  | inr run ↦ rw run (dashes-IsSlugText true t)
]
dashes-IsSlugText false (c ∷ t) = elim (Bool-cases (is_slug_char c)) [
  | inl kept ↦ rw kept (rw kept, dashes-IsSlugText false t)
  | inr run ↦ rw run (refl, dashes-IsSlugText true t)
]

strip_left-All : (P : ℕ → Type 0) (p : ℕ → Bool) (t : Text) → All P t → All P (strip_left p t)
unfolding strip_left
strip_left-All P p [] h = tt
strip_left-All P p (c ∷ t) h = if-ind (All P) (p c) (strip_left-All P p t h.1) h

strip-All : (P : ℕ → Type 0) (p : ℕ → Bool) (t : Text) → All P t → All P (strip p t)
unfolding strip
strip-All P p t h = All-reverse P (strip_left p (reverse (strip_left p t))) (
    strip_left-All P p (reverse (strip_left p t))
      (All-reverse P (strip_left p t) (strip_left-All P p t h)))

-- A slug is not empty, and has lower-case letters of ASCII, digits and dashes only, whatever the
-- text and the Unicode tables.
pub slugify-IsSlugText : (u : Unicode) (t : Text) → IsSlugText (slugify u t) × (slugify u t ≢ [])
slugify-IsSlugText u t =
    unfold slugify in
    filled (strip is_dash (dashes false (map lower_ascii (select (λ c. ltb c 128) (u.nfkd t))))) (
      strip-All (λ c. (is_slug_char c || is_dash c) ≡ true) is_dash _
        (dashes-IsSlugText false (map lower_ascii (select (λ c. ltb c 128) (u.nfkd t)))))
  where
    filled :
        (s : Text)
        → IsSlugText s
        → IsSlugText (if is_empty s then codes "untitled" else s)
          × ((if is_empty s then codes "untitled" else s) ≢ [])
    filled [] h = unfold codes in (ground arith, λ e. cc)
    filled (c ∷ s) h = (h, λ e. cc)
