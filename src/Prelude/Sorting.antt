-- ===== src/Prelude/Sorting.antt =====
-- `sorted` and `order_by`: a stable sort by insertion.
use mathlib.Core.Logic.{◌⊎◌, inl, inr}
use mathlib.Core.Path.{◌≡◌, sym}
use mathlib.Core.Bool.{Bool, true, false, ◌||◌, ◌&&◌}
use mathlib.Core.List.{List, [], ◌∷◌}
use native.Mathlib.Omega.{arith}
use libarr.Prelude.Tests.{if◌then◌else◌, ◌==◌, ltb}
use libarr.Prelude.Texts.{Text}
use libarr.Prelude.Members.{IsIn}

-- Strings compare by their code points.
unfoldable pub text_lt : Text → Text → Bool
text_lt [] [] = false
text_lt [] (d ∷ t) = true
text_lt (c ∷ s) [] = false
text_lt (c ∷ s) (d ∷ t) = ltb c d || (c == d && text_lt s t)

module _ {A : Type 0} (lt : A → A → Bool) where
  -- After the elements that do not follow it.
  unfoldable pub insert_by : A → List A → List A
  insert_by a [] = a ∷ []
  insert_by a (b ∷ bs) = if lt a b then a ∷ b ∷ bs else b ∷ insert_by a bs

  sort_from : List A → List A → List A
  unfolding insert_by
  sort_from done [] = done
  sort_from done (a ∷ more) = sort_from (insert_by a done) more

  unfoldable pub sort_by : List A → List A
  unfolding sort_from
  sort_by xs = sort_from [] xs

  IsIn-insert_by : (a b : A) (xs : List A) → IsIn b (insert_by a xs) → (b ≡ a) ⊎ IsIn b xs
  unfolding insert_by
  IsIn-insert_by a b [] h = ground arith
  IsIn-insert_by a b (x ∷ xs) h = ground (arith, IsIn-insert_by a b xs)

  IsIn-sort_from : (b : A) (done xs : List A) → IsIn b (sort_from done xs) → IsIn b done ⊎ IsIn b xs
  unfolding sort_from
  IsIn-sort_from b done [] h = inl h
  IsIn-sort_from b done (x ∷ xs) h = elim (IsIn-sort_from b (insert_by x done) xs h) [
    | inr i ↦ inr (inr i)
    | inl i ↦ elim (IsIn-insert_by x b done i) [ inl e ↦ inr (inl (sym e)) | inr j ↦ inl j ]
  ]

  -- Nothing is added.
  pub IsIn-sort_by : (b : A) (xs : List A) → IsIn b (sort_by xs) → IsIn b xs
  unfolding sort_by
  IsIn-sort_by b xs h = elim (IsIn-sort_from b [] xs h) [ inl i ↦ absurd i | inr i ↦ i ]
