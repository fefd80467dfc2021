-- ===== src/Prelude/Members.antt =====
-- Membership in a list, with the place kept.
use mathlib.Core.Path.{◌≡◌, refl, subst, sym}
use mathlib.Core.Logic.{◌⊎◌, inl, inr}
use mathlib.Core.Bool.{Bool, true, false}
use mathlib.Core.Option.{some}
use mathlib.Core.List.{List, [], ◌∷◌, ◌++◌}
use native.Mathlib.Omega.{arith}
use libarr.Prelude.Tests.{Bool-cases}
use Prim.Native.Nat.{ℕ, ◌<◌}
use mathlib.Core.Logic.{◌≢◌}
use libarr.Prelude.Tests.{==_refl}
use libarr.Prelude.Tables.{HasDistinctIds, get_row}
use libarr.Prelude.Lists.{All-append}
use libarr.Prelude.Lists.{All, any, find, select}

abbrev pub IsIn : {A : Type 0} → A → List A → Type 0
IsIn a [] = ⊥
IsIn a (x ∷ xs) = (x ≡ a) ⊎ IsIn a xs

module _ {A : Type 0} where
  pub find-IsIn : (p : A → Bool) (xs : List A) (a : A) → find p xs ≡ some a → IsIn a xs
  find-IsIn p [] a e = cc
  find-IsIn p (x ∷ xs) a e = elim (Bool-cases (p x)) [
    | inl yes_ ↦ inl (hit yes_)
    | inr no_ ↦ inr (find-IsIn p xs a (miss no_))
  ]
    where
      hit : p x ≡ true → x ≡ a
      hit h = ground arith

      miss : p x ≡ false → find p xs ≡ some a
      miss h = ground arith

  pub IsIn-select :
      (p : A → Bool) (xs : List A) (a : A) → IsIn a (select p xs) → IsIn a xs × (p a ≡ true)
  IsIn-select p [] a h = absurd h
  IsIn-select p (x ∷ xs) a h = elim (Bool-cases (p x)) [
    | inl yes_ ↦ kept (IsIn-select p xs a) yes_ (subst (IsIn a) (taken yes_) h)
    | inr no_ ↦ let (i, q) = IsIn-select p xs a (subst (IsIn a) (dropped no_) h) in (inr i, q)
  ]
    where
      taken : p x ≡ true → select p (x ∷ xs) ≡ x ∷ select p xs
      taken e = ground arith

      dropped : p x ≡ false → select p (x ∷ xs) ≡ select p xs
      dropped e = ground arith

      kept :
          (IsIn a (select p xs) → IsIn a xs × (p a ≡ true))
          → p x ≡ true
          → IsIn a (x ∷ select p xs)
          → IsIn a (x ∷ xs) × (p a ≡ true)
      kept rest e (inl same) = (inl same, subst (λ y. p y ≡ true) same e)
      kept rest e (inr i) = let (j, q) = rest i in (inr j, q)

  pub IsIn-append : (xs ys : List A) (a : A) → IsIn a (xs ++ ys) → IsIn a xs ⊎ IsIn a ys
  IsIn-append [] ys a h = inr h
  IsIn-append (x ∷ xs) ys a (inl e) = inl (inl e)
  IsIn-append (x ∷ xs) ys a (inr h) = elim (IsIn-append xs ys a h) [
    | inl i ↦ inl (inr i)
    | inr j ↦ inr j
  ]

  pub any_of_IsIn : (p : A → Bool) (xs : List A) (a : A) → IsIn a xs → p a ≡ true → any p xs ≡ true
  any_of_IsIn p [] a h e = absurd h
  any_of_IsIn p (x ∷ xs) a (inl same) e =
      let e' : p x ≡ true = subst (λ y. p y ≡ true) (sym same) e in ground arith
  any_of_IsIn p (x ∷ xs) a (inr h) e = ground (arith, any_of_IsIn p xs a h e)

  pub All-IsIn {κ} : (P : A → Type κ) (xs : List A) (a : A) → All P xs → IsIn a xs → P a
  All-IsIn P [] a ps h = absurd h
  All-IsIn P (x ∷ xs) a ps (inl same) = subst P same ps.0
  All-IsIn P (x ∷ xs) a ps (inr h) = All-IsIn P xs a ps.1 h

  pub find_of_any : (p : A → Bool) (xs : List A) → any p xs ≡ true → (a : A) × (find p xs ≡ some a)
  find_of_any p [] h = absurd (cc)
  find_of_any p (x ∷ xs) h = elim (Bool-cases (p x)) [
    | inl yes_ ↦ (x, rw yes_ refl)
    | inr no_ ↦ let (a, e) = find_of_any p xs (ground arith) in (a, rw no_ e)
  ]

module _ {A : Type 0} where
  pub IsIn-append_last : (xs : List A) (a : A) → IsIn a (xs ++ a ∷ [])
  IsIn-append_last [] a = inl refl
  IsIn-append_last (x ∷ xs) a = inr (IsIn-append_last xs a)

module _ {R : Type 0} (id : R → ℕ) where
  -- A row of a table is found under its id.
  pub get_row-IsIn :
      (rows : List R) (r : R)
      → HasDistinctIds id rows
      → IsIn r rows
      → get_row id (id r) rows ≡ some r
  unfolding get_row
  get_row-IsIn [] r d h = absurd h
  get_row-IsIn (x ∷ rows) r d (inl e) =
      subst (λ y. get_row id (id y) (x ∷ rows) ≡ some y) e (ground (arith, ==_refl (id x)))
  get_row-IsIn (x ∷ rows) r (fresh, d) (inr h) =
      let apart : id r ≢ id x = All-IsIn (λ y. id y ≢ id x) rows r fresh h in
      let rest : get_row id (id r) rows ≡ some r = get_row-IsIn rows r d h in
      ground (arith, apart, rest)

  -- A new row with a fresh id.
  pub append-HasDistinctIds :
      (rows : List R) (new : R)
      → HasDistinctIds id rows
      → All (λ r. id r < id new) rows
      → HasDistinctIds id (rows ++ new ∷ [])
  append-HasDistinctIds [] new h fresh = (tt, tt)
  append-HasDistinctIds (r ∷ rows) new h fresh = (
    All-append _ rows (new ∷ []) h.0 (omega (arith, fresh.0), tt),
    append-HasDistinctIds rows new h.1 fresh.1,
  )
