-- ===== src/Prelude/Distinct.antt =====
-- A text column that is unique.
use Prim.Native.Nat.{ℕ}
use mathlib.Core.Path.{◌≡◌, refl, sym, ◌∙◌}
use mathlib.Core.Logic.{◌≢◌, inl, inr}
use mathlib.Core.Bool.{Bool, true, false}
use mathlib.Core.Option.{none}
use mathlib.Core.List.{List, [], ◌∷◌, ◌++◌}
use native.Mathlib.Omega.{arith}
use libarr.Prelude.Tests.{if◌then◌else◌, ◌==◌, Bool-cases}
use libarr.Prelude.Texts.{Text, text_eq, text_eq_iff}
use libarr.Prelude.Lists.{All, All-append, find}
use libarr.Prelude.Tables.{update_row}

module _ {R : Type 0} (key : R → Text) where
  -- No two rows share the key.
  abbrev pub HasDistinctKeys : List R → Type 0
  HasDistinctKeys [] = Unit
  HasDistinctKeys (r ∷ rs) = All (λ s. key s ≢ key r) rs × HasDistinctKeys rs

  find-none :
      (k : Text) (rows : List R)
      → find (λ r. text_eq (key r) k) rows ≡ none
      → All (λ r. key r ≢ k) rows
  find-none k [] e = tt
  find-none k (r ∷ rs) e = elim (Bool-cases (text_eq (key r) k)) [
    | inl hit ↦ absurd (clash hit)
    | inr miss ↦ (differs miss, find-none k rs (later miss))
  ]
    where
      clash : text_eq (key r) k ≡ true → ⊥
      clash h = ground arith

      later : text_eq (key r) k ≡ false → find (λ q. text_eq (key q) k) rs ≡ none
      later h = ground arith

      differs : text_eq (key r) k ≡ false → key r ≢ k
      differs h e = ground (arith, (text_eq_iff (key r) k).1 e)

  append-All :
      (rows : List R) (new : R)
      → HasDistinctKeys rows
      → All (λ r. key r ≢ key new) rows
      → HasDistinctKeys (rows ++ new ∷ [])
  append-All [] new h fresh = (tt, tt)
  append-All (r ∷ rs) new h fresh =
      (All-append _ rs (new ∷ []) h.0 ((λ e. fresh.0 (sym e)), tt), append-All rs new h.1 fresh.1)

  -- A new row, whose key no row was found to have.
  pub append-HasDistinctKeys :
      (rows : List R) (new : R)
      → HasDistinctKeys rows
      → find (λ r. text_eq (key r) (key new)) rows ≡ none
      → HasDistinctKeys (rows ++ new ∷ [])
  append-HasDistinctKeys rows new h e = append-All rows new h (find-none (key new) rows e)

  module _ (id : R → ℕ) (k : ℕ) (f : R → R) (same : (r : R) → key (f r) ≡ key r) where
    key-if : (b : Bool) (r : R) → key (if b then f r else r) ≡ key r
    key-if true r = same r
    key-if false r = refl

    All-ne-update :
        (t : Text) (rows : List R)
        → All (λ s. key s ≢ t) rows
        → All (λ s. key s ≢ t) (update_row id k f rows)
    unfolding update_row
    All-ne-update t [] h = tt
    All-ne-update t (r ∷ rs) h =
        ((λ e. h.0 (sym (key-if (id r == k) r) ∙ e)), All-ne-update t rs h.1)

    -- An update that leaves the key.
    pub update_row-HasDistinctKeys :
        (rows : List R) → HasDistinctKeys rows → HasDistinctKeys (update_row id k f rows)
    unfolding update_row
    update_row-HasDistinctKeys [] h = tt
    update_row-HasDistinctKeys (r ∷ rs) h =
        (rw key-if (All-ne-update (key r) rs h.0), update_row-HasDistinctKeys rs h.1)
