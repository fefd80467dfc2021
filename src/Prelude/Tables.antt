-- ===== src/Prelude/Tables.antt =====
-- Tables: rows in the order of their ids. A query without `order_by` reads them in that order, and
-- a new row takes the id after the largest, as SQLite gives an `INTEGER PRIMARY KEY`.
use Prim.Native.Nat.{ℕ, suc, ◌≤◌, ◌<◌, max}
use mathlib.Core.Path.{◌≡◌, refl, subst}
use mathlib.Core.Logic.{◌≢◌}
use mathlib.Core.Option.{Option, none, some}
use mathlib.Core.Option
use mathlib.Core.List.{List, [], ◌∷◌, ◌++◌}
use native.Mathlib.Omega.{arith}
use libarr.Prelude.Tests.{◌==◌, if◌then◌else◌}
use native.Mathlib.Decide.{ℕ_discrete}
use mathlib.Core.Bool.{Bool, true, false}
use libarr.Prelude.Lists.{select, All-select, find, All, length}

module _ {ℓ} {R : Type ℓ} (id : R → ℕ) where
  max_id : List R → ℕ
  max_id [] = 0
  max_id (r ∷ rs) = max (id r) (max_id rs)

  unfoldable pub next_id : List R → ℕ
  unfolding max_id
  next_id rs = suc (max_id rs)

  -- `session.get(Model, key)`
  unfoldable pub get_row : ℕ → List R → Option R
  get_row k rs = find (λ r. id r == k) rs

  -- Assignments to the columns of the row with an id.
  unfoldable pub update_row : ℕ → (R → R) → List R → List R
  update_row k f [] = []
  update_row k f (r ∷ rs) = (if id r == k then f r else r) ∷ update_row k f rs

  -- `session.delete(row)`
  unfoldable pub delete_row : ℕ → List R → List R
  delete_row k [] = []
  delete_row k (r ∷ rs) = if id r == k then delete_row k rs else r ∷ delete_row k rs

  -- No two rows share an id.
  abbrev pub HasDistinctIds : List R → Type 0
  HasDistinctIds [] = Unit
  HasDistinctIds (r ∷ rs) = All (λ s. id s ≢ id r) rs × HasDistinctIds rs

  max_id-bound : (rs : List R) → All (λ r. id r ≤ max_id rs) rs
  unfolding max_id
  max_id-bound [] = tt
  max_id-bound (r ∷ rs) = (omega arith, weaken rs (max_id-bound rs))
    where
      weaken :
          (ss : List R)
          → All (λ s. id s ≤ max_id rs) ss
          → All (λ s. id s ≤ max (id r) (max_id rs)) ss
      weaken [] h = tt
      weaken (s ∷ ss) h = (omega arith, weaken ss h.1)

  pub next_id-fresh : (rs : List R) → All (λ r. id r < next_id rs) rs
  unfolding next_id
  next_id-fresh rs = go rs (max_id-bound rs)
    where
      go : (ss : List R) → All (λ s. id s ≤ max_id rs) ss → All (λ s. id s < suc (max_id rs)) ss
      go [] h = tt
      go (s ∷ ss) h = (omega arith, go ss h.1)

  pub get_row-append_fresh :
      (k : ℕ) (rs : List R) (r : R)
      → All (λ s. id s < k) rs
      → id r ≡ k
      → get_row k (rs ++ r ∷ []) ≡ some r
  unfolding get_row
  get_row-append_fresh k [] r h e = ground arith
  get_row-append_fresh k (s ∷ rs) r h e = ground (arith, get_row-append_fresh k rs r)

  pub get_row-append :
      (k : ℕ) (rs : List R) (r : R) → id r ≢ k → get_row k (rs ++ r ∷ []) ≡ get_row k rs
  unfolding get_row
  get_row-append k [] r h = ground arith
  get_row-append k (s ∷ rs) r h = ground (arith, get_row-append k rs r)

  -- A new row is read back under its id, and the others stay as they were.
  pub get_row-append_new :
      (j : ℕ) (rs : List R) (r : R)
      → All (λ s. id s < id r) rs
      → get_row j (rs ++ r ∷ []) ≡ (if j == id r then some r else get_row j rs)
  unfolding get_row
  get_row-append_new j [] r h = ground arith
  get_row-append_new j (s ∷ rs) r h = ground (arith, get_row-append_new j rs r h.1, h.0)

  pub delete_row-append_new :
      (k : ℕ) (rs : List R) (r : R)
      → All (λ s. id s < k) rs
      → id r ≡ k
      → delete_row k (rs ++ r ∷ []) ≡ rs
  unfolding delete_row
  delete_row-append_new k [] r h e = ground arith
  delete_row-append_new k (s ∷ rs) r h e = ground (arith, delete_row-append_new k rs r h.1 e, h.0)

  -- A row is read back as it was written, and the others stay as they were.
  pub get_row-update_row :
      (k j : ℕ) (f : R → R)
      → ((r : R) → id (f r) ≡ id r)
      → (rs : List R)
      → get_row j (update_row k f rs)
        ≡ (if k == j then Option.map f (get_row j rs) else get_row j rs)
  unfolding get_row update_row
  get_row-update_row k j f same [] = ground arith
  get_row-update_row k j f same (r ∷ rs) = ground (arith, same r, get_row-update_row k j f same rs)

  pub get_row-delete_row :
      (k j : ℕ) (rs : List R)
      → get_row j (delete_row k rs) ≡ (if k == j then none else get_row j rs)
  unfolding get_row delete_row
  get_row-delete_row k j [] = ground arith
  get_row-delete_row k j (r ∷ rs) = ground (arith, get_row-delete_row k j rs)

  pub get_row-id : (k : ℕ) (rs : List R) {r : R} → get_row k rs ≡ some r → id r ≡ k
  unfolding get_row
  get_row-id k [] h = cc
  get_row-id k (s ∷ rs) {r} h = ground (arith, get_row-id k rs {r = r})

  pub length-update_row : (k : ℕ) (f : R → R) (rs : List R) → length (update_row k f rs) ≡ length rs
  unfolding update_row
  length-update_row k f [] = refl
  length-update_row k f (r ∷ rs) = omega (arith, length-update_row k f rs)

-- What a query leaves of a row that was found.
abbrev pub keep_if {ℓ} : {A : Type ℓ} → (A → Bool) → Option A → Option A
keep_if p none = none
keep_if p (some a) = if p a then some a else none

module _ {ℓ} {R : Type ℓ} (id : R → ℕ) where
  All-ne→get_row : (k : ℕ) (rs : List R) → All (λ s. id s ≢ k) rs → get_row id k rs ≡ none
  unfolding get_row
  All-ne→get_row k [] h = refl
  All-ne→get_row k (r ∷ rs) h = ground (arith, All-ne→get_row k rs h.1)

  -- With distinct ids, a row of a selection is the row of the table, if that is selected.
  pub get_row-select :
      (p : R → Bool) (k : ℕ) (rs : List R)
      → HasDistinctIds id rs
      → get_row id k (select p rs) ≡ keep_if p (get_row id k rs)
  unfolding get_row
  get_row-select p k [] h = refl
  get_row-select p k (r ∷ rs) h = elim (ℕ_discrete (id r) k) [
    | yes e ↦ ground (
      arith,
      get_row-select p k rs h.1,
      All-ne→get_row k rs (subst (λ j. All (λ s. id s ≢ j) rs) e h.0),
    )
    | no n ↦ ground (arith, get_row-select p k rs h.1)
  ]

  pub select-HasDistinctIds :
      (p : R → Bool) (rs : List R) → HasDistinctIds id rs → HasDistinctIds id (select p rs)
  select-HasDistinctIds p [] h = tt
  select-HasDistinctIds p (r ∷ rs) h =
      ground (arith, select-HasDistinctIds p rs h.1, All-select (λ s. id s ≢ id r) p rs h.0)

  module _ (k : ℕ) (f : R → R) (same : (r : R) → id (f r) ≡ id r) where
    All-ne-update_row :
        (j : ℕ) (rs : List R) → All (λ s. id s ≢ j) rs → All (λ s. id s ≢ j) (update_row id k f rs)
    unfolding update_row
    All-ne-update_row j [] h = tt
    All-ne-update_row j (r ∷ rs) h = ground (arith, same r, All-ne-update_row j rs h.1)

    id-if : (b : Bool) (r : R) → id (if b then f r else r) ≡ id r
    id-if true r = same r
    id-if false r = refl

    pub update_row-HasDistinctIds :
        (rs : List R) → HasDistinctIds id rs → HasDistinctIds id (update_row id k f rs)
    unfolding update_row
    update_row-HasDistinctIds [] h = tt
    update_row-HasDistinctIds (r ∷ rs) h =
        (rw id-if (All-ne-update_row (id r) rs h.0), update_row-HasDistinctIds rs h.1)

  pub get_row-none : (k : ℕ) (rs : List R) → get_row id k rs ≡ none → All (λ s. id s ≢ k) rs
  unfolding get_row
  get_row-none k [] h = tt
  get_row-none k (r ∷ rs) h = ground (arith, get_row-none k rs)
