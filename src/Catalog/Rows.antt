-- ===== src/Catalog/Rows.antt =====
-- src/libarr/api/routes.py: changes of single rows.
use libarr.Prelude.{
  sym, guard-returned, chain-returned, ok_inj, ℕ, Text, codes, text_eq, text_eq_iff, text_eq_refl,
  ◌≡◌, refl, ap, subst, ◌∙◌, inl, inr, Bool, true, false, not, ◌&&◌, Option, none, some, List, [],
  ◌∷◌, arith, get_row, delete_row, get_row-update_row, get_row-id, get_row-delete_row, find, ok,
  err, Bool-cases, if◌then◌else◌, ◌==◌, ==_refl, ==_iff,
}
use libarr.Models.{Indexer, ReadingProgress, User, Session}
use libarr.Http.{not_found}
use libarr.Catalog.Names.{found_or-if}
use libarr.Catalog.{
  indexer_id, book_id, user_id, found_or, is_progress, get_progress, set_progress, put_progress,
  set_role, set_user_role, get_indexer, delete_indexer,
}

-- The row that is found has the id that was asked for.
found_or-eq_ok :
    {A : Type 0} (detail : Text) (found : Option A) {row : A}
    → found_or detail found ≡ ok row
    → found ≡ some row
unfolding found_or
found_or-eq_ok detail none e = cc
found_or-eq_ok detail (some row) e = ap some (ok_inj e)

set_progress-find :
    (new : ReadingProgress) (rows : List ReadingProgress)
    → find (is_progress new.book_id new.profile) (set_progress new rows) ≡ some new
unfolding set_progress
set_progress-find new [] = rw (==_refl new.book_id, text_eq_refl new.profile) refl
set_progress-find new (row ∷ rows) =
    let rest = set_progress-find new rows in
    let self = ==_refl new.book_id in let same = text_eq_refl new.profile in ground arith

and-eq_true : (a b : Bool) → (a && b) ≡ true → (a ≡ true) × (b ≡ true)
and-eq_true true true h = (refl, refl)
and-eq_true true false h = cc
and-eq_true false b h = cc

is_progress-same_key :
    (k : ℕ) (profile : Text) (row new : ReadingProgress)
    → is_progress new.book_id new.profile row ≡ true
    → is_progress k profile row ≡ is_progress k profile new
is_progress-same_key k profile row new same =
    let (book, text) =
      and-eq_true (row.book_id == new.book_id) (text_eq row.profile new.profile) same in
    let same_book : row.book_id ≡ new.book_id = (==_iff row.book_id new.book_id).0 book in
    let same_profile : row.profile ≡ new.profile = (text_eq_iff row.profile new.profile).0 text in
    ap (λ b. b == k && text_eq row.profile profile) same_book
    ∙ ap (λ t. new.book_id == k && text_eq t profile) same_profile

set_progress-other :
    (new : ReadingProgress) (k : ℕ) (profile : Text) (rows : List ReadingProgress)
    → is_progress k profile new ≡ false
    → find (is_progress k profile) (set_progress new rows) ≡ find (is_progress k profile) rows
unfolding set_progress
set_progress-other new k profile [] h = rw h refl
set_progress-other new k profile (row ∷ rows) h =
    elim (Bool-cases (is_progress new.book_id new.profile row)) [
      | inl same ↦ rw (same, h, is_progress-same_key k profile row new same ∙ h) refl
      | inr other ↦ rw other (
          ap (λ rest. if is_progress k profile row then some row else rest)
            (set_progress-other new k profile rows h))
    ]

-- The rows after a put, by key.
set_progress-find_any :
    (new : ReadingProgress) (k : ℕ) (profile : Text) (rows : List ReadingProgress)
    → find (is_progress k profile) (set_progress new rows)
      ≡ (if is_progress k profile new then some new else find (is_progress k profile) rows)
set_progress-find_any new k profile rows = elim (Bool-cases (is_progress k profile new)) [
  | inr other ↦ set_progress-other new k profile rows other ∙ rw other refl
  | inl same ↦
      let (book, text) = and-eq_true (new.book_id == k) (text_eq new.profile profile) same in
      let same_book : new.book_id ≡ k = (==_iff new.book_id k).0 book in
      let same_profile : new.profile ≡ profile = (text_eq_iff new.profile profile).0 text in
      ap (λ j. find (is_progress j profile) (set_progress new rows)) (sym same_book)
      ∙ ap (λ q. find (is_progress new.book_id q) (set_progress new rows)) (sym same_profile)
      ∙ set_progress-find new rows
      ∙ rw same refl
]

-- A reading position is read back as it was put, and every other profile of the book keeps its own.
put_progress-get_progress :
    (new row : ReadingProgress) (s s' : Session) (profile : Text)
    → put_progress new s ≡ ok (row, s')
    → get_progress new.book_id profile s'
      ≡ (if text_eq new.profile profile then ok new else get_progress new.book_id profile s)
unfolding put_progress get_progress
put_progress-get_progress new row s s' profile e =
    let detail = codes "No progress recorded" in
    let (book, found, e1) =
      chain-returned (found_or (codes "Book not found") (get_row book_id new.book_id s.books)) _
        e in
    let old = find (is_progress new.book_id profile) s.progress in
    subst
      (λ r.
        get_progress new.book_id profile r.1
        ≡ (if text_eq new.profile profile then ok new else get_progress new.book_id profile s))
      (ok_inj e1)
      (rw found (
        ap (found_or detail) (set_progress-find_any new new.book_id profile s.progress)
        ∙ found_or-if detail (is_progress new.book_id profile new) new old
        ∙ ap (λ b. if b && text_eq new.profile profile then ok new else found_or detail old)
            (==_refl new.book_id)))

-- An admin whose row the table has under their id is still an admin after setting a role, so the
-- last admin cannot be demoted.
pub set_user_role-keeps_admin :
    (admin : User) (username role : Text) (s s' : Session)
    → get_row user_id admin.id s.users ≡ some admin
    → admin.role ≡ codes "admin"
    → set_user_role admin username role s ≡ ok s'
    → (u : User) × (get_row user_id admin.id s'.users ≡ some u) × (u.role ≡ codes "admin")
unfolding set_user_role set_role
set_user_role-keeps_admin admin username role s s' row is_admin e =
    let (user, found, e1) =
      chain-returned
        (found_or (codes "User not found") (find (λ u. text_eq u.username username) s.users)) _ e in
    let (kept, e2) =
      guard-returned (user.id == admin.id && not (text_eq role (codes "admin"))) _ _ e1 in
    subst (λ r. (u : User) × (get_row user_id admin.id r.users ≡ some u) × (u.role ≡ codes "admin"))
      (ok_inj e2)
      (elim (Bool-cases (user.id == admin.id)) [
        | inl self ↦ (
          record admin { role = role },
          get_row-update_row user_id user.id admin.id (λ u. record u { role = role }) (λ r. refl)
                s.users
              ∙ rw (self, row) refl,
          (text_eq_iff role (codes "admin")).0 (ground arith),
        )
        | inr other ↦ (
          admin,
          get_row-update_row user_id user.id admin.id (λ u. record u { role = role }) (λ r. refl)
                s.users
              ∙ rw (other, row) refl,
          is_admin,
        )
      ])

get_indexer-row :
    (k : ℕ) (s : Session) (row : Indexer)
    → get_indexer k s ≡ ok row
    → get_row indexer_id k s.indexers ≡ some row
unfolding get_indexer
get_indexer-row k s row e =
    found_or-eq_ok (codes "Indexer not found") (get_row indexer_id k s.indexers) e

found_or-unless :
    {A : Type 0} (detail : Text) (test : Bool) (found : Option A)
    → found_or detail (if test then none else found)
      ≡ (if test then err (not_found detail) else found_or detail found)
unfolding found_or
found_or-unless detail true found = refl
found_or-unless detail false found = refl

-- An indexer that was deleted is not found any more, and every other one is as it was.
delete_indexer-get_indexer :
    (k j : ℕ) (s s' : Session)
    → delete_indexer k s ≡ ok s'
    → get_indexer j s'
      ≡ (if k == j then err (not_found (codes "Indexer not found")) else get_indexer j s)
unfolding delete_indexer get_indexer
delete_indexer-get_indexer k j s s' e =
    let (row, found, e1) = chain-returned (get_indexer k s) _ e in
    let is_k : row.id ≡ k = get_row-id indexer_id k s.indexers (get_indexer-row k s row found) in
    let gone : record s { indexers = delete_row indexer_id row.id s.indexers } ≡ s' = ok_inj e1 in
    sym (ap (λ r. found_or (codes "Indexer not found") (get_row indexer_id j r.indexers)) gone)
    ∙ ap
        (λ i.
          found_or (codes "Indexer not found")
            (get_row indexer_id j (delete_row indexer_id i s.indexers)))
        is_k
    ∙ ap (found_or (codes "Indexer not found")) (get_row-delete_row indexer_id k j s.indexers)
    ∙ found_or-unless (codes "Indexer not found") (k == j) (get_row indexer_id j s.indexers)
