-- ===== src/Shelves/Ownership.antt =====
-- src/libarr/api/routes.py: the owner of a shelf, and the books of the shelves after a change.
use libarr.Prelude.{
  ==_refl, ◌&&◌, ◌||◌, is_some, any-append, chain-returned, ok_inj, ℕ, Text, ◌≡◌, refl, sym, ap,
  subst, ◌∙◌, inl, inr, Bool, true, false, not, Option, none, some, List, [], ◌∷◌, ◌++◌, arith,
  get_row, get_row-id, select, ok, ◌>>=◌, Bool-cases, if◌then◌else◌, ◌==◌, append-nil, ==_iff,
}
use libarr.Python.{Unicode}
use libarr.Models.{Book, Shelf, ShelfBook, User, Session}
use libarr.Http.{HttpError}
use libarr.Shelves.{
  book_id, commit_books, is_distinct, shelf_id, mem_id, books_of, drop_books, rows_of, set_books,
  only_owner, owned_shelf, new_books, with_books, added, add_shelf_books, book_ids_of, remaining,
  remove_shelf_books,
}

books_of-append :
    (k : ℕ) (xs ys : List ShelfBook) → books_of k (xs ++ ys) ≡ books_of k xs ++ books_of k ys
unfolding books_of
books_of-append k [] ys = refl
books_of-append k (x ∷ xs) ys = ground (arith, books_of-append k xs ys)

books_of-drop_books :
    (k j : ℕ) (rows : List ShelfBook)
    → books_of j (drop_books k rows) ≡ (if j == k then [] else books_of j rows)
unfolding books_of drop_books
books_of-drop_books k j [] = ground arith
books_of-drop_books k j (row ∷ rows) = ground (arith, books_of-drop_books k j rows)

books_of-rows_of :
    (k j : ℕ) (ids : List ℕ) → books_of j (rows_of k ids) ≡ (if j == k then ids else [])
unfolding books_of rows_of
books_of-rows_of k j [] = ground arith
books_of-rows_of k j (id ∷ ids) = ground (arith, books_of-rows_of k j ids)

-- The books of a shelf are read back as they were set, and those of the others stay.
books_of-set_books :
    (k j : ℕ) (ids : List ℕ) (rows : List ShelfBook)
    → books_of j (set_books k ids rows) ≡ (if j == k then ids else books_of j rows)
unfolding set_books
books_of-set_books k j ids rows =
    books_of-append j (drop_books k rows) (rows_of k ids)
    ∙ both (j == k) (books_of-drop_books k j rows) (books_of-rows_of k j ids)
  where
    both :
        (b : Bool)
        → books_of j (drop_books k rows) ≡ (if b then [] else books_of j rows)
        → books_of j (rows_of k ids) ≡ (if b then ids else [])
        → books_of j (drop_books k rows) ++ books_of j (rows_of k ids)
          ≡ (if b then ids else books_of j rows)
    both true d r = rw (d, r) refl
    both false d r = rw (d, r) (append-nil (books_of j rows))

-- The shelf exists and is the user's.
abbrev pub Owns : User → ℕ → Session → Type 0
Owns user k s =
    (shelf : Shelf) × (get_row shelf_id k s.shelves ≡ some shelf) × (shelf.user_id ≡ user.id)

owned_shelf-Owns :
    (user : User) (k : ℕ) (s : Session) (shelf : Shelf)
    → owned_shelf user k s ≡ ok shelf
    → Owns user k s × (shelf.id ≡ k)
unfolding owned_shelf
owned_shelf-Owns user k s shelf e = go (get_row shelf_id k s.shelves) refl e
  where
    go :
        (found : Option Shelf)
        → get_row shelf_id k s.shelves ≡ found
        → only_owner user found ≡ ok shelf
        → Owns user k s × (shelf.id ≡ k)
    go none same h = absurd (unfold only_owner in cc)
    go (some row) same h = elim (Bool-cases (row.user_id == user.id)) [
      | inr other ↦ absurd (unfold only_owner in ground arith)
      | inl mine ↦
          let is_row = hit mine in
          (
            (row, same, (==_iff row.user_id user.id).0 mine),
            ap shelf_id (sym is_row) ∙ get_row-id shelf_id k s.shelves same,
          )
    ]
      where
        hit : (row.user_id == user.id) ≡ true → row ≡ shelf
        hit mine =
            ok_inj {E = HttpError} {A = Shelf} {a = row} {b = shelf}
              (unfold only_owner in ground arith)

-- The rows of shelf `k` become `ids`, those of the others stay.
abbrev pub SetsOnly : ℕ → List ℕ → List ShelfBook → List ShelfBook → Type 0
SetsOnly k ids before after =
    (j : ℕ) → books_of j after ≡ (if j == k then ids else books_of j before)

set_books-SetsOnly :
    (k : ℕ) (ids : List ℕ) (rows : List ShelfBook) → SetsOnly k ids rows (set_books k ids rows)
set_books-SetsOnly k ids rows j = books_of-set_books k j ids rows

module _ (user : User) (k : ℕ) (s : Session) (ids' : List ℕ) (s' : Session) where
  -- A handler that sets the books of the user's own shelf.
  owned-SetsOnly :
      (ids : ℕ → List ℕ)
      → (owned_shelf user k s >>= λ shelf. ok (with_books shelf.id (ids shelf.id) s))
        ≡ ok (ids', s')
      → Owns user k s × (ids' ≡ ids k) × SetsOnly k (ids k) s.shelf_books s'.shelf_books
  unfolding with_books
  owned-SetsOnly ids e =
      let (shelf, owned, same) = chain-returned (owned_shelf user k s) _ e in
      let (owns, is_k) = owned_shelf-Owns user k s shelf owned in
      let made : with_books k (ids k) s ≡ (ids', s') =
        subst (λ j. with_books j (ids j) s ≡ (ids', s')) is_k (ok_inj same) in
      (
        owns,
        sym (ap (λ r. r.0) made),
        subst (λ r. SetsOnly k (ids k) s.shelf_books r.1.shelf_books) made
            (set_books-SetsOnly k (ids k) s.shelf_books),
      )

  -- Removing books succeeds on the user's own shelf only: it keeps the books that the text does not
  -- name, in their order, and leaves every other shelf as it was.
  remove_shelf_books-SetsOnly :
      (u : Unicode) (text : Text)
      → remove_shelf_books u user k text s ≡ ok (ids', s')
      → Owns user k s
        × (ids' ≡ select (λ id. not (mem_id id (book_ids_of u text))) (books_of k s.shelf_books))
        × SetsOnly k ids' s.shelf_books s'.shelf_books
  unfolding remove_shelf_books remaining
  remove_shelf_books-SetsOnly u text e =
      let (owns, same, sets) = owned-SetsOnly (remaining u text s) e in
      (owns, same, subst (λ l. SetsOnly k l s.shelf_books s'.shelf_books) (sym same) sets)

-- No id occurs twice.
abbrev pub IsDistinct : List ℕ → Type 0
IsDistinct [] = Unit
IsDistinct (id ∷ ids) = (mem_id id ids ≡ false) × IsDistinct ids

is_distinct-IsDistinct : (ids : List ℕ) → is_distinct ids ≡ true → IsDistinct ids
unfolding is_distinct
is_distinct-IsDistinct [] h = tt
is_distinct-IsDistinct (id ∷ ids) h = ground (arith, is_distinct-IsDistinct ids)

-- The book has a row.
abbrev pub exists : Session → ℕ → Bool
exists s j = is_some (get_row book_id j s.books)

-- The books of a shelf after some are added: those that it had, and those of the request that exist.
abbrev pub IsUnion : List ℕ → List ℕ → Session → List ℕ → Type 0
IsUnion old ids s new = (j : ℕ) → mem_id j new ≡ (mem_id j old || (mem_id j ids && exists s j))

new_books-IsUnion :
    (j : ℕ) (existing : List ℕ) (s : Session) (ids : List ℕ)
    → (mem_id j existing || mem_id j (new_books existing s.books ids))
      ≡ (mem_id j existing || (mem_id j ids && exists s j))
unfolding new_books
new_books-IsUnion j existing s [] = refl
new_books-IsUnion j existing s (id ∷ ids) = elim (Bool-cases (id == j)) [
  | inr other ↦ ground (arith, new_books-IsUnion j existing s ids)
  | inl same ↦
      subst
        (λ i.
          (mem_id i existing || mem_id i (new_books existing s.books (id ∷ ids)))
          ≡ (mem_id i existing || (mem_id i (id ∷ ids) && exists s i)))
        ((==_iff id j).0 same) (self id existing s ids (new_books-IsUnion id existing s ids))
]
  where
    self :
        (id : ℕ) (existing : List ℕ) (s : Session) (ids : List ℕ)
        → (mem_id id existing || mem_id id (new_books existing s.books ids))
          ≡ (mem_id id existing || (mem_id id ids && exists s id))
        → (mem_id id existing || mem_id id (new_books existing s.books (id ∷ ids)))
          ≡ (mem_id id existing || (mem_id id (id ∷ ids) && exists s id))
    self id existing s ids = unfold new_books in ground (arith, ==_refl id)

commit_books-returned :
    (k : ℕ) (ids : List ℕ) (s : Session) (r : List ℕ × Session)
    → commit_books k ids s ≡ ok r
    → IsDistinct ids × (with_books k ids s ≡ r)
unfolding commit_books
commit_books-returned k ids s r e = elim (Bool-cases (is_distinct ids)) [
  | inr twice ↦ absurd (ground arith)
  | inl once ↦ (is_distinct-IsDistinct ids once, ok_inj {E = HttpError} (ground arith))
]

-- Where adding books succeeds, the shelf exists and is the user's; its books are then those that it
-- had and those of the request that exist, each of them once; and every other shelf is as it was.
pub add_shelf_books-SetsOnly :
    (user : User) (k : ℕ) (s : Session) (ids' : List ℕ) (s' : Session) (ids : List ℕ)
    → add_shelf_books user k ids s ≡ ok (ids', s')
    → Owns user k s
      × IsUnion (books_of k s.shelf_books) ids s ids'
      × IsDistinct ids'
      × SetsOnly k ids' s.shelf_books s'.shelf_books
unfolding add_shelf_books added with_books
add_shelf_books-SetsOnly user k s ids' s' ids e =
    let (shelf, owned, same) = chain-returned (owned_shelf user k s) _ e in
    let (owns, is_k) = owned_shelf-Owns user k s shelf owned in
    let (distinct, made) =
      commit_books-returned shelf.id (added ids s shelf.id) s (ids', s') same in
    let set = subst (λ j. with_books j (added ids s j) s ≡ (ids', s')) is_k made in
    let is : added ids s k ≡ ids' = ap (λ r. r.0) set in
    (
      owns,
      λ j.
          subst
            (λ l.
              mem_id j l ≡ (mem_id j (books_of k s.shelf_books) || (mem_id j ids && exists s j)))
            is
            (any-append (λ i. i == j) (books_of k s.shelf_books)
                (new_books (books_of k s.shelf_books) s.books ids)
              ∙ new_books-IsUnion j (books_of k s.shelf_books) s ids),
      subst IsDistinct is (subst (λ j. IsDistinct (added ids s j)) is_k distinct),
      subst (λ r. SetsOnly k r.0 s.shelf_books r.1.shelf_books) set
          (set_books-SetsOnly k (added ids s k) s.shelf_books),
    )

new_books-mem :
    (j : ℕ) (existing : List ℕ) (books : List Book) (ids : List ℕ)
    → mem_id j (new_books existing books ids) ≡ true
    → (mem_id j ids ≡ true) × (mem_id j existing ≡ false)
unfolding new_books
new_books-mem j existing books [] h = absurd (cc)
new_books-mem j existing books (id ∷ ids) h = ground (arith, new_books-mem j existing books ids)

new_books-IsDistinct :
    (existing : List ℕ) (books : List Book) (ids : List ℕ)
    → IsDistinct ids
    → IsDistinct (new_books existing books ids)
unfolding new_books
new_books-IsDistinct existing books [] h = tt
new_books-IsDistinct existing books (id ∷ ids) (fresh, h) =
    ground (arith, new_books-IsDistinct existing books ids h, new_books-mem id existing books ids)

append-IsDistinct :
    (xs ys : List ℕ)
    → IsDistinct xs
    → IsDistinct ys
    → ((j : ℕ) → mem_id j ys ≡ true → mem_id j xs ≡ false)
    → IsDistinct (xs ++ ys)
append-IsDistinct [] ys hx hy apart = hy
append-IsDistinct (x ∷ xs) ys (fresh, hx) hy apart = (
  ground (arith, any-append (λ j. j == x) xs ys, apart x),
  append-IsDistinct xs ys hx hy (λ j m. ground (arith, apart j m)),
)

-- A shelf without duplicates stays so when books are added, if the request names no book twice;
-- one that does is not caught before the commit, since the loop does not extend the set of the
-- shelf's books.
added-IsDistinct :
    (ids : List ℕ) (s : Session) (k : ℕ)
    → IsDistinct (books_of k s.shelf_books)
    → IsDistinct ids
    → IsDistinct (added ids s k)
unfolding added
added-IsDistinct ids s k old new =
    append-IsDistinct (books_of k s.shelf_books) (new_books (books_of k s.shelf_books) s.books ids)
      old (new_books-IsDistinct (books_of k s.shelf_books) s.books ids new)
      (λ j m. (new_books-mem j (books_of k s.shelf_books) s.books ids m).1)
