-- ===== src/Works/Keys.antt =====
-- src/libarr/discovery.py: the keys of the library after a work is added.
use libarr.Prelude.{
  All-weaken, All-append, ℕ, ◌<◌, Text, text_eq, text_eq_iff, or_empty, ◌≡◌, refl, sym, ap, subst,
  ◌∙◌, ◌⊎◌, inl, inr, Bool, Option, none, some, List, [], ◌∷◌, ◌++◌, map, arith, get_row, next_id,
  get_row-append_fresh, next_id-fresh, find, HasDistinctIds, All,
}
use libarr.Prelude.{find-IsIn, find-eq_some, get_row-IsIn, append-HasDistinctIds}
use libarr.Python.{Unicode}
use libarr.Models.{Author, Book, Session}
use libarr.Relations.{author_id, row_at}
use libarr.Works.{
  DiscoveryWork, Key, key_of, work_key, name_of, book_key, existing_keys, new_author, author_named,
  author_for, new_book, add_book,
}

-- The author of a book, if it has one, is a row of the table, as the foreign key asks.
abbrev pub HasAuthor : List Author → Book → Type 0
HasAuthor authors b =
    (b.author_id ≡ none)
    ⊎ ((k : ℕ) × (a : Author) × (b.author_id ≡ some k) × (get_row author_id k authors ≡ some a))

abbrev pub IsSound : Session → Type 0
IsSound s = HasDistinctIds author_id s.authors × All (HasAuthor s.authors) s.books

-- The rows of the one table are those of the other.
abbrev pub IsKept : List Author → List Author → Type 0
IsKept as_ bs =
    (j : ℕ) (a : Author) → get_row author_id j as_ ≡ some a → get_row author_id j bs ≡ some a

-- The row of a key has a name, and no key stands for the empty name.
abbrev pub IsNamed : Option Text → Option ℕ → List Author → Type 0
IsNamed name k authors =
    ((k ≡ none) × (or_empty name ≡ []))
    ⊎ ((j : ℕ) × (a : Author) × (k ≡ some j)
        × (get_row author_id j authors ≡ some a)
        × (a.name ≡ or_empty name))

abbrev pub IsAuthorFor : Option Text → Session → Option ℕ × Session → Type 0
IsAuthorFor name s (k, s') =
    (s'.books ≡ s.books)
    × HasDistinctIds author_id s'.authors
    × IsKept s.authors s'.authors
    × IsNamed name k s'.authors

append-IsKept :
    (rows : List Author) (a : Author) → All (λ r. r.id < a.id) rows → IsKept rows (rows ++ a ∷ [])
unfolding get_row
append-IsKept [] a fresh j b e = cc
append-IsKept (r ∷ rows) a fresh j b e = ground (arith, append-IsKept rows a fresh.1 j b)

module _ (u : Unicode) where
  author_named-IsAuthorFor :
      (c : ℕ) (t : Text) (found : Option Author) (s : Session)
      → HasDistinctIds author_id s.authors
      → find (λ a. text_eq a.name (c ∷ t)) s.authors ≡ found
      → IsAuthorFor (some (c ∷ t)) s (author_named u (c ∷ t) found s)
  unfolding author_named
  author_named-IsAuthorFor c t (some a) s d e = (
    refl,
    d,
    (λ j b h. h),
    inr (
      a.id,
      a,
      refl,
      get_row-IsIn author_id s.authors a d (find-IsIn (λ x. text_eq x.name (c ∷ t)) s.authors a e),
      (text_eq_iff a.name (c ∷ t)).0 (find-eq_some (λ x. text_eq x.name (c ∷ t)) s.authors e),
    ),
  )
  author_named-IsAuthorFor c t none s d e =
      let fresh = next_id-fresh author_id s.authors in
      (
        refl,
        append-HasDistinctIds author_id s.authors (new_author u (c ∷ t) s) d fresh,
        append-IsKept s.authors (new_author u (c ∷ t) s) fresh,
        inr (
          next_id author_id s.authors,
          new_author u (c ∷ t) s,
          refl,
          get_row-append_fresh author_id (next_id author_id s.authors) s.authors
              (new_author u (c ∷ t) s) fresh refl,
          refl,
        ),
      )

  pub author_for-IsAuthorFor :
      (name : Option Text) (s : Session)
      → HasDistinctIds author_id s.authors
      → IsAuthorFor name s (author_for u name s)
  unfolding author_for
  author_for-IsAuthorFor none s d = (refl, d, (λ j b h. h), inl (refl, refl))
  author_for-IsAuthorFor (some []) s d = (refl, d, (λ j b h. h), inl (refl, refl))
  author_for-IsAuthorFor (some (c ∷ t)) s d =
      author_named-IsAuthorFor c t (find (λ a. text_eq a.name (c ∷ t)) s.authors) s d refl

  -- A book whose author stays has the same key.
  book_key-kept :
      (s s' : Session) (b : Book)
      → IsKept s.authors s'.authors
      → HasAuthor s.authors b
      → book_key u s' b ≡ book_key u s b
  unfolding book_key
  book_key-kept s s' b kept (inl e) = rw e refl
  book_key-kept s s' b kept (inr (k, a, e, h)) = rw (e, h, kept k a h) refl

  keys-kept :
      (s s' : Session) (bs : List Book)
      → IsKept s.authors s'.authors
      → All (HasAuthor s.authors) bs
      → map (book_key u s') bs ≡ map (book_key u s) bs
  keys-kept s s' [] kept h = refl
  keys-kept s s' (b ∷ bs) kept h =
      rw (book_key-kept s s' b kept h.0, keys-kept s s' bs kept h.1) refl

  HasAuthor-kept :
      (as_ bs : List Author) (b : Book) → IsKept as_ bs → HasAuthor as_ b → HasAuthor bs b
  HasAuthor-kept as_ bs b kept (inl e) = inl e
  HasAuthor-kept as_ bs b kept (inr (k, a, e, h)) = inr (k, a, e, kept k a h)

  map-append_one :
      (f : Book → Key) (bs : List Book) (b : Book) → map f (bs ++ b ∷ []) ≡ map f bs ++ f b ∷ []
  map-append_one f [] b = refl
  map-append_one f (c ∷ bs) b = ap (λ ks. f c ∷ ks) (map-append_one f bs b)

  named-key :
      (name : Option Text) (k : Option ℕ) (authors : List Author)
      → IsNamed name k authors
      → name_of u (row_at author_id k authors) ≡ or_empty name
  named-key name k authors (inl (e, h)) = rw (e, h) refl
  named-key name k authors (inr (j, a, e, h, same)) = rw (e, h) same

  module _ (work : DiscoveryWork) (monitored : Bool) where
    -- Adding the book of a work adds the work's key, and no other.
    pub existing_keys-add_book :
        (s : Session) (by : Option ℕ × Session)
        → IsSound s
        → IsAuthorFor work.author s by
        → existing_keys u (add_book u work monitored by) ≡ existing_keys u s ++ work_key u work ∷ []
    unfolding existing_keys add_book book_key work_key
    existing_keys-add_book s (k, s') (d, h) (books, d', kept, named) =
        map-append_one (book_key u (add_book u work monitored (k, s'))) s'.books
          (new_book u work k monitored s')
        ∙ (ap (λ ks. ks ++ key_of u work.title (name_of u (row_at author_id k s'.authors)) ∷ [])
              (ap (map (book_key u (add_book u work monitored (k, s')))) books
                ∙ keys-kept s (add_book u work monitored (k, s')) s.books kept h)
            ∙ ap (λ name. map (book_key u s) s.books ++ key_of u work.title name ∷ [])
                (named-key work.author k s'.authors named))

    pub add_book-IsSound :
        (s : Session) (by : Option ℕ × Session)
        → IsSound s
        → IsAuthorFor work.author s by
        → IsSound (add_book u work monitored by)
    unfolding add_book
    add_book-IsSound s (k, s') (d, h) (books, d', kept, named) = (
      d',
      All-append (HasAuthor s'.authors) s'.books (new_book u work k monitored s' ∷ [])
          (subst (All (HasAuthor s'.authors)) (sym books) (
            All-weaken {P = HasAuthor s.authors} {Q = HasAuthor s'.authors}
              (λ b. HasAuthor-kept s.authors s'.authors b kept) s.books h))
          (of_new named, tt),
    )
      where
        of_new :
            IsNamed work.author k s'.authors → HasAuthor s'.authors (new_book u work k monitored s')
        of_new (inl (e, _)) = inl e
        of_new (inr (j, a, e, found, _)) = inr (j, a, e, found)
