-- ===== src/Matcher/Sound.antt =====
-- src/libarr/metadata/matcher.py: the three passes that match a title.
use libarr.Prelude.{
  is_some, text_eq_iff, sym, ap, ◌∙◌, false, some_inj, ℕ, ◌≤◌, Text, text_eq, or_empty, truthy, ◌≡◌,
  refl, subst, ◌⊎◌, inl, inr, Bool, true, not, ◌&&◌, ◌||◌, Option, none, some, List, [], ◌∷◌, map,
  arith, get_row, select, find, any, length, Bool-cases, ◌==◌, leb, ltb,
}
use libarr.Prelude.{IsIn, find-IsIn, IsIn-select, IsIn-append, find-eq_some}
use libarr.Python.{Unicode}
use libarr.Models.{Author, Book, Session}
use libarr.Relations.{author_of, author_id, book_id, is_key}
use libarr.Normalize.{normalize_text}
use libarr.Matcher.{
  better, books_by, has_name, iter_books, tokens_of, strip_edition_keywords, opt_text_eq, overlap,
  author_differs, score_of_book, best_match, fts_match, exact_match, stripped_match, token_match,
  first_found, norm_author_of, match_title,
}

-- The book has the key of one of the ids.
abbrev by_id : List ℕ → Book → Bool
by_id ks b = any (λ k. is_key k b.author_id) ks

books_by-IsIn :
    (ks : List ℕ) (books : List Book) (b : Book)
    → IsIn b (books_by ks books)
    → IsIn b books × (by_id ks b ≡ true)
unfolding books_by
books_by-IsIn [] books b h = absurd h
books_by-IsIn (k ∷ ks) books b h =
    elim (IsIn-append (select (λ b. is_key k b.author_id) books) (books_by ks books) b h) [
      | inl i ↦ let (j, e) = IsIn-select (λ b. is_key k b.author_id) books b i in (j, rw e refl)
      | inr i ↦ let (j, e) = books_by-IsIn ks books b i in (j, ground (arith, e))
    ]

module _ (u : Unicode) (s : Session) (norm_author : Option Text) where
  -- No author was given, or an author of that name has written the book.
  abbrev pub is_by : Book → Bool
  is_by b =
      not (truthy norm_author)
      || by_id (map author_id (select (has_name u (or_empty norm_author)) s.authors)) b

  iter_books-is_by :
      (b : Book) → IsIn b (iter_books u s norm_author) → IsIn b s.books × (is_by b ≡ true)
  unfolding iter_books
  iter_books-is_by b h = elim (Bool-cases (truthy norm_author)) [
    | inl given ↦
        let (i, e) =
          books_by-IsIn (map author_id (select (has_name u (or_empty norm_author)) s.authors))
            s.books b (rw given at h) in
        (i, rw given e)
    | inr absent ↦ (rw absent at h, rw absent refl)
  ]

  -- The three ways to match a title.
  abbrev pub IsExact : Text → Book → Type 0
  IsExact norm_title b = (text_eq (normalize_text u b.title) norm_title ≡ true) × (is_by b ≡ true)

  abbrev pub IsStripped : Text → Book → Type 0
  IsStripped norm_title b =
      (is_some (strip_edition_keywords u norm_title) ≡ true)
      × (opt_text_eq (strip_edition_keywords u (normalize_text u b.title))
            (strip_edition_keywords u norm_title)
          ≡ true)
      × (is_by b ≡ true)

  -- No author was given, or the book has none, or its author has the name that was given.
  abbrev pub AgreesOnAuthor : Book → Type 0
  AgreesOnAuthor b =
      (norm_author ≡ none)
      ⊎ ((author_of b s ≡ none)
          ⊎ ((a : Author) × (author_of b s ≡ some a)
              × (norm_author ≡ some (normalize_text u a.name))))

  abbrev pub IsOverlapping : Text → Book → Type 0
  IsOverlapping norm_title b =
      (2 ≤ overlap (tokens_of u norm_title) (tokens_of u (normalize_text u b.title)))
      × AgreesOnAuthor b

  abbrev pub IsMatch : Text → Book → Type 0
  IsMatch norm_title b =
      IsIn b s.books
      × (IsExact norm_title b ⊎ (IsStripped norm_title b ⊎ IsOverlapping norm_title b))

  author_differs-AgreesOnAuthor :
      (b : Book) (norm : Option Text) (a : Option Author)
      → norm_author ≡ norm
      → author_of b s ≡ a
      → author_differs u norm a ≡ false
      → AgreesOnAuthor b
  author_differs-AgreesOnAuthor b none a e1 e2 h = inl e1
  author_differs-AgreesOnAuthor b (some norm) none e1 e2 h = inr (inl e2)
  author_differs-AgreesOnAuthor b (some norm) (some a) e1 e2 h =
      let same : text_eq (normalize_text u a.name) norm ≡ true = ground arith in
      inr (inr (a, e2, e1 ∙ ap some (sym ((text_eq_iff (normalize_text u a.name) norm).0 same))))

  score_of_book-IsOverlapping :
      (norm_title : Text) (b : Book)
      → 2 ≤ score_of_book u s (tokens_of u norm_title) norm_author b
      → IsOverlapping norm_title b
  unfolding score_of_book
  score_of_book-IsOverlapping norm_title b h =
      elim (Bool-cases (author_differs u norm_author (author_of b s))) [
        | inl differs ↦ absurd (ground arith)
        | inr agrees ↦ (
          ground arith,
          author_differs-AgreesOnAuthor b norm_author (author_of b s) refl refl agrees,
        )
      ]

  module _ (norm_title : Text) where
    exact_match-IsMatch :
        (b : Book) → exact_match u s norm_title norm_author ≡ some b → IsMatch norm_title b
    unfolding exact_match
    exact_match-IsMatch b e =
        let p = λ (c : Book). text_eq (normalize_text u c.title) norm_title in
        let (i, by) = iter_books-is_by b (find-IsIn p (iter_books u s norm_author) b e) in
        (i, inl (find-eq_some p (iter_books u s norm_author) {x = b} e, by))

    stripped_match-IsMatch :
        (b : Book) → stripped_match u s norm_title norm_author ≡ some b → IsMatch norm_title b
    unfolding stripped_match
    stripped_match-IsMatch b e =
        let stripped = strip_edition_keywords u norm_title in
        let p = λ (c : Book).
          opt_text_eq (strip_edition_keywords u (normalize_text u c.title)) stripped in
        let found : find p (iter_books u s norm_author) ≡ some b = ground arith in
        let (i, by) = iter_books-is_by b (find-IsIn p (iter_books u s norm_author) b found) in
        (i, inr (inl (ground arith, find-eq_some p (iter_books u s norm_author) {x = b} found, by)))

    -- The best so far is a match.
    abbrev AllMatch : Option Book × ℕ → Type 0
    AllMatch best = (c : Book) → best.0 ≡ some c → IsMatch norm_title c

    better-AllMatch :
        (k : ℕ) (found : Option Book) (best : Option Book × ℕ)
        → get_row book_id k s.books ≡ found
        → AllMatch best
        → AllMatch (better u s (tokens_of u norm_title) norm_author found best)
    unfolding better
    better-AllMatch k none best row known = known
    better-AllMatch k (some book) best row known =
        let m = score_of_book u s (tokens_of u norm_title) norm_author book in
        elim (Bool-cases (leb 2 m && ltb best.1 m)) [
          | inr worse ↦ rw worse known
          | inl taken ↦ rw taken (λ c e. subst (IsMatch norm_title) (some_inj e) (
            find-IsIn (λ r. book_id r == k) s.books book (unfold get_row in row),
            inr (inr (score_of_book-IsOverlapping norm_title book (ground arith))),
          ))
        ]

    best_match-IsMatch :
        (ks : List ℕ) (best : Option Book × ℕ) (b : Book)
        → AllMatch best
        → best_match u s (tokens_of u norm_title) norm_author ks best ≡ some b
        → IsMatch norm_title b
    unfolding best_match
    best_match-IsMatch [] best b known e = known b e
    best_match-IsMatch (k ∷ ks) best b known e =
        let found = get_row book_id k s.books in
        best_match-IsMatch ks (better u s (tokens_of u norm_title) norm_author found best) b
          (better-AllMatch k found best refl known) e

    token_match-IsMatch :
        (fts : List Text → Session → List ℕ) (b : Book)
        → token_match u fts s norm_title norm_author ≡ some b
        → IsMatch norm_title b
    unfolding token_match fts_match
    token_match-IsMatch fts b e = elim (Bool-cases (leb 2 (length (tokens_of u norm_title)))) [
      | inr few ↦ absurd (ground arith)
      | inl enough ↦
          best_match-IsMatch (fts (tokens_of u norm_title) s) (none, 0) b (λ c h. cc) (ground arith)
    ]

first_found-cases :
    (x y : Option Book) (b : Book) → first_found x y ≡ some b → (x ≡ some b) ⊎ (y ≡ some b)
unfolding first_found
first_found-cases none y b e = inr e
first_found-cases (some c) y b e = inl e

module _ (u : Unicode) (fts : List Text → Session → List ℕ) where
  pub match_title-IsMatch :
      (s : Session) (title : Text) (author : Option Text) (b : Book)
      → match_title u fts s title author ≡ some b
      → IsMatch u s (norm_author_of u author) (normalize_text u title) b
  unfolding match_title
  match_title-IsMatch s title author b e =
      let nt = normalize_text u title in
      let na = norm_author_of u author in
      let exact = exact_match u s nt na in
      let stripped = stripped_match u s nt na in
      let tokens = token_match u fts s nt na in
      let found : first_found exact (first_found stripped tokens) ≡ some b = ground arith in
      elim (first_found-cases exact (first_found stripped tokens) b found) [
        | inl x ↦ exact_match-IsMatch u s na nt b x
        | inr rest ↦ elim (first_found-cases stripped tokens b rest) [
          | inl x ↦ stripped_match-IsMatch u s na nt b x
          | inr x ↦ token_match-IsMatch u s na nt fts b x
        ]
      ]
