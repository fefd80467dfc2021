-- ===== src/Wanted/Formats.antt =====
-- src/libarr/acquisition/wanted.py: the best format of a book, and the two lists of wanted books.
use libarr.Prelude.{
  All-weaken, some_inj, ℕ, ◌≤◌, Text, ◌≡◌, refl, subst, Bool, true, false, Option, none, some, List,
  [], ◌∷◌, arith, select, All, if◌then◌else◌, ltb,
}
use libarr.Python.{Unicode}
use libarr.Models.{Book, Session}
use libarr.Quality.{default_profile, format_score, meets_cutoff}
use libarr.Wanted.{
  formats_of, max_format, best_format, best_imported_format, is_missing, is_below_cutoff,
  wanted_missing, wanted_cutoff,
}

module _ (u : Unicode) where
  abbrev pub score_of_format : Text → ℕ
  score_of_format f = format_score u default_profile (some f)

  max_format-greatest :
      (best : Text) (fs : List Text)
      → (score_of_format best ≤ score_of_format (max_format u best fs))
        × All (λ f. score_of_format f ≤ score_of_format (max_format u best fs)) fs
  unfolding max_format
  max_format-greatest best [] = (omega arith, tt)
  max_format-greatest best (f ∷ fs) =
      let (h, hs) =
        max_format-greatest (if ltb (score_of_format best) (score_of_format f) then f else best)
          fs in
      (bound best (ground arith) h, (bound f (ground arith) h, hs))
    where
      bound : (x : Text) {m n : ℕ} → score_of_format x ≤ m → m ≤ n → score_of_format x ≤ n
      bound x p q = omega arith

  -- Where a book has a best format, no file of the book has a format with a greater score.
  pub best_imported_format-greatest :
      (s : Session) (book : Book) (best : Text)
      → best_imported_format u s book ≡ some best
      → All (λ f. score_of_format f ≤ score_of_format best) (formats_of book s)
  unfolding best_imported_format best_format
  best_imported_format-greatest s book best e = go (formats_of book s) e
    where
      go :
          (fs : List Text)
          → best_format u fs ≡ some best
          → All (λ f. score_of_format f ≤ score_of_format best) fs
      go [] h = tt
      go (f ∷ fs) h =
          subst (λ m. All (λ f. score_of_format f ≤ score_of_format m) (f ∷ fs)) (some_inj h)
            (max_format-greatest f fs)

  select-both :
      (p q : Book → Bool) (xs : List Book)
      → All (λ x. (p x ≡ true) × (q x ≡ true)) (select q (select p xs))
  select-both p q [] = tt
  select-both p q (x ∷ xs) = ground (arith, select-both p q xs)

  best_format-none : (fs : List Text) → is_missing u (best_format u fs) ≡ true → fs ≡ []
  unfolding best_format is_missing
  best_format-none [] h = refl
  best_format-none (f ∷ fs) h = cc

  is_below_cutoff-some :
      (o : Option Text)
      → is_below_cutoff u o ≡ true
      → (best : Text) × (o ≡ some best) × (meets_cutoff u (some best) default_profile ≡ false)
  unfolding is_below_cutoff
  is_below_cutoff-some none h = absurd (cc)
  is_below_cutoff-some (some best) h = (best, refl, ground arith)

  -- A book that is listed as missing is monitored and has no file.
  abbrev pub IsMissing : Session → Book → Type 0
  IsMissing s book = (book.monitored ≡ true) × (formats_of book s ≡ [])

  -- A book that is listed for the cutoff is monitored, and its best format is below the cutoff.
  abbrev pub IsBelowCutoff : Session → Book → Type 0
  IsBelowCutoff s book =
      (book.monitored ≡ true)
      × (best : Text) × (best_imported_format u s book ≡ some best)
      × (meets_cutoff u (some best) default_profile ≡ false)

  -- The two lists of wanted books hold what they say: monitored books without any file, and
  -- monitored books whose best format is below the cutoff.
  wanted-All :
      (s : Session)
      → All (IsMissing s) (wanted_missing u s) × All (IsBelowCutoff s) (wanted_cutoff u s)
  unfolding wanted_missing wanted_cutoff best_imported_format
  wanted-All s = (
    All-weaken (λ book h. (h.0, best_format-none (formats_of book s) h.1)) (wanted_missing u s)
        (select-both (λ book. book.monitored) (λ book. is_missing u (best_imported_format u s book))
          s.books),
    All-weaken
        (λ book h.
          let (best, is_best, low) = is_below_cutoff-some (best_imported_format u s book) h.1 in
          (h.0, best, is_best, low))
        (wanted_cutoff u s)
        (select-both (λ book. book.monitored)
          (λ book. is_below_cutoff u (best_imported_format u s book)) s.books),
  )
