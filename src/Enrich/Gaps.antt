-- ===== src/Enrich/Gaps.antt =====
-- src/libarr/metadata/enrich.py: the columns of a book before and after `_apply`.
use mathlib.Core.Option
use libarr.Prelude.{
  Bool, true, ℕ, zero, suc, Text, truthy, ◌≡◌, refl, ◌⊎◌, inl, inr, false, Option, none, some, [],
  ◌∷◌, arith, get_row, update_row, get_row-update_row, if◌then◌else◌, ◌==◌,
}
use libarr.Python.{Unicode}
use libarr.Models.{Book, Session}
use libarr.Relations.{book_id}
use libarr.Enrich.{BookMetadata, or_text, or_number, filled, applied}

-- A column that has a value keeps it, and an empty one gets what the provider has.
abbrev pub FillsText : Option Text → Option Text → Option Text → Type 0
FillsText old given new = (truthy old ≡ true × new ≡ old) ⊎ (truthy old ≡ false × new ≡ given)

abbrev pub has_number : Option ℕ → Bool
has_number none = false
has_number (some zero) = false
has_number (some (suc n)) = true

-- Also a number, of which 0 counts as no value.
abbrev pub FillsNumber : Option ℕ → Option ℕ → Option ℕ → Type 0
FillsNumber old given new =
    (has_number old ≡ true × new ≡ old) ⊎ (has_number old ≡ false × new ≡ given)

-- Every column of the book.
pub record IsFilled (meta : BookMetadata) (b b' : Book) : Type 0 where
  pub id : b'.id ≡ b.id
  pub author_id : b'.author_id ≡ b.author_id
  pub title : b'.title ≡ b.title
  pub subtitle : b'.subtitle ≡ b.subtitle
  pub series_id : b'.series_id ≡ b.series_id
  pub series_position : b'.series_position ≡ b.series_position
  pub cover_path : b'.cover_path ≡ b.cover_path
  pub monitored : b'.monitored ≡ b.monitored
  pub path : b'.path ≡ b.path
  pub work_key : FillsText b.work_key meta.work_key b'.work_key
  pub description : FillsText b.description meta.description b'.description
  pub language : FillsText b.language meta.language b'.language
  pub year : FillsNumber b.year meta.year b'.year
  pub page_count : FillsNumber b.page_count meta.page_count b'.page_count
  pub metadata_json : b'.metadata_json ≡ some meta.json

or_text-FillsText : (a b : Option Text) → FillsText a b (or_text a b)
or_text-FillsText none b = inr (refl, refl)
or_text-FillsText (some []) b = inr (refl, refl)
or_text-FillsText (some (c ∷ t)) b = inl (refl, refl)

or_number-FillsNumber : (a b : Option ℕ) → FillsNumber a b (or_number a b)
unfolding or_number
or_number-FillsNumber none b = inr (refl, refl)
or_number-FillsNumber (some zero) b = inr (refl, refl)
or_number-FillsNumber (some (suc n)) b = inl (refl, refl)

filled-IsFilled : (meta : BookMetadata) (b : Book) → IsFilled meta b (filled meta b)
unfolding filled
filled-IsFilled meta b = record {
  id = refl;
  author_id = refl;
  title = refl;
  subtitle = refl;
  series_id = refl;
  series_position = refl;
  cover_path = refl;
  monitored = refl;
  path = refl;
  work_key = or_text-FillsText b.work_key meta.work_key;
  description = or_text-FillsText b.description meta.description;
  language = or_text-FillsText b.language meta.language;
  year = or_number-FillsNumber b.year meta.year;
  page_count = or_number-FillsNumber b.page_count meta.page_count;
  metadata_json = refl;
}

filled-id : (meta : BookMetadata) (b : Book) → (filled meta b).id ≡ b.id
unfolding filled
filled-id meta b = refl

-- Where the book that is enriched has a row, it still has one: a work key, description, language,
-- year or page count that it had is kept, and one that it lacked becomes the provider's; the JSON of
-- the metadata is replaced by the provider's, and every other column is as it was. The rows of the
-- other books are as they were.
pub applied-IsFilled :
    (u : Unicode) (book b : Book) (meta : BookMetadata) (source : Text) (s : Session)
    → get_row book_id book.id s.books ≡ some b
    → ((b' : Book) × (get_row book_id book.id (applied u book meta source s).books ≡ some b')
        × IsFilled meta b b')
      × ((j : ℕ)
          → get_row book_id j (applied u book meta source s).books ≡ (
              if book.id == j
              then Option.map (filled meta) (get_row book_id j s.books)
              else get_row book_id j s.books))
unfolding applied
applied-IsFilled u book b meta source s h =
    ((filled meta b, ground (arith, others book.id), filled-IsFilled meta b), others)
  where
    others :
        (j : ℕ)
        → get_row book_id j (update_row book_id book.id (filled meta) s.books) ≡ (
            if book.id == j
            then Option.map (filled meta) (get_row book_id j s.books)
            else get_row book_id j s.books)
    others j = get_row-update_row book_id book.id j (filled meta) (filled-id meta) s.books
