-- ===== src/Subjects.antt =====
-- src/libarr/metadata/subjects.py: one name and one slug for the spellings of a genre.
use libarr.Prelude.{Text, codes, text_eq, mem_text, ◌||◌, List, [], ◌∷◌, if◌then◌else◌}
use libarr.Python.{Unicode, strip, replace}
use libarr.Normalize.{slugify}

-- `ALIASES`
unfoldable pub aliases : List (Text × List Text)
unfolding codes
aliases =
    (
      codes "science fiction",
      codes "sci-fi" ∷ codes "sci fi" ∷ codes "sf" ∷ codes "science-fiction" ∷ codes "scifi" ∷ [],
    )
    ∷ (codes "fantasy", codes "fantasy fiction" ∷ codes "fantasy literature" ∷ [])
    ∷ (codes "horror", codes "horror fiction" ∷ codes "horror stories" ∷ [])
    ∷ (codes "mystery", codes "mystery fiction" ∷ codes "detective and mystery stories" ∷ [])
    ∷ (codes "thriller", codes "thrillers" ∷ codes "suspense fiction" ∷ [])
    ∷ (codes "romance", codes "romance fiction" ∷ codes "love stories" ∷ [])
    ∷ (codes "historical fiction", codes "historical novels" ∷ [])
    ∷ (codes "young adult", codes "ya" ∷ codes "young adult fiction" ∷ [])
    ∷ (
      codes "children's literature",
      codes "children's stories" ∷ codes "childrens literature" ∷ codes "children's fiction" ∷ [],
    )
    ∷ (
      codes "nonfiction",
      codes "non-fiction" ∷ codes "non fiction" ∷ codes "nonfiction literature" ∷ [],
    )
    ∷ (codes "biography", codes "biographies" ∷ codes "autobiography" ∷ [])
    ∷ (codes "poetry", codes "poetry collections" ∷ codes "poems" ∷ [])
    ∷ (codes "drama", codes "plays" ∷ codes "theater" ∷ [])
    ∷ (codes "comics", codes "graphic novels" ∷ codes "comic books" ∷ [])
    ∷ (codes "short stories", codes "short story collections" ∷ codes "short fiction" ∷ [])
    ∷ []

-- The first canonical name that the key is, or is an alias of.
unfoldable pub canonical_in : Text → Text → List (Text × List Text) → Text
unfolding text_eq mem_text
canonical_in default_ key [] = default_
canonical_in default_ key ((canonical, names) ∷ more) =
    if text_eq key canonical || mem_text key names
    then canonical
    else canonical_in default_ key more

module _ (u : Unicode) where
  unfoldable pub normalize_subject : Text → Text
  unfolding canonical_in aliases replace strip
  normalize_subject name =
      let bare = strip u.is_space name in
      canonical_in bare (replace (codes "  ") (codes " ") (u.lower bare)) aliases

  unfoldable pub subject_slug : Text → Text
  unfolding normalize_subject slugify
  subject_slug name = slugify u (normalize_subject name)
