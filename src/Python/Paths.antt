-- ===== src/Python/Paths.antt =====
-- What the code uses of `pathlib`: a path is its parts, from the root or not.
use libarr.Prelude.{
  ℕ, ◌+◌, Text, text_eq, is_empty, Bool, true, false, not, ◌&&◌, ◌||◌, Option, none, some, List, [],
  ◌∷◌, ◌++◌, select, length, if◌then◌else◌, ◌==◌, ltb, drop,
}
use libarr.Prelude.{is_prefix, join, text_lt}
use libarr.Python.{rfind}

pub record PurePath : Type 0 where
  pub absolute : Bool
  pub parts : List Text

-- `text.split("/")`: `cur` is the part so far.
split_from : Text → Text → List Text
split_from cur [] = cur ∷ []
split_from cur (c ∷ t) =
    let closed = cur ∷ split_from [] t in
    let longer = split_from (cur ++ c ∷ []) t in if c == b'/' then closed else longer

abbrev is_part : Text → Bool
is_part [] = false
is_part (c ∷ t) = not (c == b'.' && is_empty t)

-- `Path(text)`
unfoldable pub to_path : Text → PurePath
unfolding split_from
to_path t = record { absolute = is_prefix (b'/' ∷ []) t; parts = select is_part (split_from [] t) }

abbrev body : List Text → Text
body ps = join (b'/' ∷ []) ps

-- `str(path)`
unfoldable pub path_text : PurePath → Text
path_text p =
    if p.absolute
    then b'/' ∷ body p.parts
    else elim p.parts [ [] ↦ b'.' ∷ [] | q ∷ qs ↦ body (q ∷ qs) ]

-- `p / q`
unfoldable pub path_join : PurePath → PurePath → PurePath
path_join p q =
    if q.absolute then q else record { absolute = p.absolute; parts = p.parts ++ q.parts }

abbrev last_part : List Text → Text
last_part [] = []
last_part (p ∷ []) = p
last_part (p ∷ q ∷ ps) = last_part (q ∷ ps)

abbrev init_parts : List Text → List Text
init_parts [] = []
init_parts (p ∷ []) = []
init_parts (p ∷ q ∷ ps) = p ∷ init_parts (q ∷ ps)

-- `path.name`, `path.parent`, `path.suffix`
unfoldable pub path_name : PurePath → Text
path_name p = last_part p.parts

unfoldable pub path_parent : PurePath → PurePath
path_parent p = record p { parts = init_parts p.parts }

abbrev suffix_at : Text → Option ℕ → Text
suffix_at name none = []
suffix_at name (some i) = if ltb 0 i && ltb (i + 1) (length name) then drop i name else []

unfoldable pub path_suffix : PurePath → Text
unfolding path_name
path_suffix p = suffix_at (path_name p) (rfind b'.' (path_name p))

-- The parts of the one below those of the other.
unfoldable pub below : List Text → List Text → Option (List Text)
below [] ps = some ps
below (b ∷ bs) [] = none
below (b ∷ bs) (p ∷ ps) = if text_eq b p then below bs ps else none

abbrev same_root : PurePath → PurePath → Bool
same_root p q = if p.absolute then q.absolute else not q.absolute

-- `path.relative_to(base)`, with `none` for its `ValueError`.
unfoldable pub relative_to : PurePath → PurePath → Option PurePath
unfolding below
relative_to base p =
    if same_root base p
    then elim (below base.parts p.parts) [
      | none ↦ none
      | some ps ↦ some (record { absolute = false; parts = ps })
    ]
    else none

-- Paths compare by their parts.
parts_lt : List Text → List Text → Bool
parts_lt [] [] = false
parts_lt [] (q ∷ qs) = true
parts_lt (p ∷ ps) [] = false
parts_lt (p ∷ ps) (q ∷ qs) = text_lt p q || (text_eq p q && parts_lt ps qs)

abbrev all_parts : PurePath → List Text
all_parts p = if p.absolute then (b'/' ∷ []) ∷ p.parts else p.parts

unfoldable pub path_lt : PurePath → PurePath → Bool
unfolding parts_lt
path_lt p q = parts_lt (all_parts p) (all_parts q)
