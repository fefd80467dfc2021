-- ===== src/Python/Regex.antt =====
-- The part of Python's `re` that the code uses. A match is found by trying the ways in which a
-- pattern can match from a place, in the order in which `re` tries them.
use mathlib.Core.Option
use libarr.Prelude.{
  take, any, ◌-◌, is_empty, ℕ, zero, suc, Text, Bool, true, false, not, ◌&&◌, ◌||◌, Option, none,
  some, List, [], ◌∷◌, ◌++◌, length, lower_ascii, ◌==◌, ltb, if◌then◌else◌,
}

-- A place in a text: the character before it, and what follows.
pub record Place : Type 0 where
  pub before : Option ℕ
  pub rest : Text

pub data Re : Type 0 where
  eps : Re
  chr : (ℕ → Bool) → Re
  seq alt : Re → Re → Re
  star opt : Re → Re
  boundary : Re
  at_start at_end : Re
  not_ahead : Re → Re

concat_map : (Place → List Place) → List Place → List Place
concat_map f [] = []
concat_map f (p ∷ ps) = f p ++ concat_map f ps

-- Greedy repetition. Each round must consume, so the length of the text bounds the rounds.
star_from : (Place → List Place) → ℕ → Place → List Place
unfolding concat_map
star_from step zero p = p ∷ []
star_from step (suc n) p =
    concat_map
      (λ q.
        let more = star_from step n q in if ltb (length q.rest) (length p.rest) then more else [])
      (step p)
    ++ p ∷ []

is_word_at : (ℕ → Bool) → Option ℕ → Bool
is_word_at word none = false
is_word_at word (some c) = word c

abbrev head : Text → Option ℕ
head [] = none
head (c ∷ t) = some c

differ : Bool → Bool → Bool
differ true b = not b
differ false b = b

advance : (ℕ → Bool) → Place → List Place
advance p q = elim q.rest [
  | [] ↦ []
  | c ∷ t ↦ if p c then record { before = some c; rest = t } ∷ [] else []
]

abbrev none_of : List Place → Bool
none_of [] = true
none_of (p ∷ ps) = false

abbrev first : Option ℕ → Bool
first none = true
first (some c) = false

module _ (word : ℕ → Bool) where
  -- The places where a match from a place can end, the preferred one first.
  unfoldable pub ends : Re → Place → List Place
  unfolding concat_map star_from is_word_at differ advance
  ends eps p = p ∷ []
  ends (chr c) p = advance c p
  ends (seq a b) p = concat_map (ends b) (ends a p)
  ends (alt a b) p = ends a p ++ ends b p
  ends (star r) p = star_from (ends r) (suc (length p.rest)) p
  ends (opt r) p = ends r p ++ p ∷ []
  ends boundary p =
      if differ (is_word_at word p.before) (is_word_at word (head p.rest)) then p ∷ [] else []
  ends at_start p = if first p.before then p ∷ [] else []
  ends at_end p = elim p.rest [ [] ↦ p ∷ [] | c ∷ t ↦ if c == 10 && is_empty t then p ∷ [] else [] ]
  ends (not_ahead r) p = if none_of (ends r p) then p ∷ [] else []

  search_from : Re → Option ℕ → Text → Bool
  unfolding ends
  search_from r b [] = not (none_of (ends r (record { before = b; rest = [] })))
  search_from r b (c ∷ t) =
      not (none_of (ends r (record { before = b; rest = c ∷ t }))) || search_from r (some c) t

  -- `pattern.search(text) is not None`
  unfoldable pub search_re : Re → Text → Bool
  unfolding search_from
  search_re r t = search_from r none t

-- A literal, and one under IGNORECASE (for the letters of ASCII).
unfoldable pub lit : Text → Re
lit [] = eps
lit (c ∷ t) = seq (chr (λ d. d == c)) (lit t)

unfoldable pub lit_ci : Text → Re
unfolding lower_ascii
lit_ci [] = eps
lit_ci (c ∷ t) = seq (chr (λ d. lower_ascii d == c)) (lit_ci t)

-- A literal between word boundaries, as in `\bretail\b`.
unfoldable pub word_ci : Text → Re
unfolding lit_ci
word_ci t = seq boundary (seq (lit_ci t) boundary)

abbrev pub plus : Re → Re
plus r = seq r (star r)

abbrev pub one_of : List ℕ → ℕ → Bool
one_of [] c = false
one_of (d ∷ ds) c = d == c || one_of ds c

module _ (word : ℕ → Bool) where
  -- `pattern.match` at a place: where the preferred match ends.
  unfoldable pub match_at : Re → Place → Option Place
  unfolding ends
  match_at r p = elim (ends word r p) [ [] ↦ none | q ∷ qs ↦ some q ]

  -- `pattern.fullmatch(text)`
  unfoldable pub full_match : Re → Text → Bool
  unfolding ends
  full_match r t =
      any (λ (q : Place). is_empty q.rest) (ends word r (record { before = none; rest = t }))

  -- The text of the leftmost match.
  find_from : Re → Option ℕ → Text → Option Text
  unfolding match_at
  find_from r b [] = Option.map (λ q. []) (match_at r (record { before = b; rest = [] }))
  find_from r b (c ∷ t) =
      let later = find_from r (some c) t in
      elim (match_at r (record { before = b; rest = c ∷ t })) [
        | none ↦ later
        | some q ↦ some (take (length (c ∷ t) - length q.rest) (c ∷ t))
      ]

  unfoldable pub find_match : Re → Text → Option Text
  unfolding find_from
  find_match r t = find_from r none t

  -- `re.sub` for a pattern with no empty match; `skip` counts the characters left of a match.
  sub_from : Re → (Text → Text) → Option ℕ → ℕ → Text → Text
  unfolding match_at
  sub_from r repl b skip [] = []
  sub_from r repl b (suc skip) (c ∷ t) = sub_from r repl (some c) skip t
  sub_from r repl b zero (c ∷ t) = elim (match_at r (record { before = b; rest = c ∷ t })) [
    | none ↦ c ∷ sub_from r repl (some c) 0 t
    | some q ↦
        let n : ℕ = length (c ∷ t) - length q.rest in
        repl (take n (c ∷ t)) ++ sub_from r repl (some c) (n - 1) t
  ]

  unfoldable pub sub_re : Re → (Text → Text) → Text → Text
  unfolding sub_from
  sub_re r repl t = sub_from r repl none 0 t

  -- `re.split` for such a pattern: `cur` is the part so far.
  split_from : Re → Text → Option ℕ → ℕ → Text → List Text
  unfolding match_at
  split_from r cur b skip [] = cur ∷ []
  split_from r cur b (suc skip) (c ∷ t) = split_from r cur (some c) skip t
  split_from r cur b zero (c ∷ t) = elim (match_at r (record { before = b; rest = c ∷ t })) [
    | none ↦ split_from r (cur ++ c ∷ []) (some c) 0 t
    | some q ↦ cur ∷ split_from r [] (some c) (length (c ∷ t) - length q.rest - 1) t
  ]

  unfoldable pub split_re : Re → Text → List Text
  unfolding split_from
  split_re r t = split_from r [] none 0 t

-- `r{n}`, and `r{1,n}` for n above 0.
unfoldable pub times : ℕ → Re → Re
times zero r = eps
times (suc n) r = seq r (times n r)
