-- ===== src/Decision.antt =====
-- src/libarr/acquisition/decision.py: the order of candidates, and the choice of the best.
pub mod Order
pub mod Best
mod Tests
use libarr.Prelude.{
  ℕ, zero, suc, Text, codes, text_eq, Bool, true, false, ◌||◌, Option, none, some, List, [], ◌∷◌,
  map, select, if◌then◌else◌, ltb, or_else,
}
use libarr.Prelude.Int.{ℤ, pos, negsuc, ltb_ℤ}
use libarr.Python.{Unicode}
use libarr.Candidates.{Candidate}
use libarr.Quality.{QualityProfile, format_score, custom_format_score}

-- `_PROTOCOL_RANK.get(protocol, 0)`
unfoldable pub protocol_rank : Text → ℕ
protocol_rank protocol =
    if text_eq protocol (codes "direct")
    then 3
    else if text_eq protocol (codes "usenet")
    then 2
    else if text_eq protocol (codes "torrent")
    then 1
    else 0

-- `-n`
abbrev pub negate : ℕ → ℤ
negate zero = pos 0
negate (suc n) = negsuc n

-- Tuples compare at the first place where they differ.
unfoldable pub lex_lt : List ℤ → List ℤ → Bool
lex_lt [] [] = false
lex_lt [] (b ∷ bs) = true
lex_lt (a ∷ as_) [] = false
lex_lt (a ∷ as_) (b ∷ bs) = if ltb_ℤ a b then true else if ltb_ℤ b a then false else lex_lt as_ bs

module _ (u : Unicode) (profile : QualityProfile) where
  unfoldable pub score : Candidate → List ℤ
  score c =
      pos (format_score u profile c.fmt)
      ∷ c.custom_score
      ∷ pos (protocol_rank c.protocol)
      ∷ pos (if c.manual then 0 else 1)
      ∷ negate c.indexer_priority
      ∷ pos (or_else 0 c.seeders)
      ∷ negate (or_else 0 c.age)
      ∷ negate (or_else 0 c.size_bytes)
      ∷ []

  unfoldable pub is_eligible : Candidate → Bool
  is_eligible c = ltb 0 (format_score u profile c.fmt) || c.manual

  abbrev is_zero : ℤ → Bool
  is_zero (pos zero) = true
  is_zero _ = false

  -- The custom score is filled in where it is 0.
  unfoldable pub fill_score : Candidate → Candidate
  fill_score c =
      if is_zero c.custom_score
      then record c { custom_score = custom_format_score u profile c.release.title [] }
      else c

  -- `max(…, key=…)`: the first of the greatest.
  unfoldable pub max_by_score : Candidate → List Candidate → Candidate
  max_by_score best [] = best
  max_by_score best (c ∷ cs) = max_by_score (if lex_lt (score best) (score c) then c else best) cs

  unfoldable pub best_of : List Candidate → Option Candidate
  best_of [] = none
  best_of (c ∷ cs) = some (max_by_score c cs)

  unfoldable pub pick_best : List Candidate → Option Candidate
  pick_best candidates = best_of (map fill_score (select is_eligible candidates))
