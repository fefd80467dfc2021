-- ===== src/Quality/Upgrades.antt =====
-- src/libarr/acquisition/quality.py: the scores of formats, and chains of upgrades.
use libarr.Prelude.{
  inl, inr, Bool, Bool-cases, ◌↔◌, Bool-cases, Bool, ℕ, ◌+◌, ◌≤◌, ◌<◌, Text, ◌≡◌, ◌↔◌, true, false,
  Option, none, some, List, [], ◌∷◌, arith, length, or_else, codes, All,
}
use libarr.Python.{Unicode}
use libarr.Quality.{
  QualityProfile, Scores, score_of, taxonomy, format_score, meets_cutoff, is_upgrade,
}

abbrev IsBounded : Scores → Type 0
IsBounded scores = All (λ (s : Text × ℕ). s.1 ≤ 100) scores

score_of-le :
    (fmt : Text) (d : ℕ) (scores : Scores)
    → d ≤ 100
    → IsBounded scores
    → or_else d (score_of fmt scores) ≤ 100
unfolding score_of
score_of-le fmt d [] h b = h
score_of-le fmt d ((f, n) ∷ rest) h b = ground (arith, score_of-le fmt d rest h b.1)

taxonomy-IsBounded : (profile : QualityProfile) → IsBounded (taxonomy profile)
unfolding taxonomy
taxonomy-IsBounded profile = ground arith

module _ (u : Unicode) (profile : QualityProfile) where
  -- Every score lies between 0 and 100.
  format_score-le : (fmt : Option Text) → format_score u profile fmt ≤ 100
  format_score-le none = unfold format_score in omega arith
  format_score-le (some fmt) =
      let bounded = taxonomy-IsBounded profile in
      let other = score_of-le (codes "OTHER") 0 (taxonomy profile) (omega arith) bounded in
      unfold format_score in
      ground (arith, score_of-le (u.upper fmt) _ (taxonomy profile) other bounded)

  -- An offer is an upgrade exactly if its score is higher, and the format at hand, if there is one,
  -- does not meet the cutoff.
  is_upgrade_iff :
      (current candidate : Option Text)
      → (is_upgrade u current candidate profile ≡ true) ↔ (
          (meets_cutoff u current profile ≡ false)
          × (format_score u profile current < format_score u profile candidate))
  is_upgrade_iff none none = unfold is_upgrade meets_cutoff format_score in ground arith
  is_upgrade_iff none (some c) = unfold is_upgrade meets_cutoff format_score in ground arith
  is_upgrade_iff (some current) none = unfold is_upgrade format_score in ground arith
  is_upgrade_iff (some current) (some c) = unfold is_upgrade in ground arith

  -- No format is above itself, and what is above a format is above those below it.
  abbrev pub IsStrictOrder : (Option Text → Option Text → Bool) → Type 0
  IsStrictOrder above =
      ((f : Option Text) → above f f ≡ false)
      × ((f g h : Option Text) → above f g ≡ true → above g h ≡ true → above f h ≡ true)

  -- To be an upgrade is a strict order on formats, no format included: a format is no upgrade of
  -- itself, and an upgrade of an upgrade is an upgrade of the first format, too; so two formats do
  -- not replace one another in turn.
  pub is_upgrade-IsStrictOrder :
      IsStrictOrder (λ current candidate. is_upgrade u current candidate profile)
  is_upgrade-IsStrictOrder = (irreflexive, transitive)
    where
      irreflexive : (f : Option Text) → is_upgrade u f f profile ≡ false
      irreflexive f = elim (Bool-cases (is_upgrade u f f profile)) [
        | inr e ↦ e
        | inl e ↦ absurd (omega (arith, ((is_upgrade_iff f f).0 e).1))
      ]

      transitive :
          (f g h : Option Text)
          → is_upgrade u f g profile ≡ true
          → is_upgrade u g h profile ≡ true
          → is_upgrade u f h profile ≡ true
      transitive f g h a b =
          let (below, less) = (is_upgrade_iff f g).0 a in
          let (other, more) = (is_upgrade_iff g h).0 b in
          (is_upgrade_iff f h).1 (below, omega (arith, less, more))

  -- Once the file meets the cutoff, no candidate is an upgrade.
  is_upgrade_of_meets_cutoff :
      (current : Text) (candidate : Option Text)
      → meets_cutoff u (some current) profile ≡ true
      → is_upgrade u (some current) candidate profile ≡ false
  unfolding is_upgrade
  is_upgrade_of_meets_cutoff current candidate h = rw h

  -- Each format of the list is an upgrade of the one before it.
  abbrev pub IsChain : Text → List Text → Type 0
  IsChain current [] = Unit
  IsChain current (c ∷ cs) = (is_upgrade u (some current) (some c) profile ≡ true) × IsChain c cs

  -- A file is not upgraded for ever: a chain of upgrades has at most as many steps as its first
  -- format lies below a score of 100.
  pub IsChain-length :
      (current : Text) (cs : List Text)
      → IsChain current cs
      → format_score u profile (some current) + length cs ≤ 100
  IsChain-length current [] h = omega (arith, format_score-le (some current))
  IsChain-length current (c ∷ cs) (first, rest) =
      omega (arith, IsChain-length c cs rest, ((is_upgrade_iff (some current) (some c)).0 first).1)
