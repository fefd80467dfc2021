-- ===== src/Quality.antt =====
-- src/libarr/acquisition/quality.py: the scores of formats and the upgrade rule.
pub mod Upgrades
mod Tests
use libarr.Prelude.{
  ◌==◌, ℕ, Text, codes, text_eq, mem_text, is_infix, Bool, false, not, ◌&&◌, ◌||◌, Option, none,
  some, List, [], ◌∷◌, ◌++◌, map, any, Result, ok, err, leb, ltb, or_else, if◌then◌else◌,
}
use libarr.Prelude.Int.{ℤ, pos, negsuc, ◌+ℤ◌}
use libarr.Python.{Unicode}
use libarr.Python.Regex.{
  Re, seq, alt, star, opt, chr, boundary, search_re, lit_ci, word_ci, plus, one_of,
}

pub record QualityProfile : Type 0 where
  pub name : Text
  pub allowed_formats : List Text
  pub cutoff_format : Option Text
  pub custom_formats : List Text
  pub language : Option Text
  pub kind : Text

-- `QualityProfile()`
abbrev pub default_profile : QualityProfile
default_profile = record {
  name = codes "Standard";
  allowed_formats = codes "EPUB" ∷ codes "AZW3" ∷ codes "MOBI" ∷ codes "PDF" ∷ [];
  cutoff_format = some (codes "EPUB");
  custom_formats = codes "+Retail" ∷ codes "+DRM-Free" ∷ codes "-Sample" ∷ codes "-Unknown" ∷ [];
  language = none;
  kind = codes "text";
}

-- `__post_init__`
unfoldable pub post_init : QualityProfile → Result Text QualityProfile
post_init profile =
    if text_eq profile.kind (codes "text") || text_eq profile.kind (codes "audio")
    then ok profile
    else err (codes "invalid profile kind")

abbrev pub Scores : Type 0
Scores = List (Text × ℕ)

unfoldable pub text_format_scores : Scores
unfolding codes
text_format_scores =
    (codes "EPUB", 100)
    ∷ (codes "AZW3", 90)
    ∷ (codes "MOBI", 80)
    ∷ (codes "PDF", 60)
    ∷ (codes "FB2", 50)
    ∷ (codes "OTHER", 10)
    ∷ []

unfoldable pub audio_format_scores : Scores
unfolding codes
audio_format_scores = (codes "M4B", 100) ∷ (codes "MP3", 80) ∷ (codes "OTHER", 10) ∷ []

-- `scores.get(fmt)`
unfoldable pub score_of : Text → Scores → Option ℕ
unfolding text_eq
score_of fmt [] = none
score_of fmt ((f, n) ∷ rest) = if text_eq f fmt then some n else score_of fmt rest

unfoldable pub taxonomy : QualityProfile → Scores
unfolding text_eq codes text_format_scores audio_format_scores
taxonomy profile =
    if text_eq profile.kind (codes "text") then text_format_scores else audio_format_scores

-- `weight` of a custom matcher: 10 or -20.
pub record Matcher : Type 0 where
  pub name : Text
  pub weight : ℤ
  pub pattern : Re

-- `_CUSTOM_MATCHERS`, with the characters of `\s`.
unfoldable pub custom_matchers : (ℕ → Bool) → List Matcher
unfolding codes lit_ci word_ci
custom_matchers is_space =
    record {
      name = codes "retail";
      weight = pos 10;
      pattern = alt (word_ci (codes "retail")) (
          seq boundary (
            seq (lit_ci (codes "true"))
              (seq (plus (chr is_space)) (seq (lit_ci (codes "epub")) boundary))));
    }
    ∷ record {
      name = codes "drm-free";
      weight = pos 10;
      pattern =
          alt
            (seq boundary (
              seq (lit_ci (codes "drm")) (
                seq (opt (chr (λ c. c == b'-' || is_space c)))
                  (seq (lit_ci (codes "free")) boundary))))
            (word_ci (codes "proper"));
    }
    ∷ record {
      name = codes "sample";
      weight = negsuc 19;
      pattern =
          alt
            (seq (lit_ci (codes "[sample"))
              (seq (star (chr (λ c. not (one_of (b']' ∷ []) c)))) (chr (one_of (b']' ∷ [])))))
            (word_ci (codes "sample"));
    }
    ∷ record {
      name = codes "unknown";
      weight = negsuc 19;
      pattern = alt (lit_ci (codes "[unknown]")) (word_ci (codes "unknown"));
    }
    ∷ []

module _ (u : Unicode) where
  -- 0 stands for "not allowed".
  unfoldable pub format_score : QualityProfile → Option Text → ℕ
  unfolding score_of taxonomy mem_text
  format_score profile none = 0
  format_score profile (some fmt) =
      let scores = taxonomy profile in
      let score =
        or_else (or_else 0 (score_of (codes "OTHER") scores)) (score_of (u.upper fmt) scores) in
      if mem_text (u.upper fmt) (map u.upper profile.allowed_formats) then score else 0

  -- The loop over the matchers.
  unfoldable pub add_matchers : QualityProfile → Text → List Matcher → ℤ → ℤ
  add_matchers profile haystack [] total = total
  add_matchers profile haystack (m ∷ ms) total = add_matchers profile haystack ms (
      if any (λ cf. is_infix m.name (u.lower cf)) profile.custom_formats
        && search_re u.is_word m.pattern haystack
      then total +ℤ m.weight
      else total)

  unfoldable pub custom_format_score : QualityProfile → Text → Text → ℤ
  custom_format_score profile title description =
      add_matchers profile (title ++ (32 ∷ []) ++ description) (custom_matchers u.is_space) (pos 0)

  unfoldable pub meets_cutoff : Option Text → QualityProfile → Bool
  meets_cutoff none profile = false
  meets_cutoff (some fmt) profile = elim profile.cutoff_format [
    | none ↦ false
    | some cutoff ↦ leb (format_score profile (some cutoff)) (format_score profile (some fmt))
  ]

  unfoldable pub is_upgrade : Option Text → Option Text → QualityProfile → Bool
  is_upgrade none none profile = false
  is_upgrade none (some candidate) profile = ltb 0 (format_score profile (some candidate))
  is_upgrade (some current) candidate profile =
      if meets_cutoff (some current) profile then false else elim candidate [
        | none ↦ false
        | some c ↦ ltb (format_score profile (some current)) (format_score profile (some c))
      ]
