-- ===== src/Decision/Tests.antt =====
-- Runs of the choice, and the theorems about it at concrete candidates.
use libarr.Prelude.{
  ◌≡◌, refl, Bool, true, false, ◌||◌, none, some, List, [], ◌∷◌, any, All, ltb, is_some, codes,
  Text, upper_ascii, lower_ascii,
}
use libarr.Prelude.Int.{ℤ, pos}
use libarr.Python.{ascii}
use libarr.Indexers.{Release}
use libarr.Candidates.{Candidate}
use libarr.Quality.{default_profile, format_score}
use libarr.Decision.{fill_score, score, max_by_score, is_eligible, best_of, lex_lt, pick_best}
use libarr.Decision.Best.{Beats, IsFilledOf, ranked, pick_best-greatest, pick_best_iff_any}

abbrev release : Text → Release
release title = record {
  title = title;
  indexer_name = codes "archive";
  download_url = codes "https://x/y";
  guid = title;
  author = none;
  year = none;
  isbn = none;
  format = none;
  size_bytes = none;
  seeders = none;
  peers = none;
  published_at = none;
  page_url = none;
  subjects = [];
  manual = false;
}

abbrev candidate : Text → Text → ℤ → Bool → Candidate
candidate title fmt custom manual = record {
  release = release title;
  parsed = none;
  fmt = some fmt;
  custom_score = custom;
  protocol = codes "direct";
  indexer_priority = 25;
  seeders = none;
  age = none;
  size_bytes = some 1000;
  manual = manual;
}

abbrev pdf : Candidate
pdf = candidate (codes "Dune") (codes "PDF") (pos 1) false

abbrev epub : Candidate
epub = candidate (codes "Dune") (codes "EPUB") (pos 2) false

abbrev manual_djvu : Candidate
manual_djvu = candidate (codes "Dune") (codes "DJVU") (pos 3) true

abbrev three : List Candidate
three = manual_djvu ∷ pdf ∷ epub ∷ []

pick_epub : pick_best ascii default_profile three ≡ some epub
unfolding pick_best format_score codes upper_ascii lower_ascii lex_lt best_of is_eligible
    max_by_score score fill_score
pick_epub = refl

pick_manual_of_score_0 : pick_best ascii default_profile (manual_djvu ∷ []) ≡ some manual_djvu
unfolding pick_best format_score codes upper_ascii lower_ascii lex_lt best_of is_eligible
    max_by_score score fill_score
pick_manual_of_score_0 = refl

pick_best-greatest_example :
    IsFilledOf ascii default_profile epub three
    × All (Beats ascii default_profile epub) (ranked ascii default_profile three)
pick_best-greatest_example = pick_best-greatest ascii default_profile three epub pick_epub

pick_best_iff_any_example :
    is_some (pick_best ascii default_profile three)
    ≡ any (λ c. ltb 0 (format_score ascii default_profile c.fmt) || c.manual) three
pick_best_iff_any_example = pick_best_iff_any ascii default_profile three
