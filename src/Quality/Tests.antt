-- ===== src/Quality/Tests.antt =====
-- Runs of the scores, and the theorems about them at concrete formats.
use libarr.Python.Regex.{search_re}
use libarr.Prelude.{is_infix, ◌+◌, ◌≤◌, Text, codes, ◌≡◌, refl, some, List, [], ◌∷◌}
use libarr.Prelude.{lower_ascii, upper_ascii}
use libarr.Prelude.Int.{negsuc, ◌+ℤ◌}
use libarr.Python.{ascii}
use libarr.Quality.{
  default_profile, format_score, custom_format_score, add_matchers, custom_matchers, meets_cutoff,
  is_upgrade,
}
use libarr.Quality.Upgrades.{IsStrictOrder, is_upgrade-IsStrictOrder, IsChain, IsChain-length}

mobi_score : format_score ascii default_profile (some (codes "mobi")) ≡ 80
unfolding format_score codes upper_ascii
mobi_score = refl

retail_score :
    custom_format_score ascii default_profile (codes "Dune (Retail) [sample 2]") [] ≡ negsuc 9
unfolding custom_format_score add_matchers custom_matchers codes lower_ascii ◌+ℤ◌ is_infix search_re
retail_score = refl

abbrev chain : List Text
chain = codes "AZW3" ∷ codes "EPUB" ∷ []

chain_of_upgrades : IsChain ascii default_profile (codes "PDF") chain
unfolding is_upgrade meets_cutoff format_score codes upper_ascii
chain_of_upgrades = (refl, (refl, tt))

IsChain-length_example : format_score ascii default_profile (some (codes "PDF")) + 2 ≤ 100
IsChain-length_example = IsChain-length ascii default_profile (codes "PDF") chain chain_of_upgrades

is_upgrade-IsStrictOrder_example :
    IsStrictOrder ascii default_profile
      (λ current candidate. is_upgrade ascii current candidate default_profile)
is_upgrade-IsStrictOrder_example = is_upgrade-IsStrictOrder ascii default_profile
