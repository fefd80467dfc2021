-- ===== src/Indexers.antt =====
-- src/libarr/indexers/base.py: a search result, and the format that its title names.
pub mod Registry
use libarr.Prelude.{ℕ, Text, codes, Bool, Option, none, some, List, [], ◌∷◌, if◌then◌else◌}
use libarr.Python.{Unicode}
use libarr.Python.Regex.{Re, seq, alt, boundary, lit, search_re}

pub record Release : Type 0 where
  pub title : Text
  pub indexer_name : Text
  pub download_url : Text
  pub guid : Text
  pub author : Option Text
  pub year : Option ℕ
  pub isbn : Option Text
  pub format : Option Text
  pub size_bytes : Option ℕ
  pub seeders : Option ℕ
  pub peers : Option ℕ
  pub published_at : Option ℕ
  pub page_url : Option Text
  pub subjects : List Text
  pub manual : Bool

-- `\.epub\b|\bepub\b`
unfoldable pub format_re : Text → Re
unfolding lit
format_re t = alt (seq (lit (b'.' ∷ t)) boundary) (seq boundary (seq (lit t) boundary))

-- `_FORMAT_PATTERNS`, in the order of `_FORMAT_ORDER`
unfoldable pub format_patterns : List (Text × Re)
unfolding codes lit format_re
format_patterns =
    (codes "EPUB", format_re (codes "epub"))
    ∷ (codes "AZW3", format_re (codes "azw3"))
    ∷ (codes "MOBI", format_re (codes "mobi"))
    ∷ (codes "PDF", format_re (codes "pdf"))
    ∷ (codes "FB2", format_re (codes "fb2"))
    ∷ (
      codes "M4B",
      alt (format_re (codes "m4b")) (seq boundary (seq (lit (codes "audible")) boundary)),
    )
    ∷ (codes "MP3", format_re (codes "mp3"))
    ∷ []

module _ (u : Unicode) where
  unfoldable pub first_format : Text → List (Text × Re) → Option Text
  unfolding search_re
  first_format lowered [] = none
  first_format lowered ((fmt, pattern) ∷ more) =
      if search_re u.is_word pattern lowered then some fmt else first_format lowered more

  unfoldable pub detect_format : Text → Option Text
  unfolding first_format format_patterns
  detect_format title = first_format (u.lower title) format_patterns
