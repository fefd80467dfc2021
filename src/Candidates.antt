-- ===== src/Candidates.antt =====
-- src/libarr/acquisition/candidates.py and `normalize_release_title` of wanted.py: a release made
-- ready for the decision, or dropped as junk.
--
-- A time is a number of seconds, and so is the age of a release, which the code counts in hours.
use mathlib.Core.Option
use libarr.Prelude.{
  ℕ, ◌-◌, Text, codes, text_eq, truthy, Bool, false, not, ◌||◌, Option, none, some, List, [], ◌∷◌,
  ◌++◌, any, if◌then◌else◌, ◌==◌, or_else,
}
use libarr.Prelude.{is_prefix, is_suffix, is_infix, join}
use libarr.Prelude.Int.{ℤ, pos}
use libarr.Python.{Unicode, words}
use libarr.Python.Regex.{
  Re, seq, alt, chr, star, opt, boundary, lit_ci, word_ci, at_end, plus, search_re, one_of,
}
use libarr.Parser.{ParsedName, parse_book_filename}
use libarr.Indexers.{Release, detect_format}

abbrev space_chars : List ℕ
space_chars = 32 ∷ 9 ∷ 10 ∷ 11 ∷ 12 ∷ 13 ∷ []

-- `_JUNK_PATTERNS`
unfoldable pub junk_patterns : List Re
unfolding codes lit_ci word_ci
junk_patterns =
    seq (lit_ci (codes "[sample")) (seq (star (chr (λ c. not (c == b']')))) (chr (λ c. c == b']')))
    ∷ word_ci (codes "sample")
    ∷ alt
        (seq boundary (
          seq (lit_ci (codes "password")) (
            seq (opt (chr (one_of (b'-' ∷ space_chars))))
              (seq (lit_ci (codes "protected")) boundary))))
        (word_ci (codes "password"))
    ∷ seq (lit_ci (codes ".txt")) (seq (star (chr (one_of space_chars))) at_end)
    ∷ lit_ci (codes "[unknown]")
    ∷ seq boundary (seq (lit_ci (codes "scan")) (seq (opt (lit_ci (codes "ned"))) boundary))
    ∷ []

pub record Candidate : Type 0 where
  pub release : Release
  pub parsed : Option ParsedName
  pub fmt : Option Text
  pub custom_score : ℤ
  pub protocol : Text
  pub indexer_priority : ℕ
  pub seeders : Option ℕ
  pub age : Option ℕ
  pub size_bytes : Option ℕ
  pub manual : Bool

module _ (u : Unicode) where
  unfoldable pub is_junk : Text → Bool
  unfolding junk_patterns search_re
  is_junk title = any (λ p. search_re u.is_word p title) junk_patterns

  unfoldable pub detect_protocol : Release → Text
  unfolding is_infix is_prefix is_suffix
  detect_protocol release =
      let url = u.lower release.download_url in
      if is_suffix (codes ".nzb") url || is_infix (codes "nzb") url
      then codes "usenet"
      else if is_prefix (codes "magnet:") url || is_suffix (codes ".torrent") url
      then codes "torrent"
      else codes "direct"

  -- `\.\w+$`
  abbrev extension_re : Re
  extension_re = seq (chr (λ c. c == b'.')) (seq (plus (chr u.is_word)) at_end)

  abbrev init : List Text → List Text
  init [] = []
  init (w ∷ []) = []
  init (w ∷ v ∷ ws) = w ∷ init (v ∷ ws)

  abbrev last_is : Text → List Text → Bool
  last_is fmt [] = false
  last_is fmt (w ∷ []) = text_eq (u.upper w) fmt
  last_is fmt (w ∷ v ∷ ws) = last_is fmt (v ∷ ws)

  -- With the format that the title names.
  unfoldable pub with_extension : Text → Option Text → Text
  unfolding search_re words join
  with_extension title none = title
  with_extension title (some fmt) =
      let ws = words u.is_space title in
      let bare = if last_is fmt ws then join (32 ∷ []) (init ws) else title in
      if search_re u.is_word extension_re title then title else bare ++ b'.' ∷ u.lower fmt

  unfoldable pub normalize_release_title : Text → Text
  unfolding with_extension detect_format
  normalize_release_title title = with_extension title (detect_format u title)

  abbrev first_of_texts : Option Text → Option Text → Option Text
  first_of_texts a b = if truthy a then a else b

  -- `protocol or detect_protocol(release)`
  abbrev protocol_of : Option Text → Release → Text
  protocol_of protocol release =
      or_else (detect_protocol release) (if truthy protocol then protocol else none)

  unfoldable pub normalize_candidate : ℕ → Release → ℕ → Option Text → Option Candidate
  unfolding is_junk detect_protocol normalize_release_title parse_book_filename detect_format
  normalize_candidate now release indexer_priority protocol =
      if is_junk release.title
      then none
      else some (record {
        release = release;
        parsed = parse_book_filename u (normalize_release_title release.title);
        fmt = first_of_texts release.format (detect_format u release.title);
        custom_score = pos 0;
        protocol = protocol_of protocol release;
        indexer_priority = indexer_priority;
        seeders = release.seeders;
        age = Option.map (λ t. now - t) release.published_at;
        size_bytes = release.size_bytes;
        manual = release.manual;
      })
