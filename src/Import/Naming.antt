-- ===== src/Import/Naming.antt =====
-- src/libarr/acquisition/import_pipeline.py: the path that a template gives to an imported book.
use libarr.Prelude.{
  ℕ, zero, suc, Text, codes, or_empty, Bool, not, Option, none, some, List, [], ◌∷◌, select,
  if◌then◌else◌, ◌==◌,
}
use libarr.Python.{Unicode, strip, replace, decimal}
use libarr.Python.Regex.{Re, chr, seq, alt, star, at_start, not_ahead, plus, one_of, sub_re}
use libarr.Python.Paths.{PurePath, to_path}

-- `[\\/:*?"<>|]`
unfoldable pub is_forbidden : ℕ → Bool
is_forbidden c = one_of (b'\\' ∷ b'/' ∷ b':' ∷ b'*' ∷ b'?' ∷ b'"' ∷ b'<' ∷ b'>' ∷ b'|' ∷ []) c

abbrev pub or_text : Text → Text → Text
or_text t [] = t
or_text t (c ∷ s) = c ∷ s

module _ (u : Unicode) where
  -- `_sanitize_segment`
  unfoldable pub sanitize_segment : Text → Text
  unfolding is_forbidden strip
  sanitize_segment segment =
      or_text (codes "Unknown") (strip u.is_space (select (λ c. not (is_forbidden c)) segment))

  -- `year` is written where it is neither `None` nor 0.
  unfoldable pub year_text : Option ℕ → Text
  unfolding decimal
  year_text none = []
  year_text (some zero) = []
  year_text (some (suc n)) = decimal (suc n)

  unfoldable pub tokens :
      Option Text → Option Text → Option Text → Option ℕ → Option Text → List (Text × Text)
  unfolding sanitize_segment year_text
  tokens author series title year extension =
      (codes "{Author Name}", sanitize_segment (or_text (codes "Unknown Author") (or_empty author)))
      ∷ (codes "{Author}", sanitize_segment (or_text (codes "Unknown Author") (or_empty author)))
      ∷ (codes "{Series}", sanitize_segment (or_empty series))
      ∷ (codes "{Book Title}", sanitize_segment (or_text (codes "Unknown") (or_empty title)))
      ∷ (codes "{Release Year}", year_text year)
      ∷ (codes "{Extension}", u.lower (or_empty extension))
      ∷ []

  unfoldable pub fill_in : Text → List (Text × Text) → Text
  unfolding replace
  fill_in out [] = out
  fill_in out ((token, value) ∷ more) = fill_in (replace token value out) more

  abbrev space : Re
  space = chr u.is_space

  abbrev only : ℕ → Re
  only c = chr (λ d. d == c)

  -- `\s*-\s*`
  abbrev dash : Re
  dash = seq (star space) (seq (only b'-') (star space))

  -- The first group of `(^|/)\s*-\s*`.
  abbrev slash_of : Text → Text
  slash_of [] = []
  slash_of (c ∷ t) = if c == b'/' then b'/' ∷ [] else []

  -- The substitutions, in their order.
  unfoldable pub collapse : Text → Text
  unfolding sub_re
  collapse t =
      let middle =
        sub_re u.is_word
          (seq (star space) (seq (only b'-') (seq (star space) (seq (only b'-') (star space)))))
          (λ m. codes " - ") t in
      let leading = sub_re u.is_word (seq (alt at_start (only b'/')) dash) slash_of middle in
      let trailing =
        sub_re u.is_word
          (seq (star space)
            (seq (only b'-') (seq (star space) (not_ahead (not_ahead (only b'/'))))))
          (λ m. []) leading in
      let parens =
        sub_re u.is_word (seq (only b'(') (seq (star space) (only b')'))) (λ m. []) trailing in
      let spaces = sub_re u.is_word (seq space (plus space)) (λ m. codes " ") parens in
      sub_re u.is_word (plus (only b'/')) (λ m. codes "/") spaces

  unfoldable pub render_template :
      Text → Option Text → Option Text → Option Text → Option ℕ → Option Text → PurePath
  unfolding tokens fill_in collapse to_path strip
  render_template template author series title year extension =
      to_path
        (strip u.is_space (collapse (fill_in template (tokens author series title year extension))))
