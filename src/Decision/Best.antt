-- ===== src/Decision/Best.antt =====
-- src/libarr/acquisition/decision.py: the candidate that `pick_best` returns.
use libarr.Prelude.{
  some_inj, if-ind, ◌≡◌, refl, sym, ap, subst, ◌∙◌, ◌⊎◌, inl, inr, Bool, true, false, not, ◌||◌,
  some, List, [], ◌∷◌, map, select, any, All, Bool-cases, if◌then◌else◌, ltb, is_some,
}
use libarr.Python.{Unicode}
use libarr.Candidates.{Candidate}
use libarr.Quality.{QualityProfile, format_score}
use libarr.Decision.{lex_lt, score, is_eligible, fill_score, max_by_score, best_of, pick_best}
use libarr.Decision.Order.{lex_lt_irrefl, lex_lt_trans, lex_lt_cotrans}

abbrev is_nil {ℓ} : {A : Type ℓ} → List A → Bool
is_nil [] = true
is_nil (x ∷ xs) = false

module _ (u : Unicode) (profile : QualityProfile) where
  -- `m` is not beaten by `c`.
  abbrev pub Beats : Candidate → Candidate → Type 0
  Beats m c = lex_lt (score u profile m) (score u profile c) ≡ false

  not_lt_of_trans :
      (m b c : Candidate)
      → lex_lt (score u profile b) (score u profile c) ≡ true
      → Beats m c
      → Beats m b
  not_lt_of_trans m b c lt h = elim (Bool-cases (lex_lt (score u profile m) (score u profile b))) [
    | inr no_ ↦ no_
    | inl mb ↦
        absurd (cc (lex_lt_trans (score u profile m) (score u profile b) (score u profile c) mb lt))
  ]

  not_lt_of_cotrans : (m b c : Candidate) → Beats b c → Beats m b → Beats m c
  not_lt_of_cotrans m b c bc mb =
      elim (Bool-cases (lex_lt (score u profile m) (score u profile c))) [
        | inr no_ ↦ no_
        | inl mc ↦
            elim (lex_lt_cotrans (score u profile m) (score u profile b) (score u profile c) mc) [
              | inl x ↦ absurd (cc)
              | inr y ↦ absurd (cc)
            ]
      ]

  max_by_score-step :
      (best c : Candidate) (cs : List Candidate) (lt : Bool)
      → lex_lt (score u profile best) (score u profile c) ≡ lt
      → max_by_score u profile best (c ∷ cs) ≡ max_by_score u profile (if lt then c else best) cs
  unfolding max_by_score
  max_by_score-step best c cs lt h = ap (λ b. max_by_score u profile (if b then c else best) cs) h

  max_by_score-nil : (best : Candidate) → max_by_score u profile best [] ≡ best
  unfolding max_by_score
  max_by_score-nil best = refl

  -- What a fold over candidates yields is beaten neither by its start nor by any of the list.
  abbrev Tops : Candidate → Candidate → List Candidate → Type 0
  Tops m best cs = Beats m best × All (Beats m) cs

  max_by_score-Tops :
      (best : Candidate) (cs : List Candidate) → Tops (max_by_score u profile best cs) best cs
  max_by_score-Tops best [] =
      subst (λ m. Tops m best []) (sym (max_by_score-nil best))
        (lex_lt_irrefl (score u profile best), tt)
  max_by_score-Tops best (c ∷ cs) =
      elim (Bool-cases (lex_lt (score u profile best) (score u profile c))) [
        | inl lt ↦
            let (h, hs) = max_by_score-Tops c cs in
            subst (λ m. Tops m best (c ∷ cs)) (sym (max_by_score-step best c cs true lt))
              (not_lt_of_trans (max_by_score u profile c cs) best c lt h, (h, hs))
        | inr ge ↦
            let (h, hs) = max_by_score-Tops best cs in
            subst (λ m. Tops m best (c ∷ cs)) (sym (max_by_score-step best c cs false ge))
              (h, (not_lt_of_cotrans (max_by_score u profile best cs) best c ge h, hs))
      ]

  -- The fold yields its start or a member of the list.
  max_by_score-All :
      (P : Candidate → Type 0) (best : Candidate) (cs : List Candidate)
      → P best
      → All P cs
      → P (max_by_score u profile best cs)
  unfolding max_by_score
  max_by_score-All P best [] p ps = p
  max_by_score-All P best (c ∷ cs) p (q, qs) =
      max_by_score-All P (if lex_lt (score u profile best) (score u profile c) then c else best) cs
        (if-ind P (lex_lt (score u profile best) (score u profile c)) q p) qs

  -- `m` is an eligible candidate of the list with its custom score filled in.
  abbrev pub IsFilledOf : Candidate → List Candidate → Type 0
  IsFilledOf m [] = ⊥
  IsFilledOf m (c ∷ cs) =
      (is_eligible u profile c ≡ true × m ≡ fill_score u profile c) ⊎ IsFilledOf m cs

  -- The candidates that are ranked.
  abbrev pub ranked : List Candidate → List Candidate
  ranked cs = map (fill_score u profile) (select (is_eligible u profile) cs)

  ranked-All :
      (P : Candidate → Type 0) (cs : List Candidate)
      → ((m : Candidate) → IsFilledOf m cs → P m)
      → All P (ranked cs)
  ranked-All P [] into = tt
  ranked-All P (c ∷ cs) into = elim (Bool-cases (is_eligible u profile c)) [
    | inl yes_ ↦
        rw yes_ (
          into (fill_score u profile c) (inl (yes_, refl)),
          ranked-All P cs (λ m o. into m (inr o)),
        )
    | inr no_ ↦ rw no_ (ranked-All P cs (λ m o. into m (inr o)))
  ]

  best_of-All :
      (P : Candidate → Type 0) (cs : List Candidate) {m : Candidate}
      → All P cs
      → best_of u profile cs ≡ some m
      → P m
  unfolding best_of
  best_of-All P [] ps e = cc
  best_of-All P (c ∷ cs) (p, ps) e = subst P (some_inj e) (max_by_score-All P c cs p ps)

  best_of-Beats :
      (cs : List Candidate) {m : Candidate} → best_of u profile cs ≡ some m → All (Beats m) cs
  unfolding best_of
  best_of-Beats [] e = tt
  best_of-Beats (c ∷ cs) e =
      subst (λ m. Beats m c × All (Beats m) cs) (some_inj e) (max_by_score-Tops c cs)

  -- What `pick_best` returns is an eligible candidate of the list (an allowed format, or a manual link), with its custom score filled in, and no eligible candidate has a greater score.
  pub pick_best-greatest :
      (cs : List Candidate) (m : Candidate)
      → pick_best u profile cs ≡ some m
      → IsFilledOf m cs × All (Beats m) (ranked cs)
  unfolding pick_best
  pick_best-greatest cs m e = (
    best_of-All (λ x. IsFilledOf x cs) (ranked cs) (ranked-All (λ x. IsFilledOf x cs) cs (λ x o. o))
        e,
    best_of-Beats (ranked cs) e,
  )

  best_of-none : (cs : List Candidate) → is_some (best_of u profile cs) ≡ not (is_nil cs)
  unfolding best_of
  best_of-none [] = refl
  best_of-none (c ∷ cs) = refl

  ranked-nil : (cs : List Candidate) → not (is_nil (ranked cs)) ≡ any (is_eligible u profile) cs
  ranked-nil [] = refl
  ranked-nil (c ∷ cs) =
      let rest = ranked-nil cs in
      elim (Bool-cases (is_eligible u profile c)) [
        | inl yes_ ↦ rw yes_ refl
        | inr no_ ↦ rw no_ rest
      ]

  -- `pick_best` returns a candidate if and only if one of the list has an allowed format or is a manual link, so a manual link is enough where every format scores 0.
  pub pick_best_iff_any :
      (cs : List Candidate)
      → is_some (pick_best u profile cs)
        ≡ any (λ c. ltb 0 (format_score u profile c.fmt) || c.manual) cs
  unfolding pick_best is_eligible
  pick_best_iff_any cs = best_of-none (ranked cs) ∙ ranked-nil cs
