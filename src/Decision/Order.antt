-- ===== src/Decision/Order.antt =====
-- src/libarr/acquisition/decision.py: the order of the score tuples.
use libarr.Prelude.{
  ◌≡◌, refl, ◌⊎◌, inl, inr, Bool, true, false, List, [], ◌∷◌, arith, if◌then◌else◌,
}
use libarr.Prelude.Int.{ℤ, ltb_ℤ}
use libarr.Decision.{lex_lt}

ltb_ℤ_trans : (a b c : ℤ) → ltb_ℤ a b ≡ true → ltb_ℤ b c ≡ true → ltb_ℤ a c ≡ true
ltb_ℤ_trans a b c h k = ground arith

-- Of two integers with neither below the other, both lie alike with any third.
ltb_ℤ-tie_left : (a b c : ℤ) → ltb_ℤ a b ≡ false → ltb_ℤ b a ≡ false → ltb_ℤ a c ≡ ltb_ℤ b c
ltb_ℤ-tie_left a b c h k = ground arith

ltb_ℤ-tie_right : (a b c : ℤ) → ltb_ℤ a b ≡ false → ltb_ℤ b a ≡ false → ltb_ℤ c a ≡ ltb_ℤ c b
ltb_ℤ-tie_right a b c h k = ground arith

ltb_ℤ_asym : (a b : ℤ) → ltb_ℤ a b ≡ true → ltb_ℤ b a ≡ false
ltb_ℤ_asym a b h = ground arith

-- What lies below one of two lies below the other, or the other way round.
ltb_ℤ_cotrans : (a b c : ℤ) → ltb_ℤ a c ≡ true → (ltb_ℤ a b ≡ true) ⊎ (ltb_ℤ b c ≡ true)
ltb_ℤ_cotrans a b c h = ground arith

ltb_ℤ_irrefl : (a : ℤ) → ltb_ℤ a a ≡ false
ltb_ℤ_irrefl a = ground arith

-- One step of the comparison, with the tests as Booleans.
abbrev step : Bool → Bool → Bool → Bool
step ab ba rest = if ab then true else if ba then false else rest

pub lex_lt_trans : (a b c : List ℤ) → lex_lt a b ≡ true → lex_lt b c ≡ true → lex_lt a c ≡ true
unfolding lex_lt
lex_lt_trans [] [] c h k = absurd (cc)
lex_lt_trans [] (y ∷ b) [] h k = absurd (cc)
lex_lt_trans [] (y ∷ b) (z ∷ c) h k = refl
lex_lt_trans (x ∷ a) [] c h k = absurd (cc)
lex_lt_trans (x ∷ a) (y ∷ b) [] h k = absurd (cc)
lex_lt_trans (x ∷ a) (y ∷ b) (z ∷ c) h k = ground (arith, lex_lt_trans a b c)

pub lex_lt_cotrans :
    (a b c : List ℤ) → lex_lt a c ≡ true → (lex_lt a b ≡ true) ⊎ (lex_lt b c ≡ true)
unfolding lex_lt
lex_lt_cotrans [] b [] h = absurd (cc)
lex_lt_cotrans (x ∷ a) b [] h = absurd (cc)
lex_lt_cotrans [] [] (z ∷ c) h = inr refl
lex_lt_cotrans [] (y ∷ b) (z ∷ c) h = inl refl
lex_lt_cotrans (x ∷ a) [] (z ∷ c) h = inr refl
lex_lt_cotrans (x ∷ a) (y ∷ b) (z ∷ c) h = ground (arith, lex_lt_cotrans a b c)

pub lex_lt_irrefl : (a : List ℤ) → lex_lt a a ≡ false
unfolding lex_lt
lex_lt_irrefl [] = refl
lex_lt_irrefl (x ∷ a) = let same = ltb_ℤ_irrefl x in let rest = lex_lt_irrefl a in cc
