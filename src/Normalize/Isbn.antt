-- ===== src/Normalize/Isbn.antt =====
-- src/libarr/metadata/normalize.py: what `normalize_isbn` returns, and when it raises.
use libarr.Prelude.{
  get_elem?-none, All-last, some_inj, length-take, ℕ, zero, suc, ◌+◌, ◌-◌, ◌*◌, ◌%◌, ◌<◌, Text,
  codes, ◌≡◌, refl, sym, subst, inl, inr, Bool, true, false, not, Option, none, some, [], ◌∷◌, ◌++◌,
  arith, any, length, ok, err, All, Bool-cases, ◌==◌, take, ==_refl, ==_iff,
}
use libarr.Prelude.{
  is_digit, get_elem?, take-append_last, length-append, All-append, ok_inj, chain-returned,
}
use libarr.Normalize.{
  convert_if, from_isbn10, from_isbn13, digit_of, weight, weighted, check_digit, checked_last,
  isbn13_valid, isbn10_valid, isbn_base, isbn10_to_13, isbn_digits, return_if, normalize_digits,
  normalize_isbn,
}

abbrev pub AllDigits : Text → Type 0
AllDigits t = All (λ c. is_digit c ≡ true) t

-- The sum that the standard asks for, over all thirteen digits.
abbrev pub weigh : Bool → Text → ℕ
weigh odd [] = 0
weigh odd (c ∷ t) = (c - 48) * weight odd + weigh (not odd) t

-- The definition of the standard: thirteen digits, whose sum with the weights 1, 3, 1, … is a
-- multiple of ten.
pub record IsIsbn13 (t : Text) : Type 0 where
  pub thirteen : length t ≡ 13
  pub digits : AllDigits t
  pub sum : weigh false t % 10 ≡ 0

weighted-eq_ok :
    (odd : Bool) (t : Text) (n : ℕ) → weighted odd t ≡ ok n → AllDigits t × (weigh odd t ≡ n)
unfolding weighted
weighted-eq_ok odd [] n e = (tt, ok_inj e)
weighted-eq_ok odd (c ∷ t) n e =
    let (v, dv, e1) = chain-returned (digit_of c) _ e in
    let (rest, dr, e2) = chain-returned (weighted (not odd) t) _ e1 in
    let (ds, sum) = weighted-eq_ok (not odd) t rest dr in ((ground arith, ds), ground arith)

abbrev flips : ℕ → Bool → Bool
flips zero b = b
flips (suc n) b = flips n (not b)

weigh-append :
    (odd : Bool) (xs ys : Text)
    → weigh odd (xs ++ ys) ≡ weigh odd xs + weigh (flips (length xs) odd) ys
weigh-append odd [] ys = omega arith
weigh-append odd (c ∷ xs) ys = omega (arith, weigh-append (not odd) xs ys)

-- Twelve digits and the check digit of their sum.
IsIsbn13-append :
    (xs : Text) (c : ℕ)
    → length xs ≡ 12
    → AllDigits xs
    → is_digit c ≡ true
    → check_digit (weigh false xs) ≡ c - 48
    → IsIsbn13 (xs ++ c ∷ [])
IsIsbn13-append xs c h ds d e = record {
  thirteen = omega (arith, length-append {0} xs (c ∷ []));
  digits = All-append (λ c. is_digit c ≡ true) xs (c ∷ []) ds (d, tt);
  sum = rw (weigh-append false xs (c ∷ []), h) (omega arith);
}

isbn13_valid-IsIsbn13 : (t : Text) → length t ≡ 13 → isbn13_valid t ≡ ok true → IsIsbn13 t
unfolding isbn13_valid
isbn13_valid-IsIsbn13 t h e =
    let (total, summed, e1) = chain-returned (weighted false (take 12 t)) _ e in
    let (ds, sum) = weighted-eq_ok false (take 12 t) total summed in
    last ds sum (get_elem? t 12) refl e1
  where
    last :
        {total : ℕ}
        → AllDigits (take 12 t)
        → weigh false (take 12 t) ≡ total
        → (o : Option ℕ) → get_elem? t 12 ≡ o
        → checked_last total o ≡ ok true
        → IsIsbn13 t
    last ds sum none at e = cc
    last ds sum (some c) at e = subst IsIsbn13 (sym (take-append_last 12 t c at h)) (
        IsIsbn13-append (take 12 t) c (omega (arith, length-take {0} 12 t)) ds (ground arith)
          (ground arith))

digit-IsDigit : (m : ℕ) → m < 10 → is_digit (48 + m) ≡ true
digit-IsDigit m h = ground arith

isbn10_to_13-IsIsbn13 : (t r : Text) → length t ≡ 10 → isbn10_to_13 t ≡ ok r → IsIsbn13 r
unfolding isbn10_to_13
isbn10_to_13-IsIsbn13 t r h e =
    let (total, summed, e1) = chain-returned (weighted false (isbn_base t)) _ e in
    let (ds, sum) = weighted-eq_ok false (isbn_base t) total summed in
    subst IsIsbn13 (ok_inj e1) (
      IsIsbn13-append (isbn_base t) (48 + check_digit total) (omega (arith, length-take {0} 9 t)) ds
        (digit-IsDigit (check_digit total) (omega arith)) (rw sum (omega arith)))

from_isbn13-IsIsbn13 : (t d : Text) → length t ≡ 13 → from_isbn13 t ≡ ok (some d) → IsIsbn13 d
unfolding from_isbn13
from_isbn13-IsIsbn13 t d h e =
    let (valid, checked, e1) = chain-returned (isbn13_valid t) (return_if t) e in
    whole valid checked e1
  where
    whole : (b : Bool) → isbn13_valid t ≡ ok b → return_if t b ≡ ok (some d) → IsIsbn13 d
    whole true checked e = subst IsIsbn13 (some_inj (ok_inj e)) (isbn13_valid-IsIsbn13 t h checked)
    whole false checked e = cc

from_isbn10-IsIsbn13 : (t d : Text) → length t ≡ 10 → from_isbn10 t ≡ ok (some d) → IsIsbn13 d
unfolding from_isbn10
from_isbn10-IsIsbn13 t d h e =
    let (valid, checked, e1) = chain-returned (isbn10_valid t) (convert_if t) e in
    converted valid e1
  where
    converted : (b : Bool) → convert_if t b ≡ ok (some d) → IsIsbn13 d
    converted false e = cc
    converted true e =
        let (isbn, made, e1) = chain-returned (isbn10_to_13 t) _ e in
        subst IsIsbn13 (some_inj (ok_inj e1)) (isbn10_to_13-IsIsbn13 t isbn h made)

normalize_digits-IsIsbn13 : (t d : Text) → normalize_digits t ≡ ok (some d) → IsIsbn13 d
unfolding normalize_digits
normalize_digits-IsIsbn13 t d e = elim (Bool-cases (length t == 13)) [
  | inl h ↦ from_isbn13-IsIsbn13 t d ((==_iff _ _).0 h) (ground arith)
  | inr n ↦ elim (Bool-cases (length t == 10)) [
    | inl h ↦ from_isbn10-IsIsbn13 t d ((==_iff _ _).0 h) (ground arith)
    | inr m ↦ absurd (ground arith)
  ]
]

-- Whatever `normalize_isbn` returns, from an ISBN-13 or from an ISBN-10, has thirteen digits with
-- the check digit of the standard.
pub normalize_isbn-IsIsbn13 :
    (raw : Option Text) (d : Text) → normalize_isbn raw ≡ ok (some d) → IsIsbn13 d
normalize_isbn-IsIsbn13 none d e = absurd (unfold normalize_isbn in cc)
normalize_isbn-IsIsbn13 (some []) d e = absurd (unfold normalize_isbn in cc)
normalize_isbn-IsIsbn13 (some (c ∷ t)) d e =
    normalize_digits-IsIsbn13 (isbn_digits (c ∷ t)) d (unfold normalize_isbn in e)

weighted-of_digits : (odd : Bool) (t : Text) → AllDigits t → weighted odd t ≡ ok (weigh odd t)
unfolding weighted
weighted-of_digits odd [] h = refl
weighted-of_digits odd (c ∷ t) h = ground (arith, weighted-of_digits (not odd) t h.1, h.0)

isbn_digits-of_digits : (t : Text) → AllDigits t → isbn_digits t ≡ t
unfolding isbn_digits
isbn_digits-of_digits [] h = refl
isbn_digits-of_digits (c ∷ t) h = ground (arith, isbn_digits-of_digits t h.1, h.0)

AllDigits-take : (n : ℕ) (t : Text) → AllDigits t → AllDigits (take n t)
AllDigits-take zero t h = tt
AllDigits-take (suc n) [] h = tt
AllDigits-take (suc n) (c ∷ t) h = (h.0, AllDigits-take n t h.1)

check_digit-of_sum : (n v : ℕ) → v < 10 → (n + v) % 10 ≡ 0 → check_digit n ≡ v
check_digit-of_sum n v h e = omega arith

is_digit-value : (c : ℕ) → is_digit c ≡ true → c - 48 < 10
is_digit-value c h = ground arith

checked_last-of_IsIsbn13 :
    (xs : Text) (c : ℕ)
    → length xs ≡ 12
    → IsIsbn13 (xs ++ c ∷ [])
    → checked_last (weigh false xs) (some c) ≡ ok true
unfolding digit_of
checked_last-of_IsIsbn13 xs c twelve h =
    let d = All-last (λ x. is_digit x ≡ true) xs c h.digits in
    let total : (weigh false xs + (c - 48)) % 10 ≡ 0 =
      omega (arith, h.sum, weigh-append false xs (c ∷ []), weight_at (length xs) twelve) in
    let check = check_digit-of_sum (weigh false xs) (c - 48) (is_digit-value c d) total in
    rw (d, check, ==_refl)
  where
    weight_at : (n : ℕ) → n ≡ 12 → weigh (flips n false) (c ∷ []) ≡ c - 48
    weight_at n e = rw e (omega arith)

isbn13_valid-of_IsIsbn13 : (t : Text) → IsIsbn13 t → isbn13_valid t ≡ ok true
unfolding isbn13_valid
isbn13_valid-of_IsIsbn13 t h =
    rw (weighted-of_digits false (take 12 t) (AllDigits-take 12 t h.digits))
      (last (get_elem? t 12) refl)
  where
    last : (o : Option ℕ) → get_elem? t 12 ≡ o → checked_last (weigh false (take 12 t)) o ≡ ok true
    last none at = absurd (omega (arith, h.thirteen, get_elem?-none {0} t 12 at))
    last (some c) at =
        checked_last-of_IsIsbn13 (take 12 t) c (omega (arith, h.thirteen, length-take {0} 12 t))
          (subst IsIsbn13 (take-append_last 12 t c at h.thirteen) h)

normalize_digits-of_IsIsbn13 : (t : Text) → IsIsbn13 t → normalize_digits t ≡ ok (some t)
unfolding normalize_digits from_isbn13
normalize_digits-of_IsIsbn13 t h = rw (h.thirteen, isbn13_valid-of_IsIsbn13 t h)

-- An ISBN-13 is left as it is; so a second normalisation changes nothing.
pub normalize_isbn-of_IsIsbn13 : (t : Text) → IsIsbn13 t → normalize_isbn (some t) ≡ ok (some t)
normalize_isbn-of_IsIsbn13 [] h = absurd (omega (arith, h.thirteen))
normalize_isbn-of_IsIsbn13 (c ∷ t) h =
    unfold normalize_isbn in
    subst (λ s. normalize_digits s ≡ ok (some (c ∷ t)))
      (sym (isbn_digits-of_digits (c ∷ t) h.digits)) (normalize_digits-of_IsIsbn13 (c ∷ t) h)

-- The digits of a text with an `X` among the first twelve of thirteen, or among all of them.
weighted-raises :
    (odd : Bool) (t : Text) → any (λ c. c == b'X') t ≡ true → (m : Text) × (weighted odd t ≡ err m)
unfolding weighted
weighted-raises odd [] h = absurd (cc)
weighted-raises odd (c ∷ t) h = elim (Bool-cases (is_digit c)) [
  | inr other ↦ (codes "invalid literal for int()", ground arith)
  | inl d ↦ let (m, raised) = weighted-raises (not odd) t (ground arith) in (m, ground arith)
]

normalize_digits-raises :
    (t : Text)
    → length t ≡ 13
    → any (λ c. c == b'X') (take 12 t) ≡ true
    → (m : Text) × (normalize_digits t ≡ err m)
unfolding normalize_digits from_isbn13 isbn13_valid
normalize_digits-raises t h x =
    let (m, raised) = weighted-raises false (take 12 t) x in (m, rw (h, raised))

-- A text of which the digits and letters `X` are thirteen, with an `X` among the first twelve of
-- them, makes `normalize_isbn` raise.
pub normalize_isbn-raises :
    (t : Text)
    → length (isbn_digits t) ≡ 13
    → any (λ c. c == b'X') (take 12 (isbn_digits t)) ≡ true
    → (m : Text) × (normalize_isbn (some t) ≡ err m)
unfolding normalize_isbn
normalize_isbn-raises [] h x = absurd (unfold isbn_digits in omega (arith, h))
normalize_isbn-raises (c ∷ t) h x = normalize_digits-raises (isbn_digits (c ∷ t)) h x
