-- ===== src/Prelude/Results.antt =====
-- A call that returns or raises: the exception is a value.
use mathlib.Core.Path.{◌≡◌, refl}
use mathlib.Core.Bool.{Bool, true, false}
use libarr.Prelude.Tests.{if◌then◌else◌}

pub data Result {ℓ} (E : Type ℓ) (A : Type ℓ) : Type ℓ where
  ok : A → Result E A
  err : E → Result E A

infixl 5 ◌>>=◌
abbrev pub ◌>>=◌ {ℓ} : {E A B : Type ℓ} → Result E A → (A → Result E B) → Result E B
(err raised) >>= next = err raised
(ok value) >>= next = next value

module _ {ℓ} {E : Type ℓ} where
  pub ok_inj : {A : Type ℓ} {a b : A} → ◌≡◌ {A = Result E A} (ok a) (ok b) → a ≡ b
  ok_inj same = cc

  -- A chain returns only where its first call returns, and then it is the rest that returns.
  pub chain-returned :
      {A B : Type ℓ} (first : Result E A) (next : A → Result E B) {result : B}
      → (first >>= next) ≡ ok result
      → (value : A) × (first ≡ ok value) × (next value ≡ ok result)
  chain-returned (err raised) next returned = cc
  chain-returned (ok value) next returned = (value, refl, returned)

  -- A guard that raises lets a run return only where its test is false.
  pub guard-returned :
      {A : Type ℓ} (test : Bool) (raised : E) (rest : Result E A) {result : A}
      → (if test then err raised else rest) ≡ ok result
      → (test ≡ false) × (rest ≡ ok result)
  guard-returned false raised rest returned = (refl, returned)
  guard-returned true raised rest returned = cc
