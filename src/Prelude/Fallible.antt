-- ===== src/Prelude/Fallible.antt =====
-- Go's `(value, error)` results: a value, or an error of a type that the component fixes.
use mathlib.Core.Path.{◌≡◌, refl}
use mathlib.Core.Logic.{◌⊎◌, inl, inr}
use mathlib.Core.Bool.{Bool, true, false}
use wormzy.Prelude.Tests.{if◌then◌else◌}

pub data Fallible {ℓ κ} (E : Type ℓ) (A : Type κ) : Type (ℓ ⊔ κ) where
  ok : A → Fallible E A
  fail : E → Fallible E A

module _ {ℓ κ} {E : Type ℓ} {A : Type κ} where
  pub Fallible-cases : (m : Fallible E A) → ((a : A) × (m ≡ ok a)) ⊎ ((e : E) × (m ≡ fail e))
  Fallible-cases (ok a) = inl (a, refl)
  Fallible-cases (fail e) = inr (e, refl)

-- `if !passes { return refusal }`
abbrev pub require {ℓ} : {E : Type ℓ} → Bool → E → Fallible E (Unit {0})
require passes refusal = if passes then ok tt else fail refusal

module _ {ℓ κ μ} {E : Type ℓ} {A : Type κ} {B : Type μ} where
  infixl 5 ◌>>=◌
  abbrev pub ◌>>=◌ : Fallible E A → (A → Fallible E B) → Fallible E B
  fail error >>= next = fail error
  ok result >>= next = next result

  -- A chain that succeeds: its first step does, and so does the rest.
  pub >>=-eq-ok :
      (step : Fallible E A) (next : A → Fallible E B) {answer : B}
      → (step >>= next) ≡ ok answer
      → (result : A) × (step ≡ ok result) × (next result ≡ ok answer)
  >>=-eq-ok (fail error) next ends = cc
  >>=-eq-ok (ok result) next ends = (result, refl, ends)

infixl 5 ◌>>◌
abbrev pub ◌>>◌ {ℓ κ} :
    {E : Type ℓ} {B : Type κ} → Fallible E (Unit {0}) → Fallible E B → Fallible E B
step >> later = step >>= λ _. later

pub require-eq-ok {ℓ κ} :
    {E : Type ℓ} {B : Type κ} (passes : Bool) (refusal : E) (second : Fallible E B) {b : B}
    → (require passes refusal >> second) ≡ ok b
    → (passes ≡ true) × (second ≡ ok b)
require-eq-ok true refusal second h = (refl, h)
require-eq-ok false refusal second h = cc
