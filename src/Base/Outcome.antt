-- ===== src/Base/Outcome.antt =====
-- What a C function of the extension ends in: a value, a PostgreSQL ERROR (`ereport`, which unwinds
-- the call), or an access outside the memory that was asked for.
use mathlib.Core.Logic.{◌⊎◌, inl, inr}
use mathlib.Core.Path.{◌≡◌, refl}

pub data Outcome {ℓ} (A : Type ℓ) : Type ℓ where
  ok : A → Outcome A
  error : Outcome A
  fault : Outcome A

infixl 5 ◌>>=◌
abbrev pub ◌>>=◌ {ℓ κ} : {A : Type ℓ} {B : Type κ} → Outcome A → (A → Outcome B) → Outcome B
ok a >>= f = f a
error >>= f = error
fault >>= f = fault

-- A chain gives a value only if its first step does.
pub >>=-eq-ok {ℓ κ} :
    {A : Type ℓ} {B : Type κ} {last : B} (next : A → Outcome B) (first : Outcome A)
    → (first >>= next) ≡ ok last
    → (value : A) × (first ≡ ok value) × (next value ≡ ok last)
>>=-eq-ok next fault h = cc
>>=-eq-ok next error h = cc
>>=-eq-ok next (ok value) h = (value, refl, h)

pub Outcome-cases {ℓ} :
    {A : Type ℓ} (m : Outcome A) → ((value : A) × (m ≡ ok value)) ⊎ ((m ≡ error) ⊎ (m ≡ fault))
Outcome-cases (ok value) = inl (value, refl)
Outcome-cases error = inr (inl refl)
Outcome-cases fault = inr (inr refl)
