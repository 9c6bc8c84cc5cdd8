-- ===== src/Base/Results.antt =====
-- A call that returns or raises, with `do` blocks for the calls in a row.
use mathlib.Core.Path.{◌≡◌, refl}
use mathlib.Core.Logic.{◌⊎◌, inl, inr}
use mathlib.Core.Bool.{Bool, true, false}

pub data Result {ℓ κ} (E : Type κ) (A : Type ℓ) : Type (ℓ ⊔ κ) where
  ok : A → Result E A
  err : E → Result E A

abbrev pub is_ok {ℓ κ} : {E : Type κ} {A : Type ℓ} → Result E A → Bool
is_ok (ok a) = true
is_ok (err e) = false

infixl 5 ◌>>=◌ ◌>>◌
abbrev pub ◌>>=◌ {ℓ κ μ} :
    {Error : Type μ} {A : Type ℓ} {B : Type κ}
    → Result Error A
    → (A → Result Error B)
    → Result Error B
err raised >>= rest = err raised
ok value >>= rest = rest value

-- The call on the left for its error only.
abbrev pub ◌>>◌ {ℓ μ} :
    {Error : Type μ} {B : Type ℓ} → Result Error (Unit {0}) → Result Error B → Result Error B
err raised >> rest = err raised
ok _ >> rest = rest

pub Result-cases {ℓ κ} :
    {E : Type κ} {A : Type ℓ} (r : Result E A) → ((a : A) × (r ≡ ok a)) ⊎ ((e : E) × (r ≡ err e))
Result-cases (ok a) = inl (a, refl)
Result-cases (err e) = inr (e, refl)

-- Two calls in a row return only where both do.
pub >>=-eq-ok {ℓ κ μ} :
    {Error : Type μ} {A : Type ℓ} {B : Type κ} (first : Result Error A) (rest : A → Result Error B)
    {answer : B}
    → (first >>= rest) ≡ ok answer
    → (value : A) × (first ≡ ok value) × (rest value ≡ ok answer)
>>=-eq-ok (err raised) rest h = cc
>>=-eq-ok (ok value) rest h = (value, refl, h)
