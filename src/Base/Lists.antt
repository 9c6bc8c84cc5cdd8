-- ===== src/Base/Lists.antt =====
-- Lists measured by native numbers, the predicates on their elements, and the newest element of a
-- list: `ORDER BY key DESC LIMIT 1` of the source's queries.
use Prim.Native.Nat.{ℕ, suc, ◌+◌}
use mathlib.Core.Path.{◌≡◌, refl}
use mathlib.Core.Logic.{◌⊎◌}
use mathlib.Core.Bool.{Bool, true, false, ◌&&◌, ◌||◌}
use mathlib.Core.Option.{Option, none, some}
use mathlib.Core.List.{List, [], ◌∷◌, ◌++◌}
use native.Mathlib.Omega.{arith}
use modelops_control_plane.Base.Tests.{if◌then◌else◌}

module _ {ℓ} {A : Type ℓ} where
  abbrev pub length : List A → ℕ
  length [] = 0
  length (x ∷ xs) = suc (length xs)

  pub length-append : (xs ys : List A) → length (xs ++ ys) ≡ length xs + length ys
  length-append [] ys = omega arith
  length-append (x ∷ xs) ys = omega (arith, length-append xs ys)

  -- The rows that a `where` clause keeps.
  abbrev pub where_ : (A → Bool) → List A → List A
  where_ p [] = []
  where_ p (x ∷ xs) = let rest = where_ p xs in if p x then x ∷ rest else rest

  abbrev pub any : (A → Bool) → List A → Bool
  any p [] = false
  any p (x ∷ xs) = p x || any p xs

  abbrev pub all : (A → Bool) → List A → Bool
  all p [] = true
  all p (x ∷ xs) = p x && all p xs

  abbrev pub count : (A → Bool) → List A → ℕ
  count p [] = 0
  count p (x ∷ xs) = (if p x then 1 else 0) + count p xs

  abbrev pub head? : List A → Option A
  head? [] = none
  head? (x ∷ xs) = some x

  -- The first row in an order; the one that stands first, where several are first.
  abbrev pub first_of_two : (A → A → Bool) → A → Option A → A
  first_of_two le x none = x
  first_of_two le x (some y) = if le x y then x else y

  abbrev pub first_by : (A → A → Bool) → List A → Option A
  first_by le [] = none
  first_by le (x ∷ xs) = some (first_of_two le x (first_by le xs))

-- Each element of a list has a property; one of them has it.
abbrev pub All {ℓ κ} : {A : Type ℓ} → (A → Type κ) → List A → Type κ
All P [] = Unit
All P (x ∷ xs) = P x × All P xs

abbrev pub Any {ℓ} : {A : Type ℓ} → (A → Type 0) → List A → Type 0
Any P [] = ⊥
Any P (x ∷ xs) = P x ⊎ Any P xs

-- What a `where` clause keeps has a property that its test gives.
pub All-where_ {ℓ κ μ} :
    {A : Type ℓ} {P : A → Type κ} {Q : A → Type μ} (keep : A → Bool) (xs : List A)
    → ((x : A) → keep x ≡ true → P x → Q x)
    → All P xs
    → All Q (where_ keep xs)
All-where_ keep [] next h = tt
All-where_ {A = A} {Q = Q} keep (x ∷ xs) next h =
    elim (keep x) as (λ b. keep x ≡ b → All Q (if b then x ∷ where_ keep xs else where_ keep xs)) [
      | true ↦ λ q. (next x q h.0, All-where_ keep xs next h.1)
      | false ↦ λ q. All-where_ keep xs next h.1
    ]
      refl

pub All-if {ℓ κ} :
    {A : Type ℓ} (P : A → Type κ) (b : Bool) (xs ys : List A)
    → All P xs
    → All P ys
    → All P (if b then xs else ys)
All-if P true xs ys h h' = h
All-if P false xs ys h h' = h'

pub All-append {ℓ κ} :
    {A : Type ℓ} (P : A → Type κ) (xs ys : List A) → All P xs → All P ys → All P (xs ++ ys)
All-append P [] ys h h' = h'
All-append P (x ∷ xs) ys h h' = (h.0, All-append P xs ys h.1 h')
