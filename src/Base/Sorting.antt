-- ===== src/Base/Sorting.antt =====
-- A stable sort: `sorted` and `list.sort` with a key, and `ORDER BY`.
use Prim.Native.Nat.{◌+◌}
use mathlib.Core.Path.{◌≡◌, refl, sym, subst}
use mathlib.Core.Logic.{inl, inr}
use mathlib.Core.Bool.{Bool, true, false, ◌||◌}
use mathlib.Core.List.{List, [], ◌∷◌}
use native.Mathlib.Omega.{arith}
use modelops_control_plane.Base.Tests.{if◌then◌else◌, Bool-cases}
use modelops_control_plane.Base.Lists.{All, count, any}

module _ {ℓ} {A : Type ℓ} (le : A → A → Bool) where
  -- An element goes in front of those that it is not behind.
  abbrev pub insert_by : A → List A → List A
  insert_by x [] = x ∷ []
  insert_by x (y ∷ ys) = let rest = insert_by x ys in if le x y then x ∷ y ∷ ys else y ∷ rest

  abbrev pub sort_by : List A → List A
  sort_by [] = []
  sort_by (x ∷ xs) = insert_by x (sort_by xs)

  abbrev pub le_head : A → List A → Bool
  le_head x [] = true
  le_head x (y ∷ ys) = le x y

  -- Each element is before the next one.
  abbrev pub IsOrdered : List A → Type 0
  IsOrdered [] = Unit
  IsOrdered (x ∷ xs) = (le_head x xs ≡ true) × IsOrdered xs

  insert_by-le_head :
      (y x : A) (xs : List A)
      → le y x ≡ true
      → le_head y xs ≡ true
      → le_head y (insert_by x xs) ≡ true
  insert_by-le_head y x [] h h' = h
  insert_by-le_head y x (z ∷ zs) h h' = ground arith

  module _ (total : (x y : A) → le x y ≡ false → le y x ≡ true) where
    insert_by-IsOrdered : (x : A) (xs : List A) → IsOrdered xs → IsOrdered (insert_by x xs)
    insert_by-IsOrdered x [] h = (refl, tt)
    insert_by-IsOrdered x (y ∷ ys) h = elim (Bool-cases (le x y)) [
      | inl q ↦
          let e : insert_by x (y ∷ ys) ≡ x ∷ y ∷ ys = ground arith in subst IsOrdered (sym e) (q, h)
      | inr q ↦
          let e : insert_by x (y ∷ ys) ≡ y ∷ insert_by x ys = ground arith in
          let first = insert_by-le_head y x ys (total x y q) h.0 in
          subst IsOrdered (sym e) (first, insert_by-IsOrdered x ys h.1)
    ]

    pub sort_by-IsOrdered : (xs : List A) → IsOrdered (sort_by xs)
    sort_by-IsOrdered [] = tt
    sort_by-IsOrdered (x ∷ xs) = insert_by-IsOrdered x (sort_by xs) (sort_by-IsOrdered xs)

  insert_by-count :
      (p : A → Bool) (x : A) (xs : List A)
      → count p (insert_by x xs) ≡ (if p x then 1 else 0) + count p xs
  insert_by-count p x [] = refl
  insert_by-count p x (y ∷ ys) = let rest = insert_by-count p x ys in ground arith

  -- The sort keeps the elements: as many pass a test before as after.
  pub sort_by-count : (p : A → Bool) (xs : List A) → count p (sort_by xs) ≡ count p xs
  sort_by-count p [] = refl
  sort_by-count p (x ∷ xs) =
      let rest = sort_by-count p xs in
      let first = insert_by-count p x (sort_by xs) in omega (arith, rest, first)

  insert_by-All {κ} :
      (P : A → Type κ) (x : A) (xs : List A) → P x → All P xs → All P (insert_by x xs)
  insert_by-All P x [] here there = (here, tt)
  insert_by-All P x (y ∷ ys) here there =
      elim (le x y) as (λ b. All P (if b then x ∷ y ∷ ys else y ∷ insert_by x ys)) [
        | true ↦ (here, there)
        | false ↦ (there.0, insert_by-All P x ys here there.1)
      ]

  pub sort_by-All {κ} : (P : A → Type κ) (xs : List A) → All P xs → All P (sort_by xs)
  sort_by-All P [] h = tt
  sort_by-All P (x ∷ xs) h = insert_by-All P x (sort_by xs) h.0 (sort_by-All P xs h.1)

  insert_by-any : (p : A → Bool) (x : A) (xs : List A) → any p (insert_by x xs) ≡ (p x || any p xs)
  insert_by-any p x [] = refl
  insert_by-any p x (y ∷ ys) = let rest = insert_by-any p x ys in ground arith

  pub sort_by-any : (p : A → Bool) (xs : List A) → any p (sort_by xs) ≡ any p xs
  sort_by-any p [] = refl
  sort_by-any p (x ∷ xs) =
      let rest = sort_by-any p xs in let first = insert_by-any p x (sort_by xs) in ground arith
