-- ===== src/Metrics/Range.antt =====
-- A percentile lies in the range of the values it is taken of.
use native.Mathlib.Nat.{mul-le-mul_left}
use modelops_control_plane.Base.{
  ℕ, zero, suc, ◌+◌, ◌-◌, ◌*◌, ◌/◌, ◌%◌, ◌≤◌, ◌<◌, ◌≡◌, ◌↔◌, refl, subst, false, some, none, List,
  [], ◌∷◌, All, arith, length, ◌==◌, Bool-cases, inl, inr,
}
use modelops_control_plane.Number.{Number, less}
use modelops_control_plane.Metrics.{
  Whole, whole_le, insert, sorted, get_or, nothing, blend, exactly, percentile, percentile_of_any,
}

blend_le :
    (s r l m a a' b b' : ℕ)
    → s + r ≡ 100
    → l + a' ≤ a + m
    → l + b' ≤ b + m
    → l * 100 + (a' * s + b' * r) ≤ (a * s + b * r) + m * 100
blend_le s r l m a a' b b' e h k =
    let first = mul-le-mul_left s h in
    let second = mul-le-mul_left r k in
    subst (λ c. l * c + (a' * s + b' * r) ≤ (a * s + b * r) + m * c) e
      (omega (arith, first, second))

module _ (lo hi : Whole) where
  pub record Within (x : Whole) : Type 0 where
    pub above : lo.plus + x.minus ≤ x.plus + lo.minus
    pub below : x.plus + hi.minus ≤ hi.plus + x.minus

  pub record NumberWithin (v : Number) : Type 0 where
    pub above : less v (exactly lo) ≡ false
    pub below : less (exactly hi) v ≡ false

  exactly-NumberWithin : (x : Whole) → Within x → NumberWithin (exactly x)
  exactly-NumberWithin x w =
      let a = w.above in let b = w.below in record { above = ground arith; below = ground arith }

  blend-NumberWithin :
      (r : ℕ) (x y : Whole) → r < 100 → Within x → Within y → NumberWithin (blend r x y)
  blend-NumberWithin r x y small wx wy =
      let total : (100 - r) + r ≡ 100 = omega arith in
      let a =
        blend_le (100 - r) r lo.plus lo.minus x.plus x.minus y.plus y.minus total wx.above
          wy.above in
      let b =
        blend_le (100 - r) r hi.minus hi.plus x.minus x.plus y.minus y.plus total
          (let u = wx.below in omega (arith, u)) (let u = wy.below in omega (arith, u)) in
      record { above = ground (arith, a); below = ground (arith, b) }

  insert-All : (x : Whole) (ys : List Whole) → Within x → All Within ys → All Within (insert x ys)
  insert-All x [] w h = (w, tt)
  insert-All x (y ∷ ys) w h = elim (Bool-cases (whole_le x y)) [
    | inl e ↦ rw e (w, h)
    | inr e ↦ rw e (h.0, insert-All x ys w h.1)
  ]

  sorted-All : (xs : List Whole) → All Within xs → All Within (sorted xs)
  unfolding sorted
  sorted-All [] h = tt
  sorted-All (x ∷ xs) h = insert-All x (sorted xs) h.0 (sorted-All xs h.1)

  get_or-Within :
      (xs : List Whole) (i : ℕ) → All Within xs → i < length xs → Within (get_or xs i nothing)
  get_or-Within [] i h k = absurd (omega (arith, k))
  get_or-Within (x ∷ xs) zero h k = h.0
  get_or-Within (x ∷ xs) (suc i) h k = get_or-Within xs i h.1 (omega (arith, k))

  -- The floor of (n - 1) * pct / 100 is an index; the next one is too where there is a rest.
  floor_index :
      (n pct : ℕ)
      → zero < n
      → pct ≤ 100
      → ((n - 1) * pct / 100 < n) × (zero < (n - 1) * pct % 100 → (n - 1) * pct / 100 + 1 < n)
  floor_index n pct some_value h =
      let bound = mul-le-mul_left (n - 1) h in (omega (arith, bound), λ rest. omega (arith, bound))

  percentile-NumberWithin :
      (xs : List Whole) (pct : ℕ)
      → All Within xs
      → zero < length xs
      → pct ≤ 100
      → NumberWithin (percentile xs pct)
  unfolding percentile
  percentile-NumberWithin xs pct all some_value h =
      let n = length xs in
      let (index, next) = floor_index n pct some_value h in
      let at = get_or-Within xs ((n - 1) * pct / 100) all index in
      elim (Bool-cases (n == 1)) [
        | inl one ↦ rw one (exactly-NumberWithin _ (get_or-Within xs 0 all some_value))
        | inr more ↦ rw more (elim (Bool-cases ((n - 1) * pct % 100 == 0)) [
          | inl whole ↦ rw whole (exactly-NumberWithin _ at)
          | inr rest ↦ rw rest (
              blend-NumberWithin ((n - 1) * pct % 100) _ _ (omega arith) at
                (get_or-Within xs ((n - 1) * pct / 100 + 1) all (next (ground arith))))
        ])
      ]

  insert-nonempty : (x : Whole) (ys : List Whole) → zero < length (insert x ys)
  insert-nonempty x [] = omega arith
  insert-nonempty x (y ∷ ys) = ground arith

  -- Where all the values lie between two bounds, so does a percentile of them from 0 to 100; it
  -- exists exactly where there is a value.
  pub percentile_of_any-NumberWithin :
      (xs : List Whole) (pct : ℕ)
      → All Within xs
      → pct ≤ 100
      → ((percentile_of_any xs pct ≡ none) ↔ (xs ≡ []))
        × ((v : Number) → percentile_of_any xs pct ≡ some v → NumberWithin v)
  unfolding sorted
  percentile_of_any-NumberWithin [] pct all h = ((λ e. refl, λ e. refl), λ v e. cc)
  percentile_of_any-NumberWithin (x ∷ xs) pct all h =
      let inside =
        percentile-NumberWithin (sorted (x ∷ xs)) pct (sorted-All (x ∷ xs) all)
          (insert-nonempty x (sorted xs)) h in
      (
        (λ e. cc, λ e. cc),
        λ v e.
            let same : percentile (sorted (x ∷ xs)) pct ≡ v = cc in subst NumberWithin same inside,
      )
