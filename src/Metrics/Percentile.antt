-- ===== src/Metrics/Percentile.antt =====
-- `_percentile` of backend/app/control_plane/metrics_service.py, on whole numbers.
use modelops_control_plane.Base.{
  ℕ, zero, suc, ◌+◌, ◌-◌, ◌*◌, ◌/◌, ◌%◌, Bool, List, [], ◌∷◌, length, leb, ◌==◌, if◌then◌else◌,
}
use modelops_control_plane.Number.{Number}

-- The whole number plus - minus.
pub record Whole : Type 0 where
  pub plus : ℕ
  pub minus : ℕ

abbrev pub whole_le : Whole → Whole → Bool
whole_le a b = leb (a.plus + b.minus) (b.plus + a.minus)

abbrev pub insert : Whole → List Whole → List Whole
insert x [] = x ∷ []
insert x (y ∷ ys) = if whole_le x y then x ∷ y ∷ ys else y ∷ insert x ys

-- Python's `sorted`.
unfoldable pub sorted : List Whole → List Whole
sorted [] = []
sorted (x ∷ xs) = insert x (sorted xs)

-- `sorted_values[i]`; the value behind the end is never read.
abbrev pub get_or : List Whole → ℕ → Whole → Whole
get_or [] i d = d
get_or (x ∷ xs) zero d = x
get_or (x ∷ xs) (suc i) d = get_or xs i d

abbrev pub nothing : Whole
nothing = record { plus = 0; minus = 0 }

-- a * (1 - r / 100) + b * (r / 100)
abbrev pub blend : ℕ → Whole → Whole → Number
blend r a b = record {
  plus = a.plus * (100 - r) + b.plus * r;
  minus = a.minus * (100 - r) + b.minus * r;
  den = 100;
}

abbrev pub exactly : Whole → Number
exactly a = record { plus = a.plus; minus = a.minus; den = 1 }

-- `k` is (n - 1) * pct / 100; its floor `f` and the hundredths `r` above it.
unfoldable pub percentile : List Whole → ℕ → Number
percentile values pct =
    let n = length values in
    let f = (n - 1) * pct / 100 in
    let r = (n - 1) * pct % 100 in
    if n == 1
    then exactly (get_or values 0 nothing)
    else if r == 0
    then exactly (get_or values f nothing)
    else blend r (get_or values f nothing) (get_or values (f + 1) nothing)
