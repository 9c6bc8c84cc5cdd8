-- ===== src/Number.antt =====
-- The floats of the program, as exact fractions: a ratio of counts, a latency, a threshold, and the
-- signed differences of these. A float's own rounding is left out.
use modelops_control_plane.Base.{ℕ, ◌+◌, ◌-◌, ◌*◌, Bool, ltb}

-- The number (plus - minus) / den.
pub record Number : Type 0 where
  pub plus : ℕ
  pub minus : ℕ
  pub den : ℕ

-- `a / b` for two counts, or a decimal constant.
abbrev pub ratio : ℕ → ℕ → Number
ratio a b = record { plus = a; minus = 0; den = b }

abbrev pub of_count : ℕ → Number
of_count n = ratio n 1

-- `a < b`, `a > 0`
abbrev pub less : Number → Number → Bool
less a b = ltb (a.plus * b.den + b.minus * a.den) (b.plus * a.den + a.minus * b.den)

abbrev pub positive : Number → Bool
positive a = ltb a.minus a.plus

abbrev pub sub : Number → Number → Number
sub a b = record {
  plus = a.plus * b.den + b.minus * a.den;
  minus = a.minus * b.den + b.plus * a.den;
  den = a.den * b.den;
}

-- `a / b` where `b` is positive.
abbrev pub div : Number → Number → Number
div a b = record {
  plus = a.plus * b.den;
  minus = a.minus * b.den;
  den = a.den * (b.plus - b.minus);
}

abbrev pub scale : ℕ → Number → Number
scale k a = record a { plus = k * a.plus; minus = k * a.minus }
