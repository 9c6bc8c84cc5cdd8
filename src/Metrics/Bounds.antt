-- ===== src/Metrics/Bounds.antt =====
-- What the counts and the ratios of a summary are bounded by.
use modelops_control_plane.Base.{
  ℕ, ◌+◌, ◌≤◌, ◌≡◌, Bool, false, Option, some, none, List, [], ◌∷◌, arith, length, count, ltb,
  Bool-cases, inl, inr,
}
use modelops_control_plane.Number.{Number, ratio, less}
use modelops_control_plane.Store.{PredictionMetric, GroundTruthLabel}
use modelops_control_plane.Metrics.{
  Row, labeled_rows, outcomes, tally, ratio_of, is_error, summarize,
}

-- A ratio that is known is at most 1.
abbrev pub AtMostOne : Option Number → Type 0
AtMostOne none = Unit
AtMostOne (some v) = less (ratio 1 1) v ≡ false

labeled_rows-length : (rows : List Row) → length (labeled_rows rows) ≤ length rows
labeled_rows-length [] = omega arith
labeled_rows-length ((m, none) ∷ rows) = omega (arith, labeled_rows-length rows)
labeled_rows-length ((m, some l) ∷ rows) = omega (arith, labeled_rows-length rows)

outcomes-length :
    (rows : List (PredictionMetric × GroundTruthLabel)) → length (outcomes rows) ≤ length rows
outcomes-length [] = omega arith
outcomes-length ((m, l) ∷ rows) = ground (arith, outcomes-length rows)

tallies_disjoint :
    (pairs : List (ℕ × ℕ))
    → tally 1 1 pairs + tally 1 0 pairs + tally 0 1 pairs + tally 0 0 pairs ≤ length pairs
tallies_disjoint [] = omega arith
tallies_disjoint ((p, a) ∷ pairs) = ground (arith, tallies_disjoint pairs)

count-length : (p : Row → Bool) (rows : List Row) → count p rows ≤ length rows
count-length p [] = omega arith
count-length p (r ∷ rows) = ground (arith, count-length p rows)

ratio_of-AtMostOne : (a b : ℕ) → a ≤ b → AtMostOne (ratio_of a b)
ratio_of-AtMostOne a b h = elim (Bool-cases (ltb 0 b)) [
  | inl e ↦ rw e (ground arith)
  | inr e ↦ rw e tt
]

-- Of the rows of a window, at most all are labeled, and of these at most all are positive; the
-- error rate, precision, recall, false positive rate and label coverage are at most 1 where they
-- are known.
pub summarize-bounds :
    (version : ℕ) (rows : List Row)
    → let s = summarize version rows in
      (s.labeled_sample_count ≤ s.sample_count)
      × (s.positive_label_count ≤ s.labeled_sample_count)
      × AtMostOne s.error_rate
      × AtMostOne s.precision
      × AtMostOne s.recall
      × AtMostOne s.false_positive_rate
      × AtMostOne s.label_coverage
unfolding summarize
summarize-bounds version rows =
    let labeled = labeled_rows-length rows in
    let paired = outcomes-length (labeled_rows rows) in
    let disjoint = tallies_disjoint (outcomes (labeled_rows rows)) in
    (
      labeled,
      omega (arith, paired, disjoint),
      ratio_of-AtMostOne _ _ (count-length is_error rows),
      ratio_of-AtMostOne _ _ (omega arith),
      ratio_of-AtMostOne _ _ (omega arith),
      ratio_of-AtMostOne _ _ (omega arith),
      ratio_of-AtMostOne _ _ labeled,
    )
