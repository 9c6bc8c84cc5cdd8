-- ===== src/Policy/Explain.antt =====
-- The sentences about a policy check: backend/app/policy/explain.py. A sentence is a constructor with
-- the numbers that it prints; how many digits it prints of them is left out.
use modelops_control_plane.Base.{ℕ, Bool, Option, none, some, leb, if◌then◌else◌}
use modelops_control_plane.Number.{Number, of_count, positive, div}
use modelops_control_plane.Store.{
  PolicyEvaluationResult, pass, fail, PolicyName, minimum_requests, latency_p95_increase,
  max_error_rate, minimum_labeled_samples, minimum_label_coverage, minimum_positive_labels,
  minimum_recall,
}

-- "(observed/threshold ...)", with "?" for a missing value.
pub record Counts : Type 0 where
  pub observed : Option Number
  pub threshold : Option Number

-- How the share of labeled predictions is put.
pub data CoverageDetail : Type 0 where
  labeled_of_total : ℕ → (total : Number) → CoverageDetail
  labeled_only : ℕ → CoverageDetail
  bare_coverage : CoverageDetail

pub data Explanation : Type 0 where
  enough_traffic too_little_traffic : Counts → Explanation
  stable_starved : Counts → (is_estimated : Bool) → Explanation
  no_latency no_error_rate no_coverage no_recall : Explanation
  latency_above latency_within : (observed threshold : Number) → Explanation
  error_rate_above error_rate_within : (observed threshold : Number) → Explanation
  enough_labels too_few_labels : Counts → Explanation
  coverage_met coverage_short : CoverageDetail → (observed threshold : Number) → Explanation
  enough_positives too_few_positives : Counts → (of_total : Option ℕ) → Explanation
  recall_below recall_met : (observed threshold : Number) → Explanation

abbrev pub is_pass : PolicyEvaluationResult → Bool
is_pass pass = Bool.true
is_pass _ = Bool.false

abbrev pub is_fail : PolicyEvaluationResult → Bool
is_fail fail = Bool.true
is_fail _ = Bool.false

-- 0.999 of the traffic.
abbrev pub fully_promoted_canary_weight : ℕ
fully_promoted_canary_weight = 999000000

abbrev pub is_fully_promoted : Option ℕ → Bool
is_fully_promoted none = Bool.false
is_fully_promoted (some weight) = leb fully_promoted_canary_weight weight

unfoldable pub explain_minimum_requests :
    Counts
    → PolicyEvaluationResult
    → (canary_weight : Option ℕ) → (is_estimated : Bool) → Explanation
explain_minimum_requests counts result canary_weight is_estimated =
    if is_pass result
    then enough_traffic counts
    else if is_fully_promoted canary_weight
    then stable_starved counts is_estimated
    else too_little_traffic counts

-- The checks that compare a value: a missing one, or a missing threshold, comes first.
abbrev pub explain_compared :
    (missing : Explanation)
    → (when_fail otherwise : Number → Number → Explanation) → (observed threshold : Option Number)
    → PolicyEvaluationResult
    → Explanation
explain_compared missing when_fail otherwise (some observed) (some threshold) result =
    if is_fail result then when_fail observed threshold else otherwise observed threshold
explain_compared missing when_fail otherwise _ _ result = missing

unfoldable pub explain_latency :
    (observed threshold : Option Number) → PolicyEvaluationResult → Explanation
explain_latency = explain_compared no_latency latency_above latency_within

unfoldable pub explain_error_rate :
    (observed threshold : Option Number) → PolicyEvaluationResult → Explanation
explain_error_rate = explain_compared no_error_rate error_rate_above error_rate_within

unfoldable pub explain_recall :
    (observed threshold : Option Number) → PolicyEvaluationResult → Explanation
explain_recall = explain_compared no_recall recall_below recall_met

unfoldable pub explain_minimum_labeled_samples : Counts → PolicyEvaluationResult → Explanation
explain_minimum_labeled_samples counts result =
    if is_pass result then enough_labels counts else too_few_labels counts

unfoldable pub coverage_detail : Number → Option ℕ → CoverageDetail
coverage_detail observed none = bare_coverage
coverage_detail observed (some labeled) =
    if positive observed
    then labeled_of_total labeled (div (of_count labeled) observed)
    else labeled_only labeled

unfoldable pub explain_minimum_label_coverage :
    (observed threshold : Option Number) → PolicyEvaluationResult → Option ℕ → Explanation
explain_minimum_label_coverage (some observed) (some threshold) result labeled =
    let detail = coverage_detail observed labeled in
    if is_pass result
    then coverage_met detail observed threshold
    else coverage_short detail observed threshold
explain_minimum_label_coverage _ _ result labeled = no_coverage

unfoldable pub explain_minimum_positive_labels :
    Counts → PolicyEvaluationResult → Option ℕ → Explanation
explain_minimum_positive_labels counts result labeled =
    if is_pass result then enough_positives counts labeled else too_few_positives counts labeled

unfoldable pub explain_policy_check :
    PolicyName
    → (observed threshold : Option Number) → PolicyEvaluationResult
    → (canary_weight : Option ℕ) → (is_estimated : Bool) → (labeled_sample_count : Option ℕ)
    → Explanation
explain_policy_check minimum_requests observed threshold result weight is_estimated labeled =
    explain_minimum_requests (record { observed = observed; threshold = threshold }) result weight
      is_estimated
explain_policy_check latency_p95_increase observed threshold result weight is_estimated labeled =
    explain_latency observed threshold result
explain_policy_check max_error_rate observed threshold result weight is_estimated labeled =
    explain_error_rate observed threshold result
explain_policy_check minimum_labeled_samples observed threshold result weight is_estimated labeled =
    explain_minimum_labeled_samples (record { observed = observed; threshold = threshold }) result
explain_policy_check minimum_label_coverage observed threshold result weight is_estimated labeled =
    explain_minimum_label_coverage observed threshold result labeled
explain_policy_check minimum_positive_labels observed threshold result weight is_estimated labeled =
    explain_minimum_positive_labels (record { observed = observed; threshold = threshold }) result
      labeled
explain_policy_check minimum_recall observed threshold result weight is_estimated labeled =
    explain_recall observed threshold result
