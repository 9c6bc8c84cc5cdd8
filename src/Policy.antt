-- ===== src/Policy.antt =====
-- The policy engine: backend/app/policy/engine.py.
pub mod Service
pub mod Verdict
pub mod Evidence
pub mod Explain
pub mod Tone
use modelops_control_plane.Base.{
  ℕ, Bool, true, false, ◌||◌, not, min, Option, none, some, List, [], ◌∷◌, ◌++◌, any, ltb, leb,
  if◌then◌else◌,
}
use modelops_control_plane.Number.{Number, of_count, less, positive, sub, div, scale}
use modelops_control_plane.Store.{
  PolicyConfig, LatencyPolicy, ReliabilityPolicy, QualityPolicy, PolicyEvaluationResult, pass, fail,
  PolicyName, MetricName,
}
use modelops_control_plane.Metrics.{MetricsSummary}

pub record PolicyCheckResult : Type 0 where
  pub policy_name : PolicyName
  pub metric_name : MetricName
  pub observed_value : Option Number
  pub threshold : Option Number
  pub result : PolicyEvaluationResult

abbrev pub check :
    PolicyName → MetricName → Option Number → Number → PolicyEvaluationResult → PolicyCheckResult
check policy metric observed threshold result = record {
  policy_name = policy;
  metric_name = metric;
  observed_value = observed;
  threshold = some threshold;
  result = result;
}

abbrev pub inconclusive : PolicyEvaluationResult
inconclusive = PolicyEvaluationResult.inconclusive

unfoldable pub evaluate_minimum_requests : MetricsSummary → MetricsSummary → ℕ → PolicyCheckResult
evaluate_minimum_requests stable canary minimum_requests =
    let observed = min stable.sample_count canary.sample_count in
    check PolicyName.minimum_requests MetricName.sample_count (some (of_count observed))
      (of_count minimum_requests) (if leb minimum_requests observed then pass else inconclusive)

-- (canary - stable) / stable * 100
abbrev pub increase_percent : (stable canary : Number) → Number
increase_percent stable canary = scale 100 (div (sub canary stable) stable)

abbrev pub latency_check : Option Number → Number → PolicyEvaluationResult → PolicyCheckResult
latency_check = check PolicyName.latency_p95_increase MetricName.p95_latency_increase_percent

-- `not stable.p95_latency_ms or canary.p95_latency_ms is None`: a latency of 0 fails it too.
unfoldable pub check_latency : (stable canary : Option Number) → Number → PolicyCheckResult
check_latency none canary threshold = latency_check none threshold inconclusive
check_latency (some s) none threshold = latency_check none threshold inconclusive
check_latency (some s) (some c) threshold =
    let increase = increase_percent s c in
    if positive s
    then latency_check (some increase) threshold (if less threshold increase then fail else pass)
    else latency_check none threshold inconclusive

unfoldable pub evaluate_latency :
    MetricsSummary → MetricsSummary → LatencyPolicy → PolicyCheckResult
evaluate_latency stable canary policy =
    check_latency stable.p95_latency_ms canary.p95_latency_ms policy.p95_max_increase_percent

unfoldable pub check_error_rate : Option Number → Number → PolicyCheckResult
check_error_rate none threshold =
    check PolicyName.max_error_rate MetricName.error_rate_percent none threshold inconclusive
check_error_rate (some rate) threshold =
    check PolicyName.max_error_rate MetricName.error_rate_percent (some (scale 100 rate)) threshold
      (if less threshold (scale 100 rate) then fail else pass)

unfoldable pub evaluate_reliability : MetricsSummary → ReliabilityPolicy → PolicyCheckResult
evaluate_reliability canary policy =
    check_error_rate canary.error_rate policy.max_error_rate_percent

unfoldable pub evaluate_minimum_labeled_samples : MetricsSummary → ℕ → PolicyCheckResult
evaluate_minimum_labeled_samples quality minimum =
    check PolicyName.minimum_labeled_samples MetricName.labeled_sample_count
      (some (of_count quality.labeled_sample_count)) (of_count minimum)
      (if leb minimum quality.labeled_sample_count then pass else inconclusive)

abbrev pub coverage_result : Option Number → Number → PolicyEvaluationResult
coverage_result none minimum = inconclusive
coverage_result (some coverage) minimum = if less coverage minimum then inconclusive else pass

unfoldable pub evaluate_minimum_label_coverage : MetricsSummary → Number → PolicyCheckResult
evaluate_minimum_label_coverage quality minimum =
    check PolicyName.minimum_label_coverage MetricName.label_coverage quality.label_coverage minimum
      (coverage_result quality.label_coverage minimum)

unfoldable pub evaluate_minimum_positive_labels : MetricsSummary → ℕ → PolicyCheckResult
evaluate_minimum_positive_labels quality minimum =
    check PolicyName.minimum_positive_labels MetricName.positive_label_count
      (some (of_count quality.positive_label_count)) (of_count minimum)
      (if leb minimum quality.positive_label_count then pass else inconclusive)

abbrev pub recall_result : Option Number → Number → PolicyEvaluationResult
recall_result none minimum = inconclusive
recall_result (some recall) minimum = if less recall minimum then fail else pass

unfoldable pub evaluate_quality : MetricsSummary → QualityPolicy → PolicyCheckResult
evaluate_quality quality policy =
    check PolicyName.minimum_recall MetricName.recall quality.recall policy.minimum_recall
      (recall_result quality.recall policy.minimum_recall)

abbrev pub result_eq : PolicyEvaluationResult → PolicyEvaluationResult → Bool
result_eq pass pass = true
result_eq fail fail = true
result_eq PolicyEvaluationResult.inconclusive PolicyEvaluationResult.inconclusive = true
result_eq _ _ = false

abbrev pub has_result : PolicyEvaluationResult → PolicyCheckResult → Bool
has_result r c = result_eq c.result r

unfoldable pub evaluate_quality_policies : MetricsSummary → PolicyConfig → List PolicyCheckResult
evaluate_quality_policies quality config =
    let gate =
      evaluate_minimum_labeled_samples quality config.minimum_labeled_samples
      ∷ evaluate_minimum_label_coverage quality config.minimum_label_coverage
      ∷ evaluate_minimum_positive_labels quality config.minimum_positive_labels
      ∷ [] in
    if any (λ c. not (has_result pass c)) gate
    then gate
    else gate ++ (evaluate_quality quality config.quality ∷ [])

unfoldable pub evaluate_policies :
    (stable canary quality : MetricsSummary) → PolicyConfig → List PolicyCheckResult
evaluate_policies stable canary quality config =
    let requests = evaluate_minimum_requests stable canary config.minimum_requests in
    if not (has_result pass requests)
    then requests ∷ []
    else requests
      ∷ evaluate_latency stable canary config.latency
      ∷ evaluate_reliability canary config.reliability
      ∷ evaluate_quality_policies quality config

unfoldable pub overall_result : List PolicyCheckResult → PolicyEvaluationResult
overall_result checks =
    if any (has_result fail) checks
    then fail
    else if any (has_result inconclusive) checks
    then inconclusive
    else pass
