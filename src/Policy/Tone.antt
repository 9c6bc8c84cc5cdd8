-- ===== src/Policy/Tone.antt =====
-- The explanation of a check and its result: what backend/app/policy/explain.py says of the checks
-- that backend/app/policy/engine.py makes.
use modelops_control_plane.Base.{
  ℕ, ◌≡◌, refl, Bool, Option, none, some, [], ◌∷◌, ◌++◌, All, All-if, arith, any, not,
}
use modelops_control_plane.Number.{Number}
use modelops_control_plane.Store.{PolicyConfig, PolicyEvaluationResult, pass, fail, PolicyName}
use modelops_control_plane.Metrics.{MetricsSummary}
use modelops_control_plane.Policy.{
  PolicyCheckResult, check_latency, check_error_rate, inconclusive, has_result,
  evaluate_minimum_requests, evaluate_latency, evaluate_reliability,
  evaluate_minimum_labeled_samples, evaluate_minimum_label_coverage,
  evaluate_minimum_positive_labels, evaluate_quality, evaluate_quality_policies, evaluate_policies,
}
use modelops_control_plane.Policy.Explain.{
  Explanation, enough_traffic, latency_above, latency_within, error_rate_above, error_rate_within,
  enough_labels, coverage_met, enough_positives, recall_below, recall_met, explain_policy_check,
  explain_minimum_requests, explain_latency, explain_error_rate, explain_recall,
  explain_minimum_labeled_samples, explain_minimum_label_coverage, explain_minimum_positive_labels,
}

-- The result that a sentence tells: that a limit is kept, that it is broken, or that the data are
-- not enough.
abbrev pub tone : Explanation → PolicyEvaluationResult
tone (enough_traffic c) = pass
tone (latency_within o t) = pass
tone (error_rate_within o t) = pass
tone (enough_labels c) = pass
tone (coverage_met d o t) = pass
tone (enough_positives c l) = pass
tone (recall_met o t) = pass
tone (latency_above o t) = fail
tone (error_rate_above o t) = fail
tone (recall_below o t) = fail
tone _ = inconclusive

-- Whatever weight and count of labels a check is explained with, the sentence tells its result.
abbrev pub TellsResult :
    PolicyName → (observed threshold : Option Number) → PolicyEvaluationResult → Type 0
TellsResult name observed threshold result =
    (weight : Option ℕ) (is_estimated : Bool) (labeled : Option ℕ)
    → tone (explain_policy_check name observed threshold result weight is_estimated labeled)
      ≡ result

abbrev pub IsTold : PolicyCheckResult → Type 0
IsTold c = TellsResult c.policy_name c.observed_value c.threshold c.result

latency-IsTold : (s c : Option Number) (t : Number) → IsTold (check_latency s c t)
unfolding check_latency explain_policy_check explain_latency
latency-IsTold none c t weight e l = refl
latency-IsTold (some s) none t weight e l = refl
latency-IsTold (some s) (some c) t weight e l = ground arith

error_rate-IsTold : (rate : Option Number) (t : Number) → IsTold (check_error_rate rate t)
unfolding check_error_rate explain_policy_check explain_error_rate
error_rate-IsTold none t weight e l = refl
error_rate-IsTold (some r) t weight e l = ground arith

requests-IsTold :
    (stable canary : MetricsSummary) (minimum : ℕ)
    → IsTold (evaluate_minimum_requests stable canary minimum)
unfolding evaluate_minimum_requests explain_policy_check explain_minimum_requests
requests-IsTold stable canary minimum weight e l = ground arith

module _ (quality : MetricsSummary) (config : PolicyConfig) where
  labeled_samples-IsTold : (minimum : ℕ) → IsTold (evaluate_minimum_labeled_samples quality minimum)
  unfolding evaluate_minimum_labeled_samples explain_policy_check explain_minimum_labeled_samples
  labeled_samples-IsTold minimum weight e l = ground arith

  coverage-IsTold : (minimum : Number) → IsTold (evaluate_minimum_label_coverage quality minimum)
  unfolding evaluate_minimum_label_coverage explain_policy_check explain_minimum_label_coverage
  coverage-IsTold minimum weight e l = ground arith

  positives-IsTold : (minimum : ℕ) → IsTold (evaluate_minimum_positive_labels quality minimum)
  unfolding evaluate_minimum_positive_labels explain_policy_check explain_minimum_positive_labels
  positives-IsTold minimum weight e l = ground arith

  recall-IsTold : IsTold (evaluate_quality quality config.quality)
  unfolding evaluate_quality explain_policy_check explain_recall
  recall-IsTold weight e l = ground arith

  quality_policies-IsTold : All IsTold (evaluate_quality_policies quality config)
  unfolding evaluate_quality_policies
  quality_policies-IsTold =
      let samples = labeled_samples-IsTold config.minimum_labeled_samples in
      let coverage = coverage-IsTold config.minimum_label_coverage in
      let positives = positives-IsTold config.minimum_positive_labels in
      let gate =
        evaluate_minimum_labeled_samples quality config.minimum_labeled_samples
        ∷ evaluate_minimum_label_coverage quality config.minimum_label_coverage
        ∷ evaluate_minimum_positive_labels quality config.minimum_positive_labels
        ∷ [] in
      All-if IsTold (any (λ c. not (has_result pass c)) gate) gate
        (gate ++ (evaluate_quality quality config.quality ∷ []))
        (samples, (coverage, (positives, tt)))
        (samples, (coverage, (positives, (recall-IsTold, tt))))

-- Each check of an evaluation is explained by a sentence that tells its result: one that says a limit
-- is kept where it passes, is broken where it fails, and that data are missing where it is
-- inconclusive, whichever traffic weight and number of labels go into the sentence.
pub evaluate_policies-IsTold :
    (stable canary quality : MetricsSummary) (config : PolicyConfig)
    → All IsTold (evaluate_policies stable canary quality config)
unfolding evaluate_policies evaluate_latency evaluate_reliability
evaluate_policies-IsTold stable canary quality config =
    let requests = evaluate_minimum_requests stable canary config.minimum_requests in
    let told = requests-IsTold stable canary config.minimum_requests in
    All-if IsTold (not (has_result pass requests)) (requests ∷ []) _ (told, tt)
      (
        told,
        (
          latency-IsTold stable.p95_latency_ms canary.p95_latency_ms
              config.latency.p95_max_increase_percent,
          (
            error_rate-IsTold canary.error_rate config.reliability.max_error_rate_percent,
            quality_policies-IsTold quality config,
          ),
        ),
      )
