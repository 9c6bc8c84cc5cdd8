-- ===== src/Policy/Evidence.antt =====
-- What a verdict FAIL of the policy engine (backend/app/policy/engine.py) rests on.
use modelops_control_plane.Base.{
  ◌≤◌, ◌≡◌, ◌≢◌, ◌⊎◌, inl, inr, true, Option, none, some, arith, Bool-cases,
}
use modelops_control_plane.Number.{Number, less}
use modelops_control_plane.Store.{PolicyConfig, pass, fail}
use modelops_control_plane.Metrics.{MetricsSummary}
use modelops_control_plane.Policy.{
  check_latency, check_error_rate, coverage_result, recall_result, has_result, increase_percent,
  evaluate_minimum_requests, evaluate_latency, evaluate_reliability,
  evaluate_minimum_labeled_samples, evaluate_minimum_label_coverage,
  evaluate_minimum_positive_labels, evaluate_quality, evaluate_quality_policies, evaluate_policies,
  overall_result,
}
use modelops_control_plane.Policy.Verdict.{KnownAtLeast, percent, requests-pass, coverage-pass}

-- A value is known, and on the wrong side of a threshold.
abbrev pub KnownAbove : Option Number → Number → Type 0
KnownAbove none t = ⊥
KnownAbove (some v) t = less t v ≡ true

abbrev pub KnownBelow : Option Number → Number → Type 0
KnownBelow none t = ⊥
KnownBelow (some v) t = less v t ≡ true

abbrev pub LatencyAbove : Option Number → Option Number → Number → Type 0
LatencyAbove none c t = ⊥
LatencyAbove (some s) none t = ⊥
LatencyAbove (some s) (some c) t = less t (increase_percent s c) ≡ true

latency-fail :
    (stable canary : Option Number) (t : Number)
    → (check_latency stable canary t).result ≡ fail
    → LatencyAbove stable canary t
unfolding check_latency
latency-fail none canary t e = cc
latency-fail (some s) none t e = cc
latency-fail (some s) (some c) t e = ground arith

error_rate-fail :
    (rate : Option Number) (t : Number)
    → (check_error_rate rate t).result ≡ fail
    → KnownAbove (percent rate) t
unfolding check_error_rate
error_rate-fail none t e = cc
error_rate-fail (some r) t e = ground arith

recall-fail :
    (recall : Option Number) (t : Number) → recall_result recall t ≡ fail → KnownBelow recall t
recall-fail none t e = cc
recall-fail (some r) t e = ground arith

-- A quality window that has enough data for a verdict on recall.
pub record IsSufficient (quality : MetricsSummary) (config : PolicyConfig) : Type 0 where
  pub labeled : config.minimum_labeled_samples ≤ quality.labeled_sample_count
  pub covered : KnownAtLeast quality.label_coverage config.minimum_label_coverage
  pub positives : config.minimum_positive_labels ≤ quality.positive_label_count

coverage_never_fails : (coverage : Option Number) (t : Number) → coverage_result coverage t ≢ fail
coverage_never_fails none t = λ e. cc
coverage_never_fails (some r) t = λ e. ground arith

fail_cases :
    (stable canary quality : MetricsSummary) (config : PolicyConfig)
    → overall_result (evaluate_policies stable canary quality config) ≡ fail
    → ((evaluate_minimum_requests stable canary config.minimum_requests).result ≡ pass)
      × (((evaluate_latency stable canary config.latency).result ≡ fail)
          ⊎ (((evaluate_reliability canary config.reliability).result ≡ fail)
              ⊎ (((evaluate_minimum_labeled_samples quality config.minimum_labeled_samples).result
                    ≡ pass)
                  × ((evaluate_minimum_label_coverage quality config.minimum_label_coverage).result
                      ≡ pass)
                  × ((evaluate_minimum_positive_labels quality
                        config.minimum_positive_labels).result
                      ≡ pass)
                  × ((evaluate_quality quality config.quality).result ≡ fail))))
unfolding evaluate_policies evaluate_quality_policies overall_result evaluate_minimum_requests
    evaluate_minimum_labeled_samples evaluate_minimum_label_coverage
    evaluate_minimum_positive_labels
fail_cases stable canary quality config e =
    let coverage = coverage_never_fails quality.label_coverage config.minimum_label_coverage in
    (
      ground arith,
      elim (Bool-cases (has_result fail (evaluate_latency stable canary config.latency))) [
        | inl slow ↦ inl (ground arith)
        | inr fast ↦
            inr
              (elim (Bool-cases
                (has_result fail (evaluate_reliability canary config.reliability))) [
                  | inl errors ↦ inl (ground arith)
                  | inr reliable ↦ inr (ground arith, ground arith, ground arith, ground arith)
                ])
      ],
    )

-- The verdict is FAIL only on evidence: there was enough fresh traffic on both sides, and the
-- latency or the error rate is known and above its threshold, or the recall is known, rests on
-- enough data and is below its threshold. Missing data alone never makes a FAIL.
pub fail_needs_evidence :
    (stable canary quality : MetricsSummary) (config : PolicyConfig)
    → overall_result (evaluate_policies stable canary quality config) ≡ fail
    → (config.minimum_requests ≤ stable.sample_count)
      × (config.minimum_requests ≤ canary.sample_count)
      × (LatencyAbove stable.p95_latency_ms canary.p95_latency_ms
            config.latency.p95_max_increase_percent
          ⊎ (KnownAbove (percent canary.error_rate) config.reliability.max_error_rate_percent
              ⊎ (IsSufficient quality config
                  × KnownBelow quality.recall config.quality.minimum_recall)))
unfolding evaluate_latency evaluate_reliability evaluate_minimum_labeled_samples
    evaluate_minimum_label_coverage evaluate_minimum_positive_labels evaluate_quality
fail_needs_evidence stable canary quality config e =
    let (requests, cause) = fail_cases stable canary quality config e in
    let (a, b) = (requests-pass stable canary config.minimum_requests).0 requests in
    (
      a,
      b,
      elim cause [
        | inl slow ↦ inl (latency-fail stable.p95_latency_ms canary.p95_latency_ms _ slow)
        | inr (inl errors) ↦ inr (inl (error_rate-fail canary.error_rate _ errors))
        | inr (inr (l, c, p, r)) ↦ inr (
            inr (
              record {
                labeled = ground arith;
                covered = (coverage-pass quality.label_coverage _).0 c;
                positives = ground arith;
              },
              recall-fail quality.recall _ r,
            ))
      ],
    )
