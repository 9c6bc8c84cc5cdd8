-- ===== src/Policy/Verdict.antt =====
-- What a verdict of the policy engine (backend/app/policy/engine.py) means: what must hold for PASS.
use modelops_control_plane.Base.{
  ℕ, ◌≤◌, ◌≡◌, ◌↔◌, inl, inr, refl, true, false, Option, none, some, List, [], ◌∷◌, All, Any, arith,
  leb-true, Bool-cases,
}
use modelops_control_plane.Number.{Number, less, positive, scale}
use modelops_control_plane.Store.{PolicyConfig, PolicyEvaluationResult, pass, fail}
use modelops_control_plane.Metrics.{MetricsSummary}
use modelops_control_plane.Policy.{
  PolicyCheckResult, check_latency, check_error_rate, coverage_result, recall_result, inconclusive,
  has_result, increase_percent, evaluate_minimum_requests, evaluate_latency, evaluate_reliability,
  evaluate_minimum_labeled_samples, evaluate_minimum_label_coverage,
  evaluate_minimum_positive_labels, evaluate_quality, evaluate_quality_policies, evaluate_policies,
  overall_result,
}

-- A value is known and at most, or at least, a threshold.
abbrev pub KnownAtMost : Option Number → Number → Type 0
KnownAtMost none t = ⊥
KnownAtMost (some v) t = less t v ≡ false

abbrev pub KnownAtLeast : Option Number → Number → Type 0
KnownAtLeast none t = ⊥
KnownAtLeast (some v) t = less v t ≡ false

-- The canary's p95 latency is known, the stable side's is known and not 0, and the increase is at
-- most the threshold.
abbrev pub LatencyWithin : Option Number → Option Number → Number → Type 0
LatencyWithin none c t = ⊥
LatencyWithin (some s) none t = ⊥
LatencyWithin (some s) (some c) t = (positive s ≡ true) × (less t (increase_percent s c) ≡ false)

abbrev pub percent : Option Number → Option Number
percent none = none
percent (some v) = some (scale 100 v)

-- A canary that deserves promotion, by the thresholds of a policy: there is enough fresh traffic on
-- both sides, it is fast and reliable enough, enough of its older traffic is labeled, enough labels
-- are positive, and its recall is high enough.
pub record IsHealthy (stable canary quality : MetricsSummary) (config : PolicyConfig) : Type 0 where
  pub enough_stable : config.minimum_requests ≤ stable.sample_count
  pub enough_canary : config.minimum_requests ≤ canary.sample_count
  pub fast :
      LatencyWithin stable.p95_latency_ms canary.p95_latency_ms
        config.latency.p95_max_increase_percent
  pub reliable : KnownAtMost (percent canary.error_rate) config.reliability.max_error_rate_percent
  pub labeled : config.minimum_labeled_samples ≤ quality.labeled_sample_count
  pub covered : KnownAtLeast quality.label_coverage config.minimum_label_coverage
  pub positives : config.minimum_positive_labels ≤ quality.positive_label_count
  pub accurate : KnownAtLeast quality.recall config.quality.minimum_recall

-- FAIL beats INCONCLUSIVE beats PASS.
abbrev pub worst : PolicyEvaluationResult → PolicyEvaluationResult → PolicyEvaluationResult
worst fail r = fail
worst PolicyEvaluationResult.inconclusive fail = fail
worst PolicyEvaluationResult.inconclusive _ = inconclusive
worst pass r = r

overall_result-cons :
    (c : PolicyCheckResult) (cs : List PolicyCheckResult)
    → overall_result (c ∷ cs) ≡ worst c.result (overall_result cs)
unfolding overall_result
overall_result-cons c cs = ground arith

-- A list of checks passes exactly where each of them passes.
pub overall_result-pass :
    (checks : List PolicyCheckResult)
    → (overall_result checks ≡ pass) ↔ All (λ c. c.result ≡ pass) checks
overall_result-pass [] = (λ e. tt, λ h. unfold overall_result in refl)
overall_result-pass (c ∷ cs) =
    let rest = overall_result-pass cs in
    let step = overall_result-cons c cs in
    (
      λ e. (ground arith, rest.0 (ground arith)),
      λ h. let all = rest.1 h.1 in let first = h.0 in ground arith,
    )

-- A list of checks fails exactly where one of them fails, whatever the others say.
pub overall_result-fail :
    (checks : List PolicyCheckResult)
    → (overall_result checks ≡ fail) ↔ Any (λ c. c.result ≡ fail) checks
overall_result-fail [] = (λ e. unfold overall_result in cc, λ h. absurd h)
overall_result-fail (c ∷ cs) =
    let rest = overall_result-fail cs in
    let step = overall_result-cons c cs in
    (
      λ e. elim (Bool-cases (has_result fail c)) [
        | inl here ↦ inl (ground arith)
        | inr there ↦ inr (rest.0 (ground arith))
      ],
      λ h. elim h [ inl here ↦ ground arith | inr there ↦ let tail = rest.1 there in ground arith ],
    )

pub requests-pass :
    (stable canary : MetricsSummary) (n : ℕ)
    → ((evaluate_minimum_requests stable canary n).result ≡ pass)
      ↔ ((n ≤ stable.sample_count) × (n ≤ canary.sample_count))
unfolding evaluate_minimum_requests
requests-pass stable canary n = ground arith

latency-pass :
    (stable canary : Option Number) (t : Number)
    → ((check_latency stable canary t).result ≡ pass) ↔ LatencyWithin stable canary t
unfolding check_latency
latency-pass none canary t = (λ e. cc, λ h. absurd h)
latency-pass (some s) none t = (λ e. cc, λ h. absurd h)
latency-pass (some s) (some c) t = (λ e. (ground arith, ground arith), λ h. ground arith)

error_rate-pass :
    (rate : Option Number) (t : Number)
    → ((check_error_rate rate t).result ≡ pass) ↔ KnownAtMost (percent rate) t
unfolding check_error_rate
error_rate-pass none t = (λ e. cc, λ h. absurd h)
error_rate-pass (some r) t = (λ e. ground arith, λ h. ground arith)

pub coverage-pass :
    (coverage : Option Number) (t : Number)
    → (coverage_result coverage t ≡ pass) ↔ KnownAtLeast coverage t
coverage-pass none t = (λ e. cc, λ h. absurd h)
coverage-pass (some r) t = (λ e. ground arith, λ h. ground arith)

recall-pass :
    (recall : Option Number) (t : Number) → (recall_result recall t ≡ pass) ↔ KnownAtLeast recall t
recall-pass none t = (λ e. cc, λ h. absurd h)
recall-pass (some r) t = (λ e. ground arith, λ h. ground arith)

-- The checks of an evaluation all pass exactly where each of the seven does.
seven-pass :
    (stable canary quality : MetricsSummary) (config : PolicyConfig)
    → (overall_result (evaluate_policies stable canary quality config) ≡ pass) ↔ (
        ((evaluate_minimum_requests stable canary config.minimum_requests).result ≡ pass)
        × ((evaluate_latency stable canary config.latency).result ≡ pass)
        × ((evaluate_reliability canary config.reliability).result ≡ pass)
        × ((evaluate_minimum_labeled_samples quality config.minimum_labeled_samples).result ≡ pass)
        × ((evaluate_minimum_label_coverage quality config.minimum_label_coverage).result ≡ pass)
        × ((evaluate_minimum_positive_labels quality config.minimum_positive_labels).result ≡ pass)
        × ((evaluate_quality quality config.quality).result ≡ pass))
unfolding evaluate_policies evaluate_quality_policies overall_result
seven-pass stable canary quality config = ground arith

-- The verdict is PASS exactly for a healthy canary.
pub pass-IsHealthy :
    (stable canary quality : MetricsSummary) (config : PolicyConfig)
    → (overall_result (evaluate_policies stable canary quality config) ≡ pass)
      ↔ IsHealthy stable canary quality config
unfolding evaluate_latency evaluate_reliability evaluate_minimum_labeled_samples
    evaluate_minimum_label_coverage evaluate_minimum_positive_labels evaluate_quality
pass-IsHealthy stable canary quality config =
    let seven = seven-pass stable canary quality config in
    let requests = requests-pass stable canary config.minimum_requests in
    let latency =
      latency-pass stable.p95_latency_ms canary.p95_latency_ms
        config.latency.p95_max_increase_percent in
    let errors = error_rate-pass canary.error_rate config.reliability.max_error_rate_percent in
    let coverage = coverage-pass quality.label_coverage config.minimum_label_coverage in
    let recall = recall-pass quality.recall config.quality.minimum_recall in
    (
      λ e.
          let (a, b, c, d, f, g, h) = seven.0 e in
          record {
            enough_stable = (requests.0 a).0;
            enough_canary = (requests.0 a).1;
            fast = latency.0 b;
            reliable = errors.0 c;
            labeled = ground arith;
            covered = coverage.0 f;
            positives = ground arith;
            accurate = recall.0 h;
          },
      λ p. seven.1 (
        requests.1 (p.enough_stable, p.enough_canary),
        latency.1 p.fast,
        errors.1 p.reliable,
        rw (leb-true config.minimum_labeled_samples quality.labeled_sample_count p.labeled),
        coverage.1 p.covered,
        rw (leb-true config.minimum_positive_labels quality.positive_label_count p.positives),
        recall.1 p.accurate,
      ),
    )
