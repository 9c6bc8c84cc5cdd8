-- ===== src/Policy/Service.antt =====
-- Running an evaluation and recording its checks: backend/app/policy/service.py, and the endpoint
-- `/evaluate` of backend/app/policy/api.py.
use modelops_control_plane.Base.{
  ℕ, ◌-◌, Bool, true, false, Option, none, some, List, [], ◌∷◌, Result, ok, err, if◌then◌else◌,
}
use modelops_control_plane.Status.{status_in}
use modelops_control_plane.Store.{
  Db, Deployment, PolicyConfig, PolicySettings, PolicyEvaluation, PolicyEvaluationResult,
  PolicyName,
}
use modelops_control_plane.Metrics.{MetricsSummary, compute_version_summary}
use modelops_control_plane.Policy.{PolicyCheckResult, evaluate_policies, overall_result}
use modelops_control_plane.Service.Query.{active_statuses, find_row, get_policy_config, weight_of}
use modelops_control_plane.Service.Session.{ServiceError, not_found, not_active}

-- `check.policy_name in _QUALITY_POLICY_NAMES`
abbrev pub is_quality : PolicyName → Bool
is_quality PolicyName.minimum_labeled_samples = true
is_quality PolicyName.minimum_label_coverage = true
is_quality PolicyName.minimum_positive_labels = true
is_quality PolicyName.minimum_recall = true
is_quality _ = false

abbrev pub weight_for : Deployment → ℕ → Option ℕ
weight_for d version = elim d.traffic_allocation [
  | none ↦ none
  | some a ↦ weight_of version a.targets
]

abbrev pub when {ℓ} : {A : Type ℓ} → Bool → A → Option A
when true a = some a
when false a = none

-- The context that every check of one evaluation is recorded with.
pub record Snapshot : Type 0 where
  pub deployment : Deployment
  pub config : PolicyConfig
  pub stable : MetricsSummary
  pub canary : MetricsSummary
  pub canary_quality : MetricsSummary
  pub now : ℕ

unfoldable pub snapshot : Db → Deployment → PolicyConfig → ℕ → Snapshot
snapshot db d config now = record {
  deployment = d;
  config = config;
  stable = compute_version_summary db d.id d.stable_version config.evaluation_window_seconds 0 now;
  canary = compute_version_summary db d.id d.canary_version config.evaluation_window_seconds 0 now;
  canary_quality =
      compute_version_summary db d.id d.canary_version config.evaluation_window_seconds
        config.label_maturity_seconds now;
  now = now;
}

abbrev pub checks_of : Snapshot → List PolicyCheckResult
checks_of s = evaluate_policies s.stable s.canary s.canary_quality s.config

unfoldable pub evaluation_row : Snapshot → PolicyCheckResult → PolicyEvaluation
evaluation_row s c =
    let quality = is_quality c.policy_name in
    let window_end = s.now - s.config.label_maturity_seconds in
    record {
      deployment_id = s.deployment.id;
      policy_name = c.policy_name;
      metric_name = c.metric_name;
      observed_value = c.observed_value;
      threshold = c.threshold;
      result = c.result;
      evaluated_at = s.now;
      evaluation_window_seconds = some (s.config.evaluation_window_seconds);
      stable_weight = weight_for s.deployment s.deployment.stable_version;
      canary_weight = weight_for s.deployment s.deployment.canary_version;
      stable_sample_count = some (s.stable.sample_count);
      canary_sample_count = some (s.canary.sample_count);
      label_maturity_seconds = when quality s.config.label_maturity_seconds;
      quality_window_start = when quality (window_end - s.config.evaluation_window_seconds);
      quality_window_end = when quality window_end;
      labeled_sample_count = when quality s.canary_quality.labeled_sample_count;
      label_coverage = if quality then s.canary_quality.label_coverage else none;
      positive_label_count = when quality s.canary_quality.positive_label_count;
    }

-- The rows in front of those that are there, the last check first.
unfoldable pub add_evaluations : Snapshot → List PolicyCheckResult → Db → Db
add_evaluations s [] db = db
add_evaluations s (c ∷ cs) db =
    add_evaluations s cs
      (record db { policy_evaluations = evaluation_row s c ∷ db.policy_evaluations })

unfoldable pub run_evaluation :
    Db → Deployment → PolicyConfig → ℕ → (List PolicyCheckResult × PolicyEvaluationResult) × Db
run_evaluation db d config now =
    let s = snapshot db d config now in
    let checks = checks_of s in ((checks, overall_result checks), add_evaluations s checks db)

-- `evaluate_deployment`: the deployment's own thresholds, unless the body of the call has others.
unfoldable pub evaluate_deployment :
    PolicySettings
    → Db
    → (deployment_id : ℕ) → Option PolicyConfig
    → ℕ
    → Result ServiceError (List PolicyCheckResult × PolicyEvaluationResult) × Db
evaluate_deployment settings db deployment_id body now =
    elim (find_row deployment_id db.deployments) [
      | none ↦ (err (not_found deployment_id), db)
      | some d ↦
          let effective : PolicyConfig = elim body [
            | some config ↦ config
            | none ↦ get_policy_config settings d
          ] in
          let ran = run_evaluation db d effective now in
          if status_in d.status active_statuses
          then (ok ran.0, ran.1)
          else (err (not_active d.id d.status), db)
    ]
