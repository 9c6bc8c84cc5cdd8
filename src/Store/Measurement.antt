-- ===== src/Store/Measurement.antt =====
-- The rows of what is measured: `PolicyEvaluation`, `PredictionMetric`, `GroundTruthLabel`.
use modelops_control_plane.Base.{ℕ, Option}
use modelops_control_plane.Number.{Number}

pub data PolicyEvaluationResult : Type 0 where
  pass fail inconclusive : PolicyEvaluationResult

pub data PolicyName : Type 0 where
  minimum_requests latency_p95_increase max_error_rate minimum_labeled_samples : PolicyName
  minimum_label_coverage minimum_positive_labels minimum_recall : PolicyName

pub data MetricName : Type 0 where
  sample_count p95_latency_increase_percent error_rate_percent labeled_sample_count : MetricName
  label_coverage positive_label_count recall : MetricName

pub record PolicyEvaluation : Type 0 where
  pub deployment_id : ℕ
  pub policy_name : PolicyName
  pub metric_name : MetricName
  pub observed_value : Option Number
  pub threshold : Option Number
  pub result : PolicyEvaluationResult
  pub evaluated_at : ℕ
  pub evaluation_window_seconds : Option ℕ
  pub stable_weight : Option ℕ
  pub canary_weight : Option ℕ
  pub stable_sample_count : Option ℕ
  pub canary_sample_count : Option ℕ
  pub label_maturity_seconds : Option ℕ
  pub quality_window_start : Option ℕ
  pub quality_window_end : Option ℕ
  pub labeled_sample_count : Option ℕ
  pub label_coverage : Option Number
  pub positive_label_count : Option ℕ

pub record PredictionMetric : Type 0 where
  pub deployment_id : ℕ
  pub model_version : ℕ
  pub latency_ms : ℕ
  pub status_code : ℕ
  pub prediction : Option ℕ
  pub prediction_id : Option ℕ
  pub created_at : ℕ

pub record GroundTruthLabel : Type 0 where
  pub prediction_id : ℕ
  pub actual_label : ℕ
  pub occurred_at : ℕ
  pub ingested_at : ℕ
