-- ===== src/Store/Config.antt =====
-- The thresholds of a policy: backend/app/policy/config.py.
use modelops_control_plane.Base.{ℕ}
use modelops_control_plane.Number.{Number, ratio}

pub record LatencyPolicy : Type 0 where
  pub p95_max_increase_percent : Number

pub record ReliabilityPolicy : Type 0 where
  pub max_error_rate_percent : Number

pub record QualityPolicy : Type 0 where
  pub minimum_recall : Number

pub record PolicyConfig : Type 0 where
  pub minimum_requests : ℕ
  pub evaluation_window_seconds : ℕ
  pub max_inconclusive_retries : ℕ
  pub label_maturity_seconds : ℕ
  pub minimum_labeled_samples : ℕ
  pub minimum_label_coverage : Number
  pub minimum_positive_labels : ℕ
  pub latency : LatencyPolicy
  pub reliability : ReliabilityPolicy
  pub quality : QualityPolicy

-- The environment's defaults, one field for each variable.
pub record PolicySettings : Type 0 where
  pub minimum_requests : ℕ
  pub evaluation_window_seconds : ℕ
  pub max_inconclusive_retries : ℕ
  pub label_maturity_seconds : ℕ
  pub minimum_labeled_samples : ℕ
  pub minimum_label_coverage : Number
  pub minimum_positive_labels : ℕ
  pub latency_p95_max_increase_percent : Number
  pub reliability_max_error_rate_percent : Number
  pub quality_minimum_recall : Number

abbrev pub default_settings : PolicySettings
default_settings = record {
  minimum_requests = 100;
  evaluation_window_seconds = 300;
  max_inconclusive_retries = 10;
  label_maturity_seconds = 60;
  minimum_labeled_samples = 30;
  minimum_label_coverage = ratio 5 10;
  minimum_positive_labels = 30;
  latency_p95_max_increase_percent = ratio 20 1;
  reliability_max_error_rate_percent = ratio 5 1;
  quality_minimum_recall = ratio 8 10;
}

abbrev pub to_policy_config : PolicySettings → PolicyConfig
to_policy_config s = record {
  minimum_requests = s.minimum_requests;
  evaluation_window_seconds = s.evaluation_window_seconds;
  max_inconclusive_retries = s.max_inconclusive_retries;
  label_maturity_seconds = s.label_maturity_seconds;
  minimum_labeled_samples = s.minimum_labeled_samples;
  minimum_label_coverage = s.minimum_label_coverage;
  minimum_positive_labels = s.minimum_positive_labels;
  latency = record { p95_max_increase_percent = s.latency_p95_max_increase_percent };
  reliability = record { max_error_rate_percent = s.reliability_max_error_rate_percent };
  quality = record { minimum_recall = s.quality_minimum_recall };
}
