-- ===== src/Tests/Verdicts.antt =====
-- Verdicts of the policy engine, summaries of what a version has served, labels.
use modelops_control_plane.Base.{
  ℕ, ◌≤◌, ◌≡◌, ◌↔◌, ◌⊎◌, refl, arith, true, false, none, some, List, [], ◌∷◌, inl, inr, Bool,
  Option-cases,
}
use modelops_control_plane.Number.{Number, ratio}
use modelops_control_plane.Store.{
  Db, PolicyConfig, default_settings, to_policy_config, pass, fail, PredictionMetric,
  GroundTruthLabel,
}
use modelops_control_plane.Metrics.{
  MetricIn, record_metric, compute_version_summary, MetricsSummary, summarize, Whole, Row,
  find_label,
}
use modelops_control_plane.Metrics.Bounds.{AtMostOne, summarize-bounds}
use modelops_control_plane.Policy.{
  evaluate_policies, overall_result, evaluate_minimum_requests, evaluate_latency, check_latency,
}
use modelops_control_plane.Policy.Verdict.{IsHealthy, pass-IsHealthy, percent}
use modelops_control_plane.Policy.Evidence.{
  fail_needs_evidence, LatencyAbove, KnownAbove, KnownBelow, IsSufficient,
}
use modelops_control_plane.Labels.{LabelTable, LabelIn, ingest_label, ingest_labels_batch}
use modelops_control_plane.Labels.Arrival.{arrival_order}
use modelops_control_plane.Labels.FirstWrite.{first_write_wins}
use modelops_control_plane.Service.History.{empty_db}

abbrev config : PolicyConfig
config = to_policy_config default_settings

abbrev summary : (p95 errors recall : Number) → MetricsSummary
summary p95 errors recall = record {
  version = 2;
  sample_count = 200;
  p50_latency_ms = some (ratio 40 1);
  p95_latency_ms = some p95;
  p99_latency_ms = some p95;
  error_rate = some errors;
  precision = some recall;
  recall = some recall;
  false_positive_rate = none;
  labeled_sample_count = 150;
  label_coverage = some (ratio 150 200);
  positive_label_count = 60;
  label_delay_p50_seconds = none;
  label_delay_p95_seconds = none;
}

abbrev stable : MetricsSummary
stable = summary (ratio 50 1) (ratio 2 200) (ratio 55 60)

abbrev slow : MetricsSummary
slow = summary (ratio 90 1) (ratio 2 200) (ratio 55 60)

pass-IsHealthy_example :
    (overall_result (evaluate_policies stable stable stable config) ≡ pass)
    ↔ IsHealthy stable stable stable config
pass-IsHealthy_example = pass-IsHealthy stable stable stable config

slow_fails : overall_result (evaluate_policies stable slow slow config) ≡ fail
unfolding overall_result evaluate_policies evaluate_minimum_requests evaluate_latency check_latency
slow_fails = refl

fail_needs_evidence_example :
    (config.minimum_requests ≤ 200)
    × (config.minimum_requests ≤ 200)
    × (LatencyAbove (some (ratio 50 1)) (some (ratio 90 1)) config.latency.p95_max_increase_percent
        ⊎ (KnownAbove (percent (some (ratio 2 200))) config.reliability.max_error_rate_percent
            ⊎ (IsSufficient slow config
                × KnownBelow (some (ratio 55 60)) config.quality.minimum_recall)))
fail_needs_evidence_example = fail_needs_evidence stable slow slow config slow_fails

abbrev whole : ℕ → Whole
whole n = record { plus = n; minus = 0 }

abbrev metric : ℕ → PredictionMetric
metric id = record {
  deployment_id = 5;
  model_version = 2;
  latency_ms = 40;
  status_code = 200;
  prediction = some 1;
  prediction_id = some id;
  created_at = 1;
}

abbrev label : ℕ → ℕ → GroundTruthLabel
label id actual = record {
  prediction_id = id;
  actual_label = actual;
  occurred_at = 1;
  ingested_at = 2;
}

abbrev rows : List Row
rows = (metric 7, some (label 7 1)) ∷ (metric 8, some (label 8 0)) ∷ (metric 9, none) ∷ []

summarize-bounds_example :
    let s = summarize 2 rows in
    (s.labeled_sample_count ≤ s.sample_count)
    × (s.positive_label_count ≤ s.labeled_sample_count)
    × AtMostOne s.error_rate
    × AtMostOne s.precision
    × AtMostOne s.recall
    × AtMostOne s.false_positive_rate
    × AtMostOne s.label_coverage
summarize-bounds_example = summarize-bounds 2 rows

abbrev accepts : ℕ → List GroundTruthLabel → Bool
accepts id labels = elim (find_label labels id) [ none ↦ true | some l ↦ false ]

accepts_unique :
    (id : ℕ) (labels : List GroundTruthLabel)
    → (accepts id labels ≡ true) ↔ (find_label labels id ≡ none)
accepts_unique id labels = elim (Option-cases (find_label labels id)) [
  | inl e ↦ (λ h. e, λ h. ground arith)
  | inr (l, e) ↦ (λ h. absurd (ground arith), λ h. absurd (ground arith))
]

abbrev table : LabelTable
table = record { accepts = accepts; accepts_iff = accepts_unique }

abbrev labeled_db : Db
labeled_db = record empty_db { metrics = metric 7 ∷ []; labels = label 7 1 ∷ [] }

abbrev contradiction : List LabelIn
contradiction = record { prediction_id = 7; actual_label = 0; occurred_at = 3 } ∷ []

first_write_wins_example :
    find_label (ingest_labels_batch table 4 contradiction labeled_db).1.labels 7 ≡ some (label 7 1)
first_write_wins_example = first_write_wins table 4 contradiction labeled_db 7 (label 7 1) refl

abbrev payload : MetricIn
payload = record {
  model_version = 2;
  latency_ms = 40;
  status_code = 200;
  prediction = some 1;
  prediction_id = some 8;
}

arrival_order_example :
    compute_version_summary
      (record_metric 5 5 payload (ingest_label table 4 labeled_db.labels labeled_db 8 1 3).1).1
      5
      2
      300
      0
      9
    ≡ compute_version_summary
        (ingest_label table 4 labeled_db.labels (record_metric 5 5 payload labeled_db).1 8 1 3).1
        5
        2
        300
        0
        9
arrival_order_example =
    arrival_order table 4 labeled_db.labels 5 5 payload labeled_db 8 1 3 5 2 300 0 9
