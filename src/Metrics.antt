-- ===== src/Metrics.antt =====
-- The summaries of what a version has served: backend/app/control_plane/metrics_service.py, and
-- `MetricsSummary` of backend/app/control_plane/schemas.py.
mod Percentile
pub mod Bounds
pub mod Range
unfoldable pub use Percentile.*
use modelops_control_plane.Base.{
  Result, ok, err, any, ℕ, ◌+◌, Bool, true, false, ◌&&◌, not, Option, none, some, List, [], ◌∷◌,
  map, where_, count, length, ltb, leb, ◌==◌, if◌then◌else◌,
}
use modelops_control_plane.Number.{Number, ratio, sub}
use modelops_control_plane.Store.{Db, PredictionMetric, GroundTruthLabel}

pub record MetricsSummary : Type 0 where
  pub version : ℕ
  pub sample_count : ℕ
  pub p50_latency_ms : Option Number
  pub p95_latency_ms : Option Number
  pub p99_latency_ms : Option Number
  pub error_rate : Option Number
  pub precision : Option Number
  pub recall : Option Number
  pub false_positive_rate : Option Number
  pub labeled_sample_count : ℕ
  pub label_coverage : Option Number
  pub positive_label_count : ℕ
  pub label_delay_p50_seconds : Option Number
  pub label_delay_p95_seconds : Option Number

-- `MetricIn`, what the router posts.
pub record MetricIn : Type 0 where
  pub model_version : ℕ
  pub latency_ms : ℕ
  pub status_code : ℕ
  pub prediction : Option ℕ
  pub prediction_id : Option ℕ

pub data MetricError : Type 0 where
  prediction_id_taken : MetricError

abbrev pub names_prediction : ℕ → PredictionMetric → Bool
names_prediction id m = elim m.prediction_id [ none ↦ false | some other ↦ other == id ]

-- The constraint of the unique column `prediction_id`, which leaves rows without an id alone.
abbrev pub is_taken : Option ℕ → List PredictionMetric → Bool
is_taken none rows = false
is_taken (some id) rows = any (names_prediction id) rows

-- An id that another row has makes the commit fail, and the table stays as it is.
unfoldable pub record_metric :
    (now deployment_id : ℕ) → MetricIn → Db → Result MetricError (Unit {0}) × Db
record_metric now deployment_id payload db =
    let metric : PredictionMetric = record {
      deployment_id = deployment_id;
      model_version = payload.model_version;
      latency_ms = payload.latency_ms;
      status_code = payload.status_code;
      prediction = payload.prediction;
      prediction_id = payload.prediction_id;
      created_at = now;
    } in
    let taken = is_taken payload.prediction_id db.metrics in
    (
      (if taken then err prediction_id_taken else ok tt),
      record db { metrics = if taken then db.metrics else metric ∷ db.metrics },
    )

-- A row of the query: a metric, and the label that the outer join finds for it.
abbrev pub Row : Type 0
Row = PredictionMetric × Option GroundTruthLabel

abbrev pub find_label : List GroundTruthLabel → ℕ → Option GroundTruthLabel
find_label [] id = none
find_label (l ∷ ls) id = if l.prediction_id == id then some l else find_label ls id

abbrev pub joined : List GroundTruthLabel → PredictionMetric → Row
joined labels m = (m, elim m.prediction_id [ none ↦ none | some id ↦ find_label labels id ])

-- The window [now - offset - window, now - offset], both ends in it.
abbrev pub in_window : (deployment_id version window offset now : ℕ) → PredictionMetric → Bool
in_window deployment_id version window offset now m =
    (m.deployment_id == deployment_id)
    && ((m.model_version == version)
        && (leb now (m.created_at + offset + window) && leb (m.created_at + offset) now))

abbrev pub select_rows : Db → (deployment_id version window offset now : ℕ) → List Row
select_rows db deployment_id version window offset now =
    map (joined db.labels) (where_ (in_window deployment_id version window offset now) db.metrics)

abbrev pub is_error : Row → Bool
is_error r = let m = r.0 in leb 400 m.status_code

-- The rows with a label, as metric and label.
abbrev pub labeled_rows : List Row → List (PredictionMetric × GroundTruthLabel)
labeled_rows [] = []
labeled_rows ((m, none) ∷ rows) = labeled_rows rows
labeled_rows ((m, some l) ∷ rows) = (m, l) ∷ labeled_rows rows

-- The predictions with their labels; a row without a prediction is left out.
abbrev pub outcomes : List (PredictionMetric × GroundTruthLabel) → List (ℕ × ℕ)
outcomes [] = []
outcomes ((m, l) ∷ rows) =
    let rest = outcomes rows in
    elim m.prediction [ none ↦ rest | some p ↦ (p, l.actual_label) ∷ rest ]

-- How many outcomes have a prediction and a label.
abbrev pub tally : (predicted actual : ℕ) → List (ℕ × ℕ) → ℕ
tally predicted actual = count (λ o. (o.0 == predicted) && (o.1 == actual))

-- `a / b if b > 0 else None`
abbrev pub ratio_of : ℕ → ℕ → Option Number
ratio_of a b = if ltb 0 b then some (ratio a b) else none

abbrev pub latency_of : Row → Whole
latency_of r = let m = r.0 in record { plus = m.latency_ms; minus = 0 }

-- From the prediction to its label; negative where the label came first.
abbrev pub delay_of : PredictionMetric × GroundTruthLabel → Whole
delay_of (m, l) = record { plus = l.ingested_at; minus = m.created_at }

abbrev pub percentile_of_any : List Whole → ℕ → Option Number
percentile_of_any [] pct = none
percentile_of_any (x ∷ xs) pct = some (percentile (sorted (x ∷ xs)) pct)

-- The body of `compute_version_summary`, on the rows of its query.
unfoldable pub summarize : ℕ → List Row → MetricsSummary
summarize version rows =
    let labeled = labeled_rows rows in
    let pairs = outcomes labeled in
    let true_positives = tally 1 1 pairs in
    let false_positives = tally 1 0 pairs in
    let false_negatives = tally 0 1 pairs in
    let true_negatives = tally 0 0 pairs in
    let actual_positive = true_positives + false_negatives in
    record {
      version = version;
      sample_count = length rows;
      p50_latency_ms = percentile_of_any (map latency_of rows) 50;
      p95_latency_ms = percentile_of_any (map latency_of rows) 95;
      p99_latency_ms = percentile_of_any (map latency_of rows) 99;
      error_rate = ratio_of (count is_error rows) (length rows);
      precision = ratio_of true_positives (true_positives + false_positives);
      recall = ratio_of true_positives actual_positive;
      false_positive_rate = ratio_of false_positives (false_positives + true_negatives);
      labeled_sample_count = length labeled;
      label_coverage = ratio_of (length labeled) (length rows);
      positive_label_count = actual_positive;
      label_delay_p50_seconds = percentile_of_any (map delay_of labeled) 50;
      label_delay_p95_seconds = percentile_of_any (map delay_of labeled) 95;
    }

-- `compute_version_summary`; `offset` is `window_end_offset_seconds`.
unfoldable pub compute_version_summary :
    Db → (deployment_id version window offset now : ℕ) → MetricsSummary
compute_version_summary db deployment_id version window offset now =
    summarize version (select_rows db deployment_id version window offset now)

pub record MetricsDeltas : Type 0 where
  pub p95_latency_ms : Option Number
  pub error_rate : Option Number
  pub recall : Option Number

abbrev pub delta : Option Number → Option Number → Option Number
delta none b = none
delta (some a) none = none
delta (some a) (some b) = some (sub a b)

unfoldable pub compute_deltas : MetricsSummary → MetricsSummary → MetricsDeltas
compute_deltas stable canary = record {
  p95_latency_ms = delta canary.p95_latency_ms stable.p95_latency_ms;
  error_rate = delta canary.error_rate stable.error_rate;
  recall = delta canary.recall stable.recall;
}
