-- ===== src/Labels.antt =====
-- Ground-truth labels: backend/app/control_plane/label_service.py and the endpoints of
-- backend/app/control_plane/labels_api.py.
pub mod FirstWrite
pub mod Arrival
use modelops_control_plane.Base.{
  ℕ, ◌≡◌, ◌↔◌, Bool, true, false, Option, none, some, List, [], ◌∷◌, ◌==◌, if◌then◌else◌, Result,
  ok, err,
}
use modelops_control_plane.Store.{
  Db, PredictionMetric, GroundTruthLabel, DeploymentEvent, label_conflict,
}
use modelops_control_plane.Metrics.{find_label}

pub data LabelIngestOutcome : Type 0 where
  applied no_op pending : LabelIngestOutcome

-- `LabelConflictError`, with the prediction, both labels and the deployment if it is known; or the
-- error of the INSERT, raised again.
pub data LabelError : Type 0 where
  label_conflict_error : (prediction_id existing_label new_label : ℕ) → Option ℕ → LabelError
  integrity_error : LabelError

-- What an INSERT of a label answers: `prediction_id` is unique in the table.
pub record LabelTable : Type 0 where
  pub accepts : ℕ → List GroundTruthLabel → Bool
  pub accepts_iff :
      (id : ℕ) (labels : List GroundTruthLabel)
      → (accepts id labels ≡ true) ↔ (find_label labels id ≡ none)

abbrev pub has_prediction : ℕ → PredictionMetric → Bool
has_prediction id m = elim m.prediction_id [ none ↦ false | some p ↦ p == id ]

-- `_find_metric`
abbrev pub find_metric : List PredictionMetric → ℕ → Option PredictionMetric
find_metric [] id = none
find_metric (m ∷ ms) id = if has_prediction id m then some m else find_metric ms id

-- `_resolve_existing`
unfoldable pub resolve_existing :
    (now : ℕ)
    → Db
    → GroundTruthLabel
    → (prediction_id actual_label : ℕ) → Result LabelError LabelIngestOutcome × Db
resolve_existing now db existing id actual =
    let conflict = label_conflict_error id existing.actual_label actual in
    if existing.actual_label == actual then (ok no_op, db) else elim (find_metric db.metrics id) [
      | none ↦ (err (conflict none), db)
      | some m ↦
          let event : DeploymentEvent = record {
            deployment_id = m.deployment_id;
            body = label_conflict id existing.actual_label actual;
            created_at = now;
          } in
          (err (conflict (some (m.deployment_id))), record db { events = event ∷ db.events })
    ]

abbrev pub new_label : (now prediction_id actual_label occurred_at : ℕ) → GroundTruthLabel
new_label now id actual occurred_at = record {
  prediction_id = id;
  actual_label = actual;
  occurred_at = occurred_at;
  ingested_at = now;
}

module _ (table : LabelTable) where
  -- `ingest_label`: `seen` is what its first query saw, `db` the tables when it writes.
  unfoldable pub ingest_label :
      (now : ℕ) (seen : List GroundTruthLabel)
      → Db
      → (prediction_id actual_label occurred_at : ℕ) → Result LabelError LabelIngestOutcome × Db
  ingest_label now seen db id actual occurred_at =
      let outcome : LabelIngestOutcome = elim (find_metric db.metrics id) [
        | none ↦ pending
        | some m ↦ applied
      ] in
      let written = record db { labels = new_label now id actual occurred_at ∷ db.labels } in
      elim (find_label seen id) [
        | some existing ↦ resolve_existing now db existing id actual
        | none ↦
            if table.accepts id db.labels
            then (ok outcome, written)
            else elim (find_label db.labels id) [
              | none ↦ (err integrity_error, db)
              | some existing ↦ resolve_existing now db existing id actual
            ]
      ]

abbrev pub status_of : Result LabelError LabelIngestOutcome → ℕ
status_of (ok applied) = 201
status_of (ok no_op) = 200
status_of (ok pending) = 202
status_of (err (label_conflict_error id existing new deployment)) = 409
status_of (err integrity_error) = 500

pub record LabelIn : Type 0 where
  pub prediction_id : ℕ
  pub actual_label : ℕ
  pub occurred_at : ℕ

module _ (table : LabelTable) where
  -- `ingest_labels_batch`: each item on its own, a conflict stops nothing.
  unfoldable pub ingest_labels_batch :
      (now : ℕ) → List LabelIn → Db → List (Result LabelError LabelIngestOutcome) × Db
  ingest_labels_batch now [] db = ([], db)
  ingest_labels_batch now (l ∷ ls) db =
      let (r, db₁) =
        ingest_label table now db.labels db l.prediction_id l.actual_label l.occurred_at in
      let (rs, db₂) = ingest_labels_batch now ls db₁ in (r ∷ rs, db₂)
