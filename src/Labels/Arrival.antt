-- ===== src/Labels/Arrival.antt =====
-- A label that arrives before its metric, or after it.
use modelops_control_plane.Base.{ℕ, ◌≡◌, refl, List, arith}
use modelops_control_plane.Store.{Db, GroundTruthLabel}
use modelops_control_plane.Metrics.{MetricIn, record_metric, compute_version_summary}
use modelops_control_plane.Labels.{LabelTable, resolve_existing, ingest_label}

module _ (table : LabelTable) (received : ℕ) (seen : List GroundTruthLabel) where
  -- Which labels a report leaves depends on the labels only, and it leaves the metrics alone.
  ingest_label-measured :
      (db db' : Db) (id actual occurred_at : ℕ)
      → db.labels ≡ db'.labels
      → ((ingest_label table received seen db id actual occurred_at).1.labels
          ≡ (ingest_label table received seen db' id actual occurred_at).1.labels)
        × ((ingest_label table received seen db id actual occurred_at).1.metrics ≡ db.metrics)
  unfolding ingest_label resolve_existing
  ingest_label-measured db db' id actual occurred_at same = ground arith

  -- A metric and the report of a label, in whatever order they are recorded, with the same times of
  -- their own and the same first read of the report, give every version the same summary over every
  -- window.
  pub arrival_order :
      (recorded deployment : ℕ) (payload : MetricIn) (db : Db) (id actual occurred_at : ℕ)
      (of version window offset now : ℕ)
      → compute_version_summary
          (record_metric recorded deployment payload
            (ingest_label table received seen db id actual occurred_at).1).1
          of
          version
          window
          offset
          now
        ≡ compute_version_summary
            (ingest_label table received seen
              (record_metric recorded deployment payload db).1
              id
              actual
              occurred_at).1
            of
            version
            window
            offset
            now
  unfolding compute_version_summary record_metric
  arrival_order recorded deployment payload db id actual occurred_at of version window offset now =
      let after = (record_metric recorded deployment payload db).1 in
      let (labels, metrics) = ingest_label-measured db after id actual occurred_at refl in
      let (_, metrics') = ingest_label-measured after db id actual occurred_at refl in
      rw (metrics, metrics', labels) refl
