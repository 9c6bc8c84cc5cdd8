-- ===== src/Labels/FirstWrite.antt =====
-- The first label that is recorded for a prediction stays; later reports of it change nothing.
use modelops_control_plane.Base.{ℕ, ◌≡◌, true, some, List, [], ◌∷◌, arith, ok, is_ok}
use modelops_control_plane.Store.{Db, GroundTruthLabel}
use modelops_control_plane.Metrics.{find_label}
use modelops_control_plane.Labels.{
  LabelTable, no_op, LabelIn, resolve_existing, ingest_label, ingest_labels_batch,
}

resolve_existing-labels :
    (now : ℕ) (db : Db) (existing : GroundTruthLabel) (id actual : ℕ)
    → (resolve_existing now db existing id actual).1.labels ≡ db.labels
unfolding resolve_existing
resolve_existing-labels now db existing id actual = ground arith

module _ (table : LabelTable) (now : ℕ) where
  -- A label that is in the table is neither changed nor removed by any report.
  ingest_label-keeps :
      (seen : List GroundTruthLabel) (db : Db) (id actual occurred_at other : ℕ)
      (l : GroundTruthLabel)
      → find_label db.labels other ≡ some l
      → find_label (ingest_label table now seen db id actual occurred_at).1.labels other ≡ some l
  unfolding ingest_label resolve_existing
  ingest_label-keeps seen db id actual occurred_at other l found =
      let can = table.accepts_iff id db.labels in ground arith

  -- After any batch of reports, conflicting ones included, the label that is found for a
  -- prediction is the one that was found before it, where there was one.
  pub first_write_wins :
      (batch : List LabelIn) (db : Db) (other : ℕ) (l : GroundTruthLabel)
      → find_label db.labels other ≡ some l
      → find_label (ingest_labels_batch table now batch db).1.labels other ≡ some l
  unfolding ingest_labels_batch
  first_write_wins [] db other l found = found
  first_write_wins (x ∷ xs) db other l found =
      first_write_wins xs _ other l
        (ingest_label-keeps db.labels db x.prediction_id x.actual_label x.occurred_at other l found)

  -- Where a report succeeds, and its first read saw for its prediction what the table has when it
  -- writes, the same report made again with whatever time of occurrence is a no-op that changes
  -- nothing.
  pub ingest_twice :
      (seen : List GroundTruthLabel) (db : Db) (id actual occurred_at later : ℕ)
      → (find_label seen id ≡ find_label db.labels id)
      → is_ok (ingest_label table now seen db id actual occurred_at).0 ≡ true
      → let db' = (ingest_label table now seen db id actual occurred_at).1 in
        ingest_label table now db'.labels db' id actual later ≡ (ok no_op, db')
  unfolding ingest_label resolve_existing
  ingest_twice seen db id actual occurred_at later same done =
      let can = table.accepts_iff id db.labels in ground arith
