-- ===== src/Service/Locking.antt =====
-- Optimistic locking: of two requests that loaded the same version of a deployment's row, at most
-- one writes.
use modelops_control_plane.Base.{
  ◌+◌, ◌≡◌, ◌≢◌, inl, inr, Option-cases, false, some, arith, Result, is_ok, Result-cases, >>=-eq-ok,
  ok, err,
}
use modelops_control_plane.Store.{Db, Deployment}
use modelops_control_plane.Service.Query.{find_row}
use modelops_control_plane.Service.Session.{
  ServiceError, Session, Engine, commit, write_row, concurrent_update,
}
use modelops_control_plane.Service.Rows.{find_row-write_row}
use modelops_control_plane.Service.Actions.{run_session}

-- What a change leaves alone before its commit.
pub record Keeps (s s' : Session) : Type 0 where
  pub same_id : s'.row.id ≡ s.row.id
  pub same_version : s'.row.version_id ≡ s.row.version_id
  pub same_key : s'.row.idempotency_key ≡ s.row.idempotency_key
  pub same_deployments : s'.db.deployments ≡ s.db.deployments

module _ (engine : Engine) where
  pub commit-ok :
      (s : Session) {s' : Session}
      → commit engine s ≡ ok s'
      → (stored : Deployment) × (find_row s.row.id s.db.deployments ≡ some stored)
        × (stored.version_id ≡ s.row.version_id)
        × (s'.row ≡ record (s.row) { version_id = s.row.version_id + 1 })
        × (s'.db ≡ record (s.db) { deployments = write_row s'.row s.db.deployments })
  unfolding commit
  commit-ok s {s'} h = elim (Option-cases (find_row s.row.id s.db.deployments)) [
    | inl e ↦ absurd (ground arith)
    | inr (stored, e) ↦
        let law = engine.update_matches_iff s.row.version_id stored.version_id in
        (stored, e, ground arith, ground arith, ground arith)
  ]

  -- A row that has moved on, or is gone, makes the commit fail.
  pub commit-stale :
      (s : Session) (stored : Deployment)
      → find_row s.row.id s.db.deployments ≡ some stored
      → stored.version_id ≢ s.row.version_id
      → commit engine s ≡ err (concurrent_update s.row.id)
  unfolding commit
  commit-stale s stored e moved =
      ground (arith, engine.update_matches_iff s.row.version_id stored.version_id)

  -- What a change that got through its commit has done.
  pub record Committed (change : Session → Result ServiceError Session) (db : Db) (d : Deployment)
      (s' : Session) : Type 0 where
    pub changed : Session
    pub stored : Deployment
    pub accepted : change (record { row = d; db = db }) ≡ ok changed
    pub keeps : Keeps (record { row = d; db = db }) changed
    pub found : find_row d.id db.deployments ≡ some stored
    pub current : stored.version_id ≡ d.version_id
    pub row_is : s'.row ≡ record changed.row { version_id = d.version_id + 1 }
    pub db_is : s'.db ≡ record changed.db { deployments = write_row s'.row db.deployments }
    pub found_after : find_row d.id s'.db.deployments ≡ some (s'.row)

  pub run_session-Committed :
      (change : Session → Result ServiceError Session) (db : Db) (d : Deployment)
      → ((s s' : Session) → change s ≡ ok s' → Keeps s s')
      → {s' : Session} → run_session engine change db d ≡ ok s'
      → Committed change db d s'
  unfolding run_session
  run_session-Committed change db d keeps {s'} h =
      let start : Session = record { row = d; db = db } in
      let (s₁, accepted, committed) = >>=-eq-ok (change start) (commit engine) h in
      let kept = keeps start s₁ accepted in
      let (stored, found, current, row_is, db_is) = commit-ok s₁ committed in
      record {
        changed = s₁;
        stored = stored;
        accepted = accepted;
        keeps = kept;
        found = ground arith;
        current = ground arith;
        row_is = ground arith;
        db_is = ground arith;
        found_after = ground (arith, find_row-write_row s'.row stored s₁.db.deployments);
      }

  -- On a row that has moved on, a change that keeps the id and the version does not get through.
  pub run_session-stale :
      (change : Session → Result ServiceError Session) (db : Db) (d stored : Deployment)
      → ((s s' : Session) → change s ≡ ok s' → Keeps s s')
      → find_row d.id db.deployments ≡ some stored
      → stored.version_id ≢ d.version_id
      → is_ok (run_session engine change db d) ≡ false
  unfolding run_session
  run_session-stale change db d stored keeps found moved =
      elim (Result-cases (change (record { row = d; db = db }))) [
        | inl (s₁, e) ↦
            let kept = keeps (record { row = d; db = db }) s₁ e in
            rw e (rw (commit-stale s₁ stored (ground arith) (ground arith)))
        | inr (x, e) ↦ rw e
      ]
