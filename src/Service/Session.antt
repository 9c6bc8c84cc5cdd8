-- ===== src/Service/Session.antt =====
-- One transaction of the service: the row that the request has loaded, and the tables with what the
-- transaction has added. The commit is the database's: an interface with the two answers of
-- SQLAlchemy and SQLite that the service relies on.
use modelops_control_plane.Base.{
  ℕ, ◌+◌, ◌≡◌, ◌↔◌, Bool, true, false, ◌&&◌, not, Option, none, some, List, [], ◌∷◌, any, ◌==◌,
  if◌then◌else◌, Result, ok, err,
}
use modelops_control_plane.Status.{
  Status, invalid_transition, is_terminal, status_in, validate_transition,
}
use modelops_control_plane.Store.{
  Db, Deployment, Target, EventBody, status_changed, Reason, DeploymentEvent,
}
use modelops_control_plane.Service.Query.{active_statuses, find_row, has_key}

pub data ServiceError : Type 0 where
  invalid_transition_error : Status → Status → ServiceError
  not_found : ℕ → ServiceError
  not_active : ℕ → Status → ServiceError
  already_at_final_stage : ℕ → ServiceError
  concurrent_update : ℕ → ServiceError
  terminal_deployment : ℕ → Status → ServiceError
  active_deployment_exists : ℕ → Option ℕ → ServiceError
  integrity_error : ServiceError

pub record Session : Type 0 where
  pub row : Deployment
  pub db : Db

-- `_log_event`
abbrev pub log_event : ℕ → EventBody → Session → Session
log_event now body s =
    let event : DeploymentEvent = record {
      deployment_id = s.row.id;
      body = body;
      created_at = now;
    } in
    record s { db = record (s.db) { events = event ∷ s.db.events } }

-- `_transition`
unfoldable pub transition : ℕ → Status → Reason → Session → Result ServiceError Session
transition now target reason s = elim (validate_transition s.row.status target) [
  | ok _ ↦ ok (
      log_event now (status_changed s.row.status target reason)
        (record s { row = record (s.row) { status = target } }))
  | err (invalid_transition current wanted) ↦ err (invalid_transition_error current wanted)
]

-- The generation counter of a model; 0 where there is no row yet.
abbrev pub generation_of : ℕ → List (ℕ × ℕ) → ℕ
generation_of model [] = 0
generation_of model ((m, g) ∷ rows) = if m == model then g else generation_of model rows

abbrev pub bump_generation : ℕ → List (ℕ × ℕ) → List (ℕ × ℕ)
bump_generation model [] = (model, 1) ∷ []
bump_generation model ((m, g) ∷ rows) =
    if m == model then (m, g + 1) ∷ rows else (m, g) ∷ bump_generation model rows

-- `_next_routing_generation`: the tables after it, and the generation that it returns.
unfoldable pub next_routing_generation : Db → ℕ → Db × ℕ
next_routing_generation db model =
    let rows = bump_generation model db.generations in
    (record db { generations = rows }, generation_of model rows)

-- `_set_traffic_allocation`. The row's allocation is overwritten, or added where it had none.
unfoldable pub set_traffic_allocation : List Target → Session → Session
unfolding next_routing_generation
set_traffic_allocation targets s =
    let (db, generation) = next_routing_generation s.db s.row.model_name in
    record {
      row = record (s.row) {
        traffic_allocation = some (record { targets = targets; revision = generation });
      };
      db = db;
    }

unfoldable pub require_active : Session → Result ServiceError (Unit {0})
require_active s =
    if status_in s.row.status active_statuses then ok tt else err (not_active s.row.id s.row.status)

unfoldable pub require_not_terminal : Session → Result ServiceError (Unit {0})
require_not_terminal s =
    if is_terminal s.row.status then err (terminal_deployment s.row.id s.row.status) else ok tt

-- What an INSERT of a deployment answers: done, or the constraint that it violates.
pub data InsertAnswer : Type 0 where
  inserted key_violation active_violation : InsertAnswer

-- The two constraints that models.py declares: `idempotency_key` is unique, and one row for each
-- model may have a status that is not terminal (`uq_deployments_active_per_model`).
abbrev pub key_taken : Option ℕ → List Deployment → Bool
key_taken none rows = false
key_taken (some key) rows = any (has_key key) rows

abbrev pub in_flight : ℕ → Deployment → Bool
in_flight model d = (d.model_name == model) && not (is_terminal d.status)

pub record Engine : Type 0 where
  -- Whether `UPDATE … WHERE version_id = loaded` finds the row that has the version `stored`.
  pub update_matches : ℕ → ℕ → Bool
  pub update_matches_iff :
      (loaded stored : ℕ) → (update_matches loaded stored ≡ true) ↔ (loaded ≡ stored)
  -- What the flush of a new row answers, given the rows that are there.
  pub insert_row : Deployment → List Deployment → InsertAnswer
  pub inserted_iff :
      (d : Deployment) (rows : List Deployment)
      → (insert_row d rows ≡ inserted)
        ↔ ((key_taken d.idempotency_key rows ≡ false) × (any (in_flight d.model_name) rows ≡ false))

abbrev pub write_row : Deployment → List Deployment → List Deployment
write_row d [] = []
write_row d (e ∷ es) = if e.id == d.id then d ∷ es else e ∷ write_row d es

module _ (engine : Engine) where
  -- `_commit`: a row whose version has moved on since it was loaded loses the race.
  unfoldable pub commit : Session → Result ServiceError Session
  commit s =
      let row = record (s.row) { version_id = s.row.version_id + 1 } in
      elim (find_row s.row.id s.db.deployments) [
        | none ↦ err (concurrent_update s.row.id)
        | some stored ↦
            if engine.update_matches s.row.version_id stored.version_id
            then ok (record {
              row = row;
              db = record (s.db) { deployments = write_row row s.db.deployments };
            })
            else err (concurrent_update s.row.id)
      ]
