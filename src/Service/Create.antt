-- ===== src/Service/Create.antt =====
-- Starting a canary deployment: `CreateDeploymentRequest` of backend/app/control_plane/schemas.py
-- and `create_deployment` of backend/app/control_plane/service.py.
pub mod Started
use modelops_control_plane.Base.{
  ℕ, Bool, true, false, ◌&&◌, ◌||◌, not, Option, none, some, ◌∷◌, ltb, leb, ◌==◌, if◌then◌else◌,
  Result, ok, err, ◌>>=◌,
}
use modelops_control_plane.Status.{pending, deploying, canary_running}
use modelops_control_plane.Store.{
  Db, Deployment, PolicyConfig, PolicySettings, to_policy_config, created, paused_at_creation,
  starting_rollout, receiving_traffic,
}
use modelops_control_plane.Router.{RouterSettings}
use modelops_control_plane.Gateway.{Delivery}
use modelops_control_plane.Service.Query.{get_active_deployment, find_by_idempotency_key}
use modelops_control_plane.Service.Session.{
  ServiceError, active_deployment_exists, integrity_error, Session, log_event, transition,
  set_traffic_allocation, inserted, key_violation, active_violation, Engine, commit,
}
use modelops_control_plane.Service.Reachability.{World}
use modelops_control_plane.Service.Actions.{full, split_targets, push_row}

pub record CreateRequest : Type 0 where
  pub model_name : ℕ
  pub stable_version : ℕ
  pub canary_version : ℕ
  pub canary_weight : ℕ
  pub policy_config : Option PolicyConfig
  pub allow_degenerate_canary_weight : Bool
  pub automation_paused : Bool

-- The bounds of `canary_weight`, and `_validate_versions_and_weight`.
unfoldable pub validate_request : CreateRequest → Bool
validate_request r =
    leb r.canary_weight full
    && (not (r.stable_version == r.canary_version)
        && (r.allow_degenerate_canary_weight || ltb 0 r.canary_weight && ltb r.canary_weight full))

-- `if idempotency_key:`, which an empty key fails too.
abbrev pub existing_for_key : Db → Option ℕ → Option Deployment
existing_for_key db none = none
existing_for_key db (some key) = if key == 0 then none else find_by_idempotency_key db key

abbrev pub new_row : PolicySettings → (now id : ℕ) → Option ℕ → CreateRequest → Deployment
new_row settings now id key r = record {
  id = id;
  model_name = r.model_name;
  stable_version = r.stable_version;
  canary_version = r.canary_version;
  status = pending;
  idempotency_key = key;
  policy_config =
      some (elim r.policy_config [ some config ↦ config | none ↦ to_policy_config settings ]);
  inconclusive_retry_count = 0;
  automation_paused = r.automation_paused;
  created_at = now;
  started_at = none;
  completed_at = none;
  version_id = 1;
  traffic_allocation = none;
}

-- From the flushed row to the state that is committed.
unfoldable pub start_session : ℕ → CreateRequest → Session → Result ServiceError Session
start_session now r s = do
  let s₁ = log_event now (created r.model_name r.stable_version r.canary_version) s
  let s₂ = if r.automation_paused then log_event now paused_at_creation s₁ else s₁
  s₃ ← transition now deploying starting_rollout s₂
  let s₄ =
      set_traffic_allocation (split_targets r.stable_version r.canary_version r.canary_weight)
        (record s₃ { row = record (s₃.row) { started_at = some now } })
  transition now canary_running receiving_traffic s₄

module _ (engine : Engine) where
  -- The row is inserted, or the violated constraint becomes an error.
  unfoldable pub insert_session :
      PolicySettings → (now id : ℕ) → Option ℕ → CreateRequest → Db → Result ServiceError Session
  insert_session settings now id key r db =
      let row = new_row settings now id key r in
      elim (engine.insert_row row db.deployments) [
        | inserted ↦
            ok (record { row = row; db = record db { deployments = row ∷ db.deployments } })
        | key_violation ↦ err integrity_error
        | active_violation ↦ err (
            active_deployment_exists r.model_name (elim (get_active_deployment db r.model_name) [
              | none ↦ none
              | some winner ↦ some (winner.id)
            ]))
      ]

  -- `seen` is what the two reads of the request saw; `w` is the world when it flushes.
  unfoldable pub create_deployment :
      PolicySettings
      → RouterSettings
      → Delivery
      → (now id : ℕ) → Option ℕ
      → CreateRequest
      → Db
      → World
      → Result ServiceError (Deployment × Bool) × World
  create_deployment settings rsettings net now id key r seen w =
      let started =
        insert_session settings now id key r w.db >>= start_session now r >>= commit engine in
      elim (existing_for_key seen key) [
        | some existing ↦ (ok (existing, false), w)
        | none ↦ elim (get_active_deployment seen r.model_name) [
          | some active ↦ (err (active_deployment_exists r.model_name (some (active.id))), w)
          | none ↦ elim started [
            | err e ↦ (err e, w)
            | ok s ↦ (ok (s.row, true), push_row engine rsettings net now s w)
          ]
        ]
      ]
