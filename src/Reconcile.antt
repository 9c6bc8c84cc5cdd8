-- ===== src/Reconcile.antt =====
-- The reconciler: backend/app/control_plane/reconcile.py.
pub mod Corrects
use modelops_control_plane.Base.{
  ℕ, Bool, true, false, ◌&&◌, not, Option, none, some, List, [], ◌∷◌, any, ◌==◌, if◌then◌else◌,
}
use modelops_control_plane.Store.{
  Db, Deployment, TrafficAllocation, DeploymentEvent, router_reconciled,
}
use modelops_control_plane.Router.{RouterConfig, RouterSettings}
use modelops_control_plane.Gateway.{
  Delivery, pushed, stale_revision_error, router_update_error, push_traffic_allocation,
  get_observed_config,
}
use modelops_control_plane.Service.Query.{get_authoritative_allocation}
use modelops_control_plane.Service.Reachability.{World, desired_config, record_reachability}

pub data ReconcileReason : Type 0 where
  router_unreachable no_model_name no_authoritative_allocation already_in_sync : ReconcileReason
  already_in_sync_race corrected_drift : ReconcileReason

pub record ReconcileResult : Type 0 where
  pub reconciled : Bool
  pub reason : ReconcileReason
  pub deployment_id : Option ℕ
  pub from_revision : Option ℕ
  pub to_revision : Option ℕ

abbrev pub not_reconciled : ReconcileReason → ReconcileResult
not_reconciled reason = record {
  reconciled = false;
  reason = reason;
  deployment_id = none;
  from_revision = none;
  to_revision = none;
}

-- `SELECT DISTINCT model_name`
unfoldable pub model_names : List Deployment → List ℕ
model_names [] = []
model_names (d ∷ ds) =
    let rest = model_names ds in
    if any (λ m. m == d.model_name) rest then rest else d.model_name ∷ rest

-- `_all_authoritative_deployments`
unfoldable pub authoritative_deployments : Db → List ℕ → List Deployment
authoritative_deployments db [] = []
authoritative_deployments db (m ∷ ms) =
    let rest = authoritative_deployments db ms in
    elim (get_authoritative_allocation db m) [ none ↦ rest | some d ↦ d ∷ rest ]

unfoldable pub mark_unreachable : ℕ → List Deployment → Db → Db
mark_unreachable now [] db = db
mark_unreachable now (d ∷ ds) db = mark_unreachable now ds (record_reachability now d.id false db)

abbrev pub same_id : Option ℕ → ℕ → Bool
same_id none id = false
same_id (some observed) id = observed == id

-- The push of the reconciler, and what follows each of its outcomes.
unfoldable pub push_desired :
    RouterSettings
    → Delivery
    → ℕ
    → Deployment
    → TrafficAllocation
    → RouterConfig
    → World
    → ReconcileResult × World
push_desired settings put now d a observed w =
    let (outcome, router) = push_traffic_allocation settings put (desired_config d a) w.router in
    let event : DeploymentEvent = record {
      deployment_id = d.id;
      body = router_reconciled observed.deployment_id observed.revision d.id a.revision;
      created_at = now;
    } in
    elim outcome [
      | stale_revision_error ↦
          (not_reconciled already_in_sync_race, record { db = w.db; router = router })
      | router_update_error ↦ (
        not_reconciled router_unreachable,
        record { db = record_reachability now d.id false w.db; router = router },
      )
      | pushed ↦ (
        record {
          reconciled = true;
          reason = corrected_drift;
          deployment_id = some (d.id);
          from_revision = some (observed.revision);
          to_revision = some (a.revision);
        },
        record { db = record w.db { events = event ∷ w.db.events }; router = router },
      )
    ]

-- What the reconciler does with a config that it has observed.
unfoldable pub reconcile_observed :
    RouterSettings → Delivery → ℕ → RouterConfig → World → ReconcileResult × World
reconcile_observed settings put now observed w =
    if observed.model_name == 0
    then (not_reconciled no_model_name, w)
    else elim (get_authoritative_allocation w.db observed.model_name) [
      | none ↦ (not_reconciled no_authoritative_allocation, w)
      | some d ↦ elim d.traffic_allocation [
        | none ↦ (not_reconciled no_authoritative_allocation, w)
        | some a ↦
            let reached : World = record w { db = record_reachability now d.id true w.db } in
            if same_id observed.deployment_id d.id && observed.revision == a.revision
            then (not_reconciled already_in_sync, reached)
            else push_desired settings put now d a observed reached
      ]
    ]

-- `reconcile_router_state`; `get` and `put` say what the network does with its two requests.
unfoldable pub reconcile_router_state :
    RouterSettings → (get put : Delivery) → ℕ → World → ReconcileResult × World
reconcile_router_state settings get put now w = elim (get_observed_config get w.router) [
  | none ↦ (
    not_reconciled router_unreachable,
    record w {
      db =
          mark_unreachable now (authoritative_deployments w.db (model_names w.db.deployments)) w.db;
    },
  )
  | some observed ↦ reconcile_observed settings put now observed w
]
