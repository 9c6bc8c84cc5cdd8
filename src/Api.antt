-- ===== src/Api.antt =====
-- The handlers of backend/app/control_plane/api.py that act on a deployment, the one that a router
-- syncs from, and that sync (backend/app/router/main.py).
pub mod Refusals
pub mod Startup
pub mod Reads
use modelops_control_plane.Base.{
  ℕ, Bool, true, false, Option, none, some, Result, ok, err, if◌then◌else◌,
}
use modelops_control_plane.Store.{Db, Deployment, TrafficAllocation, Trigger, PolicySettings}
use modelops_control_plane.Router.{RouterConfig, RouterSettings, validate_targets, to_router_config}
use modelops_control_plane.Gateway.{Delivery, lost, reply_lost, delivered}
use modelops_control_plane.Service.Query.{find_row, get_policy_config, get_authoritative_allocation}
use modelops_control_plane.Service.Session.{
  ServiceError, invalid_transition_error, not_active, already_at_final_stage, concurrent_update,
  terminal_deployment, active_deployment_exists, Engine,
}
use modelops_control_plane.Service.Reachability.{World}
use modelops_control_plane.Service.Create.{CreateRequest, validate_request, create_deployment}
use modelops_control_plane.Service.Perform.{Action, perform}

-- A POST to a deployment, with its `triggered_by`.
pub data Call : Type 0 where
  promote rollback pause_automation resume_automation : Trigger → Call
  advance_traffic record_inconclusive : Call

-- What the handler asks the service for; the limit on retries is the row's own.
abbrev pub action_of : PolicySettings → Deployment → Call → Action
action_of policies d (promote by) = Action.promote by
action_of policies d (rollback by) = Action.rollback by
action_of policies d (pause_automation by) = Action.pause by
action_of policies d (resume_automation by) = Action.resume by
action_of policies d advance_traffic = Action.advance
action_of policies d record_inconclusive =
    let config = get_policy_config policies d in
    Action.inconclusive_cycle config.max_inconclusive_retries

-- The exceptions that each handler catches.
abbrev pub is_caught : Call → ServiceError → Bool
is_caught _ (concurrent_update id) = true
is_caught (promote by) (invalid_transition_error s t) = true
is_caught (rollback by) (invalid_transition_error s t) = true
is_caught (pause_automation by) (terminal_deployment id s) = true
is_caught (resume_automation by) (terminal_deployment id s) = true
is_caught advance_traffic (not_active id s) = true
is_caught advance_traffic (already_at_final_stage id) = true
is_caught record_inconclusive (not_active id s) = true
is_caught _ _ = false

abbrev pub error_code : Call → ServiceError → ℕ
error_code call e = if is_caught call e then 409 else 500

module _ (engine : Engine) (policies : PolicySettings) (settings : RouterSettings) where
  -- A handler: the row as it was when it was read, and the world when the service acts.
  unfoldable pub handle :
      Delivery → (now : ℕ) → Call → (id : ℕ) → (seen : Db) → World → Result ℕ Deployment × World
  handle net now call id seen w = elim (find_row id seen.deployments) [
    | none ↦ (err 404, w)
    | some d ↦
        let done = perform engine settings net now (action_of policies d call) d w in
        elim done.0 [ ok d' ↦ (ok d', done.1) | err e ↦ (err (error_code call e), done.1) ]
  ]

  -- `create_deployment`, with the code 201 or 200; a body that is not valid is a 422.
  unfoldable pub handle_create :
      Delivery
      → (now id : ℕ) → Option ℕ
      → CreateRequest
      → (seen : Db) → World
      → (ℕ × Option Deployment) × World
  handle_create net now id key r seen w =
      let made = create_deployment engine policies settings net now id key r seen w in
      if validate_request r
      then elim made.0 [
        | ok (d, true) ↦ ((201, some d), made.1)
        | ok (d, false) ↦ ((200, some d), made.1)
        | err (active_deployment_exists model existing) ↦ ((409, none), made.1)
        | err _ ↦ ((500, none), made.1)
      ]
      else ((422, none), w)

-- `get_router_config`. The answer has no revision, and the router's schema fills in 0.
unfoldable pub get_router_config : Db → (model : ℕ) → Option RouterConfig
get_router_config db model = elim (get_authoritative_allocation db model) [
  | none ↦ none
  | some d ↦ elim d.traffic_allocation [
    | none ↦ none
    | some a ↦ some (record {
      model_name = model;
      targets = a.targets;
      deployment_id = some (d.id);
      revision = 0;
    })
  ]
]

-- `_fetch_control_plane_allocation`: any failure, an answer that is not valid too, gives nothing.
unfoldable pub fetch_control_plane_allocation : Delivery → Db → (model : ℕ) → Option RouterConfig
fetch_control_plane_allocation lost db model = none
fetch_control_plane_allocation reply_lost db model = none
fetch_control_plane_allocation delivered db model = elim (get_router_config db model) [
  | none ↦ none
  | some config ↦ if validate_targets config.targets then some config else none
]

-- What a router's store holds after its start, which the initial targets can make impossible.
unfoldable pub start_router : RouterSettings → Delivery → Db → Option RouterConfig
start_router s net db = elim (to_router_config s) [
  | none ↦ none
  | some initial ↦ elim (fetch_control_plane_allocation net db s.model_name) [
    | none ↦ some initial
    | some config ↦ some config
  ]
]
