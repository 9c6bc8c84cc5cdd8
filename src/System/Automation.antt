-- ===== src/System/Automation.antt =====
-- The worker on the control plane: `HttpWorkerClient` of backend/app/worker/client.py, each of whose
-- calls is the handler of its endpoint (backend/app/control_plane/api.py, backend/app/policy/api.py).
pub mod Progress
pub mod Endings
pub mod Setbacks
pub mod Sweeps
use modelops_control_plane.Base.{
  ℕ, suc, Bool, true, false, Option, none, some, List, [], Result, ok, err, ◌==◌, if◌then◌else◌,
}
use modelops_control_plane.Store.{
  Db, Deployment, PolicyEvaluation, PolicyEvaluationResult, PolicySettings, automatic,
}
use modelops_control_plane.Router.{RouterSettings}
use modelops_control_plane.Gateway.{Delivery}
use modelops_control_plane.Service.Session.{ServiceError, not_active, Engine}
use modelops_control_plane.Service.Reachability.{World}
use modelops_control_plane.Policy.{PolicyCheckResult}
use modelops_control_plane.Policy.Service.{evaluate_deployment}
use modelops_control_plane.Reconcile.{reconcile_router_state}
use modelops_control_plane.Worker.{WorkerAction, Reply, reply, conflict, failed, WorkerClient}
use modelops_control_plane.Worker
use modelops_control_plane.Api.{Call, handle}
use modelops_control_plane.Api
use modelops_control_plane.Api.Reads.{list_deployments, get_deployment, get_policy_evaluations}

-- The world, and the time.
pub record Plant : Type 0 where
  pub world : World
  pub clock : ℕ

-- The endpoint of an action, and the `triggered_by` that the worker sends.
abbrev pub call_of : WorkerAction → Call
call_of Worker.promote = Api.promote automatic
call_of Worker.rollback = Api.rollback automatic
call_of Worker.advance_traffic = Api.advance_traffic
call_of Worker.record_inconclusive = Api.record_inconclusive

-- `_get` raises for every code from 400 up.
abbrev pub get_reply : {A : Type 0} → Result ℕ A → Reply A
get_reply (ok a) = reply a
get_reply (err code) = failed

-- `_post` raises `ActionConflictError` for a 409, and another error for the other codes.
abbrev pub post_reply : {A : Type 0} → Result ℕ A → Reply A
post_reply (ok a) = reply a
post_reply (err code) = if code == 409 then conflict else failed

-- The codes of `/evaluate`.
abbrev pub evaluate_reply :
    Result ServiceError (List PolicyCheckResult × PolicyEvaluationResult)
    → Reply PolicyEvaluationResult
evaluate_reply (ok (checks, overall)) = reply overall
evaluate_reply (err (not_active id status)) = conflict
evaluate_reply (err e) = failed

abbrev pub done : Reply Deployment → Reply (Unit {0})
done (reply d) = reply tt
done conflict = conflict
done failed = failed

module _ (engine : Engine) (policies : PolicySettings) (settings : RouterSettings)
    (net : ℕ → Delivery) where
  -- A handler reads the row that it acts on; time goes on with every action.
  unfoldable pub on_action : WorkerAction → ℕ → Plant → Reply (Unit {0}) × Plant
  on_action action id p =
      let made =
        handle engine policies settings (net p.clock) p.clock (call_of action) id p.world.db
          p.world in
      (done (post_reply made.0), record { world = made.1; clock = suc p.clock })

  unfoldable pub on_evaluate : ℕ → Plant → Reply PolicyEvaluationResult × Plant
  on_evaluate id p =
      let made = evaluate_deployment policies p.world.db id none p.clock in
      (evaluate_reply made.0, record p { world = record p.world { db = made.1 } })

  unfoldable pub on_reconcile : Plant → Reply (Unit {0}) × Plant
  on_reconcile p = (
    reply tt,
    record p {
      world = (reconcile_router_state settings (net p.clock) (net p.clock) p.clock p.world).1;
    },
  )

  -- `HttpWorkerClient`, where its own requests arrive.
  abbrev pub http_worker_client : WorkerClient Plant
  http_worker_client = record {
    on_reconcile = on_reconcile;
    on_list_deployments = λ p. (reply (list_deployments p.world.db), p);
    on_get_deployment = λ id p. (get_reply (get_deployment p.world.db id), p);
    on_get_policy_evaluations = λ id p. (get_reply (get_policy_evaluations p.world.db id), p);
    on_evaluate = on_evaluate;
    on_action = on_action;
  }
