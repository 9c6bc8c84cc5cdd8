-- ===== src/Tests/Sweeps.antt =====
-- Sweeps of the worker over a control plane with one running and one paused deployment.
use modelops_control_plane.Base.{ℕ, suc, ◌≡◌, refl, true, [], ◌∷◌, Any, inl}
use modelops_control_plane.Status.{canary_running, evaluating}
use modelops_control_plane.Store.{Deployment, pass}
use modelops_control_plane.Worker.{
  WorkerClient, reply, conflict, failed, take, advance_traffic, process_deployment,
  evaluate_and_act, decide_action,
}
use modelops_control_plane.Worker.Sweep.{IsDecided, action-IsDecided}
use modelops_control_plane.Tests.Samples.{row}

abbrev paused : Deployment
paused = record (row evaluating) { id = 6; automation_paused = true }

-- It answers the same at every call, and each verdict is PASS; the actions are counted.
abbrev client : WorkerClient ℕ
client = record {
  on_reconcile = λ n. (failed, n);
  on_list_deployments = λ n. (reply (row canary_running ∷ paused ∷ []), n);
  on_get_deployment = λ id n. (reply (row canary_running), n);
  on_get_policy_evaluations = λ id n. (reply [], n);
  on_evaluate = λ id n. (reply pass, n);
  on_action = λ action id n. (conflict, suc n);
}

asks_to_advance :
    Any
      (λ r. r ≡ take advance_traffic 5)
      (process_deployment client 9 300 5 (record { there = 0; requests = [] })).1.requests
unfolding process_deployment evaluate_and_act decide_action
asks_to_advance = inl refl

action-IsDecided_example : IsDecided client 9 300 5 0 advance_traffic
action-IsDecided_example = action-IsDecided client 9 300 5 0 advance_traffic asks_to_advance
