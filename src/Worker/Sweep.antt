-- ===== src/Worker/Sweep.antt =====
-- Which requests a sweep of the worker makes.
use modelops_control_plane.Base.{ℕ, inl, inr, Bool-cases, ◌≡◌, true, false, List, [], Any, arith}
use modelops_control_plane.Store.{Deployment, PolicyEvaluation, PolicyEvaluationResult, pass, fail}
use modelops_control_plane.Status.{status_in}
use modelops_control_plane.Worker.{
  active_statuses, WorkerAction, promote, rollback, advance_traffic, record_inconclusive,
  decide_action, Reply-cases, reply, take, WorkerClient, canary_at_full_traffic, is_due,
  evaluate_and_act, process_deployment,
}

-- What makes an action right for a deployment and a verdict.
abbrev pub Justified : Deployment → PolicyEvaluationResult → WorkerAction → Type 0
Justified d verdict promote = (verdict ≡ pass) × (canary_at_full_traffic d ≡ true)
Justified d verdict advance_traffic = (verdict ≡ pass) × (canary_at_full_traffic d ≡ false)
Justified d verdict rollback = verdict ≡ fail
Justified d verdict record_inconclusive = verdict ≡ PolicyEvaluationResult.inconclusive

decide_action-Justified :
    (d : Deployment) (verdict : PolicyEvaluationResult) (action : WorkerAction)
    → action ≡ decide_action verdict (canary_at_full_traffic d)
    → Justified d verdict action
unfolding decide_action
decide_action-Justified d verdict promote e = ground arith
decide_action-Justified d verdict advance_traffic e = ground arith
decide_action-Justified d verdict rollback e = ground arith
decide_action-Justified d verdict record_inconclusive e = ground arith

module _ {S : Type 0} (client : WorkerClient S) where
  -- The control plane answered, from the state s on, that the deployment is active and due, and
  -- gave a verdict that asks for the action.
  pub record IsDecided (now default id : ℕ) (s : S) (action : WorkerAction) : Type 0 where
    pub deployment : Deployment
    pub verdict : PolicyEvaluationResult
    pub fetched : (client.on_get_deployment id s).0 ≡ reply deployment
    pub active : status_in deployment.status active_statuses ≡ true
    pub past : List PolicyEvaluation
    pub fetched_past :
        (client.on_get_policy_evaluations id (client.on_get_deployment id s).1).0 ≡ reply past
    pub due : is_due now deployment default past ≡ true
    pub evaluated :
        (client.on_evaluate id
          (client.on_get_policy_evaluations id (client.on_get_deployment id s).1).1).0
        ≡ reply verdict
    pub justified : Justified deployment verdict action

  -- The worker asks for an action on a deployment only where the control plane has just answered
  -- that it is active and due, and with a verdict that asks for it: a promotion for PASS with the
  -- canary at full traffic, an advance for PASS below it, a rollback for FAIL, a retry for
  -- INCONCLUSIVE.
  pub action-IsDecided :
      (now default id : ℕ) (s : S) (action : WorkerAction)
      → Any
          (λ r. r ≡ take action id)
          (process_deployment client now default id
            (record { there = s; requests = [] })).1.requests
      → IsDecided now default id s action
  unfolding process_deployment evaluate_and_act
  action-IsDecided now default id s action asked =
      elim (Reply-cases (client.on_get_deployment id s).0) [
        | inr other ↦ absurd (ground arith)
        | inl (d, got) ↦ elim (Bool-cases (status_in d.status active_statuses)) [
          | inr idle ↦ absurd (ground arith)
          | inl active ↦
              elim (Reply-cases
                (client.on_get_policy_evaluations id (client.on_get_deployment id s).1).0) [
                  | inr other ↦ absurd (ground arith)
                  | inl (es, past) ↦ elim (Bool-cases (is_due now d default es)) [
                    | inr early ↦ absurd (ground arith)
                    | inl due ↦
                        elim (Reply-cases
                          (client.on_evaluate id
                            (client.on_get_policy_evaluations id
                              (client.on_get_deployment id s).1).1).0) [
                                | inr other ↦ absurd (ground arith)
                                | inl (verdict, evaluated) ↦ record {
                                  deployment = d;
                                  verdict = verdict;
                                  fetched = got;
                                  active = active;
                                  past = es;
                                  fetched_past = past;
                                  due = due;
                                  evaluated = evaluated;
                                  justified =
                                      decide_action-Justified d verdict action (ground arith);
                                }
                              ]
                  ]
                ]
        ]
      ]
