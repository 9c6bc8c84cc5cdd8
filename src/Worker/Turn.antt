-- ===== src/Worker/Turn.antt =====
-- The requests of one deployment's turn.
use modelops_control_plane.Base.{ℕ, inl, inr, ◌⊎◌, ◌≡◌, Bool-cases, List, ◌∷◌, arith}
use modelops_control_plane.Store.{Deployment}
use modelops_control_plane.Status.{status_in}
use modelops_control_plane.Worker.{
  active_statuses, WorkerAction, decide_action, canary_at_full_traffic, is_due, Reply-cases,
  Request, get_deployment, get_policy_evaluations, evaluate, take, WorkerClient, Line,
  evaluate_and_act, process_deployment,
}

-- One turn makes between one and four requests, each about its own deployment.
pub data Turn (id : ℕ) (before : List Request) (after : List Request) : Type 0 where
  gone : after ≡ get_deployment id ∷ before → Turn id before after
  early : after ≡ get_policy_evaluations id ∷ get_deployment id ∷ before → Turn id before after
  asked :
      after ≡ evaluate id ∷ get_policy_evaluations id ∷ get_deployment id ∷ before
      → Turn id before after
  acted :
      (action : WorkerAction)
      → after
        ≡ take action id ∷ evaluate id ∷ get_policy_evaluations id ∷ get_deployment id ∷ before
      → Turn id before after

module _ {S : Type 0} (client : WorkerClient S) (now default : ℕ) where
  evaluate_and_act-requests :
      (d : Deployment) (id : ℕ) (line : Line S)
      → ((evaluate_and_act client d id line).1.requests ≡ evaluate id ∷ line.requests)
        ⊎ ((action : WorkerAction) × ((evaluate_and_act client d id line).1.requests
              ≡ take action id ∷ evaluate id ∷ line.requests))
  unfolding evaluate_and_act
  evaluate_and_act-requests d id line = elim (Reply-cases (client.on_evaluate id line.there).0) [
    | inr other ↦ inl (ground arith)
    | inl (verdict, e) ↦ inr (decide_action verdict (canary_at_full_traffic d), ground arith)
  ]

  pub process_deployment-Turn :
      (id : ℕ) (line : Line S)
      → Turn id line.requests (process_deployment client now default id line).1.requests
  unfolding process_deployment
  process_deployment-Turn id line = elim (Reply-cases (client.on_get_deployment id line.there).0) [
    | inr other ↦ gone (ground arith)
    | inl (d, got) ↦ elim (Bool-cases (status_in d.status active_statuses)) [
      | inr idle ↦ gone (ground arith)
      | inl active ↦
          let s = (client.on_get_deployment id line.there).1 in
          elim (Reply-cases (client.on_get_policy_evaluations id s).0) [
            | inr other ↦ early (ground arith)
            | inl (es, past) ↦
                let more = evaluate_and_act-requests d id (record {
                  there = (client.on_get_policy_evaluations id s).1;
                  requests = get_policy_evaluations id ∷ get_deployment id ∷ line.requests;
                }) in
                elim (Bool-cases (is_due now d default es)) [
                  | inr soon ↦ early (ground arith)
                  | inl due ↦ elim more [
                    | inl e ↦ asked (ground arith)
                    | inr (action, e) ↦ acted action (ground arith)
                  ]
                ]
          ]
    ]
  ]
