-- ===== src/Worker.antt =====
-- The worker: backend/app/worker/decide.py and loop.py. The control plane at the other end of its
-- client is a state of any type; each call is logged as a request.
pub mod Sweep
pub mod Turn
pub mod Scope
pub mod Preserved
use modelops_control_plane.Base.{
  ◌≡◌, refl, ◌⊎◌, inl, inr, ℕ, ◌+◌, ◌-◌, Bool, true, false, ◌&&◌, not, Option, none, some, List, [],
  ◌∷◌, where_, map, leb, if◌then◌else◌,
}
use modelops_control_plane.Status.{canary_running, evaluating, Status, status_in}
use modelops_control_plane.Store.{Deployment, PolicyEvaluation, PolicyEvaluationResult, pass, fail}
use modelops_control_plane.Service.Query.{weight_of}
use modelops_control_plane.Service.Actions.{full}

pub data WorkerAction : Type 0 where
  advance_traffic promote rollback record_inconclusive : WorkerAction

unfoldable pub decide_action : PolicyEvaluationResult → Bool → WorkerAction
decide_action fail at_full = rollback
decide_action PolicyEvaluationResult.inconclusive at_full = record_inconclusive
decide_action pass at_full = if at_full then promote else advance_traffic

abbrev pub active_statuses : List Status
active_statuses = canary_running ∷ evaluating ∷ []

-- A call's answer, a 409 (`ActionConflictError`), or any other exception.
pub data Reply (A : Type 0) : Type 0 where
  reply : A → Reply A
  conflict failed : Reply A

pub Reply-cases :
    {A : Type 0} (r : Reply A) → ((a : A) × (r ≡ reply a)) ⊎ ((r ≡ conflict) ⊎ (r ≡ failed))
Reply-cases (reply a) = inl (a, refl)
Reply-cases conflict = inr (inl refl)
Reply-cases failed = inr (inr refl)

pub data Request : Type 0 where
  list_deployments reconcile : Request
  get_deployment get_policy_evaluations evaluate : ℕ → Request
  take : WorkerAction → ℕ → Request

-- `WorkerClient`: each call changes the control plane and answers.
pub record WorkerClient (S : Type 0) : Type 0 where
  pub on_reconcile : S → Reply (Unit {0}) × S
  pub on_list_deployments : S → Reply (List Deployment) × S
  pub on_get_deployment : ℕ → S → Reply Deployment × S
  pub on_get_policy_evaluations : ℕ → S → Reply (List PolicyEvaluation) × S
  pub on_evaluate : ℕ → S → Reply PolicyEvaluationResult × S
  pub on_action : WorkerAction → ℕ → S → Reply (Unit {0}) × S

-- The control plane and the requests that were made, the last one first.
pub record Line (S : Type 0) : Type 0 where
  pub there : S
  pub requests : List Request

-- `weight >= 1.0 - 1e-9`
abbrev pub canary_at_full_traffic : Deployment → Bool
canary_at_full_traffic d = elim d.traffic_allocation [
  | none ↦ false
  | some a ↦ elim (weight_of d.canary_version a.targets) [
    | none ↦ false
    | some w ↦ leb (full - 1) w
  ]
]

abbrev pub evaluation_window_seconds : Deployment → ℕ → ℕ
evaluation_window_seconds d default = elim d.policy_config [
  | none ↦ default
  | some config ↦ config.evaluation_window_seconds
]

-- `_is_due_for_evaluation` on the evaluations that were fetched, the latest first.
abbrev pub is_due : ℕ → Deployment → ℕ → List PolicyEvaluation → Bool
is_due now d default [] = true
is_due now d default (e ∷ es) = leb (e.evaluated_at + evaluation_window_seconds d default) now

module _ {S : Type 0} (client : WorkerClient S) where
  abbrev pub call : {A : Type 0} → Request → (S → Reply A × S) → Line S → Reply A × Line S
  call r f line =
      let (answer, s) = f line.there in (answer, record { there = s; requests = r ∷ line.requests })

  -- The evaluation and the action it asks for, at the end of `process_deployment`.
  unfoldable pub evaluate_and_act : Deployment → ℕ → Line S → Reply (Option WorkerAction) × Line S
  evaluate_and_act d id line =
      let asked = call (evaluate id) (client.on_evaluate id) line in
      elim asked.0 [
        | failed ↦ (failed, asked.1)
        | conflict ↦ (reply none, asked.1)
        | reply verdict ↦
            let action = decide_action verdict (canary_at_full_traffic d) in
            let acted = call (take action id) (client.on_action action id) asked.1 in
            elim acted.0 [
              | failed ↦ (failed, acted.1)
              | conflict ↦ (reply none, acted.1)
              | reply _ ↦ (reply (some action), acted.1)
            ]
      ]

  unfoldable pub process_deployment :
      (now default_window_seconds id : ℕ) → Line S → Reply (Option WorkerAction) × Line S
  process_deployment now default id line =
      let got = call (get_deployment id) (client.on_get_deployment id) line in
      elim got.0 [
        | failed ↦ (failed, got.1)
        | conflict ↦ (failed, got.1)
        | reply d ↦
            let past =
              call (get_policy_evaluations id) (client.on_get_policy_evaluations id) got.1 in
            let go = evaluate_and_act d id past.1 in
            if not (status_in d.status active_statuses) then (reply none, got.1) else elim past.0 [
              | failed ↦ (failed, past.1)
              | conflict ↦ (failed, past.1)
              | reply evaluations ↦
                  if not (is_due now d default evaluations) then (reply none, past.1) else go
            ]
      ]

  -- The loop of `run_once`: an exception stops one deployment's turn, not the sweep.
  unfoldable pub process_all : (now default : ℕ) → List ℕ → Line S → Line S
  process_all now default [] line = line
  process_all now default (id ∷ ids) line =
      process_all now default ids (process_deployment now default id line).1

abbrev pub is_swept : Deployment → Bool
is_swept d = status_in d.status active_statuses && not d.automation_paused

abbrev pub active_ids : List Deployment → List ℕ
active_ids ds = map (λ d. d.id) (where_ is_swept ds)

module _ {S : Type 0} (client : WorkerClient S) where
  unfoldable pub run_once : (now default : ℕ) → Line S → Reply (Unit {0}) × Line S
  run_once now default line =
      let ticked = call client reconcile client.on_reconcile line in
      let listed = call client list_deployments client.on_list_deployments ticked.1 in
      elim listed.0 [
        | failed ↦ (failed, listed.1)
        | conflict ↦ (failed, listed.1)
        | reply ds ↦ (reply tt, process_all client now default (active_ids ds) listed.1)
      ]

  -- The cycles of `run_forever`, at the times when they start: the exception of a sweep is caught.
  unfoldable pub run_forever : (default : ℕ) → List ℕ → Line S → Line S
  run_forever default [] line = line
  run_forever default (now ∷ times) line = run_forever default times (run_once now default line).1
