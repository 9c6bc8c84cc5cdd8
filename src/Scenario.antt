-- ===== src/Scenario.antt =====
-- One scenario of the benchmark suite: backend/scripts/benchmarks/run_benchmark.py. The process
-- that a scenario's fault is put on is the one of the serving app; what the scenario's load sends there
-- is a list of requests.
pub mod Outcomes
pub mod Faults
use modelops_control_plane.Base.{
  ℕ, ◌+◌, ◌-◌, Bool, true, false, ◌||◌, ◌&&◌, Option, none, some, List, [], ◌∷◌, map, ltb, leb,
  if◌then◌else◌, Result, ok, err, where_,
}
use modelops_control_plane.Number.{Number}
use modelops_control_plane.Status.{Status, promoted, rolled_back, failed, inconclusive, status_in}
use modelops_control_plane.Store.{Deployment, PolicyEvaluation, PolicyEvaluationResult}
use modelops_control_plane.Gateway.{Delivery, lost, reply_lost, delivered}
use modelops_control_plane.Serving.{
  Server, Request, put_fault_injection, Response, refused, refusal_code, FeatureType, respond,
  serve, no_rate,
}

-- `Literal["rollback", "promote", "inconclusive_freeze", "throughput_only"]`
pub data ExpectedOutcome : Type 0 where
  rollback promote inconclusive_freeze throughput_only : ExpectedOutcome

-- `OUTCOME_STATUS.get(expected)`
abbrev pub outcome_status : ExpectedOutcome → Option Status
outcome_status rollback = some rolled_back
outcome_status promote = some promoted
outcome_status inconclusive_freeze = some inconclusive
outcome_status throughput_only = none

-- `TERMINAL_STATUSES` of this script.
abbrev pub final_statuses : List Status
final_statuses = promoted ∷ rolled_back ∷ failed ∷ inconclusive ∷ []

abbrev pub is_target : Option Status → Status → Bool
is_target none status = false
is_target (some target) status = status_in status (target ∷ [])

-- `_wait_for_outcome`, on the replies of the polls that are made before the deadline; `last` is the
-- reply of the poll before the loop.
unfoldable pub wait_for_outcome :
    ExpectedOutcome → (last : Deployment) → List Deployment → Deployment
wait_for_outcome expected last [] = last
wait_for_outcome expected last (d ∷ ds) =
    let rest = wait_for_outcome expected d ds in
    if is_target (outcome_status expected) d.status
    then d
    else if status_in d.status final_statuses
    then d
    else rest

-- A fault on a serving process, and the requests of the run that the process takes meanwhile.
module _ (Value Cell : Type 0) (validate : FeatureType → Value → Option Cell) where
  -- `raise_for_status` of the reply.
  abbrev pub raises_for_status : Response Value Cell → Bool
  raises_for_status (refused r) = leb 400 (refusal_code r)
  raises_for_status _ = false

  -- `_set_fault_injection`: whether it returns, and the process after it.
  unfoldable pub set_fault_injection_at :
      Delivery → ℕ → Number → Server Value Cell → Bool × Server Value Cell
  set_fault_injection_at lost latency rate server = (false, server)
  set_fault_injection_at reply_lost latency rate server =
      (false, (respond Value Cell validate server (put_fault_injection latency rate)).1)
  set_fault_injection_at delivered latency rate server =
      let (answer, next) = respond Value Cell validate server (put_fault_injection latency rate) in
      ((if raises_for_status answer then false else true), next)

  -- `_reset_fault_injection`, whose errors are logged.
  abbrev pub reset_fault_injection : Delivery → Server Value Cell → Server Value Cell
  reset_fault_injection net server = (set_fault_injection_at net 0 no_rate server).1

  -- How the body of the `try` ends, and what the process takes in it.
  pub record ScenarioRun (Report : Type 0) : Type 0 where
    pub requests : List (Request Value Cell)
    pub ends : Option Report

  -- `run_scenario` of a scenario with a fault: the report, or an exception, and the process after it.
  unfoldable pub run_scenario :
      {Report : Type 0}
      → (put reset : Delivery) → (fault_latency_ms : ℕ) → (fault_error_rate : Number)
      → ScenarioRun Report
      → Server Value Cell
      → Option Report × Server Value Cell
  run_scenario put reset latency rate body server =
      let (returns, faulty) = set_fault_injection_at put latency rate server in
      if returns
      then (
        body.ends,
        reset_fault_injection reset (serve Value Cell validate faulty body.requests).1,
      )
      else (none, faulty)
