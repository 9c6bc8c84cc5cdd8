-- ===== src/Service/Actions.antt =====
-- The actions on a deployment that a request has loaded: promote, roll back, advance the traffic,
-- record an inconclusive evaluation, pause and resume (backend/app/control_plane/service.py).

pub mod Effects
pub mod Ramp
pub mod Retries
use modelops_control_plane.Base.{
  ℕ, ◌+◌, ◌-◌, ◌*◌, ◌/◌, ◌%◌, Bool, true, false, Option, none, some, List, [], ◌∷◌, ltb, ◌==◌,
  if◌then◌else◌, Result, ok, err, ◌>>=◌, ◌>>◌,
}
use modelops_control_plane.Status.{
  canary_running, evaluating, promoting, promoted, rolling_back, rolled_back, inconclusive,
  status_eq,
}
use modelops_control_plane.Store.{
  Db, Deployment, Target, Trigger, Reason, before_promote, promote_requested, promoted_to_full,
  before_rollback, rollback_requested, back_to_stable, before_freezing, retries_exceeded,
  automation_paused, automation_resumed, traffic_advanced, inconclusive_cycle,
}
use modelops_control_plane.Router.{RouterSettings}
use modelops_control_plane.Gateway.{Delivery}
use modelops_control_plane.Service.Query.{current_canary_weight}
use modelops_control_plane.Service.Session.{
  ServiceError, already_at_final_stage, Session, log_event, transition, set_traffic_allocation,
  require_active, require_not_terminal, Engine, commit,
}
use modelops_control_plane.Service.Reachability.{World, push_best_effort}

-- The weight 1.0.
abbrev pub full : ℕ
full = 1000000000

-- `round(w, 6)`: to a multiple of 1000 billionths, a tie to the even one.
abbrev pub round6 : ℕ → ℕ
round6 w =
    let q = w / 1000 in
    let r = w % 1000 in
    1000 * (if ltb r 500 then q else if ltb 500 r then q + 1 else if q % 2 == 0 then q else q + 1)

abbrev pub split_targets : (stable canary weight : ℕ) → List Target
split_targets stable canary weight =
    record { version = stable; weight = round6 (full - weight) }
    ∷ record { version = canary; weight = round6 weight }
    ∷ []

abbrev pub full_target : ℕ → List Target
full_target version = record { version = version; weight = full } ∷ []

-- `if deployment.status == CANARY_RUNNING: _transition(…, EVALUATING, …)`
unfoldable pub leave_canary_running : ℕ → Reason → Session → Result ServiceError Session
leave_canary_running now reason s =
    let moved = transition now evaluating reason s in
    if status_eq s.row.status canary_running then moved else ok s

abbrev pub complete : ℕ → Session → Session
complete now s = record s { row = record (s.row) { completed_at = some now } }

-- `promote_deployment` up to its commit.
unfoldable pub promote_session : ℕ → Trigger → Session → Result ServiceError Session
promote_session now by s = do
  s₁ ← leave_canary_running now (before_promote by) s
  s₂ ← transition now promoting (promote_requested by) s₁
  let s₃ = set_traffic_allocation (full_target s₂.row.canary_version) s₂
  s₄ ← transition now promoted (promoted_to_full by) s₃
  ok (complete now s₄)

-- `rollback_deployment` up to its commit.
unfoldable pub rollback_session : ℕ → Trigger → Session → Result ServiceError Session
rollback_session now by s = do
  s₁ ← leave_canary_running now (before_rollback by) s
  s₂ ← transition now rolling_back (rollback_requested by) s₁
  let s₃ = set_traffic_allocation (full_target s₂.row.stable_version) s₂
  s₄ ← transition now rolled_back (back_to_stable by) s₃
  ok (complete now s₄)

abbrev pub traffic_stages : List ℕ
traffic_stages = 100000000 ∷ 250000000 ∷ 500000000 ∷ 1000000000 ∷ []

-- The first stage that is above the weight by more than 1e-9.
unfoldable pub next_stage : ℕ → List ℕ → Option ℕ
next_stage current [] = none
next_stage current (w ∷ ws) = if ltb (current + 1) w then some w else next_stage current ws

-- `advance_traffic` up to its commit.
unfoldable pub advance_session : ℕ → Session → Result ServiceError Session
advance_session now s =
    let current = current_canary_weight s.row in
    require_active s >> elim (next_stage current traffic_stages) [
      | none ↦ err (already_at_final_stage s.row.id)
      | some next ↦ ok (
          log_event now (traffic_advanced current next) (
            set_traffic_allocation (split_targets s.row.stable_version s.row.canary_version next)
              s))
    ]

-- `record_inconclusive` up to its commit.
unfoldable pub inconclusive_session : ℕ → ℕ → Session → Result ServiceError Session
inconclusive_session now max_retries s =
    let attempt = s.row.inconclusive_retry_count + 1 in
    let counted =
      log_event now (inconclusive_cycle attempt max_retries)
        (record s { row = record (s.row) { inconclusive_retry_count = attempt } }) in
    let frozen = leave_canary_running now before_freezing counted >>= λ s₁.
    transition now inconclusive (retries_exceeded max_retries) s₁ >>= λ s₂. ok (complete now s₂) in
    require_active s >> (if ltb max_retries attempt then frozen else ok counted)

-- `automation_paused` is set, and the event that says so logged.
abbrev pub set_paused : ℕ → Trigger → Bool → Session → Session
set_paused now by paused s =
    log_event now (if paused then automation_paused by else automation_resumed by)
      (record s { row = record (s.row) { automation_paused = paused } })

module _ (engine : Engine) where
  -- A change of the row, its commit, and what the tables and the row are then. An error leaves the
  -- tables as they were: the transaction is rolled back.
  unfoldable pub run_session :
      (Session → Result ServiceError Session) → Db → Deployment → Result ServiceError Session
  run_session change db d = change (record { row = d; db = db }) >>= commit engine

  -- The allocation that the row has, pushed to the router.
  unfoldable pub push_row : RouterSettings → Delivery → ℕ → Session → World → World
  push_row settings net now s w =
      let saved : World = record { db = s.db; router = w.router } in
      elim s.row.traffic_allocation [
        | none ↦ saved
        | some a ↦
            push_best_effort settings net now s.row.model_name s.row.id a.revision a.targets saved
      ]

  -- An action that ends with a push.
  unfoldable pub act_and_push :
      RouterSettings
      → Delivery
      → ℕ
      → (Session → Result ServiceError Session)
      → Deployment
      → World
      → Result ServiceError Deployment × World
  act_and_push settings net now change d w = elim (run_session change w.db d) [
    | err e ↦ (err e, w)
    | ok s ↦ (ok s.row, push_row settings net now s w)
  ]

  -- An action that touches the tables only.
  unfoldable pub act :
      (Session → Result ServiceError Session)
      → Deployment
      → World
      → Result ServiceError Deployment × World
  act change d w = elim (run_session change w.db d) [
    | err e ↦ (err e, w)
    | ok s ↦ (ok s.row, record w { db = s.db })
  ]

  module _ (settings : RouterSettings) (net : Delivery) (now : ℕ) where
    unfoldable pub promote_deployment :
        Trigger → Deployment → World → Result ServiceError Deployment × World
    promote_deployment by = act_and_push settings net now (promote_session now by)

    unfoldable pub rollback_deployment :
        Trigger → Deployment → World → Result ServiceError Deployment × World
    rollback_deployment by = act_and_push settings net now (rollback_session now by)

    unfoldable pub advance_traffic : Deployment → World → Result ServiceError Deployment × World
    advance_traffic = act_and_push settings net now (advance_session now)

  unfoldable pub record_inconclusive :
      ℕ → ℕ → Deployment → World → Result ServiceError Deployment × World
  record_inconclusive now max_retries = act (inconclusive_session now max_retries)

  -- The two actions that return early, and commit nothing, where the flag has its value already.
  unfoldable pub pause_automation :
      ℕ → Trigger → Deployment → World → Result ServiceError Deployment × World
  pause_automation now by d w = elim (require_not_terminal (record { row = d; db = w.db })) [
    | err e ↦ (err e, w)
    | ok _ ↦ if d.automation_paused then (ok d, w) else act (λ s. ok (set_paused now by true s)) d w
  ]

  unfoldable pub resume_automation :
      ℕ → Trigger → Deployment → World → Result ServiceError Deployment × World
  resume_automation now by d w = elim (require_not_terminal (record { row = d; db = w.db })) [
    | err e ↦ (err e, w)
    | ok _ ↦
        if d.automation_paused then act (λ s. ok (set_paused now by false s)) d w else (ok d, w)
  ]
