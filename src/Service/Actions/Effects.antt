-- ===== src/Service/Actions/Effects.antt =====
-- What one action does to the row and to the tables of its transaction, before the commit.
use modelops_control_plane.Base.{
  ℕ, ◌+◌, ◌≡◌, inl, inr, Bool, true, false, some, List, arith, ok, err, is_ok, if◌then◌else◌, ltb,
  Option-cases,
}
use modelops_control_plane.Status.{
  Status, promoted, promoting, rolling_back, rolled_back, inconclusive, status_in,
  validate_transition,
}
use modelops_control_plane.Store.{Trigger, Target, TrafficAllocation}
use modelops_control_plane.Service.Query.{routing_statuses, active_statuses, current_canary_weight}
use modelops_control_plane.Service.Session.{
  Session, transition, set_traffic_allocation, generation_of, bump_generation, require_active,
  invalid_transition_error,
}
use modelops_control_plane.Service.Actions.{
  full_target, leave_canary_running, promote_session, rollback_session, advance_session,
  inconclusive_session, traffic_stages, split_targets, next_stage,
}

-- The allocation of `targets` under the model's next generation.
abbrev pub stamped : Session → List Target → TrafficAllocation
stamped s targets = record {
  targets = targets;
  revision = generation_of s.row.model_name (bump_generation s.row.model_name s.db.generations);
}

-- The model's counter moved on by one, and the row's desired state stamped with it.
abbrev pub Stamps : Session → Session → List Target → Type 0
Stamps s s' targets =
    (s'.row.traffic_allocation ≡ some (stamped s targets))
    × (s'.db.generations ≡ bump_generation s.row.model_name s.db.generations)

abbrev pub is_routing : Status → Bool
is_routing status = status_in status routing_statuses

-- A promotion is accepted in the three statuses that route traffic; it ends in `promoted`.
pub promote_session-ok :
    (now : ℕ) (by : Trigger) (s : Session) {s' : Session}
    → promote_session now by s ≡ ok s'
    → (is_routing s.row.status ≡ true)
      × (s'.row ≡ record (s.row) {
        status = promoted;
        completed_at = some now;
        traffic_allocation = some (stamped s (full_target s.row.canary_version));
      })
      × (s'.db.deployments ≡ s.db.deployments)
      × (s'.db.generations ≡ bump_generation s.row.model_name s.db.generations)
unfolding promote_session leave_canary_running transition set_traffic_allocation validate_transition
promote_session-ok now by s h = ground arith

pub promote_session-accepts :
    (now : ℕ) (by : Trigger) (s : Session)
    → is_routing s.row.status ≡ true
    → is_ok (promote_session now by s) ≡ true
unfolding promote_session leave_canary_running transition set_traffic_allocation validate_transition
promote_session-accepts now by s h = ground arith

pub promote_session-refuses :
    (now : ℕ) (by : Trigger) (s : Session)
    → is_routing s.row.status ≡ false
    → promote_session now by s ≡ err (invalid_transition_error s.row.status promoting)
unfolding promote_session leave_canary_running transition set_traffic_allocation validate_transition
promote_session-refuses now by s h = ground arith

-- A promotion is accepted exactly in CANARY_RUNNING, EVALUATING and INCONCLUSIVE.
pub promote_session-is_routing :
    (now : ℕ) (by : Trigger) (s : Session)
    → is_ok (promote_session now by s) ≡ is_routing s.row.status
unfolding promote_session leave_canary_running transition set_traffic_allocation validate_transition
promote_session-is_routing now by s = ground arith

-- A rollback is accepted in the same statuses; it ends in `rolled_back`.
pub rollback_session-ok :
    (now : ℕ) (by : Trigger) (s : Session) {s' : Session}
    → rollback_session now by s ≡ ok s'
    → (is_routing s.row.status ≡ true)
      × (s'.row ≡ record (s.row) {
        status = rolled_back;
        completed_at = some now;
        traffic_allocation = some (stamped s (full_target s.row.stable_version));
      })
      × (s'.db.deployments ≡ s.db.deployments)
      × (s'.db.generations ≡ bump_generation s.row.model_name s.db.generations)
unfolding rollback_session leave_canary_running transition set_traffic_allocation
    validate_transition
rollback_session-ok now by s h = ground arith

pub rollback_session-accepts :
    (now : ℕ) (by : Trigger) (s : Session)
    → is_routing s.row.status ≡ true
    → is_ok (rollback_session now by s) ≡ true
unfolding rollback_session leave_canary_running transition set_traffic_allocation
    validate_transition
rollback_session-accepts now by s h = ground arith

pub rollback_session-refuses :
    (now : ℕ) (by : Trigger) (s : Session)
    → is_routing s.row.status ≡ false
    → rollback_session now by s ≡ err (invalid_transition_error s.row.status rolling_back)
unfolding rollback_session leave_canary_running transition set_traffic_allocation
    validate_transition
rollback_session-refuses now by s h = ground arith

-- A rollback is accepted exactly in CANARY_RUNNING, EVALUATING and INCONCLUSIVE.
pub rollback_session-is_routing :
    (now : ℕ) (by : Trigger) (s : Session)
    → is_ok (rollback_session now by s) ≡ is_routing s.row.status
unfolding rollback_session leave_canary_running transition set_traffic_allocation
    validate_transition
rollback_session-is_routing now by s = ground arith

abbrev pub is_active : Status → Bool
is_active status = status_in status active_statuses

-- An advance moves the canary to the next stage, and changes nothing else of the row.
pub advance_session-ok :
    (now : ℕ) (s : Session) {s' : Session}
    → advance_session now s ≡ ok s'
    → (is_active s.row.status ≡ true)
      × ((next : ℕ) × (next_stage (current_canary_weight s.row) traffic_stages ≡ some next)
          × (s'.row ≡ record (s.row) {
            traffic_allocation =
                some (stamped s (split_targets s.row.stable_version s.row.canary_version next));
          }))
      × (s'.db.deployments ≡ s.db.deployments)
      × (s'.db.generations ≡ bump_generation s.row.model_name s.db.generations)
unfolding advance_session require_active set_traffic_allocation
advance_session-ok now s h =
    elim (Option-cases (next_stage (current_canary_weight s.row) traffic_stages)) [
      | inl e ↦ ground arith
      | inr (next, e) ↦ (ground arith, (next, e, ground arith), ground arith, ground arith)
    ]

-- An inconclusive evaluation is counted; past the limit the deployment is frozen as well.
pub inconclusive_session-ok :
    (now limit : ℕ) (s : Session) {s' : Session}
    → inconclusive_session now limit s ≡ ok s'
    → (is_active s.row.status ≡ true)
      × (s'.row ≡ (
          if ltb limit (s.row.inconclusive_retry_count + 1)
          then record (s.row) {
            status = inconclusive;
            completed_at = some now;
            inconclusive_retry_count = s.row.inconclusive_retry_count + 1;
          }
          else record (s.row) { inconclusive_retry_count = s.row.inconclusive_retry_count + 1 }))
      × (s'.db.deployments ≡ s.db.deployments)
      × (s'.db.generations ≡ s.db.generations)
unfolding inconclusive_session require_active leave_canary_running transition validate_transition
inconclusive_session-ok now limit s h = ground arith
