-- ===== src/Store/Rollout.antt =====
-- The rows of a rollout: `Deployment`, `TrafficAllocation`, `DeploymentEvent`.
use modelops_control_plane.Base.{ℕ, Bool, Option, List}
use modelops_control_plane.Status.{Status}
use modelops_control_plane.Store.Config.{PolicyConfig}

-- A version's share of traffic, in billionths: the weight 1.0 is 1000000000.
pub record Target : Type 0 where
  pub version : ℕ
  pub weight : ℕ

pub record TrafficAllocation : Type 0 where
  pub targets : List Target
  pub revision : ℕ

pub record Deployment : Type 0 where
  pub id : ℕ
  pub model_name : ℕ
  pub stable_version : ℕ
  pub canary_version : ℕ
  pub status : Status
  pub idempotency_key : Option ℕ
  pub policy_config : Option PolicyConfig
  pub inconclusive_retry_count : ℕ
  pub automation_paused : Bool
  pub created_at : ℕ
  pub started_at : Option ℕ
  pub completed_at : Option ℕ
  pub version_id : ℕ
  pub traffic_allocation : Option TrafficAllocation

pub data Trigger : Type 0 where
  manual automatic : Trigger

-- The reasons that a change of status gives in its message.
pub data Reason : Type 0 where
  starting_rollout receiving_traffic before_freezing : Reason
  before_promote promote_requested promoted_to_full : Trigger → Reason
  before_rollback rollback_requested back_to_stable : Trigger → Reason
  retries_exceeded : ℕ → Reason

-- An event's type and message: a constructor for each type, with what the message is built from.
pub data EventBody : Type 0 where
  created : ℕ → ℕ → ℕ → EventBody
  paused_at_creation : EventBody
  status_changed : Status → Status → Reason → EventBody
  automation_paused automation_resumed : Trigger → EventBody
  traffic_advanced inconclusive_cycle : ℕ → ℕ → EventBody
  router_unreachable router_recovered : EventBody
  router_reconciled : Option ℕ → ℕ → ℕ → ℕ → EventBody
  label_conflict : ℕ → ℕ → ℕ → EventBody

pub record DeploymentEvent : Type 0 where
  pub deployment_id : ℕ
  pub body : EventBody
  pub created_at : ℕ
