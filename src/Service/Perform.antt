-- ===== src/Service/Perform.antt =====
-- The six actions on a deployment, as the requests of one API.
pub mod Outcomes
pub mod Race
use modelops_control_plane.Base.{
  ℕ, ◌≡◌, refl, Bool, true, false, none, some, arith, Result, ok, err, Option,
}
use modelops_control_plane.Store.{Deployment, Trigger}
use modelops_control_plane.Router.{RouterSettings}
use modelops_control_plane.Gateway.{Delivery}
use modelops_control_plane.Service.Session.{ServiceError, Session, Engine}
use modelops_control_plane.Service.Reachability.{World, push_best_effort, record_reachability}
use modelops_control_plane.Service.Actions.{
  promote_deployment, rollback_deployment, advance_traffic, record_inconclusive, pause_automation,
  resume_automation, push_row,
}

pub data Action : Type 0 where
  promote rollback pause resume : Trigger → Action
  advance : Action
  inconclusive_cycle : ℕ → Action

module _ (engine : Engine) (settings : RouterSettings) (net : Delivery) (now : ℕ) where
  unfoldable pub perform : Action → Deployment → World → Result ServiceError Deployment × World
  perform (promote by) = promote_deployment engine settings net now by
  perform (rollback by) = rollback_deployment engine settings net now by
  perform advance = advance_traffic engine settings net now
  perform (inconclusive_cycle limit) = record_inconclusive engine now limit
  perform (pause by) = pause_automation engine now by
  perform (resume by) = resume_automation engine now by
