-- ===== src/Service/Reachability.antt =====
-- What follows a commit: the push to the router, which never raises, and the events that say when
-- the router becomes unreachable and when it recovers (`record_router_reachability_change` and
-- `_push_best_effort` of backend/app/control_plane/service.py).
use modelops_control_plane.Base.{
  ℕ, Bool, true, false, ◌&&◌, not, none, some, List, ◌∷◌, where_, first_by, leb, ◌==◌,
  if◌then◌else◌,
}
use modelops_control_plane.Store.{
  Db, EventBody, router_unreachable, router_recovered, DeploymentEvent, Target, Deployment,
  TrafficAllocation,
}
use modelops_control_plane.Router.{RouterConfig, RouterSettings}
use modelops_control_plane.Gateway.{
  Delivery, pushed, stale_revision_error, router_update_error, push_traffic_allocation,
}

-- The tables, and what the router's store holds.
pub record World : Type 0 where
  pub db : Db
  pub router : RouterConfig

abbrev pub is_reachability : EventBody → Bool
is_reachability router_unreachable = true
is_reachability router_recovered = true
is_reachability _ = false

abbrev pub is_unreachable : EventBody → Bool
is_unreachable router_unreachable = true
is_unreachable _ = false

abbrev pub by_event_time : DeploymentEvent → DeploymentEvent → Bool
by_event_time a b = leb b.created_at a.created_at

abbrev pub reachability_of : ℕ → DeploymentEvent → Bool
reachability_of id e = (e.deployment_id == id) && is_reachability e.body

-- The last of the two kinds of event of a deployment says that the router is out of reach.
unfoldable pub was_unreachable : List DeploymentEvent → ℕ → Bool
was_unreachable events id = elim (first_by by_event_time (where_ (reachability_of id) events)) [
  | none ↦ false
  | some last ↦ is_unreachable last.body
]

abbrev pub reachability_event : ℕ → ℕ → Bool → DeploymentEvent
reachability_event now id reachable = record {
  deployment_id = id;
  body = if reachable then router_recovered else router_unreachable;
  created_at = now;
}

abbrev pub bool_eq : Bool → Bool → Bool
bool_eq true b = b
bool_eq false b = not b

-- `record_router_reachability_change`
unfoldable pub record_reachability : ℕ → ℕ → Bool → Db → Db
record_reachability now id reachable db =
    if bool_eq reachable (was_unreachable db.events id)
    then record db { events = reachability_event now id reachable ∷ db.events }
    else db

-- The config that a row's allocation asks the router to serve.
abbrev pub desired_config : Deployment → TrafficAllocation → RouterConfig
desired_config d a = record {
  model_name = d.model_name;
  targets = a.targets;
  deployment_id = some (d.id);
  revision = a.revision;
}

-- `_push_best_effort`
unfoldable pub push_best_effort :
    RouterSettings → Delivery → ℕ → (model id revision : ℕ) → List Target → World → World
push_best_effort settings net now model id revision targets w =
    let body : RouterConfig = record {
      model_name = model;
      targets = targets;
      deployment_id = some id;
      revision = revision;
    } in
    let (outcome, router) = push_traffic_allocation settings net body w.router in
    elim outcome [
      | pushed ↦ record { db = record_reachability now id true w.db; router = router }
      | stale_revision_error ↦ record { db = record_reachability now id true w.db; router = router }
      | router_update_error ↦ record { db = record_reachability now id false w.db; router = router }
    ]
