-- ===== src/Reconcile/Corrects.antt =====
-- The reconciler brings the router to the desired state, and changes no desired state.
use modelops_control_plane.Base.{
  ℕ, ◌<◌, ◌≡◌, ◌≢◌, ◌⊎◌, inl, inr, refl, ap, true, false, some, List, [], ◌∷◌, arith, Option-cases,
  ◌==◌, ==_refl, if◌then◌else◌, ◌&&◌,
}
use modelops_control_plane.Store.{Db, Deployment, TrafficAllocation}
use modelops_control_plane.Router.{RouterConfig, RouterSettings, put_config, applied}
use modelops_control_plane.Router.Convergence.{IsPush}
use modelops_control_plane.Gateway.{Delivery, lost, reply_lost, delivered}
use modelops_control_plane.Service.Query.{get_authoritative_allocation}
use modelops_control_plane.Service.Reachability.{desired_config, World, record_reachability}
use modelops_control_plane.Service.Perform.Outcomes.{SameRows, record_reachability-SameRows}
use modelops_control_plane.Reconcile.{
  already_in_sync, corrected_drift, same_id, push_desired, reconcile_observed,
  reconcile_router_state, mark_unreachable,
}

put_config-answer :
    (s : RouterSettings) (config current : RouterConfig)
    → IsPush s current.model_name config
    → current.revision < config.revision
    → put_config s config current ≡ (applied, config)
unfolding put_config
put_config-answer s config current push newer = ground (arith, push.valid, push.hosted)

-- A push that is newer than what the router has ends with the router in the desired state.
push_desired-newer :
    (s : RouterSettings) (now : ℕ) (d : Deployment) (a : TrafficAllocation)
    (observed : RouterConfig) (w : World)
    → IsPush s w.router.model_name (desired_config d a)
    → w.router.revision < a.revision
    → ((push_desired s delivered now d a observed w).1.router ≡ desired_config d a)
      × ((push_desired s delivered now d a observed w).0.reason ≡ corrected_drift)
unfolding push_desired
push_desired-newer s now d a observed w push newer =
    ground (arith, put_config-answer s (desired_config d a) w.router push newer)

module _ (s : RouterSettings) (now : ℕ) (w : World) (d : Deployment) (a : TrafficAllocation)
    (named : w.router.model_name ≢ 0)
    (desired : get_authoritative_allocation w.db w.router.model_name ≡ some d)
    (allocated : d.traffic_allocation ≡ some a)
    (push : IsPush s w.router.model_name (desired_config d a))
    (behind : (w.router.revision < a.revision) ⊎ (w.router ≡ desired_config d a)) where
  abbrev reached : World
  reached = record w { db = record_reachability now d.id true w.db }

  -- Where both requests of a tick reach the router, whose model is named, which can serve the
  -- targets of the model's authoritative allocation, and which has a lower revision or exactly the
  -- desired config, the tick leaves it with exactly the desired config.
  pub reconcile_corrects :
      (reconcile_router_state s delivered delivered now w).1.router ≡ desired_config d a
  unfolding reconcile_router_state reconcile_observed
  reconcile_corrects = elim behind [
    | inl newer ↦ ground (arith, push_desired-newer s now d a w.router reached push newer)
    | inr same ↦
        let id : w.router.deployment_id ≡ some (d.id) = ap (λ c. c.deployment_id) same in
        let revision : w.router.revision ≡ a.revision = ap (λ c. c.revision) same in
        ground (arith, ==_refl d.id)
  ]

  -- Where both requests of a tick reach the router, whose model is named, which can serve the
  -- targets of the model's authoritative allocation, and which has a lower revision or exactly the
  -- desired config, the tick reports `already in sync` where deployment and revision are the
  -- desired ones, and a correction otherwise.
  pub reconcile_reports :
      ((reconcile_router_state s delivered delivered now w).0.reason ≡ (
        if same_id w.router.deployment_id d.id && w.router.revision == a.revision
        then already_in_sync
        else corrected_drift))
  unfolding reconcile_router_state reconcile_observed
  reconcile_reports = elim behind [
    | inl newer ↦ ground (arith, push_desired-newer s now d a w.router reached push newer)
    | inr same ↦
        let id : w.router.deployment_id ≡ some (d.id) = ap (λ c. c.deployment_id) same in
        let revision : w.router.revision ≡ a.revision = ap (λ c. c.revision) same in
        ground (arith, ==_refl d.id)
  ]

mark_unreachable-SameRows :
    (now : ℕ) (ds : List Deployment) (db : Db) → SameRows db (mark_unreachable now ds db)
unfolding mark_unreachable
mark_unreachable-SameRows now [] db = record { deployments = refl; generations = refl }
mark_unreachable-SameRows now (d ∷ ds) db = ground (
  arith,
  record_reachability-SameRows now d.id false db,
  mark_unreachable-SameRows now ds (record_reachability now d.id false db),
)

push_desired-SameRows :
    (s : RouterSettings) (put : Delivery) (now : ℕ) (d : Deployment) (a : TrafficAllocation)
    (observed : RouterConfig) (w : World)
    → SameRows w.db (push_desired s put now d a observed w).1.db
unfolding push_desired
push_desired-SameRows s put now d a observed w =
    ground (arith, record_reachability-SameRows now d.id false w.db)

reconcile_observed-SameRows :
    (s : RouterSettings) (put : Delivery) (now : ℕ) (observed : RouterConfig) (w : World)
    → SameRows w.db (reconcile_observed s put now observed w).1.db
unfolding reconcile_observed
reconcile_observed-SameRows s put now observed w =
    elim (Option-cases (get_authoritative_allocation w.db observed.model_name)) [
      | inl e ↦ ground arith
      | inr (d, e) ↦ elim (Option-cases (d.traffic_allocation)) [
        | inl f ↦ ground arith
        | inr (a, f) ↦
            let reached : World = record w { db = record_reachability now d.id true w.db } in
            ground (
              arith,
              record_reachability-SameRows now d.id true w.db,
              push_desired-SameRows s put now d a observed reached,
            )
      ]
    ]

-- Whatever the network does, a tick changes no deployment, no allocation and no generation: it
-- moves the router to the desired state and never the other way round.
pub reconcile-SameRows :
    (s : RouterSettings) (get put : Delivery) (now : ℕ) (w : World)
    → SameRows w.db (reconcile_router_state s get put now w).1.db
unfolding reconcile_router_state
reconcile-SameRows s lost put now w = mark_unreachable-SameRows now _ w.db
reconcile-SameRows s reply_lost put now w = mark_unreachable-SameRows now _ w.db
reconcile-SameRows s delivered put now w = reconcile_observed-SameRows s put now w.router w
