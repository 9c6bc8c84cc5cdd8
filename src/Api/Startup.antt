-- ===== src/Api/Startup.antt =====
-- A router that has just started (`_fetch_control_plane_allocation` of backend/app/router/main.py).
use modelops_control_plane.Base.{
  ◌≡◌, ◌<◌, ℕ, true, some, [], arith, Option-cases, Bool-cases, inl, inr,
}
use modelops_control_plane.Store.{Db, Deployment, TrafficAllocation}
use modelops_control_plane.Router.{
  RouterConfig, RouterSettings, validate_targets, unknown_versions, put_config, applied,
  to_router_config,
}
use modelops_control_plane.Gateway.{Delivery, delivered, lost, reply_lost}
use modelops_control_plane.Service.Query.{get_authoritative_allocation}
use modelops_control_plane.Api.{get_router_config, fetch_control_plane_allocation, start_router}

-- Where the control plane answers, a router starts with the targets and the deployment of its model's
-- authoritative allocation, if these targets and its initial ones are valid.
pub start_router-serves :
    (s : RouterSettings) (db : Db) (d : Deployment) (a : TrafficAllocation)
    → get_authoritative_allocation db s.model_name ≡ some d
    → d.traffic_allocation ≡ some a
    → validate_targets a.targets ≡ true
    → validate_targets s.initial_targets ≡ true
    → start_router s delivered db
      ≡ some (record {
        model_name = s.model_name;
        targets = a.targets;
        deployment_id = some (d.id);
        revision = 0;
      })
unfolding start_router fetch_control_plane_allocation get_router_config to_router_config
start_router-serves s db d a desired allocated valid initial = ground arith

fetched-revision :
    (net : Delivery) (db : Db) (model : ℕ) (config : RouterConfig)
    → fetch_control_plane_allocation net db model ≡ some config
    → config.revision ≡ 0
unfolding fetch_control_plane_allocation get_router_config
fetched-revision lost db model config h = absurd (ground arith)
fetched-revision reply_lost db model config h = absurd (ground arith)
fetched-revision delivered db model config h =
    elim (Option-cases (get_authoritative_allocation db model)) [
      | inl e ↦ absurd (ground arith)
      | inr (d, e) ↦ elim (Option-cases d.traffic_allocation) [
        | inl f ↦ absurd (ground arith)
        | inr (a, f) ↦ elim (Bool-cases (validate_targets a.targets)) [
          | inl v ↦ ground arith
          | inr v ↦ absurd (ground arith)
        ]
      ]
    ]

pub start_router-revision :
    (s : RouterSettings) (net : Delivery) (db : Db) (config : RouterConfig)
    → start_router s net db ≡ some config
    → config.revision ≡ 0
unfolding start_router to_router_config
start_router-revision s net db config h = elim (Bool-cases (validate_targets s.initial_targets)) [
  | inr q ↦ absurd (ground arith)
  | inl q ↦ elim (Option-cases (fetch_control_plane_allocation net db s.model_name)) [
    | inl e ↦ ground arith
    | inr (fetched, e) ↦
        let zero_revision = fetched-revision net db s.model_name fetched e in ground arith
  ]
]

-- However a router has started, if it could, it applies any well-formed push with hosts for its versions
-- and a revision above 0, whatever the generation of the allocation that it has synced: the sync
-- carries no revision to compare with.
pub start_router-accepts :
    (s : RouterSettings) (net : Delivery) (db : Db) (config current : RouterConfig)
    → start_router s net db ≡ some current
    → validate_targets config.targets ≡ true
    → unknown_versions s config.targets ≡ []
    → 0 < config.revision
    → put_config s config current ≡ (applied, config)
unfolding put_config
start_router-accepts s net db config current starts valid hosted positive =
    let zero_revision = start_router-revision s net db current starts in ground arith
