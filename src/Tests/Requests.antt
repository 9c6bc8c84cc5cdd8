-- ===== src/Tests/Requests.antt =====
-- Requests that the API refuses, and a router that starts in the middle of a rollout.
use modelops_control_plane.Base.{ℕ, ◌≡◌, ◌⊎◌, refl, arith, some, [], ◌∷◌, err}
use modelops_control_plane.Status.{promoted, validate_transition}
use modelops_control_plane.Store.{Db, manual, default_settings}
use modelops_control_plane.Router.{
  RouterConfig, put_config, applied, validate_targets, unknown_versions, resolve_base_url,
  find_host,
}
use modelops_control_plane.Gateway.{delivered}
use modelops_control_plane.Service.Session.{transition}
use modelops_control_plane.Service.Actions.{
  promote_deployment, act_and_push, run_session, promote_session, leave_canary_running,
}
use modelops_control_plane.Service.Perform.{perform}
use modelops_control_plane.Service.Reachability.{World}
use modelops_control_plane.Api.{
  promote, handle, start_router, fetch_control_plane_allocation, get_router_config,
}
use modelops_control_plane.Service.Query.{get_authoritative_allocation}
use modelops_control_plane.Tests.Samples.{ten_percent}
use modelops_control_plane.Router.{to_router_config}
use modelops_control_plane.Api.Refusals.{refusals_are_clean}
use modelops_control_plane.Api.Startup.{start_router-accepts}
use modelops_control_plane.Tests.Samples.{engine, settings, row, running_db, running_world}

abbrev promoted_db : Db
promoted_db = record running_db { deployments = row promoted ∷ [] }

abbrev promoted_world : World
promoted_world = record running_world { db = promoted_db }

abbrev conflict : ℕ
conflict = 409

promoted_twice :
    (handle engine default_settings settings delivered 8
      (promote manual)
      5
      promoted_db
      promoted_world).0
    ≡ err conflict
unfolding handle perform promote_deployment act_and_push run_session promote_session
    leave_canary_running transition validate_transition
promoted_twice = refl

refusals_are_clean_example :
    ((conflict ≡ 404) ⊎ (conflict ≡ 409))
    × ((handle engine default_settings settings delivered 8
          (promote manual)
          5
          promoted_db
          promoted_world).1
        ≡ promoted_world)
refusals_are_clean_example =
    refusals_are_clean engine default_settings settings delivered 8 (promote manual) 5 conflict
      promoted_db promoted_world promoted_twice

-- A push of an older rollout, delayed until the router has restarted.
abbrev old_push : RouterConfig
old_push = record {
  model_name = 1;
  targets = record { version = 2; weight = 1000000000 } ∷ [];
  deployment_id = some 3;
  revision = 1;
}

abbrev synced : RouterConfig
synced = record { model_name = 1; targets = ten_percent; deployment_id = some 5; revision = 0 }

synced_at_start : start_router settings delivered running_db ≡ some synced
unfolding start_router fetch_control_plane_allocation get_router_config to_router_config
    validate_targets get_authoritative_allocation
synced_at_start = refl

start_router-accepts_example : put_config settings old_push synced ≡ (applied, old_push)
unfolding validate_targets unknown_versions resolve_base_url find_host
start_router-accepts_example =
    start_router-accepts settings delivered running_db old_push synced synced_at_start refl refl
      (omega arith)
