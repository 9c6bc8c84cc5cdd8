-- ===== src/Tests/Systems.antt =====
-- A rollout whose pushes are lost: the push of its creation arrives after the promotion, and the
-- reconciler then brings the router to the promoted version.
use modelops_control_plane.Base.{◌≡◌, ◌≢◌, ◌≤◌, refl, arith, none, some, [], ◌∷◌, inl}
use modelops_control_plane.Status.{canary_running, validate_transition}
use modelops_control_plane.Store.{TrafficAllocation, manual, default_settings}
use modelops_control_plane.Router.{
  RouterConfig, put_config, validate_targets, unknown_versions, resolve_base_url, find_host,
}
use modelops_control_plane.Router.Convergence.{IsPush}
use modelops_control_plane.Gateway.{lost, delivered}
use modelops_control_plane.Service.Query.{get_authoritative_allocation, get_active_deployment}
use modelops_control_plane.Service.Session.{
  generation_of, transition, set_traffic_allocation, commit,
}
use modelops_control_plane.Service.Reachability.{
  World, desired_config, push_best_effort, record_reachability, was_unreachable,
}
use modelops_control_plane.Service.Actions.{
  full_target, push_row, act_and_push, run_session, promote_deployment, promote_session,
  leave_canary_running,
}
use modelops_control_plane.Service.Create.{create_deployment, insert_session, start_session}
use modelops_control_plane.Service.Perform.{promote, perform}
use modelops_control_plane.Reconcile.{reconcile_router_state}
use modelops_control_plane.System.{Run, start, load, request, create, send, arrive}
use modelops_control_plane.System.Guarantees.{
  router_never_ahead, same_revision_same_config, tick_restores,
}
use modelops_control_plane.System.Register.{RegisterStep, register_of}
use modelops_control_plane.System.Register.Refines.{before_last, run_refines_register}
use modelops_control_plane.Tests.Samples.{
  engine, settings, idle_router, idle_world, row, ten_percent,
}
use modelops_control_plane.Tests.Samples
use modelops_control_plane.Tests.Rollouts.{promoted_row}

abbrev started_world : World
started_world =
    (create_deployment engine default_settings settings lost 0 5 none Samples.request idle_world.db
      idle_world).1

abbrev allocation : TrafficAllocation
allocation = record { targets = ten_percent; revision = 1 }

abbrev pub first_push : RouterConfig
first_push = desired_config (row canary_running) allocation

abbrev promoted_world : World
promoted_world =
    (perform engine settings lost 3 (promote manual) (row canary_running) started_world).1

abbrev late_world : World
late_world = record {
  db = promoted_world.db;
  router = (put_config settings first_push promoted_world.router).1;
}

late_run :
    Run engine settings default_settings late_world 4 (row canary_running ∷ []) (first_push ∷ [])
unfolding create_deployment insert_session start_session transition validate_transition
    set_traffic_allocation get_active_deployment commit push_row push_best_effort
    record_reachability was_unreachable unknown_versions resolve_base_url find_host validate_targets
    put_config get_authoritative_allocation perform promote_deployment act_and_push run_session
    promote_session leave_canary_running
late_run =
    arrive first_push
      (request lost 3 (promote manual) (row canary_running)
        (load 5 (row canary_running)
          (send 1 (row canary_running) allocation
            (create lost 0 5 none Samples.request idle_world.db (start idle_router refl) refl
              (omega arith))
            refl refl)
          refl)
        (inl refl) (omega arith))
      (inl refl)

abbrev promoted_allocation : TrafficAllocation
promoted_allocation = record { targets = full_target 2; revision = 2 }

late_desired :
    get_authoritative_allocation late_world.db late_world.router.model_name ≡ some promoted_row
unfolding create_deployment insert_session start_session transition validate_transition
    set_traffic_allocation get_active_deployment commit push_row push_best_effort
    record_reachability was_unreachable unknown_versions resolve_base_url find_host validate_targets
    put_config get_authoritative_allocation perform promote_deployment act_and_push run_session
    promote_session leave_canary_running
late_desired = refl

servable :
    IsPush settings late_world.router.model_name (desired_config promoted_row promoted_allocation)
unfolding create_deployment insert_session start_session transition validate_transition
    set_traffic_allocation get_active_deployment commit push_row push_best_effort
    record_reachability was_unreachable unknown_versions resolve_base_url find_host validate_targets
    put_config get_authoritative_allocation perform promote_deployment act_and_push run_session
    promote_session leave_canary_running
servable = record { of_model = refl; valid = refl; hosted = refl }

named : late_world.router.model_name ≢ 0
unfolding create_deployment insert_session start_session transition validate_transition
    set_traffic_allocation get_active_deployment commit push_row push_best_effort
    record_reachability was_unreachable unknown_versions resolve_base_url find_host validate_targets
    put_config get_authoritative_allocation perform promote_deployment act_and_push run_session
    promote_session leave_canary_running
named = λ e. cc

router_never_ahead_example :
    late_world.router.revision
    ≤ generation_of late_world.router.model_name late_world.db.generations
router_never_ahead_example =
    router_never_ahead engine settings default_settings late_world 4 (row canary_running ∷ [])
      (first_push ∷ []) late_run

tick_restores_example :
    (reconcile_router_state settings delivered delivered 9 late_world).1.router
    ≡ desired_config promoted_row promoted_allocation
tick_restores_example =
    tick_restores engine settings default_settings late_world 4 (row canary_running ∷ [])
      (first_push ∷ []) late_run 9 promoted_row promoted_allocation named late_desired refl servable

-- The world before the promotion, after the push of the creation has arrived.
abbrev pub served_world : World
served_world = record {
  db = started_world.db;
  router = (put_config settings first_push started_world.router).1;
}

pub served_run : Run engine settings default_settings served_world 1 [] (first_push ∷ [])
unfolding create_deployment insert_session start_session transition validate_transition
    set_traffic_allocation get_active_deployment commit push_row push_best_effort
    record_reachability was_unreachable unknown_versions resolve_base_url find_host validate_targets
    put_config get_authoritative_allocation perform promote_deployment act_and_push run_session
    promote_session leave_canary_running
served_run =
    arrive first_push
      (send 1 (row canary_running) allocation
        (create lost 0 5 none Samples.request idle_world.db (start idle_router refl) refl
          (omega arith))
        refl refl)
      (inl refl)

served_desired :
    get_authoritative_allocation served_world.db served_world.router.model_name
    ≡ some (row canary_running)
unfolding create_deployment insert_session start_session transition validate_transition
    set_traffic_allocation get_active_deployment commit push_row push_best_effort
    record_reachability was_unreachable unknown_versions resolve_base_url find_host validate_targets
    put_config get_authoritative_allocation perform promote_deployment act_and_push run_session
    promote_session leave_canary_running
served_desired = refl

served_revision : served_world.router.revision ≡ 1
unfolding create_deployment insert_session start_session transition validate_transition
    set_traffic_allocation get_active_deployment commit push_row push_best_effort
    record_reachability was_unreachable unknown_versions resolve_base_url find_host validate_targets
    put_config get_authoritative_allocation perform promote_deployment act_and_push run_session
    promote_session leave_canary_running
served_revision = refl

same_revision_same_config_example : served_world.router ≡ first_push
same_revision_same_config_example =
    same_revision_same_config engine settings default_settings served_world 1 [] (first_push ∷ [])
      served_run (row canary_running) allocation served_desired refl served_revision

run_refines_register_example :
    RegisterStep 1 (register_of idle_world.db 1) (register_of started_world.db 1)
unfolding before_last
run_refines_register_example =
    run_refines_register engine settings default_settings 1 (
      create lost 0 5 none Samples.request idle_world.db (start idle_router refl) refl
        (omega arith))
