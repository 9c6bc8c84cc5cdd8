-- ===== src/Tests/Rollouts.antt =====
-- Rollouts: the life of a status, the actions on a row, two requests at once, a history.
use modelops_control_plane.Base.{
  suc, ◌≤◌, ◌<◌, ◌≡◌, refl, arith, none, some, [], ◌∷◌, ok, All, Any, inl, count, ◌+◌,
}
use modelops_control_plane.Status.{
  pending, canary_running, promoted, validate_transition, deploying,
}
use modelops_control_plane.Status.Lifecycle.{Life, here, then, progress, Life-bounded}
use modelops_control_plane.Store.{
  Deployment, manual, automatic, default_settings, TrafficAllocation, traffic_advanced,
}
use modelops_control_plane.Router.{
  sum_weights, unknown_versions, resolve_base_url, find_host, validate_targets, put_config,
}
use modelops_control_plane.Gateway.{delivered, lost}
use modelops_control_plane.Service.Query.{
  current_canary_weight, get_authoritative_allocation, get_active_deployment,
}
use modelops_control_plane.Service.Session.{
  Session, in_flight, generation_of, transition, set_traffic_allocation, require_active, commit,
}
use modelops_control_plane.Service.Actions.{
  traffic_stages, full, full_target, act_and_push, run_session, promote_deployment, push_row,
  next_stage, advance_session, promote_session, leave_canary_running,
}
use modelops_control_plane.Service.Actions.Ramp.{stages_left, advance_session-ramps}
use modelops_control_plane.Service.Create.{create_deployment, insert_session, start_session}
use modelops_control_plane.Service.Perform.{promote, rollback, perform}
use modelops_control_plane.Service.Perform.Race.{second_writer_loses}
use modelops_control_plane.Service.Order.{revision_of}
use modelops_control_plane.Service.History.{History, start, create, load, request}
use modelops_control_plane.Service.History.Guarantees.{one_in_flight, authoritative_is_latest}
use modelops_control_plane.Service.Reachability.{
  World, push_best_effort, record_reachability, was_unreachable,
}
use modelops_control_plane.Tests.Samples.{
  engine, settings, idle_router, idle_world, row, running_db, running_world,
}
use modelops_control_plane.Tests.Samples

abbrev pub started_world : World
started_world =
    (create_deployment engine default_settings settings delivered 0 5 none Samples.request
      idle_world.db idle_world).1

abbrev pub promoted_world : World
promoted_world =
    (perform engine settings lost 3 (promote manual) (row canary_running) started_world).1

abbrev pub promoted_row : Deployment
promoted_row = record (row promoted) {
  version_id = 3;
  completed_at = some 3;
  traffic_allocation = some (record { targets = full_target 2; revision = 2 });
}

-- One creation, and a promotion by a request that has loaded the row before; its push is lost.
promoted_history :
    History engine settings default_settings promoted_world 4 (row canary_running ∷ [])
unfolding create_deployment insert_session start_session transition validate_transition
    set_traffic_allocation get_active_deployment commit push_row push_best_effort
    record_reachability was_unreachable unknown_versions resolve_base_url find_host validate_targets
    put_config
promoted_history =
    request lost 3 (promote manual) (row canary_running)
      (load 5 (row canary_running)
        (create delivered 0 5 none Samples.request idle_world.db (start idle_router) refl
          (omega arith))
        refl)
      (inl refl) (omega arith)

-- After it, the promoted row is the authoritative one, with the higher generation.
pub promoted_authoritative : get_authoritative_allocation promoted_world.db 1 ≡ some promoted_row
unfolding create_deployment insert_session start_session transition validate_transition
    set_traffic_allocation get_active_deployment commit push_row push_best_effort
    record_reachability was_unreachable unknown_versions resolve_base_url find_host validate_targets
    put_config get_authoritative_allocation perform promote_deployment act_and_push run_session
    promote_session leave_canary_running
promoted_authoritative = refl

authoritative_is_latest_example :
    (revision_of promoted_row ≡ generation_of 1 promoted_world.db.generations)
    × All
        (λ e. e.model_name ≡ 1 → revision_of e ≤ revision_of promoted_row)
        promoted_world.db.deployments
authoritative_is_latest_example =
    authoritative_is_latest engine settings default_settings promoted_world 4
      (row canary_running ∷ []) promoted_history 1 promoted_row promoted_authoritative

one_in_flight_example : count (in_flight 1) promoted_world.db.deployments ≤ 1
one_in_flight_example =
    one_in_flight engine settings default_settings promoted_world 4 (row canary_running ∷ [])
      promoted_history 1

-- The first request promotes; the second one rolls back the same copy of the row.
abbrev after_first : World
after_first =
    (perform engine settings delivered 3 (promote manual) (row canary_running) running_world).1

first_promotes :
    perform engine settings delivered 3 (promote manual) (row canary_running) running_world
    ≡ (ok promoted_row, after_first)
unfolding transition validate_transition set_traffic_allocation commit perform promote_deployment
    act_and_push run_session promote_session leave_canary_running
first_promotes = refl

second_writer_loses_example :
    (perform engine settings lost 4 (rollback automatic) (row canary_running) after_first).1
    ≡ after_first
second_writer_loses_example =
    second_writer_loses engine settings delivered lost 3 4 (promote manual) (rollback automatic)
      (row canary_running) promoted_row running_world after_first first_promotes (λ e. cc)

abbrev session : Session
session = record { row = row canary_running; db = running_db }

abbrev advanced : Session
advanced = record {
  row = record (row canary_running) {
    traffic_allocation = some (record {
      targets =
          record { version = 1; weight = 750000000 }
          ∷ record { version = 2; weight = 250000000 }
          ∷ [];
      revision = 2;
    });
  };
  db = record running_db {
    generations = (1, 2) ∷ [];
    events =
        record { deployment_id = 5; body = traffic_advanced 100000000 250000000; created_at = 3 }
        ∷ [];
  };
}

advances : advance_session 3 session ≡ ok advanced
unfolding advance_session require_active set_traffic_allocation current_canary_weight next_stage
advances = refl

advance_session-ramps_example :
    (current_canary_weight session.row < current_canary_weight advanced.row)
    × Any (λ w. w ≡ current_canary_weight advanced.row) traffic_stages
    × (suc (stages_left (current_canary_weight advanced.row))
        ≤ stages_left (current_canary_weight session.row))
    × ((a : TrafficAllocation) × (advanced.row.traffic_allocation ≡ some a)
        × (sum_weights a.targets ≡ full))
    × (advanced.row.inconclusive_retry_count ≡ session.row.inconclusive_retry_count)
advance_session-ramps_example = advance_session-ramps 3 session advanced advances (λ e. cc)

short-Life : Life pending 2 canary_running
unfolding validate_transition
short-Life = then {t = deploying} refl (then {t = canary_running} refl (here canary_running))

Life-bounded_example : progress pending + 2 ≤ progress canary_running
Life-bounded_example = Life-bounded pending canary_running 2 short-Life
