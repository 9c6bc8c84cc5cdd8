-- ===== src/Tests/Creations.antt =====
-- A creation that is sent again with its key, after a reply that was lost and the promotion of the
-- deployment that it made, by a request whose own reads are from before the first one.
use modelops_control_plane.Base.{◌≡◌, refl, arith, false, some, ok, inl, [], ◌∷◌}
use modelops_control_plane.Store.{Deployment, default_settings, manual}
use modelops_control_plane.Status.{canary_running, validate_transition}
use modelops_control_plane.Gateway.{lost, delivered}
use modelops_control_plane.Service.Query.{get_active_deployment, find_by_idempotency_key}
use modelops_control_plane.Service.Session.{transition, set_traffic_allocation, commit}
use modelops_control_plane.Service.Reachability.{
  World, push_best_effort, record_reachability, was_unreachable,
}
use modelops_control_plane.Service.Actions.{push_row}
use modelops_control_plane.Service.Create.{create_deployment, insert_session, start_session}
use modelops_control_plane.Service.Create.Started.{was_created}
use modelops_control_plane.Service.Perform.{promote, perform}
use modelops_control_plane.Service.History.{History, start, load, request, create}
use modelops_control_plane.Service.History.Keys.{IsMade, create_deployment_once}
use modelops_control_plane.Tests.Samples.{engine, settings, idle_router, idle_world, row}
use modelops_control_plane.Tests.Samples

abbrev keyed_row : Deployment
keyed_row = record (row canary_running) { idempotency_key = some 77 }

abbrev after_creation : World
after_creation =
    (create_deployment engine default_settings settings lost 0 5 (some 77) Samples.request
      idle_world.db idle_world).1

abbrev after_promotion : World
after_promotion = (perform engine settings lost 3 (promote manual) keyed_row after_creation).1

promoted_since : History engine settings default_settings after_promotion 4 (keyed_row ∷ [])
unfolding create_deployment insert_session start_session transition validate_transition
    set_traffic_allocation get_active_deployment find_by_idempotency_key commit push_row
    push_best_effort record_reachability was_unreachable
promoted_since =
    request lost 3 (promote manual) keyed_row
      (load 5 keyed_row
        (create lost 0 5 (some 77) Samples.request idle_world.db (start idle_router) refl
          (omega arith))
        refl)
      (inl refl) (omega arith)

made : IsMade engine settings default_settings 77 5 promoted_since
unfolding IsMade promoted_since create_deployment insert_session start_session transition
    validate_transition set_traffic_allocation get_active_deployment find_by_idempotency_key commit
made = inl (refl, refl, refl)

create_deployment_once_example :
    ((create_deployment engine default_settings settings delivered 9 6
        (some 77)
        Samples.request
        idle_world.db
        after_promotion).1
      ≡ after_promotion)
    × (was_created
          (create_deployment engine default_settings settings delivered 9 6
            (some 77)
            Samples.request
            idle_world.db
            after_promotion).0
        ≡ false)
    × ((d : Deployment) × (d.id ≡ 5)
        × (create_deployment engine default_settings settings delivered 9 6
              (some 77)
              Samples.request
              after_promotion.db
              after_promotion
            ≡ (ok (d, false), after_promotion)))
create_deployment_once_example =
    create_deployment_once engine settings default_settings promoted_since 77 5 (λ e. cc) made
      delivered 9 6 Samples.request idle_world.db
