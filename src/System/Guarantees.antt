-- ===== src/System/Guarantees.antt =====
-- What every run guarantees: the router is never ahead of the tables, it serves the desired state at
-- the current generation, and one tick of the reconciler brings it there.
use modelops_control_plane.Base.{
  ℕ, ◌≤◌, ◌≡◌, ◌≢◌, inl, inr, sym, ◌∙◌, subst, some, List, arith, Bool-cases, ltb,
}
use modelops_control_plane.Store.{Deployment, TrafficAllocation, PolicySettings}
use modelops_control_plane.Router.{RouterConfig, RouterSettings}
use modelops_control_plane.Gateway.{delivered}
use modelops_control_plane.Service.Query.{get_authoritative_allocation}
use modelops_control_plane.Service.Session.{Engine, generation_of}
use modelops_control_plane.Service.Reachability.{World, desired_config}
use modelops_control_plane.Service.Create.Started.{create_deployment-Creation}
use modelops_control_plane.Service.Perform.Outcomes.{perform-Outcome}
use modelops_control_plane.Gateway.Either.{put_config-either}
use modelops_control_plane.Service.Order.{newest_of}
use modelops_control_plane.Service.Order.Authoritative.{authoritative-newest_of}
use modelops_control_plane.Service.History.Copies.{IsCopy, Any-All}
use modelops_control_plane.Service.History.Invariant.{History-Holds}
use modelops_control_plane.Reconcile.{reconcile_router_state}
use modelops_control_plane.Api.Startup.{start_router-revision}
use modelops_control_plane.System.{
  Run, start, load, request, create, other_writer, send, arrive, tick, restart,
}
use modelops_control_plane.System.Messages.{IsPast}
use modelops_control_plane.System.Runs.{Run-History, still, Outcome-Step, Creation-Step}
use modelops_control_plane.System.Sync.{
  IsSynced, Any-IsPast, IsSynced-Step, zero-IsPast, sent-IsPast, tick-Step,
}
use modelops_control_plane.Reconcile.Corrects.{reconcile_corrects}
use modelops_control_plane.Router.Convergence.{IsPush}
use modelops_control_plane.Service.History.Guarantees.{authoritative_is_latest}

module _ (engine : Engine) (settings : RouterSettings) (policies : PolicySettings) where
  Run-IsSynced :
      {w : World} {clock : ℕ} {copies : List Deployment} {wire : List RouterConfig}
      → Run engine settings policies w clock copies wire
      → IsSynced engine settings policies w wire
  Run-IsSynced (start router zero_revision) = record {
    current = record { behind = omega (arith, zero_revision); latest = λ at d a e f. cc };
    on_wire = tt;
    counted = λ model d a e f. cc;
  }
  Run-IsSynced (load id d h found) = Run-IsSynced h
  Run-IsSynced (request {w} {clock} {copies} {wire} net now a d h held later) =
      let p = History-Holds engine settings policies (Run-History engine settings policies h) in
      let after =
        History-Holds engine settings policies
          (Run-History engine settings policies (request net now a d h held later)) in
      IsSynced-Step engine settings policies w _ wire
        (Outcome-Step engine settings policies net clock now copies a d w _
          (perform-Outcome engine settings net now a d w)
          (Any-All (IsCopy w.db.deployments) copies p.copies_ok held) later p after)
        (Run-IsSynced h)
  Run-IsSynced (create {w} {clock} {copies} {wire} net now id key q seen h fresh later) =
      let after =
        History-Holds engine settings policies
          (Run-History engine settings policies (create net now id key q seen h fresh later)) in
      IsSynced-Step engine settings policies w _ wire
        (Creation-Step engine settings policies net clock now id key q copies w _
          (create_deployment-Creation engine policies now id key q settings net seen w) after)
        (Run-IsSynced h)
  Run-IsSynced (other_writer {w} {wire = wire} w' h same router) =
      IsSynced-Step engine settings policies w w' wire
        (still engine settings policies w w' same router) (Run-IsSynced h)
  Run-IsSynced (send {w} {clock} model d a h e f) =
      let p = Run-IsSynced h in
      let holds = History-Holds engine settings policies (Run-History engine settings policies h) in
      record {
        current = p.current;
        on_wire = (
          sent-IsPast engine settings policies w.db clock model d a holds.consistent e f,
          p.on_wire,
        );
        counted = p.counted;
      }
  Run-IsSynced (arrive {w} {wire = wire} c h on) =
      let p = Run-IsSynced h in
      record {
        current = elim (put_config-either settings c w.router) [
          | inl kept ↦ subst (IsPast w.db) (sym kept) p.current
          | inr taken ↦
              subst (IsPast w.db) (sym taken)
                (Any-IsPast engine settings policies w.db wire p.on_wire on)
        ];
        on_wire = p.on_wire;
        counted = p.counted;
      }
  Run-IsSynced (tick {w} {clock} {wire = wire} get put now h) =
      let holds = History-Holds engine settings policies (Run-History engine settings policies h) in
      IsSynced-Step engine settings policies w _ wire
        (tick-Step engine settings policies get put now clock w holds.consistent) (Run-IsSynced h)
  Run-IsSynced (restart {w} {wire = wire} net router h starts) =
      let p = Run-IsSynced h in
      record {
        current =
            zero-IsPast engine settings policies w wire _ p
              (start_router-revision settings net w.db router starts);
        on_wire = p.on_wire;
        counted = p.counted;
      }

  module _ (w : World) (clock : ℕ) (copies : List Deployment) (wire : List RouterConfig)
      (run : Run engine settings policies w clock copies wire) where
    -- In every run, with messages lost, delayed, repeated and reordered, creations and requests on
    -- stale copies in between, and restarts of the router, the router's revision is at most the
    -- generation of its model.
    pub router_never_ahead : w.router.revision ≤ generation_of w.router.model_name w.db.generations
    router_never_ahead = let p = Run-IsSynced run in let current = p.current in current.behind

    -- In every run, a router whose revision is the one of its model's authoritative allocation has
    -- exactly the config which that allocation asks for.
    pub same_revision_same_config :
        (d : Deployment) (a : TrafficAllocation)
        → get_authoritative_allocation w.db w.router.model_name ≡ some d
        → d.traffic_allocation ≡ some a
        → w.router.revision ≡ a.revision
        → w.router ≡ desired_config d a
    same_revision_same_config d a desired allocated at =
        let p = Run-IsSynced run in
        let current = p.current in
        let h = Run-History engine settings policies run in
        let holds = History-Holds engine settings policies h in
        let newest : newest_of w.router.model_name w.db.deployments ≡ some d =
          sym (authoritative-newest_of w.db clock w.router.model_name holds.consistent) ∙ desired in
        let (stamped, _) =
          authoritative_is_latest engine settings policies w clock copies h w.router.model_name d
            desired in
        current.latest (ground arith) d a newest allocated

    -- In every run, one tick of the reconciler whose two requests reach the router leaves it with
    -- exactly what its model's authoritative allocation asks for, where the router's model is named
    -- and the allocation is one that the router can serve: well formed, with a host for each version.
    pub tick_restores :
        (now : ℕ) (d : Deployment) (a : TrafficAllocation)
        → w.router.model_name ≢ 0
        → get_authoritative_allocation w.db w.router.model_name ≡ some d
        → d.traffic_allocation ≡ some a
        → IsPush settings w.router.model_name (desired_config d a)
        → (reconcile_router_state settings delivered delivered now w).1.router ≡ desired_config d a
    tick_restores now d a named desired allocated push =
        let h = Run-History engine settings policies run in
        let (stamped, _) =
          authoritative_is_latest engine settings policies w clock copies h w.router.model_name d
            desired in
        let le = router_never_ahead in
        reconcile_corrects settings now w d a named desired allocated push
          (elim (Bool-cases (ltb w.router.revision a.revision)) [
            | inl newer ↦ inl (ground arith)
            | inr same ↦ inr (same_revision_same_config d a desired allocated (ground arith))
          ])
