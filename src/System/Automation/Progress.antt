-- ===== src/System/Automation/Progress.antt =====
-- How a rollout ends under verdicts that do not change: the worker's turns
-- (backend/app/worker/loop.py) on the control plane's actions (backend/app/control_plane/service.py).
use modelops_control_plane.Base.{
  ℕ, zero, suc, ◌+◌, ◌≡◌, sym, ap, ◌∙◌, subst, inl, inr, Bool, true, false, Result-cases, Option,
  some, [], arith, ok, is_ok,
}
use modelops_control_plane.Store.{Db, Deployment, PolicyEvaluationResult, PolicySettings}
use modelops_control_plane.Router.{RouterSettings}
use modelops_control_plane.Gateway.{Delivery}
use modelops_control_plane.Service.Query.{find_row}
use modelops_control_plane.Service.Session.{Session, Engine, commit}
use modelops_control_plane.Service.Rows.{find_row-id}
use modelops_control_plane.Service.Locking.{run_session-Committed}
use modelops_control_plane.Service.Reachability.{World}
use modelops_control_plane.Service.Actions.{
  run_session, act, act_and_push, promote_deployment, rollback_deployment, advance_traffic,
  record_inconclusive,
}
use modelops_control_plane.Service.Actions.Effects.{is_active}
use modelops_control_plane.Service.Perform.{Action, promote, rollback, advance, perform}
use modelops_control_plane.Service.Perform
use modelops_control_plane.Service.Perform.Outcomes.{
  session_of, session_of-Keeps, push_row-SameRows,
}
use modelops_control_plane.Worker.{
  WorkerClient, Line, reply, decide_action, canary_at_full_traffic, process_deployment,
  evaluate_and_act,
}
use modelops_control_plane.Api.{handle, action_of}
use modelops_control_plane.Api.Reads.{get_deployment}
use modelops_control_plane.System.Automation.{Plant, call_of, on_action, http_worker_client}

-- The actions of the worker.
abbrev by_worker : Action → Bool
by_worker (Perform.pause by) = false
by_worker (Perform.resume by) = false
by_worker _ = true

module _ (engine : Engine) where
  commit-accepts :
      (s : Session) (stored : Deployment)
      → find_row s.row.id s.db.deployments ≡ some stored
      → s.row.version_id ≡ stored.version_id
      → is_ok (commit engine s) ≡ true
  unfolding commit
  commit-accepts s stored found same =
      let law = (engine.update_matches_iff s.row.version_id stored.version_id).1 same in
      ground arith

  -- On the row as it stands in the table, a change that is accepted is committed.
  run_session-lands :
      (now : ℕ) (a : Action) (db : Db) (d : Deployment) (s : Session)
      → find_row d.id db.deployments ≡ some d
      → session_of now a (record { row = d; db = db }) ≡ ok s
      → (s' : Session) × (run_session engine (session_of now a) db d ≡ ok s')
        × (s'.row ≡ record s.row { version_id = d.version_id + 1 })
        × (find_row d.id s'.db.deployments ≡ some (s'.row))
  unfolding run_session
  run_session-lands now a db d s found accepted =
      let kept = session_of-Keeps now a (record { row = d; db = db }) s accepted in
      let same_id = kept.same_id in
      let same_rows = kept.same_deployments in
      let there : find_row s.row.id s.db.deployments ≡ some d = rw same_id (rw same_rows found) in
      let done = commit-accepts s d there kept.same_version in
      elim (Result-cases (commit engine s)) [
        | inr (e, q) ↦ absurd (ground arith)
        | inl (s', q) ↦
            let ran : run_session engine (session_of now a) db d ≡ ok s' = rw accepted q in
            let c =
              run_session-Committed engine (session_of now a) db d (session_of-Keeps now a) ran in
            let first : c.changed ≡ s = ground (arith, c.accepted) in
            let row_is = c.row_is in (s', ran, ground arith, c.found_after)
      ]

  perform-deployments :
      (settings : RouterSettings) (net : Delivery) (now : ℕ) (a : Action) (d : Deployment)
      (w : World) (s : Session)
      → by_worker a ≡ true
      → run_session engine (session_of now a) w.db d ≡ ok s
      → (perform engine settings net now a d w).1.db.deployments ≡ s.db.deployments
  unfolding perform promote_deployment rollback_deployment advance_traffic record_inconclusive act
      act_and_push
  perform-deployments settings net now (promote by) d w s ours ran =
      let pushed = push_row-SameRows engine settings net now s w in
      let rows = pushed.deployments in ground arith
  perform-deployments settings net now (rollback by) d w s ours ran =
      let pushed = push_row-SameRows engine settings net now s w in
      let rows = pushed.deployments in ground arith
  perform-deployments settings net now advance d w s ours ran =
      let pushed = push_row-SameRows engine settings net now s w in
      let rows = pushed.deployments in ground arith
  perform-deployments settings net now (Perform.inconclusive_cycle limit) d w s ours ran =
      ground arith
  perform-deployments settings net now (Perform.pause by) d w s ours ran = absurd (ground arith)
  perform-deployments settings net now (Perform.resume by) d w s ours ran = absurd (ground arith)

module _ (engine : Engine) (policies : PolicySettings) (settings : RouterSettings)
    (net : ℕ → Delivery) (now default : ℕ) where
  -- The worker's client, where every evaluation is due and has the same verdict.
  abbrev pub steady : PolicyEvaluationResult → WorkerClient Plant
  steady verdict = record (http_worker_client engine policies settings net) {
    on_get_policy_evaluations = λ id p. (reply [], p);
    on_evaluate = λ id p. (reply verdict, p);
  }

  -- Some turns of one deployment, one after another.
  abbrev pub turns : PolicyEvaluationResult → ℕ → (id : ℕ) → Line Plant → Line Plant
  turns verdict zero id line = line
  turns verdict (suc n) id line =
      turns verdict n id (process_deployment (steady verdict) now default id line).1

  abbrev pub row_in : ℕ → Line Plant → Option Deployment
  row_in id line = find_row id line.there.world.db.deployments

  turn-action :
      (verdict : PolicyEvaluationResult) (id : ℕ) (line : Line Plant) (d : Deployment)
      → row_in id line ≡ some d
      → is_active d.status ≡ true
      → (process_deployment (steady verdict) now default id line).1.there
        ≡ (on_action engine policies settings net
            (decide_action verdict (canary_at_full_traffic d))
            id
            line.there).1
  unfolding process_deployment evaluate_and_act get_deployment
  turn-action verdict id line d found active = ground arith

  pub turn-idle :
      (verdict : PolicyEvaluationResult) (id : ℕ) (line : Line Plant) (d : Deployment)
      → row_in id line ≡ some d
      → is_active d.status ≡ false
      → (process_deployment (steady verdict) now default id line).1.there ≡ line.there
  unfolding process_deployment get_deployment
  turn-idle verdict id line d found idle = ground arith

  -- A row that is not active stays as it is.
  pub turns-idle :
      (verdict : PolicyEvaluationResult) (n id : ℕ) (line : Line Plant) (d : Deployment)
      → row_in id line ≡ some d
      → is_active d.status ≡ false
      → row_in id (turns verdict n id line) ≡ some d
  turns-idle verdict zero id line d found idle = found
  turns-idle verdict (suc n) id line d found idle =
      let next = (process_deployment (steady verdict) now default id line).1 in
      let same = turn-idle verdict id line d found idle in
      turns-idle verdict n id next d
        (ap (λ (x : Plant). find_row id x.world.db.deployments) same ∙ found) idle

  ours :
      (verdict : PolicyEvaluationResult) (d : Deployment)
      → by_worker
          (action_of policies d (call_of (decide_action verdict (canary_at_full_traffic d))))
        ≡ true
  unfolding decide_action
  ours verdict d = ground arith

  -- A turn whose action is accepted writes the row that the action makes.
  pub turn-lands :
      (verdict : PolicyEvaluationResult) (id : ℕ) (line : Line Plant) (d : Deployment) (s : Session)
      → row_in id line ≡ some d
      → is_active d.status ≡ true
      → let a = action_of policies d (call_of (decide_action verdict (canary_at_full_traffic d))) in
        session_of line.there.clock a (record { row = d; db = line.there.world.db }) ≡ ok s
        → (d' : Deployment) × (row_in id (process_deployment (steady verdict) now default id line).1
            ≡ some d')
          × (d' ≡ record s.row { version_id = d.version_id + 1 })
  unfolding on_action handle
  turn-lands verdict id line d s found active accepted =
      let p = line.there in
      let action = decide_action verdict (canary_at_full_traffic d) in
      let a = action_of policies d (call_of action) in
      let named : d.id ≡ id = find_row-id id p.world.db.deployments found in
      let found' : find_row d.id p.world.db.deployments ≡ some d =
        subst (λ i. find_row i p.world.db.deployments ≡ some d) (sym named) found in
      let (s', ran, row, after) =
        run_session-lands engine p.clock a p.world.db d s found' accepted in
      let rows =
        perform-deployments engine settings (net p.clock) p.clock a d p.world s' (ours verdict d)
          ran in
      let done = turn-action verdict id line d found active in
      let acted : (on_action engine policies settings net action id p).1.world
          ≡ (perform engine settings (net p.clock) p.clock a d p.world).1 =
        ground arith in
      (
        s'.row,
        ap (λ (x : Plant). find_row id x.world.db.deployments) done
            ∙ ap (λ (x : World). find_row id x.db.deployments) acted
            ∙ ap (find_row id) rows
            ∙ subst (λ i. find_row i s'.db.deployments ≡ some (s'.row)) named after,
        row,
      )
