-- ===== src/Api/Refusals.antt =====
-- What a handler of backend/app/control_plane/api.py answers where it refuses.
use modelops_control_plane.Base.{
  ℕ, subst, ◌≡◌, ◌⊎◌, inl, inr, refl, Bool, true, false, Result, ok, err, arith, Option-cases,
  Result-cases, ◌>>◌,
}
use modelops_control_plane.Store.{Db, Deployment, PolicySettings, Trigger}
use modelops_control_plane.Status.{validate_transition}
use modelops_control_plane.Router.{RouterSettings}
use modelops_control_plane.Gateway.{Delivery}
use modelops_control_plane.Service.Query.{find_row}
use modelops_control_plane.Service.Session.{
  ServiceError, Session, concurrent_update, Engine, transition, set_traffic_allocation, commit,
  require_active, require_not_terminal,
}
use modelops_control_plane.Service.Reachability.{World}
use modelops_control_plane.Service.Actions.{
  set_paused, leave_canary_running, promote_session, rollback_session, advance_session,
  inconclusive_session, run_session, act, act_and_push, promote_deployment, rollback_deployment,
  pause_automation, resume_automation, record_inconclusive,
}
use modelops_control_plane.Service.Actions
use modelops_control_plane.Service.Perform.{perform}
use modelops_control_plane.Service.Perform.Outcomes.{session_of, act-guarded}
use modelops_control_plane.Api.{
  Call, promote, rollback, advance_traffic, action_of, is_caught, error_code, handle,
}
use modelops_control_plane.Api

module _ (engine : Engine) (policies : PolicySettings) where
  -- What a change raises before its commit is caught.
  session_of-is_caught :
      (now : ℕ) (call : Call) (d : Deployment) (s : Session) (e : ServiceError)
      → session_of now (action_of policies d call) s ≡ err e
      → is_caught call e ≡ true
  unfolding promote_session rollback_session advance_session inconclusive_session
      leave_canary_running transition validate_transition set_traffic_allocation require_active
      require_not_terminal
  session_of-is_caught now (promote by) d s e h = ground arith
  session_of-is_caught now (rollback by) d s e h = ground arith
  session_of-is_caught now (Api.pause_automation by) d s e h = ground arith
  session_of-is_caught now (Api.resume_automation by) d s e h = ground arith
  session_of-is_caught now Api.advance_traffic d s e h = ground arith
  session_of-is_caught now Api.record_inconclusive d s e h = ground arith

  run_session-is_caught :
      (now : ℕ) (call : Call) (d : Deployment) (db : Db) (e : ServiceError)
      → run_session engine (session_of now (action_of policies d call)) db d ≡ err e
      → is_caught call e ≡ true
  unfolding run_session commit
  run_session-is_caught now call d db e h =
      elim (Result-cases
        (session_of now (action_of policies d call) (record { row = d; db = db }))) [
          | inr (raised, q) ↦
              let same : raised ≡ e = ground arith in
              session_of-is_caught now call d (record { row = d; db = db }) e (ground arith)
          | inl (s, q) ↦ elim (Option-cases (find_row s.row.id s.db.deployments)) [
            | inl gone ↦
                let is : concurrent_update s.row.id ≡ e = ground arith in
                subst (λ x. is_caught call x ≡ true) is refl
            | inr (stored, found) ↦
                let is : concurrent_update s.row.id ≡ e = ground arith in
                subst (λ x. is_caught call x ≡ true) is refl
          ]
        ]

  module _ (settings : RouterSettings) (net : Delivery) (now : ℕ) where
    -- A refused request, with what it is refused for.
    abbrev Refused : Call → Deployment → World → Result ServiceError Deployment × World → Type 0
    Refused call d w r = (e : ServiceError) → r.0 ≡ err e → (is_caught call e ≡ true) × (r.1 ≡ w)

    act_and_push-Refused :
        (call : Call) (d : Deployment) (w : World)
        → Refused call d w
            (act_and_push engine settings net now (session_of now (action_of policies d call)) d w)
    unfolding act_and_push
    act_and_push-Refused call d w e h =
        elim (Result-cases
          (run_session engine (session_of now (action_of policies d call)) w.db d)) [
            | inl (s, q) ↦ absurd (ground arith)
            | inr (raised, q) ↦
                let same : raised ≡ e = ground arith in
                (run_session-is_caught now call d w.db e (ground arith), ground arith)
          ]

    act-Refused :
        (call : Call) (d : Deployment) (w : World)
        → Refused call d w (act engine (session_of now (action_of policies d call)) d w)
    unfolding act
    act-Refused call d w e h =
        elim (Result-cases
          (run_session engine (session_of now (action_of policies d call)) w.db d)) [
            | inl (s, q) ↦ absurd (ground arith)
            | inr (raised, q) ↦
                let same : raised ≡ e = ground arith in
                (run_session-is_caught now call d w.db e (ground arith), ground arith)
          ]

    -- Either way round, the flag is changed behind the same guard.
    set_paused-Refused :
        (call : Call) (paused : Bool) (by : Trigger) (d : Deployment) (w : World)
        → session_of now (action_of policies d call)
          ≡ (λ s. require_not_terminal s >> ok (set_paused now by paused s))
        → Refused call d w (elim (require_not_terminal (record { row = d; db = w.db })) [
          | err e ↦ (err e, w)
          | ok _ ↦ act engine (λ s. ok (set_paused now by paused s)) d w
        ])
    set_paused-Refused call paused by d w is e h =
        elim (Result-cases (require_not_terminal (record { row = d; db = w.db }))) [
          | inr (x, q) ↦
              let raised : x ≡ e = ground arith in
              (
                session_of-is_caught now call d (record { row = d; db = w.db }) e
                    (rw is (ground arith)),
                ground arith,
              )
          | inl (t, q) ↦
              let same = act-guarded engine settings net now (set_paused now by paused) d w q in
              let acts : act engine (λ s. ok (set_paused now by paused s)) d w
                  ≡ act engine (session_of now (action_of policies d call)) d w =
                rw is same in
              let raised : (act engine (session_of now (action_of policies d call)) d w).0 ≡ err e =
                ground arith in
              let (caught, kept) = act-Refused call d w e raised in (caught, ground arith)
        ]

    perform-Refused :
        (call : Call) (d : Deployment) (w : World)
        → Refused call d w (perform engine settings net now (action_of policies d call) d w)
    unfolding perform promote_deployment rollback_deployment Actions.advance_traffic
        record_inconclusive pause_automation resume_automation
    perform-Refused (promote by) d w e h = act_and_push-Refused (promote by) d w e h
    perform-Refused (rollback by) d w e h = act_and_push-Refused (rollback by) d w e h
    perform-Refused Api.advance_traffic d w e h = act_and_push-Refused Api.advance_traffic d w e h
    perform-Refused Api.record_inconclusive d w e h = act-Refused Api.record_inconclusive d w e h
    perform-Refused (Api.pause_automation by) d w e h =
        let guarded = set_paused-Refused (Api.pause_automation by) true by d w refl e in
        ground arith
    perform-Refused (Api.resume_automation by) d w e h =
        let guarded = set_paused-Refused (Api.resume_automation by) false by d w refl e in
        ground arith

    -- A request on a deployment that is refused answers 404 or 409 and never fails otherwise, and it
    -- leaves the tables and the router as they were: each error that the service can raise is one
    -- that the handler catches.
    pub refusals_are_clean :
        (call : Call) (id code : ℕ) (seen : Db) (w : World)
        → (handle engine policies settings net now call id seen w).0 ≡ err code
        → ((code ≡ 404) ⊎ (code ≡ 409))
          × ((handle engine policies settings net now call id seen w).1 ≡ w)
    unfolding handle
    refusals_are_clean call id code seen w h = elim (Option-cases (find_row id seen.deployments)) [
      | inl missing ↦ (inl (ground arith), ground arith)
      | inr (d, found) ↦
          elim (Result-cases (perform engine settings net now (action_of policies d call) d w).0) [
            | inl (d', q) ↦ absurd (ground arith)
            | inr (e, q) ↦
                let (caught, kept) = perform-Refused call d w e q in
                (inr (ground arith), ground arith)
          ]
    ]
