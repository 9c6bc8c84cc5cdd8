-- ===== src/Service/Perform/Outcomes.antt =====
-- How a request ends: refused, with nothing to do, or with the commit of its change.
use modelops_control_plane.Base.{
  some, ◌⊎◌, ℕ, ◌≡◌, refl, inl, inr, Option-cases, Bool, true, false, arith, Result, Result-cases,
  ◌>>◌, ok, err, if◌then◌else◌, List,
}
use modelops_control_plane.Status.{is_terminal}
use modelops_control_plane.Store.{Db, Deployment, Target, TrafficAllocation}
use modelops_control_plane.Router.{RouterSettings}
use modelops_control_plane.Gateway.{Delivery}
use modelops_control_plane.Gateway.Either.{push-either}
use modelops_control_plane.Service.Session.{ServiceError, Session, Engine, require_not_terminal}
use modelops_control_plane.Service.Reachability.{
  World, desired_config, push_best_effort, record_reachability,
}
use modelops_control_plane.Service.Locking.{Keeps}
use modelops_control_plane.Service.Actions.{
  promote_session, rollback_session, advance_session, inconclusive_session, set_paused, run_session,
  push_row, act, act_and_push, promote_deployment, rollback_deployment, advance_traffic,
  record_inconclusive, pause_automation, resume_automation,
}
use modelops_control_plane.Service.Actions.Effects.{
  promote_session-ok, rollback_session-ok, advance_session-ok, inconclusive_session-ok,
}
use modelops_control_plane.Service.Perform.{
  Action, promote, rollback, pause, resume, advance, inconclusive_cycle, perform,
}

-- The change that an action commits.
abbrev pub session_of : ℕ → Action → Session → Result ServiceError Session
session_of now (promote by) = promote_session now by
session_of now (rollback by) = rollback_session now by
session_of now advance = advance_session now
session_of now (inconclusive_cycle limit) = inconclusive_session now limit
session_of now (pause by) = λ s. require_not_terminal s >> ok (set_paused now by true s)
session_of now (resume by) = λ s. require_not_terminal s >> ok (set_paused now by false s)

pub session_of-Keeps :
    (now : ℕ) (a : Action) (s s' : Session) → session_of now a s ≡ ok s' → Keeps s s'
session_of-Keeps now (promote by) s s' h = ground (arith, promote_session-ok now by s h)
session_of-Keeps now (rollback by) s s' h = ground (arith, rollback_session-ok now by s h)
session_of-Keeps now advance s s' h =
    let (active, (next, stage, row), deployments, generations) = advance_session-ok now s h in
    ground arith
session_of-Keeps now (inconclusive_cycle limit) s s' h =
    ground (arith, inconclusive_session-ok now limit s h)
session_of-Keeps now (pause by) s s' h = ground arith
session_of-Keeps now (resume by) s s' h = ground arith

-- An action writes only to a deployment that is not terminal.
pub session_of-live :
    (now : ℕ) (a : Action) (s s' : Session)
    → session_of now a s ≡ ok s'
    → is_terminal s.row.status ≡ false
unfolding require_not_terminal
session_of-live now (promote by) s s' h = ground (arith, promote_session-ok now by s h)
session_of-live now (rollback by) s s' h = ground (arith, rollback_session-ok now by s h)
session_of-live now advance s s' h =
    let (active, (next, stage, row), deployments, generations) = advance_session-ok now s h in
    ground arith
session_of-live now (inconclusive_cycle limit) s s' h =
    ground (arith, inconclusive_session-ok now limit s h)
session_of-live now (pause by) s s' h = ground arith
session_of-live now (resume by) s s' h = ground arith

-- A push and the events that follow it leave the deployments and the counters as they are.
pub record SameRows (db db' : Db) : Type 0 where
  pub deployments : db'.deployments ≡ db.deployments
  pub generations : db'.generations ≡ db.generations

pub record_reachability-SameRows :
    (now id : ℕ) (reachable : Bool) (db : Db)
    → SameRows db (record_reachability now id reachable db)
unfolding record_reachability
record_reachability-SameRows now id reachable db = ground arith

push_best_effort-SameRows :
    (settings : RouterSettings) (net : Delivery) (now model id revision : ℕ) (targets : List Target)
    (w : World)
    → SameRows w.db (push_best_effort settings net now model id revision targets w).db
unfolding push_best_effort
push_best_effort-SameRows settings net now model id revision targets w = ground (
  arith,
  record_reachability-SameRows now id true w.db,
  record_reachability-SameRows now id false w.db,
)

abbrev pub Reaches : Deployment → World → World → Type 0
Reaches row w w' =
    (w'.router ≡ w.router)
    ⊎ ((a : TrafficAllocation) × (row.traffic_allocation ≡ some a)
        × (w'.router ≡ desired_config row a))

module _ (engine : Engine) (settings : RouterSettings) (net : Delivery) (now : ℕ) where
  pub push_row-SameRows :
      (s : Session) (w : World) → SameRows s.db (push_row engine settings net now s w).db
  unfolding push_row
  push_row-SameRows s w = elim (Option-cases (s.row.traffic_allocation)) [
    | inl e ↦ ground arith
    | inr (a, e) ↦
        let saved : World = record { db = s.db; router = w.router } in
        rw e (
          push_best_effort-SameRows settings net now s.row.model_name s.row.id a.revision a.targets
            saved)
  ]

  -- The router after a push is as it was, or serves what the row asks for.
  pub push_row-Reaches :
      (s : Session) (w : World) → Reaches s.row w (push_row engine settings net now s w)
  unfolding push_row push_best_effort
  push_row-Reaches s w = elim (Option-cases s.row.traffic_allocation) [
    | inl e ↦ inl (ground arith)
    | inr (a, e) ↦ elim (push-either settings net (desired_config s.row a) w.router) [
      | inl kept ↦ inl (ground arith)
      | inr put ↦ inr (a, e, ground arith)
    ]
  ]

  -- How a request on the row `d` in the world `w` ends.
  pub data Outcome (a : Action) (d : Deployment) (w : World)
      : Result ServiceError Deployment × World → Type 0 where
    refused : (e : ServiceError) → Outcome a d w (err e, w)
    nothing_to_do : Outcome a d w (ok d, w)
    wrote :
        (s : Session) (w' : World)
        → run_session engine (session_of now a) w.db d ≡ ok s
        → SameRows s.db w'.db
        → Reaches s.row w w'
        → Outcome a d w (ok (s.row), w')

  act-Outcome :
      (a : Action) (d : Deployment) (w : World) → Outcome a d w (act engine (session_of now a) d w)
  unfolding act
  act-Outcome a d w = elim (Result-cases (run_session engine (session_of now a) w.db d)) [
    | inl (s, e) ↦
        rw (e, act)
          (wrote s (record w { db = s.db }) e (record { deployments = refl; generations = refl })
            (inl refl))
    | inr (x, e) ↦ rw (e, act) (refused x)
  ]

  pub act-guarded :
      (f : Session → Session) (d : Deployment) (w : World) {u : Unit {0}}
      → require_not_terminal (record { row = d; db = w.db }) ≡ ok u
      → act engine (λ s. ok (f s)) d w ≡ act engine (λ s. require_not_terminal s >> ok (f s)) d w
  unfolding act run_session
  act-guarded f d w e = rw (e, act, run_session)

  act_and_push-Outcome :
      (a : Action) (d : Deployment) (w : World)
      → Outcome a d w (act_and_push engine settings net now (session_of now a) d w)
  unfolding act_and_push
  act_and_push-Outcome a d w = elim (Result-cases (run_session engine (session_of now a) w.db d)) [
    | inl (s, e) ↦
        rw (e, act_and_push)
          (wrote s (push_row engine settings net now s w) e (push_row-SameRows s w)
            (push_row-Reaches s w))
    | inr (x, e) ↦ rw (e, act_and_push) (refused x)
  ]

  pub perform-Outcome :
      (a : Action) (d : Deployment) (w : World)
      → Outcome a d w (perform engine settings net now a d w)
  unfolding perform promote_deployment rollback_deployment advance_traffic record_inconclusive
      pause_automation resume_automation
  perform-Outcome (promote by) d w = act_and_push-Outcome (promote by) d w
  perform-Outcome (rollback by) d w = act_and_push-Outcome (rollback by) d w
  perform-Outcome advance d w = act_and_push-Outcome advance d w
  perform-Outcome (inconclusive_cycle limit) d w = act-Outcome (inconclusive_cycle limit) d w
  perform-Outcome (pause by) d w =
      elim (Result-cases (require_not_terminal (record { row = d; db = w.db }))) [
        | inl (t, e) ↦
            rw (e, perform, pause_automation)
              (elim d.automation_paused
                as (λ b.
                  Outcome (pause by) d w (
                    if b then (ok d, w) else act engine (λ s. ok (set_paused now by true s)) d w)) [
                      | true ↦ nothing_to_do
                      | false ↦
                          rw (act-guarded (set_paused now by true) d w e)
                            (act-Outcome (pause by) d w)
                    ])
        | inr (x, e) ↦ rw (e, perform, pause_automation) (refused x)
      ]
  perform-Outcome (resume by) d w =
      elim (Result-cases (require_not_terminal (record { row = d; db = w.db }))) [
        | inl (t, e) ↦
            rw (e, perform, resume_automation)
              (elim d.automation_paused
                as (λ b.
                  Outcome (resume by) d w (
                    if b
                    then act engine (λ s. ok (set_paused now by false s)) d w
                    else (ok d, w))) [
                      | true ↦
                          rw (act-guarded (set_paused now by false) d w e)
                            (act-Outcome (resume by) d w)
                      | false ↦ nothing_to_do
                    ])
        | inr (x, e) ↦ rw (e, perform, resume_automation) (refused x)
      ]
