-- ===== src/System/Automation/Sweeps.antt =====
-- What the sweeps of the worker (`run_forever` of backend/app/worker/loop.py) leave alone in the tables
-- of the control plane.
use modelops_control_plane.Base.{
  Bool, ℕ, ◌≡◌, ◌⊎◌, refl, sym, ap, ◌∙◌, subst, inl, inr, true, false, ◌&&◌, not, Bool-cases,
  Option-cases, Option, none, some, List, [], ◌∷◌, All, if◌then◌else◌, sort_by, sort_by-All, arith,
  ◌==◌, Result,
}
use modelops_control_plane.Status.{Status, canary_running, evaluating, status_in}
use modelops_control_plane.Store.{Db, Deployment, PolicySettings}
use modelops_control_plane.Router.{RouterSettings}
use modelops_control_plane.Gateway.{Delivery}
use modelops_control_plane.Service.Query.{find_row, get_policy_config, by_created}
use modelops_control_plane.Service.Session.{ServiceError, Engine, write_row}
use modelops_control_plane.Service.Rows.{find_row-id, find_row-write_row_ne}
use modelops_control_plane.Service.Locking.{run_session-Committed}
use modelops_control_plane.Service.Reachability.{World}
use modelops_control_plane.Service.Perform.{Action, perform}
use modelops_control_plane.Service.Perform.Outcomes.{
  SameRows, session_of, session_of-Keeps, Outcome, refused, nothing_to_do, wrote, perform-Outcome,
}
use modelops_control_plane.Reconcile.Corrects.{reconcile-SameRows}
use modelops_control_plane.Policy.Service.{
  evaluate_deployment, run_evaluation, add_evaluations, snapshot, Snapshot, checks_of,
}
use modelops_control_plane.Policy.{PolicyCheckResult}
use modelops_control_plane.Worker.{
  active_statuses, WorkerAction, Line, is_swept, active_ids, run_forever,
}
use modelops_control_plane.Worker.Preserved.{IsPreserved, run_forever-preserves}
use modelops_control_plane.Api.{handle, action_of}
use modelops_control_plane.Api.Reads.{list_deployments}
use modelops_control_plane.System.Automation.{
  Plant, call_of, on_action, on_evaluate, on_reconcile, http_worker_client,
}

add_evaluations-SameRows :
    (s : Snapshot) (cs : List PolicyCheckResult) (db : Db) → SameRows db (add_evaluations s cs db)
unfolding add_evaluations
add_evaluations-SameRows s [] db = record { deployments = refl; generations = refl }
add_evaluations-SameRows s (c ∷ cs) db =
    let rest = add_evaluations-SameRows s cs _ in
    record { deployments = rest.deployments; generations = rest.generations }

evaluate_deployment-SameRows :
    (policies : PolicySettings) (db : Db) (id now : ℕ)
    → SameRows db (evaluate_deployment policies db id none now).1
unfolding evaluate_deployment run_evaluation
evaluate_deployment-SameRows policies db id now = elim (Option-cases (find_row id db.deployments)) [
  | inl q ↦ record { deployments = ground arith; generations = ground arith }
  | inr (d, q) ↦
      let config = get_policy_config policies d in
      let s = snapshot db d config now in
      let rows = add_evaluations-SameRows s (checks_of s) db in
      let same_deployments = rows.deployments in
      let same_generations = rows.generations in
      record { deployments = ground arith; generations = ground arith }
]

-- A rollout that goes on: it has traffic, or is being evaluated.
abbrev pub goes_on : Status → Bool
goes_on canary_running = true
goes_on evaluating = true
goes_on _ = false

-- Each row of an id is paused, or its rollout does not go on.
abbrev pub IsIdle : ℕ → List Deployment → Type 0
IsIdle id = All (λ r. ((r.id == id) && (not r.automation_paused && goes_on r.status)) ≡ false)

status_in-goes_on : (s : Status) → status_in s active_statuses ≡ goes_on s
status_in-goes_on Status.pending = refl
status_in-goes_on Status.deploying = refl
status_in-goes_on canary_running = refl
status_in-goes_on evaluating = refl
status_in-goes_on Status.promoting = refl
status_in-goes_on Status.rolling_back = refl
status_in-goes_on Status.promoted = refl
status_in-goes_on Status.rolled_back = refl
status_in-goes_on Status.failed = refl
status_in-goes_on Status.inconclusive = refl

write_row-IsIdle :
    (id : ℕ) (r : Deployment) (rows : List Deployment)
    → (r.id == id) ≡ false
    → IsIdle id rows
    → IsIdle id (write_row r rows)
write_row-IsIdle id r [] other h = tt
write_row-IsIdle id r (e ∷ es) other h =
    elim (e.id == r.id) as (λ b. IsIdle id (if b then r ∷ es else e ∷ write_row r es)) [
      | true ↦ (ground arith, h.1)
      | false ↦ (h.0, write_row-IsIdle id r es other h.1)
    ]

swept-ids :
    (id : ℕ) (rows : List Deployment)
    → IsIdle id rows
    → All (λ i. not (i == id) ≡ true) (active_ids rows)
swept-ids id [] h = tt
swept-ids id (r ∷ rs) h = elim (Bool-cases (is_swept r)) [
  | inr q ↦ rw q (swept-ids id rs h.1)
  | inl q ↦
      let idle = h.0 in
      let same = status_in-goes_on r.status in rw q (ground arith, swept-ids id rs h.1)
]

module _ (engine : Engine) (policies : PolicySettings) (settings : RouterSettings)
    (net : ℕ → Delivery) where
  -- A request leaves the rows, or writes the row that it is about.
  Outcome-rows :
      (push : Delivery) (now : ℕ) (a : Action) (d : Deployment) (w : World)
      (x : Result ServiceError Deployment × World)
      → Outcome engine settings push now a d w x
      → (x.1.db.deployments ≡ w.db.deployments)
        ⊎ ((r : Deployment) × (r.id ≡ d.id) × (x.1.db.deployments ≡ write_row r w.db.deployments))
  Outcome-rows push now a d w x (refused e) = inl refl
  Outcome-rows push now a d w x nothing_to_do = inl refl
  Outcome-rows push now a d w x (wrote s w' e same reaches) =
      let c = run_session-Committed engine (session_of now a) w.db d (session_of-Keeps now a) e in
      inr (
        s.row,
        ap (λ (r : Deployment). r.id) c.row_is ∙ c.keeps.same_id,
        same.deployments ∙ ap (λ (db : Db). db.deployments) c.db_is,
      )

  module _ (id : ℕ) (before : Option Deployment) where
    -- The row of the id is as before, and idle.
    abbrev Rests : List Deployment → Type 0
    Rests rows = (find_row id rows ≡ before) × IsIdle id rows

    write_row-Rests :
        (r : Deployment) (rows : List Deployment)
        → (r.id == id) ≡ false
        → Rests rows
        → Rests (write_row r rows)
    write_row-Rests r rows other h = (
      find_row-write_row_ne id r rows (λ e. absurd (ground arith)) ∙ h.0,
      write_row-IsIdle id r rows other h.1,
    )

    handle-world :
        (a : WorkerAction) (i : ℕ) (p : Plant) (d : Deployment)
        → find_row i p.world.db.deployments ≡ some d
        → (perform engine settings
            (net p.clock)
            p.clock
            (action_of policies d (call_of a))
            d
            p.world).1
          ≡ (on_action engine policies settings net a i p).1.world
    unfolding on_action handle
    handle-world a i p d q = ground arith

    no_row :
        (a : WorkerAction) (i : ℕ) (p : Plant)
        → find_row i p.world.db.deployments ≡ none
        → p.world ≡ (on_action engine policies settings net a i p).1.world
    unfolding on_action handle
    no_row a i p q = ground arith

    on_action-Rests :
        (a : WorkerAction) (i : ℕ) (p : Plant)
        → not (i == id) ≡ true
        → Rests p.world.db.deployments
        → Rests (on_action engine policies settings net a i p).1.world.db.deployments
    on_action-Rests a i p other h = elim (Option-cases (find_row i p.world.db.deployments)) [
      | inl q ↦ subst (λ (w : World). Rests w.db.deployments) (no_row a i p q) h
      | inr (d, q) ↦
          let action = action_of policies d (call_of a) in
          let named = find_row-id i p.world.db.deployments q in
          subst (λ (w : World). Rests w.db.deployments) (handle-world a i p d q)
            (elim (Outcome-rows (net p.clock) p.clock action d p.world _
              (perform-Outcome engine settings (net p.clock) p.clock action d p.world)) [
                | inl same ↦ subst Rests (sym same) h
                | inr (r, of, written) ↦
                    subst Rests (sym written)
                      (write_row-Rests r p.world.db.deployments (ground arith) h)
              ])
    ]

    client-IsPreserved :
        IsPreserved
          (http_worker_client engine policies settings net)
          (λ p. Rests p.world.db.deployments)
          (λ i. not (i == id))
    unfolding on_reconcile on_evaluate list_deployments
    client-IsPreserved = record {
      by_reconcile = λ p h.
          let same = reconcile-SameRows settings (net p.clock) (net p.clock) p.clock p.world in
          subst Rests (sym same.deployments) h;
      by_list = λ p h. h;
      listed = λ p ds h e.
          let listed : sort_by by_created p.world.db.deployments ≡ ds = ground arith in
          subst (λ l. All (λ i. not (i == id) ≡ true) (active_ids l)) listed
            (swept-ids id (sort_by by_created p.world.db.deployments)
              (sort_by-All by_created _ p.world.db.deployments h.1));
      by_get = λ i p h. h;
      by_history = λ i p h. h;
      by_evaluate = λ i p other h.
          let same = evaluate_deployment-SameRows policies p.world.db i p.clock in
          subst Rests (sym same.deployments) h;
      by_action = on_action-Rests;
    }

  -- A deployment that is paused, or neither in CANARY_RUNNING nor in EVALUATING, keeps its row as it is
  -- through the worker's sweeps, any number of them, whatever they do to the other deployments and
  -- whatever the network does to the pushes of the control plane.
  pub idle_untouched :
      (id default : ℕ) (times : List ℕ) (line : Line Plant)
      → IsIdle id line.there.world.db.deployments
      → let after =
          run_forever (http_worker_client engine policies settings net) default times line in
        find_row id after.there.world.db.deployments ≡ find_row id line.there.world.db.deployments
  idle_untouched id default times line idle =
      (run_forever-preserves (http_worker_client engine policies settings net) _ _
        (client-IsPreserved id (find_row id line.there.world.db.deployments)) default times line
        (refl, idle)).0
