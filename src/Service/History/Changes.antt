-- ===== src/Service/History/Changes.antt =====
-- What each action's change is for the order of the table.
use modelops_control_plane.Base.{
  ℕ, suc, ◌+◌, ◌≤◌, ◌≡◌, ◌≢◌, refl, true, false, some, List, [], ◌∷◌, arith, ◌==◌, ok, inl, inr,
  Bool-cases, subst,
}
use modelops_control_plane.Status.{is_terminal, status_in}
use modelops_control_plane.Store.{Db, Deployment, TrafficAllocation}
use modelops_control_plane.Service.Query.{find_row, completed_key}
use modelops_control_plane.Service.Session.{
  Session, generation_of, bump_generation, require_not_terminal,
}
use modelops_control_plane.Service.Rows.{generation_of-bump_generation}
use modelops_control_plane.Service.Actions.{full_target, split_targets}
use modelops_control_plane.Service.Actions.Effects.{
  stamped, promote_session-ok, rollback_session-ok, advance_session-ok, inconclusive_session-ok,
}
use modelops_control_plane.Service.Perform.{
  Action, promote, rollback, pause, resume, advance, inconclusive_cycle,
}
use modelops_control_plane.Service.Perform.Outcomes.{session_of, session_of-live}
use modelops_control_plane.Service.Order.{
  revision_of, is_allocated, newest_of, settled_statuses, Ordered, RowOk, Older,
}
use modelops_control_plane.Service.Order.Writes.{Replaces, All-find_row}

-- A live row is the newest of its model.
pub newest_of-live :
    (id : ℕ) (rows : List Deployment) (d : Deployment)
    → Ordered rows
    → find_row id rows ≡ some d
    → is_terminal d.status ≡ false
    → newest_of d.model_name rows ≡ some d
newest_of-live id [] d order found live = cc
newest_of-live id (e ∷ es) d order found live = elim (Bool-cases (e.id == id)) [
  | inl here ↦
      let same : e ≡ d = ground arith in
      subst (λ x. newest_of x.model_name (e ∷ es) ≡ some x) same (ground arith)
  | inr there ↦
      let further : find_row id es ≡ some d = ground arith in
      let behind : Older e d = All-find_row (Older e) id es order.0 further in
      let apart : d.model_name ≢ e.model_name =
        λ same. let b = behind same in absurd (ground (arith, b.over)) in
      ground (arith, newest_of-live id es d order.1 further live)
]

module _ (now clock : ℕ) (db : Db) (d : Deployment) (later : clock ≤ now)
    (ok_row : RowOk db.generations clock d)
    (top : revision_of d ≡ generation_of d.model_name db.generations) where
  abbrev opened : Session
  opened = record { row = d; db = db }

  -- A row stamped with the next generation.
  restamped :
      (r : Deployment) (a : TrafficAllocation) (after : List (ℕ × ℕ))
      → is_terminal d.status ≡ false
      → r.id ≡ d.id
      → r.model_name ≡ d.model_name
      → status_in r.status settled_statuses ≡ true
      → r.traffic_allocation ≡ some a
      → a.revision ≡ generation_of d.model_name (bump_generation d.model_name db.generations)
      → after ≡ bump_generation d.model_name db.generations
      → completed_key r ≤ suc now
      → (is_terminal r.status ≡ true → completed_key r ≡ suc now)
      → Replaces now db.generations after d r
  restamped r a after live id model settled allocated revision generations completed ends =
      let bump = generation_of-bump_generation d.model_name d.model_name db.generations in
      record {
        live = live;
        same_id = id;
        same_model = model;
        settled = settled;
        allocated = ground arith;
        grows = ground arith;
        stamped = ground arith;
        counter_grows = ground arith;
        others =
            λ m apart. ground (arith, generation_of-bump_generation m d.model_name db.generations);
        kept = λ unchanged. absurd (ground arith);
        completed = completed;
        ends = ends;
      }

  -- A row whose allocation is left alone.
  unstamped :
      (r : Deployment) (after : List (ℕ × ℕ))
      → is_terminal d.status ≡ false
      → r.id ≡ d.id
      → r.model_name ≡ d.model_name
      → status_in r.status settled_statuses ≡ true
      → r.traffic_allocation ≡ d.traffic_allocation
      → after ≡ db.generations
      → completed_key r ≤ suc now
      → (is_terminal r.status ≡ true → completed_key r ≡ suc now)
      → Replaces now db.generations after d r
  unstamped r after live id model settled allocation generations completed ends =
      let allocated : is_allocated d ≡ true = ok_row.allocated in
      record {
        live = live;
        same_id = id;
        same_model = model;
        settled = settled;
        allocated = ground arith;
        grows = ground arith;
        stamped = ground arith;
        counter_grows = ground arith;
        others = λ m apart. ground arith;
        kept = λ unchanged. allocation;
        completed = completed;
        ends = ends;
      }

  abbrev pub saved : Session → Deployment
  saved s = record s.row { version_id = d.version_id + 1 }

  pub session_of-Replaces :
      (a : Action) (s : Session)
      → session_of now a opened ≡ ok s
      → Replaces now db.generations s.db.generations d (saved s)
  unfolding require_not_terminal
  session_of-Replaces (promote by) s h =
      let (routes, row, _, generations) = promote_session-ok now by opened h in
      restamped (saved s) (stamped opened (full_target d.canary_version)) s.db.generations
        (session_of-live now (promote by) opened s h) (ground arith) (ground arith) (ground arith)
        (ground arith) refl generations (ground arith) (λ over. ground arith)
  session_of-Replaces (rollback by) s h =
      let (routes, row, _, generations) = rollback_session-ok now by opened h in
      restamped (saved s) (stamped opened (full_target d.stable_version)) s.db.generations
        (session_of-live now (rollback by) opened s h) (ground arith) (ground arith) (ground arith)
        (ground arith) refl generations (ground arith) (λ over. ground arith)
  session_of-Replaces advance s h =
      let (active, (next, stage, row), _, generations) = advance_session-ok now opened h in
      let before = ok_row.completed_before in
      restamped (saved s) (stamped opened (split_targets d.stable_version d.canary_version next))
        s.db.generations (session_of-live now advance opened s h) (ground arith) (ground arith)
        (ground arith) (ground arith) refl generations (ground arith)
        (λ over. absurd (ground arith))
  session_of-Replaces (inconclusive_cycle limit) s h =
      let (active, row, _, generations) = inconclusive_session-ok now limit opened h in
      let before = ok_row.completed_before in
      unstamped (saved s) s.db.generations
        (session_of-live now (inconclusive_cycle limit) opened s h) (ground arith) (ground arith)
        (ground arith) (ground arith) generations (ground arith) (λ over. absurd (ground arith))
  session_of-Replaces (pause by) s h =
      let before = ok_row.completed_before in
      let settled = ok_row.settled in
      unstamped (saved s) s.db.generations (session_of-live now (pause by) opened s h)
        (ground arith) (ground arith) (ground arith) (ground arith) (ground arith) (ground arith)
        (λ over. absurd (ground arith))
  session_of-Replaces (resume by) s h =
      let before = ok_row.completed_before in
      let settled = ok_row.settled in
      unstamped (saved s) s.db.generations (session_of-live now (resume by) opened s h)
        (ground arith) (ground arith) (ground arith) (ground arith) (ground arith) (ground arith)
        (λ over. absurd (ground arith))
