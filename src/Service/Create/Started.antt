-- ===== src/Service/Create/Started.antt =====
-- How a creation ends: the world as it was, or one more row in front of the table.
use modelops_control_plane.Base.{
  ℕ, ◌≡◌, inl, inr, refl, Bool, true, false, Option, some, ◌∷◌, arith, Result, ok, err,
  Option-cases, >>=-eq-ok, ◌>>=◌, ==_refl, ap,
}
use modelops_control_plane.Status.{canary_running, validate_transition}
use modelops_control_plane.Store.{Db, Deployment, PolicySettings, TrafficAllocation}
use modelops_control_plane.Router.{RouterSettings}
use modelops_control_plane.Gateway.{Delivery}
use modelops_control_plane.Service.Query.{get_active_deployment}
use modelops_control_plane.Service.Session.{
  ServiceError, Session, Engine, inserted, generation_of, bump_generation, commit, transition,
  set_traffic_allocation,
}
use modelops_control_plane.Service.Reachability.{World}
use modelops_control_plane.Service.Actions.{split_targets, push_row}
use modelops_control_plane.Service.Locking.{commit-ok}
use modelops_control_plane.Service.Perform.Outcomes.{
  SameRows, push_row-SameRows, Reaches, push_row-Reaches,
}
use modelops_control_plane.Service.Create.{
  CreateRequest, existing_for_key, new_row, start_session, insert_session, create_deployment,
}

-- The desired state that a new row starts with.
abbrev pub first_allocation : CreateRequest → Db → TrafficAllocation
first_allocation r db = record {
  targets = split_targets r.stable_version r.canary_version r.canary_weight;
  revision = generation_of r.model_name (bump_generation r.model_name db.generations);
}

abbrev pub started_row : PolicySettings → (now id : ℕ) → Option ℕ → CreateRequest → Db → Deployment
started_row policies now id key r db = record (new_row policies now id key r) {
  status = canary_running;
  started_at = some now;
  traffic_allocation = some (first_allocation r db);
  version_id = 2;
}

-- The second part of the answer of `create_deployment`.
abbrev pub was_created : Result ServiceError (Deployment × Bool) → Bool
was_created (ok (d, created)) = created
was_created (err e) = false

pub start_session-ok :
    (now : ℕ) (r : CreateRequest) (s : Session) {s' : Session}
    → s.row.model_name ≡ r.model_name
    → start_session now r s ≡ ok s'
    → (s'.row ≡ record (s.row) {
      status = canary_running;
      started_at = some now;
      traffic_allocation = some (first_allocation r s.db);
    })
      × (s'.db.deployments ≡ s.db.deployments)
      × (s'.db.generations ≡ bump_generation r.model_name s.db.generations)
unfolding start_session transition validate_transition set_traffic_allocation
start_session-ok now r s model h = ground arith

module _ (engine : Engine) (policies : PolicySettings) (now id : ℕ) (key : Option ℕ)
    (r : CreateRequest) where
  abbrev row : Deployment
  row = new_row policies now id key r

  -- The transaction, once both reads of the request have found nothing.
  abbrev transaction : Db → Result ServiceError Session
  transaction db =
      insert_session engine policies now id key r db >>= start_session now r >>= commit engine

  transaction-ok :
      (db : Db) {s : Session}
      → transaction db ≡ ok s
      → (engine.insert_row row db.deployments ≡ inserted)
        × (s.row ≡ started_row policies now id key r db)
        × (s.db.deployments ≡ s.row ∷ db.deployments)
        × (s.db.generations ≡ bump_generation r.model_name db.generations)
  unfolding insert_session
  transaction-ok db {s} h =
      let (s₂, h₂, committed) =
        >>=-eq-ok (insert_session engine policies now id key r db >>= start_session now r)
          (commit engine) h in
      let (s₁, inserted_ok, started_ok) =
        >>=-eq-ok (insert_session engine policies now id key r db) (start_session now r) h₂ in
      let here : engine.insert_row row db.deployments ≡ inserted = ground arith in
      let flushed : s₁
          ≡ record { row = row; db = record db { deployments = row ∷ db.deployments } } =
        ground arith in
      let (row_is, rows_are, counters) =
        start_session-ok now r s₁ (ap (λ t. t.row.model_name) flushed) started_ok in
      let (stored, found, current, final, final_db) = commit-ok engine s₂ committed in
      (here, ground arith, ground (arith, ==_refl id), ground arith)

  pub data Creation (settings : RouterSettings) (net : Delivery) (w : World)
      : Result ServiceError (Deployment × Bool) × World → Type 0 where
    unchanged :
        (x : Result ServiceError (Deployment × Bool))
        → was_created x ≡ false
        → Creation settings net w (x, w)
    started :
        (s : Session) (w' : World)
        → engine.insert_row row w.db.deployments ≡ inserted
        → s.row ≡ started_row policies now id key r w.db
        → s.db.deployments ≡ s.row ∷ w.db.deployments
        → s.db.generations ≡ bump_generation r.model_name w.db.generations
        → SameRows s.db w'.db
        → Reaches s.row w w'
        → Creation settings net w (ok (s.row, true), w')

  transaction-Creation :
      (settings : RouterSettings) (net : Delivery) (w : World) (t : Result ServiceError Session)
      → transaction w.db ≡ t
      → Creation settings net w (elim t [
        | err e ↦ (err e, w)
        | ok s ↦ (ok (s.row, true), push_row engine settings net now s w)
      ])
  transaction-Creation settings net w (err e) h = unchanged (err e) refl
  transaction-Creation settings net w (ok s) h =
      let (here, row_is, rows_are, counters) = transaction-ok w.db h in
      started s (push_row engine settings net now s w) here row_is rows_are counters
        (push_row-SameRows engine settings net now s w)
        (push_row-Reaches engine settings net now s w)

  pub create_deployment-Creation :
      (settings : RouterSettings) (net : Delivery) (seen : Db) (w : World)
      → Creation settings net w (create_deployment engine policies settings net now id key r seen w)
  unfolding create_deployment
  create_deployment-Creation settings net seen w = elim (Option-cases (existing_for_key seen key)) [
    | inr (d, e) ↦ rw (e, create_deployment) (unchanged (ok (d, false)) refl)
    | inl e ↦ elim (Option-cases (get_active_deployment seen r.model_name)) [
      | inr (d, f) ↦ rw (e, f, create_deployment) (unchanged _ refl)
      | inl f ↦
          rw (e, f, create_deployment) (transaction-Creation settings net w (transaction w.db) refl)
    ]
  ]
