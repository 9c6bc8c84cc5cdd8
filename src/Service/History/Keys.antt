-- ===== src/Service/History/Keys.antt =====
-- Idempotency keys over a history: `create_deployment` of backend/app/control_plane/service.py with the
-- unique column of models.py.
use modelops_control_plane.Base.{
  ℕ, ◌≡◌, ◌≢◌, ◌≤◌, ==_refl, ◌⊎◌, inl, inr, refl, sym, ap, ◌∙◌, subst, Bool, true, false, Option,
  none, some, List, [], ◌∷◌, arith, Bool-cases, Option-cases, Result, ok, head?, where_, any, ◌==◌,
}
use modelops_control_plane.Store.{Db, Deployment, PolicySettings}
use modelops_control_plane.Router.{RouterSettings}
use modelops_control_plane.Gateway.{Delivery}
use modelops_control_plane.Service.Query.{find_row, has_key, find_by_idempotency_key}
use modelops_control_plane.Service.Session.{ServiceError, Engine, write_row, inserted}
use modelops_control_plane.Service.Reachability.{World}
use modelops_control_plane.Service.Locking.{run_session-Committed}
use modelops_control_plane.Service.Create.{
  CreateRequest, new_row, existing_for_key, create_deployment,
}
use modelops_control_plane.Service.Create.Started.{
  was_created, Creation, unchanged, started, create_deployment-Creation,
}
use modelops_control_plane.Service.Perform.{Action}
use modelops_control_plane.Service.Perform.Outcomes.{
  session_of, session_of-Keeps, Outcome, refused, nothing_to_do, wrote, perform-Outcome,
}
use modelops_control_plane.Service.History.{History, start, load, request, create, other_writer}
use modelops_control_plane.Service.History.Steps.{Holds, run_session-IsWrite}
use modelops_control_plane.Service.History.Copies.{IsCopy, Any-All}
use modelops_control_plane.Service.History.Invariant.{History-Holds}

-- The id of the row that a key finds.
abbrev pub keyed : ℕ → List Deployment → Option ℕ
keyed key rows = elim (head? (where_ (has_key key) rows)) [ none ↦ none | some d ↦ some (d.id) ]

keyed-write_row :
    (key : ℕ) (r d : Deployment) (rows : List Deployment)
    → find_row r.id rows ≡ some d
    → r.idempotency_key ≡ d.idempotency_key
    → keyed key (write_row r rows) ≡ keyed key rows
keyed-write_row key r d [] found same = refl
keyed-write_row key r d (e ∷ es) found same = elim (Bool-cases (e.id == r.id)) [
  | inl q ↦
      let is_d : e ≡ d = ground arith in
      let same_id : e.id ≡ r.id = ground arith in
      let same_test : has_key key r ≡ has_key key e =
        ap (λ k. elim k [ none ↦ false | some j ↦ j == key ])
          (same ∙ ap (λ (x : Deployment). x.idempotency_key) (sym is_d)) in
      ground arith
  | inr q ↦ let rest = keyed-write_row key r d es in ground arith
]

not_taken-keyed :
    (key : ℕ) (rows : List Deployment) → any (has_key key) rows ≡ false → keyed key rows ≡ none
not_taken-keyed key [] h = refl
not_taken-keyed key (e ∷ es) h = let rest = not_taken-keyed key es in ground arith

module _ (engine : Engine) (settings : RouterSettings) (policies : PolicySettings) where
  inserted-keyed :
      (key id other now : ℕ) (k : Option ℕ) (r : CreateRequest) (rows : List Deployment)
      (row : Deployment)
      → engine.insert_row (new_row policies now other k r) rows ≡ inserted
      → row.idempotency_key ≡ k
      → keyed key rows ≡ some id
      → keyed key (row ∷ rows) ≡ some id
  inserted-keyed key id other now k r rows row here same found =
      let free = (engine.inserted_iff (new_row policies now other k r) rows).0 here in
      elim (Bool-cases (has_key key row)) [
        | inr q ↦ ground arith
        | inl q ↦
            let taken : any (has_key key) rows ≡ false = ground arith in
            let gone = not_taken-keyed key rows taken in absurd (ground arith)
      ]

  Outcome-keyed :
      (key id now clock : ℕ) (net : Delivery) (copies : List Deployment) (a : Action)
      (d : Deployment) (w : World) (x : Result ServiceError Deployment × World)
      → Outcome engine settings net now a d w x
      → IsCopy w.db.deployments d
      → clock ≤ now
      → Holds w.db clock copies
      → keyed key w.db.deployments ≡ some id
      → keyed key x.1.db.deployments ≡ some id
  Outcome-keyed key id now clock net copies a d w x (refused e) copy later p found = found
  Outcome-keyed key id now clock net copies a d w x nothing_to_do copy later p found = found
  Outcome-keyed key id now clock net copies a d w x (wrote s w' e same reaches) copy later p found =
      let q = run_session-IsWrite engine policies clock now copies a d w.db s e copy later p in
      let c = run_session-Committed engine (session_of now a) w.db d (session_of-Keeps now a) e in
      let same_key : s.row.idempotency_key ≡ d.idempotency_key =
        ap (λ (r : Deployment). r.idempotency_key) c.row_is ∙ c.keeps.same_key in
      let there = subst (λ i. find_row i w.db.deployments ≡ some d) (sym q.same_id) q.found in
      ap (keyed key) same.deployments
      ∙ ap (keyed key) q.written
      ∙ keyed-write_row key s.row d w.db.deployments there same_key
      ∙ found

  Creation-keyed :
      (key id now new : ℕ) (k : Option ℕ) (r : CreateRequest) (net : Delivery) (w : World)
      (x : Result ServiceError (Deployment × Bool) × World)
      → Creation engine policies now new k r settings net w x
      → keyed key w.db.deployments ≡ some id
      → keyed key x.1.db.deployments ≡ some id
  Creation-keyed key id now new k r net w x (unchanged y not_created) found = found
  Creation-keyed key id now new k r net w x (started s w' here row rows counters same reaches)
        found =
      ap (keyed key) same.deployments
      ∙ ap (keyed key) rows
      ∙ inserted-keyed key id new now k r w.db.deployments s.row here
          (ap (λ (d : Deployment). d.idempotency_key) row) found

  Creation-made :
      (key id now : ℕ) (r : CreateRequest) (net : Delivery) (w : World)
      (x : Result ServiceError (Deployment × Bool) × World)
      → Creation engine policies now id (some key) r settings net w x
      → was_created x.0 ≡ true
      → keyed key x.1.db.deployments ≡ some id
  Creation-made key id now r net w x (unchanged y not_created) made = absurd (ground arith)
  Creation-made key id now r net w x (started s w' here row rows counters same reaches) made =
      let key_is : s.row.idempotency_key ≡ some key =
        ap (λ (d : Deployment). d.idempotency_key) row in
      let id_is : s.row.id ≡ id = ap (λ (d : Deployment). d.id) row in
      let self = ==_refl key in
      let first : keyed key (s.row ∷ w.db.deployments) ≡ some id = ground arith in
      ap (keyed key) same.deployments ∙ ap (keyed key) rows ∙ first

  -- An earlier creation of the history, with a key, has made the row of an id.
  unfoldable pub IsMade :
      (key id : ℕ) {w : World} {clock : ℕ} {copies : List Deployment}
      → History engine settings policies w clock copies
      → Type 0
  IsMade key id (start router) = ⊥
  IsMade key id (load i d h found) = IsMade key id h
  IsMade key id (request net now a d h held later) = IsMade key id h
  IsMade key id (create {w} net now new k r seen h fresh later) =
      ((k ≡ some key)
        × (new ≡ id)
        × (was_created (create_deployment engine policies settings net now new k r seen w).0
            ≡ true))
      ⊎ IsMade key id h
  IsMade key id (other_writer w' h same) = IsMade key id h

  IsMade-keyed :
      (key id : ℕ) {w : World} {clock : ℕ} {copies : List Deployment}
      (h : History engine settings policies w clock copies)
      → IsMade key id h
      → keyed key w.db.deployments ≡ some id
  unfolding IsMade
  IsMade-keyed key id (start router) made = absurd made
  IsMade-keyed key id (load i d h found) made = IsMade-keyed key id h made
  IsMade-keyed key id (request {w} {clock} {copies} net now a d h held later) made =
      let p = History-Holds engine settings policies h in
      Outcome-keyed key id now clock net copies a d w _
        (perform-Outcome engine settings net now a d w)
        (Any-All (IsCopy w.db.deployments) copies p.copies_ok held) later p
        (IsMade-keyed key id h made)
  IsMade-keyed key id (create {w} net now new k r seen h fresh later) (inr made) =
      Creation-keyed key id now new k r net w _
        (create_deployment-Creation engine policies now new k r settings net seen w)
        (IsMade-keyed key id h made)
  IsMade-keyed key id (create {w} net now new k r seen h fresh later) (inl (same, named, made)) =
      Creation-made key id now r net w _
        (subst
          (λ n.
            Creation engine policies now n (some key) r settings net w
              (create_deployment engine policies settings net now new k r seen w))
          named
          (subst
            (λ j.
              Creation engine policies now new j r settings net w
                (create_deployment engine policies settings net now new k r seen w))
            same (create_deployment-Creation engine policies now new k r settings net seen w)))
        made
  IsMade-keyed key id (other_writer w' h same) made =
      ap (keyed key) same.deployments ∙ IsMade-keyed key id h made

  keyed-existing_for_key :
      (key id : ℕ) (db : Db)
      → key ≢ 0
      → keyed key db.deployments ≡ some id
      → (d : Deployment) × (existing_for_key db (some key) ≡ some d) × (d.id ≡ id)
  unfolding find_by_idempotency_key
  keyed-existing_for_key key id db apart h =
      elim (Option-cases (head? (where_ (has_key key) db.deployments))) [
        | inl q ↦ absurd (ground arith)
        | inr (d, q) ↦ (d, ground arith, ground arith)
      ]

  refused-again :
      (key id now other : ℕ) (r : CreateRequest) (net : Delivery) (w : World)
      (x : Result ServiceError (Deployment × Bool) × World)
      → Creation engine policies now other (some key) r settings net w x
      → keyed key w.db.deployments ≡ some id
      → (x.1 ≡ w) × (was_created x.0 ≡ false)
  refused-again key id now other r net w x (unchanged y not_created) found = (refl, not_created)
  refused-again key id now other r net w x (started s w' here row rows counters same reaches)
        found =
      let free =
        (engine.inserted_iff (new_row policies now other (some key) r) w.db.deployments).0 here in
      let gone = not_taken-keyed key w.db.deployments free.0 in absurd (ground arith)

  -- In every history in which a creation with a key that is not empty has made a deployment, however
  -- that deployment has fared since: a creation with that key, whatever its body, changes neither the
  -- tables nor the router and makes no deployment, however old its own reads are; and where they are
  -- not old, it answers the deployment that was made.
  pub create_deployment_once :
      {w : World} {clock : ℕ} {copies : List Deployment}
      (h : History engine settings policies w clock copies) (key id : ℕ)
      → key ≢ 0
      → IsMade key id h
      → (net : Delivery) (now other : ℕ) (r : CreateRequest) (seen : Db)
      → ((create_deployment engine policies settings net now other (some key) r seen w).1 ≡ w)
        × (was_created
              (create_deployment engine policies settings net now other (some key) r seen w).0
            ≡ false)
        × ((d : Deployment) × (d.id ≡ id)
            × (create_deployment engine policies settings net now other (some key) r w.db w
                ≡ (ok (d, false), w)))
  unfolding create_deployment
  create_deployment_once {w} h key id apart made net now other r seen =
      let found = IsMade-keyed key id h made in
      let (d, existing, named) = keyed-existing_for_key key id w.db apart found in
      let refused =
        refused-again key id now other r net w _
          (create_deployment-Creation engine policies now other (some key) r settings net seen w)
          found in
      (refused.0, refused.1, (d, named, rw (existing, create_deployment) refl))
