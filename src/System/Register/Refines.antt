-- ===== src/System/Register/Refines.antt =====
-- Every step of the system is a step of each model's register: the requests, creations, messages, ticks
-- and restarts of the control plane with its router.
use modelops_control_plane.Base.{
  ℕ, suc, ◌≤◌, ◌≡◌, ◌≢◌, inl, inr, refl, sym, ap, ◌∙◌, subst, Bool, Option, none, some, List, [],
  ◌∷◌, arith, Bool-cases, ◌==◌, Result,
}
use modelops_control_plane.Store.{Db, Deployment, PolicySettings}
use modelops_control_plane.Router.{RouterConfig, RouterSettings}
use modelops_control_plane.Gateway.{Delivery}
use modelops_control_plane.Service.Query.{find_row}
use modelops_control_plane.Service.Session.{ServiceError, Engine, generation_of, write_row}
use modelops_control_plane.Service.Reachability.{World}
use modelops_control_plane.Service.Create.{CreateRequest}
use modelops_control_plane.Service.Create.Started.{
  Creation, unchanged, started, create_deployment-Creation,
}
use modelops_control_plane.Service.Perform.{Action}
use modelops_control_plane.Service.Perform.Outcomes.{
  SameRows, Outcome, refused, nothing_to_do, wrote, perform-Outcome,
}
use modelops_control_plane.Service.Order.{newest_of}
use modelops_control_plane.Service.History.{empty_db}
use modelops_control_plane.Service.History.Copies.{IsCopy, Any-All}
use modelops_control_plane.Service.History.Invariant.{History-Holds}
use modelops_control_plane.Service.History.Steps.{Holds, run_session-IsWrite, started-Inserts}
use modelops_control_plane.Reconcile.Corrects.{reconcile-SameRows}
use modelops_control_plane.System.{
  Run, start, load, request, create, other_writer, send, arrive, tick, restart,
}
use modelops_control_plane.System.Messages.{SameRows-Advances}
use modelops_control_plane.System.Runs.{Run-History, Outcome-Step, Creation-Step}
use modelops_control_plane.System.Register.{
  RegisterStep, stays, register_of, KeepsRows, Advances-RegisterStep,
}

newest_of-replaced :
    (model : ℕ) (r d : Deployment) (rows : List Deployment)
    → find_row r.id rows ≡ some d
    → r.model_name ≡ d.model_name
    → newest_of model (write_row r rows) ≡ none
    → (newest_of model rows ≡ none) × (model ≢ d.model_name)
newest_of-replaced model r d [] found same gone = absurd (ground arith)
newest_of-replaced model r d (e ∷ es) found same gone = elim (Bool-cases (e.id == r.id)) [
  | inl here ↦ let is_d : e ≡ d = ground arith in (ground arith, λ m. ground arith)
  | inr there ↦ let rest = newest_of-replaced model r d es (ground arith) same in ground arith
]

SameRows-KeepsRows : (db db' : Db) (model : ℕ) → SameRows db db' → KeepsRows db db' model
SameRows-KeepsRows db db' model same gone = (
  subst (λ rows. newest_of model rows ≡ none) same.deployments gone,
  ap (generation_of model) same.generations,
)

module _ (engine : Engine) (settings : RouterSettings) (policies : PolicySettings) where
  Outcome-KeepsRows :
      (net : Delivery) (clock now : ℕ) (copies : List Deployment) (a : Action) (d : Deployment)
      (w : World) (r : Result ServiceError Deployment × World) (model : ℕ)
      → Outcome engine settings net now a d w r
      → IsCopy w.db.deployments d
      → clock ≤ now
      → Holds w.db clock copies
      → KeepsRows w.db r.1.db model
  Outcome-KeepsRows net clock now copies a d w r model (refused e) copy later p gone = (gone, refl)
  Outcome-KeepsRows net clock now copies a d w r model nothing_to_do copy later p gone =
      (gone, refl)
  Outcome-KeepsRows net clock now copies a d w r model (wrote s w' e same reaches) copy later p
        gone =
      let q = run_session-IsWrite engine policies clock now copies a d w.db s e copy later p in
      let step = q.step in
      let written : w'.db.deployments ≡ write_row s.row w.db.deployments =
        same.deployments ∙ q.written in
      let found : find_row s.row.id w.db.deployments ≡ some d =
        subst (λ id. find_row id w.db.deployments ≡ some d) (sym step.same_id) q.found in
      let was =
        newest_of-replaced model s.row d w.db.deployments found step.same_model
          (subst (λ rows. newest_of model rows ≡ none) written gone) in
      (was.0, ap (generation_of model) same.generations ∙ step.others model was.1)

  Creation-KeepsRows :
      (net : Delivery) (now id : ℕ) (key : Option ℕ) (q : CreateRequest) (w : World)
      (r : Result ServiceError (Deployment × Bool) × World) (model : ℕ)
      → Creation engine policies now id key q settings net w r
      → KeepsRows w.db r.1.db model
  Creation-KeepsRows net now id key q w r model (unchanged x not_created) gone = (gone, refl)
  Creation-KeepsRows net now id key q w r model
        (started s w' here row_is rows_are counters same reaches) gone =
      let step = started-Inserts engine policies now id key q w.db s here row_is counters in
      let written : w'.db.deployments ≡ s.row ∷ w.db.deployments = same.deployments ∙ rows_are in
      let none_now = subst (λ rows. newest_of model rows ≡ none) written gone in
      elim (Bool-cases (s.row.model_name == model)) [
        | inl here' ↦ absurd (ground arith)
        | inr other ↦ (
          ground arith,
          ap (generation_of model) same.generations ∙ step.others model (λ m. ground arith),
        )
      ]

  Run-Holds :
      {w : World} {clock : ℕ} {copies : List Deployment} {wire : List RouterConfig}
      → Run engine settings policies w clock copies wire
      → Holds w.db clock copies
  Run-Holds h = History-Holds engine settings policies (Run-History engine settings policies h)

  -- The tables before the last step of a run; a run that only starts has its own.
  unfoldable pub before_last :
      {w : World} {clock : ℕ} {copies : List Deployment} {wire : List RouterConfig}
      → Run engine settings policies w clock copies wire
      → Db
  before_last (start router zero) = empty_db
  before_last (load {w} id d h found) = w.db
  before_last (request {w} net now a d h held later) = w.db
  before_last (create {w} net now id key r seen h fresh later) = w.db
  before_last (other_writer {w} w' h same router) = w.db
  before_last (send {w} model d a h e f) = w.db
  before_last (arrive {w} c h on) = w.db
  before_last (tick {w} get put now h) = w.db
  before_last (restart {w} net router h starts) = w.db

  -- Every step of the system refines a step of each model's register: whatever requests, creations,
  -- lost, delayed and repeated messages, ticks and restarts do to the tables, a model's desired
  -- config stays as it is, or a new one of that model is published, with a revision above the
  -- generation before it, and that revision is the generation after it.
  pub run_refines_register :
      (model : ℕ) {w : World} {clock : ℕ} {copies : List Deployment} {wire : List RouterConfig}
      (run : Run engine settings policies w clock copies wire)
      → RegisterStep model (register_of (before_last run) model) (register_of w.db model)
  unfolding before_last
  run_refines_register model (start router zero) = stays
  run_refines_register model (load id d h found) = stays
  run_refines_register model (send model' d a h e f) = stays
  run_refines_register model (arrive c h on) = stays
  run_refines_register model (restart net router h starts) = stays
  run_refines_register model (other_writer {w} {clock} w' h same router) =
      let c = (Run-Holds h).consistent in
      let c' = (Run-Holds (other_writer w' h same router)).consistent in
      Advances-RegisterStep w.db w'.db clock clock model c c' (SameRows-Advances w.db w'.db same)
        (SameRows-KeepsRows w.db w'.db model same)
  run_refines_register model (tick {w} {clock} get put now h) =
      let same = reconcile-SameRows settings get put now w in
      let c = (Run-Holds h).consistent in
      let c' = (Run-Holds (tick get put now h)).consistent in
      Advances-RegisterStep w.db _ clock clock model c c' (SameRows-Advances w.db _ same)
        (SameRows-KeepsRows w.db _ model same)
  run_refines_register model (request {w} {clock} {copies} net now a d h held later) =
      let p = Run-Holds h in
      let after = Run-Holds (request net now a d h held later) in
      let outcome = perform-Outcome engine settings net now a d w in
      let copy = Any-All (IsCopy w.db.deployments) copies p.copies_ok held in
      let advances =
        Outcome-Step engine settings policies net clock now copies a d w _ outcome copy later p
          after in
      let keeps = Outcome-KeepsRows net clock now copies a d w _ model outcome copy later p in
      Advances-RegisterStep w.db _ clock (suc now) model p.consistent after.consistent advances.0
        keeps
  run_refines_register model (create {w} {clock} {copies} net now id key q seen h fresh later) =
      let p = Run-Holds h in
      let after = Run-Holds (create net now id key q seen h fresh later) in
      let creation = create_deployment-Creation engine policies now id key q settings net seen w in
      let advances =
        Creation-Step engine settings policies net clock now id key q copies w _ creation after in
      let keeps = Creation-KeepsRows net now id key q w _ model creation in
      Advances-RegisterStep w.db _ clock (suc now) model p.consistent after.consistent advances.0
        keeps
