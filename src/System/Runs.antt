-- ===== src/System/Runs.antt =====
-- What holds in every run of the control plane with its router.
use modelops_control_plane.Base.{
  ℕ, suc, ◌≤◌, ◌≡◌, ◌⊎◌, inl, inr, refl, sym, ap, ◌∙◌, subst, Option, some, List, ◌∷◌, arith,
  Result, Bool,
}
use modelops_control_plane.Store.{Deployment, PolicySettings}
use modelops_control_plane.Router.{RouterConfig, RouterSettings}
use modelops_control_plane.Gateway.{Delivery}
use modelops_control_plane.Service.Session.{ServiceError, Engine, write_row}
use modelops_control_plane.Service.Reachability.{World}
use modelops_control_plane.Service.Create.{CreateRequest}
use modelops_control_plane.Service.Create.Started.{Creation, unchanged, started}
use modelops_control_plane.Service.Perform.{Action}
use modelops_control_plane.Service.Perform.Outcomes.{
  SameRows, Outcome, refused, nothing_to_do, wrote,
}
use modelops_control_plane.Service.Order.{newest_of}
use modelops_control_plane.Service.Order.Writes.{newest_of-write_row, Replaces}
use modelops_control_plane.Service.Order.Consistency.{Inserts}
use modelops_control_plane.Service.History.{History}
use modelops_control_plane.Service.History.Copies.{IsCopy}
use modelops_control_plane.Service.History.Steps.{Holds, run_session-IsWrite, started-Inserts}
use modelops_control_plane.Reconcile.Corrects.{reconcile-SameRows}
use modelops_control_plane.System.{
  Run, start, load, request, create, other_writer, send, arrive, tick, restart,
}
use modelops_control_plane.System.Messages.{
  IsPast, Advances, SameRows-Advances, Replaces-Advances, Inserts-Advances, desired_config-IsPast,
}

module _ (engine : Engine) (settings : RouterSettings) (policies : PolicySettings) where
  -- A run, without the router and the wire.
  pub Run-History :
      {w : World} {clock : ℕ} {copies : List Deployment} {wire : List RouterConfig}
      → Run engine settings policies w clock copies wire
      → History engine settings policies w clock copies
  Run-History (start router zero_revision) = History.start router
  Run-History (load id d h found) = History.load id d (Run-History h) found
  Run-History (request net now a d h held later) =
      History.request net now a d (Run-History h) held later
  Run-History (create {w} net now id key r seen h fresh later) =
      History.create net now id key r seen (Run-History h) fresh later
  Run-History (other_writer w' h same router) = History.other_writer w' (Run-History h) same
  Run-History (send model d a h e f) = Run-History h
  Run-History (arrive {w} c h on) =
      History.other_writer _ (Run-History h) (record { deployments = refl; generations = refl })
  Run-History (tick {w} get put now h) =
      History.other_writer _ (Run-History h) (reconcile-SameRows settings get put now w)
  Run-History (restart {w} net router h starts) =
      History.other_writer _ (Run-History h) (record { deployments = refl; generations = refl })

  -- A step of the world: the tables advance, and the router keeps its config or takes one that the
  -- tables may have sent.
  abbrev pub Step : World → World → Type 0
  Step w w' = Advances w.db w'.db × ((w'.router ≡ w.router) ⊎ IsPast w'.db w'.router)

  pub still : (w w' : World) → SameRows w.db w'.db → w'.router ≡ w.router → Step w w'
  still w w' same router = (SameRows-Advances w.db w'.db same, inl router)

  pub Outcome-Step :
      (net : Delivery) (clock now : ℕ) (copies : List Deployment) (a : Action) (d : Deployment)
      (w : World) (r : Result ServiceError Deployment × World)
      → Outcome engine settings net now a d w r
      → IsCopy w.db.deployments d
      → clock ≤ now
      → Holds w.db clock copies
      → Holds r.1.db (suc now) copies
      → Step w r.1
  Outcome-Step net clock now copies a d w r (refused e) copy later p after =
      still w w (record { deployments = refl; generations = refl }) refl
  Outcome-Step net clock now copies a d w r nothing_to_do copy later p after =
      still w w (record { deployments = refl; generations = refl }) refl
  Outcome-Step net clock now copies a d w r (wrote s w' e same reaches) copy later p after =
      let q = run_session-IsWrite engine policies clock now copies a d w.db s e copy later p in
      let step : Replaces now w.db.generations w'.db.generations d s.row =
        subst (λ g. Replaces now w.db.generations g d s.row) (sym same.generations) q.step in
      let written : w'.db.deployments ≡ write_row s.row w.db.deployments =
        same.deployments ∙ q.written in
      let before = p.consistent in
      let consistent = after.consistent in
      let this_now : now ≤ now = omega arith in
      let shape =
        newest_of-write_row step this_now s.row.model_name w.db.deployments before.order q.found in
      let newest : newest_of s.row.model_name w'.db.deployments ≡ some s.row =
        ground (arith, step.same_model) in
      (
        Replaces-Advances w.db w'.db step q.found before.order written,
        elim reaches [
          | inl kept ↦ inl kept
          | inr (b, allocated, taken) ↦ inr (
              subst (IsPast w'.db) (sym taken) (
                desired_config-IsPast w'.db s.row b newest allocated
                  (consistent.top s.row.model_name s.row newest)))
        ],
      )

  pub Creation-Step :
      (net : Delivery) (clock now id : ℕ) (key : Option ℕ) (q : CreateRequest)
      (copies : List Deployment) (w : World) (r : Result ServiceError (Deployment × Bool) × World)
      → Creation engine policies now id key q settings net w r
      → Holds r.1.db (suc now) copies
      → Step w r.1
  Creation-Step net clock now id key q copies w r (unchanged x not_created) after =
      still w w (record { deployments = refl; generations = refl }) refl
  Creation-Step net clock now id key q copies w r
        (started s w' here row_is rows_are counters same reaches) after =
      let step : Inserts w.db.generations w'.db.generations w.db.deployments s.row =
        subst (λ g. Inserts w.db.generations g w.db.deployments s.row) (sym same.generations)
          (started-Inserts engine policies now id key q w.db s here row_is counters) in
      let written : w'.db.deployments ≡ s.row ∷ w.db.deployments = same.deployments ∙ rows_are in
      let consistent = after.consistent in
      let newest : newest_of s.row.model_name w'.db.deployments ≡ some s.row =
        ap (newest_of s.row.model_name) written ∙ ground arith in
      (
        Inserts-Advances w.db w'.db step written,
        elim reaches [
          | inl kept ↦ inl kept
          | inr (b, allocated, taken) ↦ inr (
              subst (IsPast w'.db) (sym taken) (
                desired_config-IsPast w'.db s.row b newest allocated
                  (consistent.top s.row.model_name s.row newest)))
        ],
      )
