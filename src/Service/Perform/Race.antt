-- ===== src/Service/Perform/Race.antt =====
-- Two requests that have loaded the same version of a row.
use modelops_control_plane.Base.{ℕ, ◌+◌, ◌≡◌, ◌≢◌, refl, ap, arith, Result, ok, some}
use modelops_control_plane.Store.{Deployment}
use modelops_control_plane.Router.{RouterSettings}
use modelops_control_plane.Gateway.{Delivery}
use modelops_control_plane.Service.Query.{find_row}
use modelops_control_plane.Service.Session.{ServiceError, Engine}
use modelops_control_plane.Service.Reachability.{World}
use modelops_control_plane.Service.Locking.{run_session-Committed}
use modelops_control_plane.Service.Perform.{Action, perform}
use modelops_control_plane.Service.Perform.Outcomes.{
  Outcome, refused, nothing_to_do, wrote, perform-Outcome, session_of, session_of-Keeps,
}

module _ (engine : Engine) (settings : RouterSettings) where
  -- A request that has written leaves the row with the next version in the table.
  Outcome-found :
      (net : Delivery) (now : ℕ) (a : Action) (d : Deployment) (w : World)
      (r : Result ServiceError Deployment × World)
      → Outcome engine settings net now a d w r
      → {d' : Deployment} → r.0 ≡ ok d'
      → d'.version_id ≢ d.version_id
      → (find_row d.id r.1.db.deployments ≡ some d') × (d'.version_id ≡ d.version_id + 1)
  Outcome-found net now a d w r (refused e) h k = cc
  Outcome-found net now a d w r nothing_to_do h k = absurd (ground arith)
  Outcome-found net now a d w r (wrote s w' e same reaches) h k =
      let c = run_session-Committed engine (session_of now a) w.db d (session_of-Keeps now a) e in
      ground arith

  -- On a stale copy of the row nothing is written, neither to the tables nor to the router.
  Outcome-stale :
      (net : Delivery) (now : ℕ) (b : Action) (d stored : Deployment) (w : World)
      (r : Result ServiceError Deployment × World)
      → Outcome engine settings net now b d w r
      → find_row d.id w.db.deployments ≡ some stored
      → stored.version_id ≢ d.version_id
      → r.1 ≡ w
  Outcome-stale net now b d stored w r (refused e) h k = refl
  Outcome-stale net now b d stored w r nothing_to_do h k = refl
  Outcome-stale net now b d stored w r (wrote s w' e same reaches) h k =
      let c = run_session-Committed engine (session_of now b) w.db d (session_of-Keeps now b) e in
      absurd (ground arith)

  -- Of two requests on the same copy of a deployment's row, in whatever order and of whatever kind,
  -- the second one writes nothing where the first has written: neither the tables nor the router
  -- change, so no write is lost.
  pub second_writer_loses :
      (first second : Delivery) (now later : ℕ) (a b : Action) (d d' : Deployment) (w w' : World)
      → perform engine settings first now a d w ≡ (ok d', w')
      → d'.version_id ≢ d.version_id
      → (perform engine settings second later b d w').1 ≡ w'
  second_writer_loses first second now later a b d d' w w' h moved =
      let (found, next) =
        Outcome-found first now a d w _ (perform-Outcome engine settings first now a d w)
          (ap (λ r. r.0) h) moved in
      Outcome-stale second later b d d' w' _ (perform-Outcome engine settings second later b d w')
        (rw h at found) moved
