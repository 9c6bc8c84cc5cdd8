-- ===== src/Service/History.antt =====
-- Histories: requests that load a row at one time and act on their copy at another, in any
-- interleaving, with creations and every other writer between them.
pub mod Copies
pub mod Changes
pub mod Steps
pub mod Invariant
pub mod Guarantees
pub mod Keys
use modelops_control_plane.Base.{ℕ, suc, ◌≤◌, ◌≡◌, Option, none, some, List, [], ◌∷◌, Any, arith}
use modelops_control_plane.Store.{Db, Deployment, PolicySettings}
use modelops_control_plane.Router.{RouterConfig, RouterSettings}
use modelops_control_plane.Gateway.{Delivery}
use modelops_control_plane.Service.Query.{find_row}
use modelops_control_plane.Service.Session.{Engine}
use modelops_control_plane.Service.Reachability.{World}
use modelops_control_plane.Service.Create.{CreateRequest, create_deployment}
use modelops_control_plane.Service.Perform.{Action, perform}
use modelops_control_plane.Service.Perform.Outcomes.{SameRows}

abbrev pub empty_db : Db
empty_db = record {
  deployments = [];
  generations = [];
  events = [];
  policy_evaluations = [];
  metrics = [];
  labels = [];
}

-- The world, a time after every time that was written, and the copies that requests hold.
pub data History (engine : Engine) (settings : RouterSettings) (policies : PolicySettings)
    : World → ℕ → List Deployment → Type 0 where
  start :
      (router : RouterConfig)
      → History engine settings policies (record { db = empty_db; router = router }) 0 []
  load :
      {w : World} {clock : ℕ} {copies : List Deployment} (id : ℕ) (d : Deployment)
      → History engine settings policies w clock copies
      → find_row id w.db.deployments ≡ some d
      → History engine settings policies w clock (d ∷ copies)
  request :
      {w : World} {clock : ℕ} {copies : List Deployment} (net : Delivery) (now : ℕ) (a : Action)
      (d : Deployment)
      → History engine settings policies w clock copies
      → Any (λ c. c ≡ d) copies
      → clock ≤ now
      → History engine settings policies (perform engine settings net now a d w).1 (suc now) copies
  create :
      {w : World} {clock : ℕ} {copies : List Deployment} (net : Delivery) (now id : ℕ)
      (key : Option ℕ) (r : CreateRequest) (seen : Db)
      → History engine settings policies w clock copies
      → find_row id w.db.deployments ≡ none
      → clock ≤ now
      → History engine settings policies
          (create_deployment engine policies settings net now id key r seen w).1
          (suc now)
          copies
  other_writer :
      {w : World} {clock : ℕ} {copies : List Deployment} (w' : World)
      → History engine settings policies w clock copies
      → SameRows w.db w'.db
      → History engine settings policies w' clock copies
