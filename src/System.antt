-- ===== src/System.antt =====
-- The control plane and the router together: the histories of backend/app/control_plane/service.py
-- with every message to the router on a wire that may lose, delay, repeat and reorder, the ticks of
-- reconcile.py, and restarts of the router (backend/app/router/main.py).
pub mod Messages
pub mod Runs
pub mod Sync
pub mod Guarantees
pub mod Traffic
pub mod Register
pub mod Automation
use modelops_control_plane.Base.{ℕ, suc, ◌≤◌, ◌≡◌, Option, none, some, List, [], ◌∷◌, Any}
use modelops_control_plane.Store.{Db, Deployment, TrafficAllocation, PolicySettings}
use modelops_control_plane.Router.{RouterConfig, RouterSettings, put_config}
use modelops_control_plane.Gateway.{Delivery}
use modelops_control_plane.Service.Query.{find_row, get_authoritative_allocation}
use modelops_control_plane.Service.Session.{Engine}
use modelops_control_plane.Service.Reachability.{World, desired_config}
use modelops_control_plane.Service.Create.{CreateRequest, create_deployment}
use modelops_control_plane.Service.Perform.{Action, perform}
use modelops_control_plane.Service.Perform.Outcomes.{SameRows}
use modelops_control_plane.Service.History.{empty_db}
use modelops_control_plane.Reconcile.{reconcile_router_state}
use modelops_control_plane.Api.{start_router}

-- The world, a time after every time that was written, the copies that requests hold, and the
-- messages that are on the wire to the router.
pub data Run (engine : Engine) (settings : RouterSettings) (policies : PolicySettings)
    : World → ℕ → List Deployment → List RouterConfig → Type 0 where
  start :
      (router : RouterConfig)
      → router.revision ≡ 0
      → Run engine settings policies (record { db = empty_db; router = router }) 0 [] []
  load :
      {w : World} {clock : ℕ} {copies : List Deployment} {wire : List RouterConfig} (id : ℕ)
      (d : Deployment)
      → Run engine settings policies w clock copies wire
      → find_row id w.db.deployments ≡ some d
      → Run engine settings policies w clock (d ∷ copies) wire
  request :
      {w : World} {clock : ℕ} {copies : List Deployment} {wire : List RouterConfig} (net : Delivery)
      (now : ℕ) (a : Action) (d : Deployment)
      → Run engine settings policies w clock copies wire
      → Any (λ c. c ≡ d) copies
      → clock ≤ now
      → Run engine settings policies (perform engine settings net now a d w).1 (suc now) copies wire
  create :
      {w : World} {clock : ℕ} {copies : List Deployment} {wire : List RouterConfig} (net : Delivery)
      (now id : ℕ) (key : Option ℕ) (r : CreateRequest) (seen : Db)
      → Run engine settings policies w clock copies wire
      → find_row id w.db.deployments ≡ none
      → clock ≤ now
      → Run engine settings policies
          (create_deployment engine policies settings net now id key r seen w).1
          (suc now)
          copies
          wire
  other_writer :
      {w : World} {clock : ℕ} {copies : List Deployment} {wire : List RouterConfig} (w' : World)
      → Run engine settings policies w clock copies wire
      → SameRows w.db w'.db
      → w'.router ≡ w.router
      → Run engine settings policies w' clock copies wire
  -- What a push has to send is on the wire, to arrive later or never.
  send :
      {w : World} {clock : ℕ} {copies : List Deployment} {wire : List RouterConfig} (model : ℕ)
      (d : Deployment) (a : TrafficAllocation)
      → Run engine settings policies w clock copies wire
      → get_authoritative_allocation w.db model ≡ some d
      → d.traffic_allocation ≡ some a
      → Run engine settings policies w clock copies (desired_config d a ∷ wire)
  arrive :
      {w : World} {clock : ℕ} {copies : List Deployment} {wire : List RouterConfig}
      (c : RouterConfig)
      → Run engine settings policies w clock copies wire
      → Any (λ x. x ≡ c) wire
      → Run engine settings policies
          (record { db = w.db; router = (put_config settings c w.router).1 })
          clock
          copies
          wire
  tick :
      {w : World} {clock : ℕ} {copies : List Deployment} {wire : List RouterConfig}
      (get put : Delivery) (now : ℕ)
      → Run engine settings policies w clock copies wire
      → Run engine settings policies
          (reconcile_router_state settings get put now w).1
          clock
          copies
          wire
  restart :
      {w : World} {clock : ℕ} {copies : List Deployment} {wire : List RouterConfig} (net : Delivery)
      (router : RouterConfig)
      → Run engine settings policies w clock copies wire
      → start_router settings net w.db ≡ some router
      → Run engine settings policies (record { db = w.db; router = router }) clock copies wire
