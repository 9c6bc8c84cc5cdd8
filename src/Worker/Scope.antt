-- ===== src/Worker/Scope.antt =====
-- Which deployments a sweep of the worker touches.
use modelops_control_plane.Base.{
  ℕ, inl, inr, ◌≡◌, refl, sym, subst, true, List, [], ◌∷◌, All, Any, arith,
}
use modelops_control_plane.Store.{Deployment}
use modelops_control_plane.Worker.{
  reply, Request, list_deployments, reconcile, get_deployment, get_policy_evaluations, evaluate,
  take, WorkerClient, Line, process_deployment, process_all, is_swept, active_ids, run_once,
}
use modelops_control_plane.Worker.Turn.{gone, early, asked, acted, process_deployment-Turn}

abbrev pub About : ℕ → Request → Type 0
About id list_deployments = ⊥
About id reconcile = ⊥
About id (get_deployment i) = i ≡ id
About id (get_policy_evaluations i) = i ≡ id
About id (evaluate i) = i ≡ id
About id (take action i) = i ≡ id

-- A request that concerns no single deployment, or one of the listed ones that is swept.
abbrev pub InScope : List Deployment → Request → Type 0
InScope ds list_deployments = Unit
InScope ds reconcile = Unit
InScope ds r = Any (λ d. (is_swept d ≡ true) × About d.id r) ds

module _ {S : Type 0} (client : WorkerClient S) (now default : ℕ) where
  -- The requests that were made stay logged.
  process_deployment-keeps :
      (r : Request) (id : ℕ) (line : Line S)
      → Any (λ x. x ≡ r) line.requests
      → Any (λ x. x ≡ r) (process_deployment client now default id line).1.requests
  process_deployment-keeps r id line h = elim (process_deployment-Turn client now default id line) [
    | gone e ↦ rw e (inr h)
    | early e ↦ rw e (inr (inr h))
    | asked e ↦ rw e (inr (inr (inr h)))
    | acted action e ↦ rw e (inr (inr (inr (inr h))))
  ]

  process_deployment-reads :
      (id : ℕ) (line : Line S)
      → Any (λ x. x ≡ get_deployment id) (process_deployment client now default id line).1.requests
  process_deployment-reads id line = elim (process_deployment-Turn client now default id line) [
    | gone e ↦ rw e (inl refl)
    | early e ↦ rw e (inr (inl refl))
    | asked e ↦ rw e (inr (inr (inl refl)))
    | acted action e ↦ rw e (inr (inr (inr (inl refl))))
  ]

  process_all-keeps :
      (r : Request) (ids : List ℕ) (line : Line S)
      → Any (λ x. x ≡ r) line.requests
      → Any (λ x. x ≡ r) (process_all client now default ids line).requests
  unfolding process_all
  process_all-keeps r [] line h = h
  process_all-keeps r (id ∷ ids) line h =
      process_all-keeps r ids _ (process_deployment-keeps r id line h)

  process_all-reads :
      (ids : List ℕ) (line : Line S)
      → All
          (λ id.
            Any (λ x. x ≡ get_deployment id) (process_all client now default ids line).requests)
          ids
  unfolding process_all
  process_all-reads [] line = tt
  process_all-reads (id ∷ ids) line = (
    process_all-keeps (get_deployment id) ids _ (process_deployment-reads id line),
    process_all-reads ids (process_deployment client now default id line).1,
  )

module _ {S : Type 0} (client : WorkerClient S) (now default : ℕ) (s : S) (ds : List Deployment)
    (listed : (client.on_list_deployments (client.on_reconcile s).1).0 ≡ reply ds) where
  unfoldable listed_line : Line S
  listed_line = record {
    there = (client.on_list_deployments (client.on_reconcile s).1).1;
    requests = list_deployments ∷ reconcile ∷ [];
  }

  run_once-requests :
      (run_once client now default (record { there = s; requests = [] })).1
      ≡ process_all client now default (active_ids ds) listed_line
  unfolding run_once listed_line
  run_once-requests = ground arith

  -- A sweep gets to each deployment that is listed as active and not paused, whatever the calls
  -- about the others answer, errors included.
  pub swept_reached :
      All
        (λ id.
          Any
            (λ r. r ≡ get_deployment id)
            (run_once client now default (record { there = s; requests = [] })).1.requests)
        (active_ids ds)
  swept_reached =
      subst (λ line. All (λ id. Any (λ r. r ≡ get_deployment id) line.requests) (active_ids ds))
        (sym run_once-requests) (process_all-reads client now default (active_ids ds) listed_line)
