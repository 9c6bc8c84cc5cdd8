-- ===== src/Service/History/Guarantees.antt =====
-- What every history guarantees the router: which row is the authoritative one, and that there is
-- at most one rollout of a model at a time.
use modelops_control_plane.Base.{
  ℕ, ◌≤◌, ◌≡◌, refl, some, List, [], ◌∷◌, All, arith, ◌==◌, count, inl, inr, Bool-cases, sym, ◌∙◌,
}
use modelops_control_plane.Store.{Deployment, PolicySettings}
use modelops_control_plane.Router.{RouterSettings}
use modelops_control_plane.Service.Query.{get_authoritative_allocation}
use modelops_control_plane.Service.Session.{Engine, generation_of, in_flight}
use modelops_control_plane.Service.Reachability.{World}
use modelops_control_plane.Service.Order.{revision_of, newest_of, Older, Ordered, RowOk}
use modelops_control_plane.Service.Order.Authoritative.{authoritative-newest_of}
use modelops_control_plane.Service.Order.Consistency.{All-map}
use modelops_control_plane.Service.History.{History}
use modelops_control_plane.Service.History.Invariant.{History-Holds}

count-in_flight-Older :
    (d : Deployment) (model : ℕ) (ds : List Deployment)
    → d.model_name ≡ model
    → All (Older d) ds
    → count (in_flight model) ds ≡ 0
count-in_flight-Older d model [] same h = refl
count-in_flight-Older d model (e ∷ es) same h =
    ground (arith, count-in_flight-Older d model es same h.1)

count-in_flight : (model : ℕ) (ds : List Deployment) → Ordered ds → count (in_flight model) ds ≤ 1
count-in_flight model [] order = omega arith
count-in_flight model (d ∷ ds) order = elim (Bool-cases (d.model_name == model)) [
  | inl same ↦ ground (arith, count-in_flight-Older d model ds (ground arith) order.0)
  | inr other ↦ ground (arith, count-in_flight model ds order.1)
]

module _ (engine : Engine) (settings : RouterSettings) (policies : PolicySettings) (w : World)
    (clock : ℕ) (copies : List Deployment)
    (h : History engine settings policies w clock copies) where
  -- In every history, a model has at most one deployment whose status is not terminal.
  pub one_in_flight : (model : ℕ) → count (in_flight model) w.db.deployments ≤ 1
  one_in_flight model =
      let p = History-Holds engine settings policies h in
      let c = p.consistent in count-in_flight model w.db.deployments c.order

  -- In every history, the allocation that the router should serve for a model is the one that was
  -- written last: its revision is the model's current generation, and no row of the model has a
  -- higher one.
  pub authoritative_is_latest :
      (model : ℕ) (d : Deployment)
      → get_authoritative_allocation w.db model ≡ some d
      → (revision_of d ≡ generation_of model w.db.generations)
        × All (λ e. e.model_name ≡ model → revision_of e ≤ revision_of d) w.db.deployments
  authoritative_is_latest model d e =
      let p = History-Holds engine settings policies h in
      let c = p.consistent in
      let newest : newest_of model w.db.deployments ≡ some d =
        sym (authoritative-newest_of w.db clock model c) ∙ e in
      let current = c.top model d newest in
      (
        current,
        All-map (RowOk w.db.generations clock) _ w.db.deployments
            (λ x row same. let bound = row.stamped_before in ground arith) c.rows,
      )
