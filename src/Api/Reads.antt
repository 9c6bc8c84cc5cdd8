-- ===== src/Api/Reads.antt =====
-- The handlers of backend/app/control_plane/api.py that read, the one that records a metric, and the
-- list of checks of backend/app/policy/api.py. A window has no negative length here.
use modelops_control_plane.Base.{ℕ, none, some, List, Result, ok, err, sort_by}
use modelops_control_plane.Store.{Db, Deployment, PolicyEvaluation}
use modelops_control_plane.Router.{RouterConfig}
use modelops_control_plane.Gateway.{Delivery, get_observed_config}
use modelops_control_plane.Metrics.{
  MetricIn, MetricsSummary, MetricsDeltas, record_metric, compute_version_summary, compute_deltas,
}
use modelops_control_plane.Service.Query.{find_row, by_created}
use modelops_control_plane.Timeline.{TimelineItem, build_timeline, list_policy_evaluations}

pub record MetricsOut : Type 0 where
  pub window_seconds : ℕ
  pub stable : MetricsSummary
  pub canary : MetricsSummary

pub record ComparisonOut : Type 0 where
  pub window_seconds : ℕ
  pub stable : MetricsSummary
  pub canary : MetricsSummary
  pub deltas : MetricsDeltas

unfoldable pub list_deployments : Db → List Deployment
list_deployments db = sort_by by_created db.deployments

-- `service.get_deployment`, and the 404 that every handler makes of its error.
unfoldable pub get_deployment : Db → (id : ℕ) → Result ℕ Deployment
get_deployment db id = elim (find_row id db.deployments) [ none ↦ err 404 | some d ↦ ok d ]

-- A handler that reads for a deployment that is there.
abbrev pub reading {ℓ} : {A : Type ℓ} → Db → ℕ → (Deployment → A) → Result ℕ A
reading db id read = elim (find_row id db.deployments) [ none ↦ err 404 | some d ↦ ok (read d) ]

unfoldable pub get_deployment_timeline : Db → (id : ℕ) → Result ℕ (List TimelineItem)
get_deployment_timeline db id = reading db id (build_timeline db)

unfoldable pub get_deployment_metrics : Db → (id window now : ℕ) → Result ℕ MetricsOut
get_deployment_metrics db id window now = reading db id (λ d. record {
  window_seconds = window;
  stable = compute_version_summary db id d.stable_version window 0 now;
  canary = compute_version_summary db id d.canary_version window 0 now;
})

unfoldable pub get_deployment_comparison : Db → (id window now : ℕ) → Result ℕ ComparisonOut
get_deployment_comparison db id window now = reading db id (λ d.
    let stable = compute_version_summary db id d.stable_version window 0 now in
    let canary = compute_version_summary db id d.canary_version window 0 now in
    record {
      window_seconds = window;
      stable = stable;
      canary = canary;
      deltas = compute_deltas stable canary;
    })

unfoldable pub get_policy_evaluations : Db → (id : ℕ) → Result ℕ (List PolicyEvaluation)
get_policy_evaluations db id = reading db id (λ d. list_policy_evaluations db id)

-- `POST /{deployment_id}/metrics`: nothing catches the error of the commit.
unfoldable pub post_metrics : (now id : ℕ) → MetricIn → Db → ℕ × Db
post_metrics now id payload db = elim (find_row id db.deployments) [
  | none ↦ (404, db)
  | some d ↦
      let (recorded, db') = record_metric now id payload db in
      ((elim recorded [ ok _ ↦ 202 | err e ↦ 500 ]), db')
]

-- `GET /api/router/observed`: a router that is not reached has no config.
pub data ObservedRouter : Type 0 where
  unreachable : ObservedRouter
  reachable : RouterConfig → ObservedRouter

unfoldable pub get_observed_router_state : Delivery → RouterConfig → ObservedRouter
get_observed_router_state net current = elim (get_observed_config net current) [
  | none ↦ unreachable
  | some config ↦ reachable config
]
