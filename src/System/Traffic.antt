-- ===== src/System/Traffic.antt =====
-- From a request at the router to the summaries that the policies read: the router's metric
-- (backend/app/router/main.py) at the control plane's endpoint (backend/app/control_plane/api.py).
use modelops_control_plane.Base.{
  ℕ, ◌+◌, ◌≡◌, ◌≢◌, not, refl, Bool, true, false, ◌&&◌, Option, some, List, [], ◌∷◌, map, where_,
  length, ◌==◌, ==_refl, arith, if◌then◌else◌, Option-cases, Bool-cases, inl, inr,
}
use modelops_control_plane.Store.{Db, Deployment, Target, PredictionMetric}
use modelops_control_plane.Router.{RouterConfig, RouterSettings, resolve_base_url}
use modelops_control_plane.Router.Predict.{
  choose_target, Outgoing, get_ready, post_predict, post_metric, check_ready, Upstream,
  emit_for_deployment, Routed, answered, as_str, field_of, prediction_id, metric_of, forward,
  route_predict,
}
use modelops_control_plane.Metrics.{
  MetricIn, is_taken, record_metric, compute_version_summary, summarize, in_window, joined,
}
use modelops_control_plane.Service.Query.{find_row}
use modelops_control_plane.Api.Reads.{post_metrics}

-- The metrics among a request's messages reach the control plane.
abbrev pub deliver_metrics : (now : ℕ) → List Outgoing → Db → Db
deliver_metrics now [] db = db
deliver_metrics now (post_metric id m ∷ rest) db =
    deliver_metrics now rest (post_metrics now id m db).1
deliver_metrics now (_ ∷ rest) db = deliver_metrics now rest db

abbrev pub samples : Db → (deployment_id version window now : ℕ) → ℕ
samples db deployment_id version window now =
    (compute_version_summary db deployment_id version window 0 now).sample_count

-- An answer whose prediction id, if it has one, no metric has yet.
abbrev pub is_recorded : Routed → List PredictionMetric → Bool
is_recorded (answered code body) rows = not (is_taken (as_str (field_of prediction_id body)) rows)
is_recorded _ rows = false

length-map {ℓ κ} :
    {A : Type ℓ} {B : Type κ} (f : A → B) (xs : List A) → length (map f xs) ≡ length xs
length-map f [] = refl
length-map f (x ∷ xs) = let rest = length-map f xs in omega (arith, rest)

record_metric-samples :
    (now id : ℕ) (m : MetricIn) (db : Db) (version window : ℕ)
    → samples (record_metric now id m db).1 id version window now
      ≡ (if not (is_taken m.prediction_id db.metrics) && (m.model_version == version) then 1 else 0)
        + samples db id version window now
unfolding record_metric compute_version_summary summarize
record_metric-samples now id m db version window =
    let here = ==_refl id in
    let inside = in_window id version window 0 now in
    let old = length-map (joined db.labels) (where_ inside db.metrics) in ground arith

deliver_metrics-samples :
    (now id version window : ℕ) (url : ℕ) (deployment_id : Option ℕ) (control_plane : Bool)
    (m : MetricIn) (db : Db) (d : Deployment)
    → find_row id db.deployments ≡ some d
    → control_plane ≡ true
    → deployment_id ≡ some id
    → id ≢ 0
    → samples
        (deliver_metrics now
          (get_ready url ∷ post_predict url ∷ emit_for_deployment control_plane deployment_id m)
          db)
        id
        version
        window
        now
      ≡ (if not (is_taken m.prediction_id db.metrics) && (m.model_version == version) then 1 else 0)
        + samples db id version window now
unfolding post_metrics
deliver_metrics-samples now id version window url deployment_id control_plane m db d row on there
      named =
    let counted = record_metric-samples now id m db version window in ground arith

forward-samples :
    (upstream : Upstream) (now version base_url latency_ms id asked window : ℕ) (db : Db)
    (d : Deployment)
    → find_row id db.deployments ≡ some d
    → id ≢ 0
    → let done = forward true upstream (some id) version base_url latency_ms in
      samples (deliver_metrics now done.1 db) id asked window now
      ≡ (if is_recorded done.0 db.metrics && (version == asked) then 1 else 0)
        + samples db id asked window now
unfolding forward metric_of
forward-samples upstream now version base_url latency_ms id asked window db d row named =
    elim (Option-cases (upstream.forward_predict base_url)) [
      | inl q ↦ ground arith
      | inr (r, q) ↦
          let m = metric_of version latency_ms r in
          let counted =
            deliver_metrics-samples now id asked window base_url (some id) true m db d row refl refl
              named in
          ground arith
    ]

-- A request through a router that serves a deployment which the control plane has, and whose id is not
-- empty, with its metric delivered: the request is one more sample, in any window that ends now, of
-- the version that was chosen for it, where it was answered and its prediction id, if it has one, is
-- on no metric yet, and of no other version; unanswered, or with an id that is recorded already, it
-- is none.
pub answered_is_sampled :
    (settings : RouterSettings) (upstream : Upstream) (draw latency_ms now window asked id : ℕ)
    (config : RouterConfig) (t : Target) (base_url : ℕ) (db : Db) (d : Deployment)
    → config.deployment_id ≡ some id
    → id ≢ 0
    → find_row id db.deployments ≡ some d
    → choose_target config.targets draw ≡ some t
    → resolve_base_url settings t.version ≡ some base_url
    → let done = route_predict settings true upstream draw latency_ms config in
      samples (deliver_metrics now done.1 db) id asked window now
      ≡ (if is_recorded done.0 db.metrics && (t.version == asked) then 1 else 0)
        + samples db id asked window now
unfolding route_predict
answered_is_sampled settings upstream draw latency_ms now window asked id config t base_url db d
      serves named row chosen host =
    let sent =
      forward-samples upstream now t.version base_url latency_ms id asked window db d row named in
    elim (Bool-cases (check_ready (upstream.ready base_url))) [
      | inl q ↦ ground arith
      | inr q ↦ ground arith
    ]
