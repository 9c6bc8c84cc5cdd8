-- ===== src/Timeline.antt =====
-- A deployment's timeline: backend/app/control_plane/timeline.py, and `list_policy_evaluations` of
-- backend/app/policy/service.py.
pub mod Order
pub mod Snapshots
use modelops_control_plane.Base.{
  ℕ, Bool, true, false, not, Option, none, some, List, [], ◌∷◌, ◌++◌, map, where_, leb, ◌==◌,
  sort_by,
}
use modelops_control_plane.Number.{Number}
use modelops_control_plane.Store.{
  Db, Deployment, DeploymentEvent, EventBody, PolicyEvaluation, PolicyEvaluationResult, PolicyName,
  MetricName,
}
use modelops_control_plane.Service.Query.{weight_of}
use modelops_control_plane.Policy.Explain.{Explanation, explain_policy_check}

-- `TimelineEventItem` and `TimelinePolicyItem`.
pub record TimelinePolicyItem : Type 0 where
  pub timestamp : ℕ
  pub policy_name : PolicyName
  pub metric_name : MetricName
  pub observed_value : Option Number
  pub threshold : Option Number
  pub result : PolicyEvaluationResult
  pub explanation : Explanation
  pub is_estimated : Bool

pub data TimelineItem : Type 0 where
  event_item : (timestamp : ℕ) → EventBody → TimelineItem
  policy_item : TimelinePolicyItem → TimelineItem

abbrev pub timestamp_of : TimelineItem → ℕ
timestamp_of (event_item timestamp body) = timestamp
timestamp_of (policy_item item) = item.timestamp

-- `_canary_weight`
unfoldable pub canary_weight_now : Deployment → Option ℕ
canary_weight_now d = elim d.traffic_allocation [
  | none ↦ none
  | some a ↦ weight_of d.canary_version a.targets
]

abbrev pub is_some_weight : Option ℕ → Bool
is_some_weight none = false
is_some_weight (some w) = true

abbrev pub weight_or : Option ℕ → Option ℕ → Option ℕ
weight_or (some w) current = some w
weight_or none current = current

unfoldable pub policy_item_of : (current : Option ℕ) → PolicyEvaluation → TimelinePolicyItem
policy_item_of current e =
    let is_estimated = not (is_some_weight e.canary_weight) in
    record {
      timestamp = e.evaluated_at;
      policy_name = e.policy_name;
      metric_name = e.metric_name;
      observed_value = e.observed_value;
      threshold = e.threshold;
      result = e.result;
      explanation =
          explain_policy_check e.policy_name e.observed_value e.threshold e.result
            (weight_or e.canary_weight current) is_estimated e.labeled_sample_count;
      is_estimated = is_estimated;
    }

abbrev pub event_item_of : DeploymentEvent → TimelineItem
event_item_of e = event_item e.created_at e.body

abbrev pub newer_first : PolicyEvaluation → PolicyEvaluation → Bool
newer_first a b = leb b.evaluated_at a.evaluated_at

unfoldable pub list_policy_evaluations : Db → (deployment_id : ℕ) → List PolicyEvaluation
list_policy_evaluations db id =
    sort_by newer_first (where_ (λ e. e.deployment_id == id) db.policy_evaluations)

abbrev pub older_first : DeploymentEvent → DeploymentEvent → Bool
older_first a b = leb a.created_at b.created_at

-- `deployment.events`
unfoldable pub events_of : Db → (deployment_id : ℕ) → List DeploymentEvent
events_of db id = sort_by older_first (where_ (λ e. e.deployment_id == id) db.events)

abbrev pub earlier : TimelineItem → TimelineItem → Bool
earlier a b = leb (timestamp_of a) (timestamp_of b)

unfoldable pub timeline_items : Db → Deployment → List TimelineItem
timeline_items db d =
    map event_item_of (events_of db d.id)
    ++ map (λ e. policy_item (policy_item_of (canary_weight_now d) e))
        (list_policy_evaluations db d.id)

unfoldable pub build_timeline : Db → Deployment → List TimelineItem
build_timeline db d = sort_by earlier (timeline_items db d)
