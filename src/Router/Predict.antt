-- ===== src/Router/Predict.antt =====
-- The traffic router's requests: `choose_target`, `route_predict`, `router_health` and `_emit_metric`
-- of backend/app/router/main.py, with backend/app/router/client.py and metrics.py. What a serving app
-- answers is a parameter; the draw of `random.choices` is an argument, in the unit of the weights.
pub mod Share
pub mod Attribution
use modelops_control_plane.Base.{
  ℕ, ◌-◌, Bool, true, false, Option, none, some, List, [], ◌∷◌, ◌++◌, ltb, ◌==◌, if◌then◌else◌,
}
use modelops_control_plane.Store.{Target}
use modelops_control_plane.Router.{RouterConfig, RouterSettings, resolve_base_url}
use modelops_control_plane.Metrics.{MetricIn}

-- `random.choices(targets, weights, k=1)[0]`: the first target whose weights, summed up from the left,
-- go past the draw, and the last one where none does.
unfoldable pub choose_target : List Target → (draw : ℕ) → Option Target
choose_target [] draw = none
choose_target (t ∷ []) draw = some t
choose_target (t ∷ u ∷ ts) draw =
    let rest = choose_target (u ∷ ts) (draw - t.weight) in
    if ltb draw t.weight then some t else rest

-- The keys and values of a JSON object that the router looks at.
pub data Key : Type 0 where
  prediction prediction_id routed_to detail : Key
  other_key : ℕ → Key

abbrev pub key_eq : Key → Key → Bool
key_eq prediction prediction = true
key_eq prediction_id prediction_id = true
key_eq routed_to routed_to = true
key_eq detail detail = true
key_eq (other_key m) (other_key n) = m == n
key_eq _ _ = false

pub data Json : Type 0 where
  integer string other_json : ℕ → Json

pub data Body : Type 0 where
  object : List (Key × Json) → Body
  other_body : ℕ → Body

-- `body.get(key)`
abbrev pub get : Key → List (Key × Json) → Option Json
get key [] = none
get key ((k, v) ∷ rest) = if key_eq k key then some v else get key rest

-- `body.setdefault(key, value)`
abbrev pub set_default : Key → Json → List (Key × Json) → List (Key × Json)
set_default key value fields = elim (get key fields) [
  | none ↦ fields ++ ((key, value) ∷ [])
  | some v ↦ fields
]

-- A reply of a serving app; one that is not JSON has its text.
pub record Reply : Type 0 where
  pub status_code : ℕ
  pub body : Option Body
  pub text : ℕ

abbrev pub body_of : Reply → Body
body_of r = elim r.body [ some b ↦ b | none ↦ object ((detail, string r.text) ∷ []) ]

abbrev pub with_routed_to : ℕ → Body → Body
with_routed_to version (object fields) = object (set_default routed_to (string version) fields)
with_routed_to version (other_body b) = other_body b

abbrev pub as_int : Option Json → Option ℕ
as_int (some (integer n)) = some n
as_int _ = none

abbrev pub as_str : Option Json → Option ℕ
as_str (some (string s)) = some s
as_str _ = none

abbrev pub field_of : Key → Body → Option Json
field_of key (object fields) = get key fields
field_of key (other_body b) = none

-- A request that the router makes: to a base URL, or to the control plane, for a deployment.
pub data Outgoing : Type 0 where
  get_ready post_predict : (base_url : ℕ) → Outgoing
  post_metric : (deployment_id : ℕ) → MetricIn → Outgoing

-- What a caller gets: a refusal of the router, or what the target answered.
pub data Routed : Type 0 where
  no_targets : Routed
  no_mapping not_ready unreachable : (version : ℕ) → Routed
  answered : (status_code : ℕ) → Body → Routed

abbrev pub routed_code : Routed → ℕ
routed_code no_targets = 500
routed_code (no_mapping version) = 400
routed_code (not_ready version) = 503
routed_code (unreachable version) = 503
routed_code (answered code body) = code

-- `check_ready`: the status of `GET /ready`, if there is one.
abbrev pub check_ready : Option ℕ → Bool
check_ready none = false
check_ready (some code) = code == 200

-- The state of the serving apps, by base URL: the status of `/ready`, and the reply to `/predict`.
pub record Upstream : Type 0 where
  pub ready : ℕ → Option ℕ
  pub forward_predict : ℕ → Option Reply

-- The metric, posted where the router knows a control plane; a failure of the post is only logged.
abbrev pub emit_metric : (control_plane : Bool) → (deployment_id : ℕ) → MetricIn → List Outgoing
emit_metric true deployment_id metric = post_metric deployment_id metric ∷ []
emit_metric false deployment_id metric = []

-- `if config.deployment_id:`, which an empty id fails too.
abbrev pub emit_for_deployment : (control_plane : Bool) → Option ℕ → MetricIn → List Outgoing
emit_for_deployment control_plane none metric = []
emit_for_deployment control_plane (some id) metric =
    if id == 0 then [] else emit_metric control_plane id metric

unfoldable pub metric_of : (version latency_ms : ℕ) → Reply → MetricIn
metric_of version latency_ms r =
    let body = with_routed_to version (body_of r) in
    record {
      model_version = version;
      latency_ms = latency_ms;
      status_code = r.status_code;
      prediction = as_int (field_of prediction body);
      prediction_id = as_str (field_of prediction_id body);
    }

-- `config` is what the store holds when the request comes; the requests stand in their order.
unfoldable pub forward :
    (control_plane : Bool)
    → Upstream
    → Option ℕ
    → (version base_url latency_ms : ℕ) → Routed × List Outgoing
forward control_plane upstream deployment_id version base_url latency_ms =
    elim (upstream.forward_predict base_url) [
      | none ↦ (unreachable version, get_ready base_url ∷ post_predict base_url ∷ [])
      | some r ↦ (
        answered r.status_code (with_routed_to version (body_of r)),
        get_ready base_url
            ∷ post_predict base_url
            ∷ emit_for_deployment control_plane deployment_id (metric_of version latency_ms r),
      )
    ]

unfoldable pub route_predict :
    RouterSettings
    → (control_plane : Bool) → Upstream
    → (draw latency_ms : ℕ) → RouterConfig
    → Routed × List Outgoing
route_predict settings control_plane upstream draw latency_ms config =
    elim (choose_target config.targets draw) [
      | none ↦ (no_targets, [])
      | some t ↦ elim (resolve_base_url settings t.version) [
        | none ↦ (no_mapping t.version, [])
        | some base_url ↦
            if check_ready (upstream.ready base_url)
            then forward control_plane upstream config.deployment_id t.version base_url latency_ms
            else (not_ready t.version, get_ready base_url ∷ [])
      ]
    ]

-- `router_health`: version, weight and readiness of each target.
unfoldable pub router_health : RouterSettings → Upstream → List Target → List (Target × Bool)
router_health settings upstream [] = []
router_health settings upstream (t ∷ ts) =
    let rest = router_health settings upstream ts in
    elim (resolve_base_url settings t.version) [
      | none ↦ (t, false) ∷ rest
      | some base_url ↦ (t, check_ready (upstream.ready base_url)) ∷ rest
    ]
