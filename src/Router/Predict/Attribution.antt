-- ===== src/Router/Predict/Attribution.antt =====
-- Where the router's requests go, and which metric it posts for one.
use modelops_control_plane.Base.{
  ℕ, ◌≡◌, refl, sym, subst, Bool, true, false, ◌&&◌, Option, none, some, List, [], ◌∷◌, All, All-if,
  not, ◌==◌, count, arith, if◌then◌else◌, Bool-cases, inl, inr,
}
use modelops_control_plane.Store.{Target}
use modelops_control_plane.Router.{RouterConfig, RouterSettings, resolve_base_url}
use modelops_control_plane.Router.Predict.{
  choose_target, Reply, Outgoing, get_ready, post_predict, post_metric, Routed, not_ready,
  unreachable, answered, routed_code, check_ready, Upstream, emit_metric, emit_for_deployment,
  metric_of, with_routed_to, body_of, forward, route_predict,
}

abbrev pub is_answered : Routed → Bool
is_answered (answered code body) = true
is_answered _ = false

abbrev pub is_metric : Outgoing → Bool
is_metric (post_metric id m) = true
is_metric _ = false

-- A deployment's id, other than the empty one.
abbrev pub has_deployment : Option ℕ → Bool
has_deployment none = false
has_deployment (some id) = not (id == 0)

-- A request for one target, of a config with some deployment: to the target's host, or a metric of
-- the target's version, with the status that the caller gets.
abbrev pub IsFor : (deployment_id : Option ℕ) → (version base_url code : ℕ) → Outgoing → Type 0
IsFor deployment_id version base_url code (get_ready url) = url ≡ base_url
IsFor deployment_id version base_url code (post_predict url) = url ≡ base_url
IsFor deployment_id version base_url code (post_metric id m) =
    (deployment_id ≡ some id) × (m.model_version ≡ version) × (m.status_code ≡ code)

emit_for_deployment-IsFor :
    (control_plane : Bool) (deployment_id : Option ℕ) (version base_url latency_ms : ℕ) (r : Reply)
    → All
        (IsFor deployment_id version base_url r.status_code)
        (emit_for_deployment control_plane deployment_id (metric_of version latency_ms r))
unfolding metric_of
emit_for_deployment-IsFor control_plane none version base_url latency_ms r = tt
emit_for_deployment-IsFor control_plane (some id) version base_url latency_ms r =
    All-if (IsFor (some id) version base_url r.status_code) (id == 0) []
      (emit_metric control_plane id (metric_of version latency_ms r)) tt
      (elim control_plane
        as (λ b.
          All (IsFor (some id) version base_url r.status_code)
            (emit_metric b id (metric_of version latency_ms r))) [
              | true ↦ ((refl, refl, refl), tt)
              | false ↦ tt
            ])

module _ (settings : RouterSettings) (control_plane : Bool) (upstream : Upstream)
    (latency_ms : ℕ) where
  -- A request is for the chosen target: nothing goes to another one, and there is one metric where
  -- an answer comes back and the router knows a control plane and a deployment whose id is not empty,
  -- and none elsewhere.
  abbrev pub IsAttributed :
      (deployment_id : Option ℕ) → (version base_url : ℕ) → Routed × List Outgoing → Type 0
  IsAttributed deployment_id version base_url (answer, requests) =
      All (IsFor deployment_id version base_url (routed_code answer)) requests
      × count is_metric requests
        ≡ (if control_plane && (has_deployment deployment_id && is_answered answer) then 1 else 0)

  emit_for_deployment-count :
      (deployment_id : Option ℕ) (version base_url : ℕ) (r : Reply)
      → count is_metric (
          get_ready base_url
          ∷ post_predict base_url
          ∷ emit_for_deployment control_plane deployment_id (metric_of version latency_ms r))
        ≡ (if control_plane && (has_deployment deployment_id && true) then 1 else 0)
  emit_for_deployment-count deployment_id version base_url r = ground arith

  forward-IsAttributed :
      (deployment_id : Option ℕ) (version base_url : ℕ)
      → IsAttributed deployment_id version base_url
          (forward control_plane upstream deployment_id version base_url latency_ms)
  unfolding forward
  forward-IsAttributed deployment_id version base_url =
      elim (upstream.forward_predict base_url)
        as (λ reply. IsAttributed deployment_id version base_url (elim reply [
          | none ↦ (unreachable version, get_ready base_url ∷ post_predict base_url ∷ [])
          | some r ↦ (
            answered r.status_code (with_routed_to version (body_of r)),
            get_ready base_url
                ∷ post_predict base_url
                ∷ emit_for_deployment control_plane deployment_id (metric_of version latency_ms r),
          )
        ])) [
          | none ↦ ((refl, (refl, tt)), ground arith)
          | some r ↦ (
            (
              refl,
              (
                refl,
                emit_for_deployment-IsFor control_plane deployment_id version base_url latency_ms r,
              ),
            ),
            emit_for_deployment-count deployment_id version base_url r,
          )
        ]

  -- Where a target is chosen and has a host, every request that the router makes for this one goes to
  -- that host, whether the target is ready or not, and whether it answers or not; and exactly where an
  -- answer comes back, and the router knows a control plane and a deployment whose id is not empty, it posts one metric: of
  -- that deployment, that version, and the status that the caller gets.
  pub one_metric_per_answer :
      (draw : ℕ) (config : RouterConfig) (t : Target) (base_url : ℕ)
      → choose_target config.targets draw ≡ some t
      → resolve_base_url settings t.version ≡ some base_url
      → let (answer, requests) =
          route_predict settings control_plane upstream draw latency_ms config in
        All (IsFor config.deployment_id t.version base_url (routed_code answer)) requests
        × count is_metric requests ≡ (
            if control_plane && (has_deployment config.deployment_id && is_answered answer)
            then 1
            else 0)
  unfolding route_predict
  one_metric_per_answer draw config t base_url chosen host =
      let sent = forward-IsAttributed config.deployment_id t.version base_url in
      elim (Bool-cases (check_ready (upstream.ready base_url))) [
        | inl q ↦
            let e : route_predict settings control_plane upstream draw latency_ms config
                ≡ forward control_plane upstream config.deployment_id t.version base_url
                    latency_ms =
              ground arith in
            subst (IsAttributed config.deployment_id t.version base_url) (sym e) sent
        | inr q ↦
            let e : route_predict settings control_plane upstream draw latency_ms config
                ≡ (not_ready t.version, get_ready base_url ∷ []) =
              ground arith in
            subst (IsAttributed config.deployment_id t.version base_url) (sym e)
              ((refl, tt), ground arith)
      ]
