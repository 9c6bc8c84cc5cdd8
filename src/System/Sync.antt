-- ===== src/System/Sync.antt =====
-- The router is never ahead of the tables, and one tick of the reconciler brings it to them.
use modelops_control_plane.Base.{
  ℕ, ◌<◌, ◌≡◌, ◌⊎◌, inl, inr, refl, sym, ◌∙◌, subst, some, List, [], ◌∷◌, All, Any, arith, ◌==◌,
  Bool-cases, ◌&&◌, Option-cases,
}
use modelops_control_plane.Store.{Db, Deployment, TrafficAllocation, PolicySettings}
use modelops_control_plane.Router.{RouterConfig, RouterSettings}
use modelops_control_plane.Gateway.{Delivery, lost, reply_lost, delivered}
use modelops_control_plane.Service.Query.{get_authoritative_allocation}
use modelops_control_plane.Service.Session.{Engine, generation_of}
use modelops_control_plane.Service.Reachability.{World, desired_config}
use modelops_control_plane.Gateway.Either.{push-either}
use modelops_control_plane.Service.Order.{newest_of, IsConsistent}
use modelops_control_plane.Service.Order.Authoritative.{
  authoritative-newest_of, authoritative-model_name,
}
use modelops_control_plane.Reconcile.{
  same_id, reconcile_router_state, reconcile_observed, push_desired,
}
use modelops_control_plane.Reconcile.Corrects.{reconcile-SameRows}
use modelops_control_plane.System.Messages.{
  IsPast, Advances, IsPast-Advances, SameRows-Advances, desired_config-IsPast,
}
use modelops_control_plane.System.Runs.{Step}

-- A config that a tick leaves the router with.
reconcile_observed-router :
    (s : RouterSettings) (put : Delivery) (now : ℕ) (observed : RouterConfig) (w : World)
    → ((reconcile_observed s put now observed w).1.router ≡ w.router)
      ⊎ ((d : Deployment) × (a : TrafficAllocation) × (get_authoritative_allocation w.db
              observed.model_name
            ≡ some d)
          × (d.traffic_allocation ≡ some a)
          × ((reconcile_observed s put now observed w).1.router ≡ desired_config d a))
unfolding reconcile_observed push_desired
reconcile_observed-router s put now observed w =
    elim (Option-cases (get_authoritative_allocation w.db observed.model_name)) [
      | inl e ↦ inl (ground arith)
      | inr (d, e) ↦ elim (Option-cases d.traffic_allocation) [
        | inl f ↦ inl (ground arith)
        | inr (a, f) ↦ elim (push-either s put (desired_config d a) w.router) [
          | inl kept ↦ inl (ground arith)
          | inr taken ↦ elim (Bool-cases (observed.model_name == 0)) [
            | inl unnamed ↦ inl (ground arith)
            | inr named ↦
                elim (Bool-cases
                  (same_id observed.deployment_id d.id && observed.revision == a.revision)) [
                    | inl in_sync ↦ inl (ground arith)
                    | inr differs ↦ inr (d, a, e, f, ground arith)
                  ]
          ]
        ]
      ]
    ]

module _ (engine : Engine) (settings : RouterSettings) (policies : PolicySettings) where
  -- The router and the wire hold what the tables have sent, and a model with a desired state has a
  -- generation above 0.
  pub record IsSynced (w : World) (wire : List RouterConfig) : Type 0 where
    pub current : IsPast w.db w.router
    pub on_wire : All (IsPast w.db) wire
    pub counted :
        (model : ℕ) (d : Deployment) (a : TrafficAllocation)
        → newest_of model w.db.deployments ≡ some d
        → d.traffic_allocation ≡ some a
        → 0 < generation_of model w.db.generations

  All-IsPast :
      (db db' : Db) (wire : List RouterConfig)
      → Advances db db'
      → All (IsPast db) wire
      → All (IsPast db') wire
  All-IsPast db db' [] step h = tt
  All-IsPast db db' (c ∷ cs) step h =
      (IsPast-Advances db db' c step h.0, All-IsPast db db' cs step h.1)

  pub Any-IsPast :
      (db : Db) (wire : List RouterConfig) {c : RouterConfig}
      → All (IsPast db) wire
      → Any (λ x. x ≡ c) wire
      → IsPast db c
  Any-IsPast db [] h on = absurd on
  Any-IsPast db (x ∷ xs) h (inl e) = subst (IsPast db) e h.0
  Any-IsPast db (x ∷ xs) h (inr on) = Any-IsPast db xs h.1 on

  pub IsSynced-Step :
      (w w' : World) (wire : List RouterConfig)
      → Step engine settings policies w w'
      → IsSynced w wire
      → IsSynced w' wire
  IsSynced-Step w w' wire (step, router) p = record {
    current = elim router [
      | inl kept ↦
          subst (IsPast w'.db) (sym kept) (IsPast-Advances w.db w'.db w.router step p.current)
      | inr taken ↦ taken
    ];
    on_wire = All-IsPast w.db w'.db wire step p.on_wire;
    counted = λ model d a e f. elim (step model) [
      | inl grew ↦ omega (arith, grew)
      | inr (stands, desired) ↦
          let same = desired d a e f in
          let before = p.counted model same.old a same.was_newest same.was_allocated in
          omega (arith, before, stands)
    ];
  }

  -- A config with revision 0 can be held at any time: there is a desired state from generation 1 on.
  pub zero-IsPast :
      (w : World) (wire : List RouterConfig) (c : RouterConfig)
      → IsSynced w wire
      → c.revision ≡ 0
      → IsPast w.db c
  zero-IsPast w wire c p zero_revision = record {
    behind = omega (arith, zero_revision);
    latest = λ at d a e f.
        let above = p.counted c.model_name d a e f in
        absurd (omega (arith, above, at, zero_revision));
  }

  pub sent-IsPast :
      (db : Db) (clock model : ℕ) (d : Deployment) (a : TrafficAllocation)
      → IsConsistent db clock
      → get_authoritative_allocation db model ≡ some d
      → d.traffic_allocation ≡ some a
      → IsPast db (desired_config d a)
  sent-IsPast db clock model d a c e f =
      let named : d.model_name ≡ model = authoritative-model_name db model e in
      let newest : newest_of model db.deployments ≡ some d =
        sym (authoritative-newest_of db clock model c) ∙ e in
      let newest' : newest_of d.model_name db.deployments ≡ some d =
        subst (λ m. newest_of m db.deployments ≡ some d) (sym named) newest in
      desired_config-IsPast db d a newest' f (c.top d.model_name d newest')

  pub tick-Step :
      (get put : Delivery) (now clock : ℕ) (w : World)
      → IsConsistent w.db clock
      → Step engine settings policies w (reconcile_router_state settings get put now w).1
  unfolding reconcile_router_state
  tick-Step lost put now clock w c =
      (SameRows-Advances w.db _ (reconcile-SameRows settings lost put now w), inl refl)
  tick-Step reply_lost put now clock w c =
      (SameRows-Advances w.db _ (reconcile-SameRows settings reply_lost put now w), inl refl)
  tick-Step delivered put now clock w c =
      let advances = SameRows-Advances w.db _ (reconcile-SameRows settings delivered put now w) in
      (
        advances,
        elim (reconcile_observed-router settings put now w.router w) [
          | inl kept ↦ inl kept
          | inr (d, a, e, f, taken) ↦ inr (
              subst (IsPast _) (sym taken) (
                IsPast-Advances w.db _ (desired_config d a) advances
                  (sent-IsPast w.db clock w.router.model_name d a c e f)))
        ],
      )
