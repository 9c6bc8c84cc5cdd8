-- ===== src/Service/Query.antt =====
-- The reads of the service: which deployment is active, which one the router should serve.
use modelops_control_plane.Base.{
  ℕ, suc, Bool, false, ◌&&◌, ◌||◌, Option, none, some, List, [], ◌∷◌, where_, first_by, head?, ltb,
  leb, ◌==◌, if◌then◌else◌,
}
use modelops_control_plane.Status.{
  Status, canary_running, evaluating, inconclusive, promoted, rolled_back, status_in,
}
use modelops_control_plane.Store.{
  Db, Deployment, Target, PolicyConfig, PolicySettings, to_policy_config,
}

abbrev pub active_statuses : List Status
active_statuses = canary_running ∷ evaluating ∷ []

abbrev pub routing_statuses : List Status
routing_statuses = canary_running ∷ evaluating ∷ inconclusive ∷ []

abbrev pub authoritative_terminal_statuses : List Status
authoritative_terminal_statuses = promoted ∷ rolled_back ∷ []

-- `ORDER BY created_at DESC`
abbrev pub by_created : Deployment → Deployment → Bool
by_created a b = leb b.created_at a.created_at

-- A missing time sorts below every other.
abbrev pub completed_key : Deployment → ℕ
completed_key d = elim d.completed_at [ none ↦ 0 | some t ↦ suc t ]

-- `ORDER BY completed_at DESC, created_at DESC`
abbrev pub by_completed : Deployment → Deployment → Bool
by_completed a b =
    ltb (completed_key b) (completed_key a)
    || (completed_key a == completed_key b) && leb b.created_at a.created_at

abbrev pub of_model : ℕ → List Status → Deployment → Bool
of_model model statuses d = (d.model_name == model) && status_in d.status statuses

unfoldable pub get_active_deployment : Db → ℕ → Option Deployment
get_active_deployment db model =
    first_by by_created (where_ (of_model model active_statuses) db.deployments)

unfoldable pub get_authoritative_allocation : Db → ℕ → Option Deployment
get_authoritative_allocation db model =
    elim (first_by by_created (where_ (of_model model routing_statuses) db.deployments)) [
      | some routing ↦ some routing
      | none ↦
          first_by by_completed
            (where_ (of_model model authoritative_terminal_statuses) db.deployments)
    ]

abbrev pub has_key : ℕ → Deployment → Bool
has_key key d = elim d.idempotency_key [ none ↦ false | some k ↦ k == key ]

unfoldable pub find_by_idempotency_key : Db → ℕ → Option Deployment
find_by_idempotency_key db key = head? (where_ (has_key key) db.deployments)

-- `db.get(Deployment, deployment_id)`
abbrev pub find_row : ℕ → List Deployment → Option Deployment
find_row id [] = none
find_row id (d ∷ ds) = if d.id == id then some d else find_row id ds

unfoldable pub get_policy_config : PolicySettings → Deployment → PolicyConfig
get_policy_config settings d = elim d.policy_config [
  | some config ↦ config
  | none ↦ to_policy_config settings
]

abbrev pub weight_of : ℕ → List Target → Option ℕ
weight_of v [] = none
weight_of v (t ∷ ts) = if t.version == v then some t.weight else weight_of v ts

-- `_current_canary_weight`
unfoldable pub current_canary_weight : Deployment → ℕ
current_canary_weight d = elim d.traffic_allocation [
  | none ↦ 0
  | some allocation ↦ elim (weight_of d.canary_version allocation.targets) [ none ↦ 0 | some w ↦ w ]
]
