-- ===== src/Router.antt =====
-- The traffic router's configuration: backend/app/router/config.py and the handlers of
-- backend/app/router/main.py that read and replace it.
pub mod Convergence
pub mod Predict
use modelops_control_plane.Base.{
  ℕ, ◌+◌, Bool, true, false, ◌&&◌, ◌||◌, not, Option, none, some, List, [], ◌∷◌, any, ltb, leb,
  ◌==◌, if◌then◌else◌,
}
use modelops_control_plane.Store.{Target}

pub record RouterConfig : Type 0 where
  pub model_name : ℕ
  pub targets : List Target
  pub deployment_id : Option ℕ
  pub revision : ℕ

pub record RouterSettings : Type 0 where
  pub model_name : ℕ
  pub version_hosts : List (ℕ × ℕ)
  pub initial_targets : List Target

abbrev pub sum_weights : List Target → ℕ
sum_weights [] = 0
sum_weights (t ∷ ts) = t.weight + sum_weights ts

abbrev pub names_version : ℕ → Target → Bool
names_version v t = t.version == v

abbrev pub has_duplicates : List Target → Bool
has_duplicates [] = false
has_duplicates (t ∷ ts) = any (names_version t.version) ts || has_duplicates ts

abbrev pub is_empty : List Target → Bool
is_empty [] = true
is_empty (t ∷ ts) = false

-- `RouterConfig._validate_targets`
unfoldable pub validate_targets : List Target → Bool
validate_targets ts = not (is_empty ts) && (not (has_duplicates ts) && ltb 0 (sum_weights ts))

-- `none` is the error of the validation of the initial targets.
unfoldable pub to_router_config : RouterSettings → Option RouterConfig
to_router_config s =
    if validate_targets s.initial_targets
    then some (record {
      model_name = s.model_name;
      targets = s.initial_targets;
      deployment_id = none;
      revision = 0;
    })
    else none

unfoldable pub find_host : ℕ → List (ℕ × ℕ) → Option ℕ
find_host v [] = none
find_host v ((u, host) ∷ hosts) = if u == v then some host else find_host v hosts

unfoldable pub resolve_base_url : RouterSettings → ℕ → Option ℕ
unfolding find_host
resolve_base_url s v = find_host v s.version_hosts

-- The versions of a config that the router has no host for.
unfoldable pub unknown_versions : RouterSettings → List Target → List ℕ
unknown_versions s [] = []
unknown_versions s (t ∷ ts) =
    let rest = unknown_versions s ts in
    elim (resolve_base_url s t.version) [ none ↦ t.version ∷ rest | some _ ↦ rest ]

pub data PutAnswer : Type 0 where
  applied : PutAnswer
  invalid_targets : PutAnswer
  no_host : ℕ → List ℕ → PutAnswer
  stale_revision : ℕ → ℕ → PutAnswer

abbrev pub status_code : PutAnswer → ℕ
status_code applied = 200
status_code invalid_targets = 422
status_code (no_host v vs) = 400
status_code (stale_revision asked current) = 409

abbrev pub is_stale : RouterConfig → RouterConfig → Bool
is_stale config current =
    (config.model_name == current.model_name) && leb config.revision current.revision

-- `put_config`, behind the validation of its body. The second part is what the store holds then.
unfoldable pub put_config : RouterSettings → RouterConfig → RouterConfig → PutAnswer × RouterConfig
put_config s config current =
    if validate_targets config.targets
    then elim (unknown_versions s config.targets) [
      | v ∷ vs ↦ (no_host v vs, current)
      | [] ↦
          if is_stale config current
          then (stale_revision config.revision current.revision, current)
          else (applied, config)
    ]
    else (invalid_targets, current)
