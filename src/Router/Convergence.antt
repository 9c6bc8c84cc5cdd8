-- ===== src/Router/Convergence.antt =====
-- Pushes that reach the router in any order, late or more than once.
use modelops_control_plane.Base.{
  ℕ, ◌≤◌, ◌≡◌, refl, sym, true, List, [], ◌∷◌, All, Any, arith, inl, inr, ◌↔◌, if◌then◌else◌,
  Bool-cases, subst,
}
use modelops_control_plane.Router.{
  RouterConfig, RouterSettings, validate_targets, unknown_versions, is_stale, put_config,
}

-- What the router's store holds after the requests of a list, first to last.
unfoldable pub receive : RouterSettings → List RouterConfig → RouterConfig → RouterConfig
receive s [] current = current
receive s (config ∷ configs) current = receive s configs (put_config s config current).1

-- A push for the model that is well formed, with a host for each version.
pub record IsPush (s : RouterSettings) (model : ℕ) (config : RouterConfig) : Type 0 where
  pub of_model : config.model_name ≡ model
  pub valid : validate_targets config.targets ≡ true
  pub hosted : unknown_versions s config.targets ≡ []

pub put_config-IsPush :
    (s : RouterSettings) (config current : RouterConfig)
    → IsPush s current.model_name config
    → (put_config s config current).1 ≡ (if is_stale config current then current else config)
unfolding put_config
put_config-IsPush s config current push = ground (arith, push.valid, push.hosted)

-- Where a put leaves the router with the same model, the revision that it has applied has not gone
-- down, whatever was put.
pub put_config-monotone :
    (s : RouterSettings) (config current : RouterConfig)
    → (put_config s config current).1.model_name ≡ current.model_name
    → current.revision ≤ (put_config s config current).1.revision
unfolding put_config
put_config-monotone s config current same = ground arith

-- A revision names one config among those of a list.
abbrev pub Unambiguous : List RouterConfig → Type 0
Unambiguous cs =
    (c c' : RouterConfig)
    → Any (λ x. x ≡ c) cs
    → Any (λ x. x ≡ c') cs
    → c.revision ≡ c'.revision
    → c ≡ c'

module _ (s : RouterSettings) (model : ℕ) where
  -- The config that is left is one that was there or was pushed, and none has a higher revision.
  pub record IsLatest (current : RouterConfig) (configs : List RouterConfig) (last : RouterConfig)
      : Type 0 where
    pub from : Any (λ c. c ≡ last) (current ∷ configs)
    pub highest : All (λ c. c.revision ≤ last.revision) (current ∷ configs)

  receive-IsLatest :
      (configs : List RouterConfig) (current : RouterConfig)
      → current.model_name ≡ model
      → All (IsPush s model) configs
      → IsLatest current configs (receive s configs current)
  unfolding receive
  receive-IsLatest [] current same pushes = record { from = inl refl; highest = (omega arith, tt) }
  receive-IsLatest (c ∷ cs) current same pushes =
      let push = pushes.0 in
      let shape = put_config-IsPush s c current (subst (λ m. IsPush s m c) (sym same) push) in
      elim (Bool-cases (is_stale c current)) [
        | inl stale ↦
            let kept : (put_config s c current).1 ≡ current = ground arith in
            let rest = receive-IsLatest cs current same pushes.1 in
            rw kept (record {
              from = elim rest.from [ inl here ↦ inl here | inr there ↦ inr (inr there) ];
              highest = let (first, others) = rest.highest in (first, (ground arith, others));
            })
        | inr fresh ↦
            let taken : (put_config s c current).1 ≡ c = ground arith in
            let rest = receive-IsLatest cs c push.of_model pushes.1 in
            rw taken (record {
              from = inr rest.from;
              highest =
                  let (first, others) = rest.highest in
                  (ground (arith, push.of_model), (first, others));
            })
      ]

  Any-All-two :
      (P : RouterConfig → Type 0) (cs : List RouterConfig) {x : RouterConfig}
      → All P cs
      → Any (λ c. c ≡ x) cs
      → P x
  Any-All-two P [] h a = absurd a
  Any-All-two P (c ∷ cs) h (inl e) = subst P e h.0
  Any-All-two P (c ∷ cs) h (inr a) = Any-All-two P cs h.1 a

  Any-widen :
      (cs ds : List RouterConfig) (current x : RouterConfig)
      → ((c : RouterConfig) → Any (λ y. y ≡ c) cs → Any (λ y. y ≡ c) ds)
      → Any (λ y. y ≡ x) (current ∷ cs)
      → Any (λ y. y ≡ x) (current ∷ ds)
  Any-widen cs ds current x f (inl e) = inl e
  Any-widen cs ds current x f (inr a) = inr (f x a)

  -- Two sequences of requests that bring the same pushes, each well formed, for the router's model
  -- and with a host for each version, leave the router with the same config, in whatever order
  -- they come and however often each is repeated, where a revision names one config.
  pub deliveries_converge :
      (configs others : List RouterConfig) (current : RouterConfig)
      → current.model_name ≡ model
      → All (IsPush s model) configs
      → All (IsPush s model) others
      → ((c : RouterConfig) → Any (λ x. x ≡ c) configs ↔ Any (λ x. x ≡ c) others)
      → Unambiguous (current ∷ configs)
      → receive s configs current ≡ receive s others current
  deliveries_converge configs others current same pushes pushes' members one =
      let a = receive-IsLatest configs current same pushes in
      let b = receive-IsLatest others current same pushes' in
      let back = Any-widen others configs current _ (λ c. (members c).1) b.from in
      let forth = Any-widen configs others current _ (λ c. (members c).0) a.from in
      let le = Any-All-two (λ c. c.revision ≤ _) (current ∷ configs) a.highest back in
      let ge = Any-All-two (λ c. c.revision ≤ _) (current ∷ others) b.highest forth in
      one _ _ a.from back (omega (arith, le, ge))
