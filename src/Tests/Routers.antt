-- ===== src/Tests/Routers.antt =====
-- The router: pushes in two orders, a late push, a tick of the reconciler after a lost push.
use modelops_control_plane.Base.{
  zero, suc, subst, ℕ, ◌≡◌, ◌↔◌, refl, ap, sym, ◌∙◌, some, List, [], ◌∷◌, Any, inl, inr,
}
use modelops_control_plane.Status.{canary_running}
use modelops_control_plane.Router.{
  RouterConfig, validate_targets, unknown_versions, resolve_base_url, find_host,
}
use modelops_control_plane.Router.Convergence.{receive, IsPush, Unambiguous, deliveries_converge}
use modelops_control_plane.Service.Query.{get_authoritative_allocation}
use modelops_control_plane.Store.{TrafficAllocation}
use modelops_control_plane.Tests.Samples.{settings, idle_router, ten_percent, row, running_world}

abbrev push : ℕ → RouterConfig
push revision = record {
  model_name = 1;
  targets = ten_percent;
  deployment_id = some 5;
  revision = revision;
}

abbrev in_order : List RouterConfig
in_order = push 1 ∷ push 2 ∷ []

abbrev late_and_twice : List RouterConfig
late_and_twice = push 2 ∷ push 1 ∷ push 2 ∷ []

IsPush-push : (revision : ℕ) → IsPush settings 1 (push revision)
unfolding validate_targets unknown_versions resolve_base_url find_host
IsPush-push revision = record { of_model = refl; valid = refl; hosted = refl }

same_pushes : (c : RouterConfig) → Any (λ x. x ≡ c) in_order ↔ Any (λ x. x ≡ c) late_and_twice
same_pushes c = (
  λ h. elim h [ inl e ↦ inr (inl e) | inr (inl e) ↦ inl e | inr (inr e) ↦ absurd e ],
  λ h. elim h [
    | inl e ↦ inr (inl e)
    | inr (inl e) ↦ inl e
    | inr (inr (inl e)) ↦ inr (inl e)
    | inr (inr (inr e)) ↦ absurd e
  ],
)

abbrev by_revision : ℕ → RouterConfig
by_revision zero = idle_router
by_revision (suc n) = push (suc n)

named_by_revision :
    (c : RouterConfig) → Any (λ x. x ≡ c) (idle_router ∷ in_order) → c ≡ by_revision c.revision
named_by_revision c (inl e) = subst (λ x. x ≡ by_revision x.revision) e refl
named_by_revision c (inr (inl e)) = subst (λ x. x ≡ by_revision x.revision) e refl
named_by_revision c (inr (inr (inl e))) = subst (λ x. x ≡ by_revision x.revision) e refl
named_by_revision c (inr (inr (inr e))) = absurd e

three_configs : Unambiguous (idle_router ∷ in_order)
three_configs c c' h k e = named_by_revision c h ∙ ap by_revision e ∙ sym (named_by_revision c' k)

deliveries_converge_example :
    receive settings in_order idle_router ≡ receive settings late_and_twice idle_router
deliveries_converge_example =
    deliveries_converge settings 1 in_order late_and_twice idle_router refl
      (IsPush-push 1, (IsPush-push 2, tt)) (IsPush-push 2, (IsPush-push 1, (IsPush-push 2, tt)))
      same_pushes three_configs

abbrev allocation : TrafficAllocation
allocation = record { targets = ten_percent; revision = 1 }

desired_is : get_authoritative_allocation running_world.db 1 ≡ some (row canary_running)
unfolding get_authoritative_allocation
desired_is = refl
