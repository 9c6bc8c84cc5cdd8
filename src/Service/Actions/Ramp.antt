-- ===== src/Service/Actions/Ramp.antt =====
-- The ramp of the canary's traffic: 10%, 25%, 50%, 100%.
use modelops_control_plane.Base.{
  ℕ, suc, ◌≤◌, ◌<◌, ◌≡◌, ◌≢◌, subst, refl, ◌+◌, some, arith, ltb, ok, inl, inr, Bool-cases, count,
  Any,
}
use modelops_control_plane.Store.{Deployment, TrafficAllocation}
use modelops_control_plane.Router.{sum_weights}
use modelops_control_plane.Service.Query.{current_canary_weight}
use modelops_control_plane.Service.Session.{Session}
use modelops_control_plane.Service.Actions.{
  full, round6, split_targets, traffic_stages, next_stage, advance_session,
}
use modelops_control_plane.Service.Actions.Effects.{advance_session-ok, stamped}

-- How many of the stages are still ahead of a weight.
unfoldable pub stages_left : ℕ → ℕ
stages_left current = count (λ w. ltb (current + 1) w) traffic_stages

next_stage-cases :
    (current next : ℕ)
    → next_stage current traffic_stages ≡ some next
    → (current + 1 < next)
      × (suc (stages_left next) ≤ stages_left current)
      × Any (λ w. w ≡ next) traffic_stages
unfolding next_stage stages_left
next_stage-cases current next e = elim (Bool-cases (ltb (current + 1) 100000000)) [
  | inl a ↦ (ground arith, ground arith, inl (ground arith))
  | inr a ↦ elim (Bool-cases (ltb (current + 1) 250000000)) [
    | inl b ↦ (ground arith, ground arith, inr (inl (ground arith)))
    | inr b ↦ elim (Bool-cases (ltb (current + 1) 500000000)) [
      | inl c ↦ (ground arith, ground arith, inr (inr (inl (ground arith))))
      | inr c ↦ (ground arith, ground arith, inr (inr (inr (inl (ground arith)))))
    ]
  ]
]

-- For a canary's weight of at most 1, the two rounded weights that are written sum to 1.
pub split_targets-full :
    (stable canary weight : ℕ)
    → weight ≤ full
    → sum_weights (split_targets stable canary weight) ≡ full
split_targets-full stable canary weight h = ground arith

stage-round6 : (w : ℕ) → Any (λ x. x ≡ w) traffic_stages → (round6 w ≡ w) × (w ≤ full)
stage-round6 w (inl e) = subst (λ x. (round6 x ≡ x) × (x ≤ full)) e (refl, omega arith)
stage-round6 w (inr (inl e)) = subst (λ x. (round6 x ≡ x) × (x ≤ full)) e (refl, omega arith)
stage-round6 w (inr (inr (inl e))) = subst (λ x. (round6 x ≡ x) × (x ≤ full)) e (refl, omega arith)
stage-round6 w (inr (inr (inr (inl e)))) =
    subst (λ x. (round6 x ≡ x) × (x ≤ full)) e (refl, omega arith)
stage-round6 w (inr (inr (inr (inr e)))) = absurd e

split_weight :
    (a : TrafficAllocation) (d : Deployment) (w : ℕ)
    → a.targets ≡ split_targets d.stable_version d.canary_version w
    → d.stable_version ≢ d.canary_version
    → round6 w ≡ w
    → current_canary_weight (record d { traffic_allocation = some a }) ≡ w
unfolding current_canary_weight
split_weight a d w e apart exact = ground (arith, e)

-- An advance of a deployment with two different versions moves the canary's weight strictly up to
-- one of the stages; the weights that it writes sum to 1, one stage fewer is ahead at least, and
-- the count of inconclusive retries is left as it was.
pub advance_session-ramps :
    (now : ℕ) (s s' : Session)
    → advance_session now s ≡ ok s'
    → s.row.stable_version ≢ s.row.canary_version
    → (current_canary_weight s.row < current_canary_weight s'.row)
      × Any (λ w. w ≡ current_canary_weight s'.row) traffic_stages
      × (suc (stages_left (current_canary_weight s'.row))
          ≤ stages_left (current_canary_weight s.row))
      × ((a : TrafficAllocation) × (s'.row.traffic_allocation ≡ some a)
          × (sum_weights a.targets ≡ full))
      × (s'.row.inconclusive_retry_count ≡ s.row.inconclusive_retry_count)
advance_session-ramps now s s' h apart =
    let (active, (next, found, row), deployments, generations) = advance_session-ok now s h in
    let (above, fewer, stage) = next_stage-cases (current_canary_weight s.row) next found in
    let (exact, bound) = stage-round6 next stage in
    let at_next =
      split_weight (stamped s (split_targets s.row.stable_version s.row.canary_version next)) s.row
        next refl apart exact in
    rw row (
      rw at_next (omega (arith, above)),
      rw at_next stage,
      rw at_next fewer,
      (_, refl, split_targets-full s.row.stable_version s.row.canary_version next bound),
      refl,
    )
