-- ===== src/Scenario/Outcomes.antt =====
-- Which deployment the wait for a scenario's outcome returns.
use modelops_control_plane.Base.{
  ◌≡◌, refl, ap, ◌∙◌, Bool, true, false, none, some, List, [], ◌∷◌, if◌then◌else◌, where_, head?,
  arith,
}
use modelops_control_plane.Status.{status_in}
use modelops_control_plane.Store.{Deployment}
use modelops_control_plane.Scenario.{
  ExpectedOutcome, rollback, promote, inconclusive_freeze, throughput_only, outcome_status,
  final_statuses, is_target, wait_for_outcome,
}

abbrev pub is_final : Deployment → Bool
is_final d = status_in d.status final_statuses

abbrev pub last_of : Deployment → List Deployment → Deployment
last_of d [] = d
last_of d (x ∷ xs) = last_of x xs

-- The first that has come to its end, and otherwise the last.
abbrev pub first_final : Deployment → List Deployment → Deployment
first_final last ds = elim (head? (where_ is_final ds)) [ none ↦ last_of last ds | some d ↦ d ]

target_is_final :
    (expected : ExpectedOutcome) (d : Deployment)
    → is_target (outcome_status expected) d.status ≡ true
    → is_final d ≡ true
target_is_final rollback d h = ground arith
target_is_final promote d h = ground arith
target_is_final inconclusive_freeze d h = ground arith
target_is_final throughput_only d h = absurd (ground arith)

-- A test that gives another one is made in vain before it.
one_test :
    (b c : Bool) (d rest : Deployment)
    → (b ≡ true → c ≡ true)
    → (if b then d else if c then d else rest) ≡ (if c then d else rest)
one_test true c d rest h = rw (h refl) refl
one_test false c d rest h = refl

first_of :
    (b : Bool) (d : Deployment) (finals ds : List Deployment)
    → (if b then d else elim (head? finals) [ none ↦ last_of d ds | some x ↦ x ])
      ≡ elim (head? (if b then d ∷ finals else finals)) [ none ↦ last_of d ds | some x ↦ x ]
first_of true d finals ds = refl
first_of false d finals ds = refl

-- Whatever outcome is expected, the wait returns the first deployment polled whose status is PROMOTED,
-- ROLLED_BACK, FAILED or INCONCLUSIVE, and the last one polled where none is.
pub wait_for_outcome-first_final :
    (expected : ExpectedOutcome) (last : Deployment) (ds : List Deployment)
    → wait_for_outcome expected last ds ≡ first_final last ds
unfolding wait_for_outcome
wait_for_outcome-first_final expected last [] = refl
wait_for_outcome-first_final expected last (d ∷ ds) =
    one_test (is_target (outcome_status expected) d.status) (is_final d) d
      (wait_for_outcome expected d ds) (target_is_final expected d)
    ∙ ap (λ r. if is_final d then d else r) (wait_for_outcome-first_final expected d ds)
    ∙ first_of (is_final d) d (where_ is_final ds) ds
