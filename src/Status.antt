-- ===== src/Status.antt =====
-- The life of a deployment: backend/app/control_plane/state_machine.py, and `DeploymentStatus` of
-- backend/app/control_plane/models.py.
pub mod Lifecycle
use modelops_control_plane.Base.{
  ℕ, ◌≡◌, Bool, true, false, ◌||◌, List, [], ◌∷◌, any, ◌==◌, if◌then◌else◌, Result, ok, err,
}

pub data Status : Type 0 where
  pending deploying canary_running evaluating promoting promoted : Status
  rolling_back rolled_back failed inconclusive : Status

-- The place of a status in the declaration of the enum; two statuses are compared by it.
abbrev pub ordinal : Status → ℕ
ordinal pending = 0
ordinal deploying = 1
ordinal canary_running = 2
ordinal evaluating = 3
ordinal promoting = 4
ordinal promoted = 5
ordinal rolling_back = 6
ordinal rolled_back = 7
ordinal failed = 8
ordinal inconclusive = 9

abbrev pub status_eq : Status → Status → Bool
status_eq s t = ordinal s == ordinal t

-- `status in (...)`
abbrev pub status_in : Status → List Status → Bool
status_in s = any (status_eq s)

abbrev pub terminal_statuses : List Status
terminal_statuses = promoted ∷ rolled_back ∷ failed ∷ []

abbrev pub is_terminal : Status → Bool
is_terminal s = status_in s terminal_statuses

abbrev pub allowed_transitions : Status → List Status
allowed_transitions pending = deploying ∷ failed ∷ []
allowed_transitions deploying = canary_running ∷ failed ∷ []
allowed_transitions canary_running = evaluating ∷ failed ∷ []
allowed_transitions evaluating = promoting ∷ rolling_back ∷ inconclusive ∷ failed ∷ []
allowed_transitions promoting = promoted ∷ failed ∷ []
allowed_transitions rolling_back = rolled_back ∷ failed ∷ []
allowed_transitions inconclusive = promoting ∷ rolling_back ∷ []
allowed_transitions promoted = []
allowed_transitions rolled_back = []
allowed_transitions failed = []

-- `InvalidTransitionError`, with the current status and the target.
pub data InvalidTransition : Type 0 where
  invalid_transition : Status → Status → InvalidTransition

unfoldable pub validate_transition : Status → Status → Result InvalidTransition (Unit {0})
validate_transition current target =
    if status_in target (allowed_transitions current)
    then ok tt
    else err (invalid_transition current target)
