-- ===== src/Status/Lifecycle.antt =====
-- What the table of allowed transitions means for the life of a deployment.
use modelops_control_plane.Base.{ℕ, suc, ◌+◌, ◌≤◌, ◌<◌, ◌≡◌, refl, ◌↔◌, true, arith, ok}
use modelops_control_plane.Status.{
  Status, pending, deploying, canary_running, evaluating, promoting, promoted, rolling_back,
  rolled_back, failed, inconclusive, is_terminal, validate_transition,
}

-- A life from one status to another, each change of status accepted by `validate_transition`.
pub data Life : Status → ℕ → Status → Type 0 where
  here : (s : Status) → Life s 0 s
  then : {s t u : Status} {n : ℕ} → validate_transition s t ≡ ok tt → Life t n u → Life s (suc n) u

-- How far along a status is.
abbrev pub progress : Status → ℕ
progress pending = 0
progress deploying = 1
progress canary_running = 2
progress evaluating = 3
progress inconclusive = 4
progress promoting = 5
progress rolling_back = 5
progress promoted = 6
progress rolled_back = 6
progress failed = 6

pub progress_increases : (s t : Status) → validate_transition s t ≡ ok tt → progress s < progress t
unfolding validate_transition
progress_increases s t h = ground arith

progress_le : (s : Status) → progress s ≤ 6
progress_le s = ground arith

-- The number of changes in a life is at most the progress between its ends, which runs from 0 at
-- `pending` to 6 at the terminal statuses.
pub Life-bounded : (s u : Status) (n : ℕ) → Life s n u → progress s + n ≤ progress u
Life-bounded s u n (here _) = omega arith
Life-bounded s u (suc n) (then {t = t} h l) =
    omega (arith, progress_increases s t h, Life-bounded t u n l)

terminal_stuck : (s t : Status) → is_terminal s ≡ true → ¬ (validate_transition s t ≡ ok tt)
unfolding validate_transition
terminal_stuck s t h = ground arith

stuck_terminal :
    (s : Status) → ((t : Status) → ¬ (validate_transition s t ≡ ok tt)) → is_terminal s ≡ true
unfolding validate_transition
stuck_terminal pending h = absurd (h failed refl)
stuck_terminal deploying h = absurd (h failed refl)
stuck_terminal canary_running h = absurd (h failed refl)
stuck_terminal evaluating h = absurd (h failed refl)
stuck_terminal promoting h = absurd (h failed refl)
stuck_terminal rolling_back h = absurd (h failed refl)
stuck_terminal inconclusive h = absurd (h promoting refl)
stuck_terminal promoted h = refl
stuck_terminal rolled_back h = refl
stuck_terminal failed h = refl

-- The terminal statuses are exactly those that no change of status leaves.
pub is_terminal_iff :
    (s : Status) → (is_terminal s ≡ true) ↔ ((t : Status) → ¬ (validate_transition s t ≡ ok tt))
is_terminal_iff s = (λ h t. terminal_stuck s t h, stuck_terminal s)
