-- ===== src/Service/Order.antt =====
-- What holds of the deployments' table between two requests: the rows of one model stand in the
-- order of their creation, of their completion and of their revisions, and only the newest one may
-- still be in flight.
pub mod Authoritative
pub mod Writes
pub mod Consistency
use modelops_control_plane.Base.{
  ℕ, ◌≤◌, ◌<◌, ◌≡◌, Bool, true, false, Option, none, some, List, [], ◌∷◌, All, ◌==◌, if◌then◌else◌,
}
use modelops_control_plane.Status.{
  Status, canary_running, evaluating, inconclusive, promoted, rolled_back, is_terminal, status_in,
}
use modelops_control_plane.Store.{Db, Deployment}
use modelops_control_plane.Service.Query.{completed_key}
use modelops_control_plane.Service.Session.{generation_of}

-- The revision of a row's desired state; 0 where it has none.
abbrev pub revision_of : Deployment → ℕ
revision_of d = elim d.traffic_allocation [ none ↦ 0 | some a ↦ a.revision ]

abbrev pub is_allocated : Deployment → Bool
is_allocated d = elim d.traffic_allocation [ none ↦ false | some a ↦ true ]

-- The row of a model that was created last.
abbrev pub newest_of : ℕ → List Deployment → Option Deployment
newest_of model [] = none
newest_of model (d ∷ ds) = if d.model_name == model then some d else newest_of model ds

-- The statuses in which a request leaves a row.
abbrev pub settled_statuses : List Status
settled_statuses = canary_running ∷ evaluating ∷ inconclusive ∷ promoted ∷ rolled_back ∷ []

-- `e` came before `d`: it is over, its revision is lower, and it was completed before.
pub record IsBefore (d e : Deployment) : Type 0 where
  pub over : is_terminal e.status ≡ true
  pub lower : revision_of e < revision_of d
  pub earlier : is_terminal d.status ≡ true → completed_key e < completed_key d

abbrev pub Older : Deployment → Deployment → Type 0
Older d e = e.model_name ≡ d.model_name → IsBefore d e

abbrev pub Ordered : List Deployment → Type 0
Ordered [] = Unit
Ordered (d ∷ ds) = All (Older d) ds × Ordered ds

pub record RowOk (generations : List (ℕ × ℕ)) (clock : ℕ) (d : Deployment) : Type 0 where
  pub settled : status_in d.status settled_statuses ≡ true
  pub allocated : is_allocated d ≡ true
  pub stamped_before : revision_of d ≤ generation_of d.model_name generations
  pub completed_before : completed_key d ≤ clock

-- The table at a time after every time that is written in it.
pub record IsConsistent (db : Db) (clock : ℕ) : Type 0 where
  pub rows : All (RowOk db.generations clock) db.deployments
  pub order : Ordered db.deployments
  pub top :
      (model : ℕ) (d : Deployment)
      → newest_of model db.deployments ≡ some d
      → revision_of d ≡ generation_of model db.generations
