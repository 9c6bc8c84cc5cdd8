-- ===== src/Store.antt =====
-- The tables of the control plane's database: backend/app/control_plane/models.py. A text that the
-- code only compares (an id, a model's name, a version, a key) is a number, 0 for the empty text;
-- a point in time is a number that grows. The `updated_at` columns are left out: nothing reads them.
mod Config
mod Rollout
mod Measurement
pub use Config.*
pub use Rollout.*
pub use Measurement.*
use modelops_control_plane.Base.{ℕ, List}

pub record Db : Type 0 where
  pub deployments : List Deployment  -- the newest row first
  pub generations : List (ℕ × ℕ)  -- RoutingGeneration: model_name, generation
  pub events : List DeploymentEvent  -- the newest row first
  pub policy_evaluations : List PolicyEvaluation
  pub metrics : List PredictionMetric
  pub labels : List GroundTruthLabel
