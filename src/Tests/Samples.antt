-- ===== src/Tests/Samples.antt =====
-- A database and a router for the tests, and a rollout of version 2 of the model 1.
use modelops_control_plane.Base.{
  false, none, some, List, [], ◌∷◌, arith, ◌==◌, ==_iff, any, if◌then◌else◌, ◌≡◌, ◌↔◌,
}
use modelops_control_plane.Store.{Db, Deployment, Target, default_settings, to_policy_config}
use modelops_control_plane.Status.{canary_running, Status}
use modelops_control_plane.Router.{RouterConfig, RouterSettings}
use modelops_control_plane.Service.Session.{
  Engine, InsertAnswer, inserted, key_violation, active_violation, key_taken, in_flight,
}
use modelops_control_plane.Service.Reachability.{World}
use modelops_control_plane.Service.Create.{CreateRequest}
use modelops_control_plane.Service.History.{empty_db}

abbrev pub insert_answer : Deployment → List Deployment → InsertAnswer
insert_answer d rows =
    if key_taken d.idempotency_key rows
    then key_violation
    else if any (in_flight d.model_name) rows
    then active_violation
    else inserted

pub insert_answer-inserted :
    (d : Deployment) (rows : List Deployment)
    → (insert_answer d rows ≡ inserted)
      ↔ ((key_taken d.idempotency_key rows ≡ false) × (any (in_flight d.model_name) rows ≡ false))
insert_answer-inserted d rows = ground arith

abbrev pub engine : Engine
engine = record {
  update_matches = λ loaded stored. loaded == stored;
  update_matches_iff = λ loaded stored. ==_iff loaded stored;
  insert_row = insert_answer;
  inserted_iff = insert_answer-inserted;
}

abbrev pub settings : RouterSettings
settings = record {
  model_name = 1;
  version_hosts = (1, 11) ∷ (2, 12) ∷ [];
  initial_targets = record { version = 1; weight = 1000000000 } ∷ [];
}

abbrev pub idle_router : RouterConfig
idle_router = record {
  model_name = 1;
  targets = settings.initial_targets;
  deployment_id = none;
  revision = 0;
}

abbrev pub idle_world : World
idle_world = record { db = empty_db; router = idle_router }

abbrev pub request : CreateRequest
request = record {
  model_name = 1;
  stable_version = 1;
  canary_version = 2;
  canary_weight = 100000000;
  policy_config = none;
  allow_degenerate_canary_weight = false;
  automation_paused = false;
}

abbrev pub ten_percent : List Target
ten_percent =
    record { version = 1; weight = 900000000 } ∷ record { version = 2; weight = 100000000 } ∷ []

abbrev pub row : Status → Deployment
row status = record {
  id = 5;
  model_name = 1;
  stable_version = 1;
  canary_version = 2;
  status = status;
  idempotency_key = none;
  policy_config = some (to_policy_config default_settings);
  inconclusive_retry_count = 0;
  automation_paused = false;
  created_at = 0;
  started_at = some 0;
  completed_at = none;
  version_id = 2;
  traffic_allocation = some (record { targets = ten_percent; revision = 1 });
}

abbrev pub running_db : Db
running_db = record empty_db { deployments = row canary_running ∷ []; generations = (1, 1) ∷ [] }

abbrev pub running_world : World
running_world = record { db = running_db; router = idle_router }
