-- ===== src/Lib.antt =====
-- A model of the control plane of backend/app: rollouts of a canary version of a model, the traffic
-- router that serves the split, the policies that judge the canary and the worker that acts on
-- their verdicts.
--
-- The parts, and the files that model them:
-- - Status: backend/app/control_plane/state_machine.py. `Status/Lifecycle` has the lives of a
--   deployment.
-- - Store, with Store/Config, Store/Rollout and Store/Measurement: the tables of
--   backend/app/control_plane/models.py and the thresholds of backend/app/policy/config.py.
-- - Router: RouterConfig of backend/app/router/config.py and the two handlers of
--   backend/app/router/main.py that read and replace it; `Router/Convergence` on pushes in any order.
--   Router/Predict: the router's requests for predictions, with backend/app/router/client.py and
--   metrics.py.
-- - Gateway: backend/app/control_plane/router_gateway.py. What the network does with a request
--   (lost, only its reply lost, delivered) is an argument.
-- - Service: backend/app/control_plane/service.py. Service/Query has its reads, Service/Session one
--   transaction up to its commit, Service/Reachability the push after it, Service/Actions the six
--   actions, Service/Create the creation. Each action is a function of the row that its request has
--   loaded, which may be stale, and of the world (the tables and the router) at its commit.
--   Service/Perform has the actions as requests, Service/History every interleaving of them, with what
--   becomes of idempotency keys in Service/History/Keys, and Service/Order what holds of the tables in
--   each history.
-- - Reconcile: backend/app/control_plane/reconcile.py.
-- - Metrics: backend/app/control_plane/metrics_service.py and its schemas; Labels:
--   backend/app/control_plane/label_service.py and labels_api.py.
-- - Policy: backend/app/policy/engine.py; Policy/Service: backend/app/policy/service.py and the
--   endpoint of backend/app/policy/api.py.
--   Policy/Explain: backend/app/policy/explain.py, each sentence as a constructor.
-- - Worker: backend/app/worker/decide.py and loop.py, over any client. Worker/Preserved: a property
--   of the other side that each call keeps.
-- - Timeline: backend/app/control_plane/timeline.py.
-- - Api: the POST handlers of backend/app/control_plane/api.py with their status codes, and the start
--   of a router, which reads GET /api/router-config. Api/Reads has the handlers that read.
-- - Registry: backend/app/registry/local.py, backend/app/api/models.py, and `load_model` of
--   backend/app/serving/model_loader.py.
-- - Serving: backend/app/serving/main.py with config.py, fault_injection.py and schemas.py;
--   Serving/Startup: its start on what the registry holds; Serving/ClassWeight:
--   `normalize_class_weight` of backend/app/serving/model_loader.py.
-- - Benchmarks: backend/app/benchmarks/service.py and api.py.
-- - LabelFeeder: `_LabelFeeder` of backend/scripts/benchmarks/locustfile.py; Scenario: the wait and the
--   fault of backend/scripts/benchmarks/run_benchmark.py.
-- - System: the control plane with its router in one run: requests on stale copies, creations, other
--   writers, pushes on a wire that loses, delays, repeats and reorders them, ticks of the reconciler
--   and restarts of the router. System/Traffic: from a request at the router to the summaries.
--   System/Register: what the tables promise of a model's routing, as an abstract register.
--   System/Automation: backend/app/worker/client.py, with the handlers behind its endpoints.
-- - Base has the shared names and helpers, Number the exact fractions, Tests the theorems at
--   concrete inputs.
--
-- How state corresponds: a table is a list of rows with the newest first; a session is the loaded
-- row with the tables of its transaction, and an error leaves the tables as they were. `perform` and
-- `create_deployment` are a request of the API behind its lookup: the row is loaded at one point of a
-- history and written at another. A text that the code only compares is a number, 0 for the empty
-- text. A weight is a whole number of billionths, and round(w, 6) rounds half to even. A float of the
-- metrics and thresholds is an exact fraction; its rounding is left out. Time is a number that grows
-- with each request, so that two requests never write the same time. One commit writes the row once,
-- so that its version grows by one.
--
-- What is a parameter: the answers of SQLAlchemy and SQLite (`Engine`: an UPDATE matches exactly the
-- loaded version, an INSERT is done exactly where no unique constraint is violated; `LabelTable`:
-- an INSERT of a label is accepted exactly where the prediction has none; the INSERT of a metric fails
-- where its prediction id is on another one, as the column declares), the network, the clock,
-- the control plane that the worker's client talks to (System/Automation puts the modelled one there,
-- and the worker's own requests then arrive), the draws of `random`, the replies of the
-- serving apps, and in these the validation of one value, `create_model`, the pipeline, `json.loads`
-- and `joblib.load`; the subprocess of a benchmark.
--
-- There is no fuel but in `digits`, which writes a number n in n + 1 steps, as many as there can be
-- digits: every other loop is structural over a list. Not modelled: the scripts that generate data
-- and train models, the load and the reports of benchmarks; migrations, settings and the wiring of
-- the apps; the frontend; `updated_at`, log messages and the number of digits in the texts of
-- explanations. A name in the registry is the name of one entry of a directory, and the draw of
-- `random.choices` is a whole number of billionths, without the rounding of floats.
pub mod Base
pub mod Status
pub mod Number
pub mod Store
pub mod Gateway
pub mod Router
pub mod Service
pub mod Registry
pub mod Serving
pub mod Reconcile
pub mod Metrics
pub mod Policy
pub mod Labels
pub mod Worker
pub mod Api
pub mod Benchmarks
pub mod Timeline
pub mod LabelFeeder
pub mod Scenario
pub mod System
pub mod Tests
