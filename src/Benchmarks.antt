-- ===== src/Benchmarks.antt =====
-- The runs of the benchmark suite: backend/app/benchmarks/service.py and api.py, and `BenchmarkRun`
-- of backend/app/control_plane/models.py. A call of the service has no `await` between its look for
-- a run in progress and its commit, so it is one step; what the subprocess does is an argument.
pub mod Rows
pub mod Slot
pub mod Stuck
use modelops_control_plane.Base.{
  ℕ, ◌+◌, ◌-◌, suc, zero, Bool, true, false, ◌&&◌, ◌||◌, not, Option, none, some, List, [], ◌∷◌,
  ◌++◌, map, Result, ok, err, ◌≡◌, if◌then◌else◌, ◌==◌, leb, length, head?, where_, any,
}

-- The keys of `SCENARIOS`, and any other key.
pub data ScenarioKey : Type 0 where
  baseline latency_failure error_failure quality_failure success : ScenarioKey
  other_key : ℕ → ScenarioKey

abbrev pub is_scenario : ScenarioKey → Bool
is_scenario (other_key n) = false
is_scenario _ = true

pub data BenchmarkRunStatus : Type 0 where
  running completed failed : BenchmarkRunStatus

abbrev pub is_running : BenchmarkRunStatus → Bool
is_running running = true
is_running _ = false

-- A character of the output is a number.
pub data ErrorMessage : Type 0 where
  no_output_captured : ErrorMessage
  tail_of_output : List ℕ → ErrorMessage

-- `Report` is the JSON of a report.
pub record BenchmarkRun (Report : Type 0) : Type 0 where
  pub id : ℕ
  pub scenario : ScenarioKey
  pub status : BenchmarkRunStatus
  pub result : Option Report
  pub error_message : Option ErrorMessage
  pub started_at : ℕ
  pub completed_at : Option ℕ

-- The options of the subprocess's command, with the settings' values.
pub record BenchmarkApiSettings : Type 0 where
  pub router_url : ℕ
  pub control_plane_url : ℕ
  pub default_users : ℕ
  pub default_target_rps : ℕ

pub data Argument : Type 0 where
  scenario_arg : ScenarioKey → Argument
  router_url_arg control_plane_url_arg users_arg target_rps_arg : ℕ → Argument
  output_dir_arg : Argument
  duration_seconds_arg max_wait_seconds_arg : ℕ → Argument

abbrev pub optional : (ℕ → Argument) → Option ℕ → List Argument
optional arg none = []
optional arg (some n) = arg n ∷ []

abbrev pub command : BenchmarkApiSettings → ScenarioKey → Option ℕ → Option ℕ → List Argument
command s key duration max_wait =
    scenario_arg key
      ∷ router_url_arg s.router_url
      ∷ control_plane_url_arg s.control_plane_url
      ∷ users_arg s.default_users
      ∷ target_rps_arg s.default_target_rps
      ∷ output_dir_arg
      ∷ optional duration_seconds_arg duration
    ++ optional max_wait_seconds_arg max_wait

-- A task that waits for a subprocess.
pub record Monitor : Type 0 where
  pub run_id : ℕ
  pub scenario_key : ScenarioKey
  pub command : List Argument

pub data BenchmarkError : Type 0 where
  unknown_scenario : ScenarioKey → BenchmarkError
  benchmark_already_running : ℕ → BenchmarkError
  spawn_failed : BenchmarkError

abbrev pub run_error_code : BenchmarkError → ℕ
run_error_code (unknown_scenario key) = 404
run_error_code (benchmark_already_running id) = 409
run_error_code spawn_failed = 500

-- The file of the report: not there, not readable or no JSON, what raises another error (text that is
-- no UTF-8, for one), or a report.
pub data ReportFile (Report : Type 0) : Type 0 where
  no_file unreadable undecodable : ReportFile Report
  parsed : Report → ReportFile Report

-- How a subprocess ends: its code, what it wrote, and the file of the report.
pub record Exit (Report : Type 0) : Type 0 where
  pub returncode : ℕ
  pub stdout : List ℕ
  pub report : ReportFile Report

abbrev pub drop : ℕ → List ℕ → List ℕ
drop zero xs = xs
drop (suc n) [] = []
drop (suc n) (x ∷ xs) = drop n xs

-- `stdout[-4000:]`
abbrev pub tail_4000 : List ℕ → List ℕ
tail_4000 out = drop (length out - 4000) out

abbrev pub error_tail : List ℕ → ErrorMessage
error_tail [] = no_output_captured
error_tail (c ∷ cs) = tail_of_output (tail_4000 (c ∷ cs))

-- The table, the newest row first, and the tasks of the process.
pub record BenchmarkWorld (Report : Type 0) : Type 0 where
  pub runs : List (BenchmarkRun Report)
  pub background_tasks : List Monitor

abbrev pub forget_task : ℕ → List Monitor → List Monitor
forget_task id tasks = where_ (λ m. not (m.run_id == id)) tasks

module _ {Report : Type 0} where
  abbrev pub get_running_run : List (BenchmarkRun Report) → Option (BenchmarkRun Report)
  get_running_run rows = head? (where_ (λ r. is_running r.status) rows)

  abbrev pub get_run : ℕ → List (BenchmarkRun Report) → Option (BenchmarkRun Report)
  get_run id rows = head? (where_ (λ r. r.id == id) rows)

  abbrev pub new_run : (id : ℕ) → ScenarioKey → (now : ℕ) → BenchmarkRun Report
  new_run id key now = record {
    id = id;
    scenario = key;
    status = running;
    result = none;
    error_message = none;
    started_at = now;
    completed_at = none;
  }

  abbrev pub loaded_report : ReportFile Report → Option Report → Option Report
  loaded_report (parsed report) before = some report
  loaded_report _ before = before

  abbrev pub is_undecodable : ReportFile Report → Bool
  is_undecodable undecodable = true
  is_undecodable _ = false

  -- Only an `OSError` and a `JSONDecodeError` of the report are caught.
  abbrev pub escapes : Exit Report → Bool
  escapes exit = (exit.returncode == 0) && is_undecodable exit.report

  unfoldable pub finish_run : (now : ℕ) → Exit Report → BenchmarkRun Report → BenchmarkRun Report
  finish_run now exit r =
      if exit.returncode == 0
      then record r {
        completed_at = some now;
        status = completed;
        result = loaded_report exit.report r.result;
      }
      else record r {
        completed_at = some now;
        status = failed;
        error_message = some (error_tail exit.stdout);
      }

  abbrev pub update_run :
      (ℕ)
      → (BenchmarkRun Report → BenchmarkRun Report)
      → List (BenchmarkRun Report)
      → List (BenchmarkRun Report)
  update_run id change [] = []
  update_run id change (r ∷ rs) =
      let rest = update_run id change rs in if r.id == id then change r ∷ rs else r ∷ rest

  -- `_monitor_run` from the end of its subprocess: the row is settled, if it is there, unless an error
  -- escapes before the commit; the task is over.
  unfoldable pub monitor_run :
      (now : ℕ) → Exit Report → Monitor → BenchmarkWorld Report → BenchmarkWorld Report
  monitor_run now exit m w = record {
    runs = if escapes exit then w.runs else update_run m.run_id (finish_run now exit) w.runs;
    background_tasks = forget_task m.run_id w.background_tasks;
  }

  module _ (settings : BenchmarkApiSettings) where
    -- `spawned` says whether the subprocess could be made: its exception is not caught, and leaves
    -- the row as it was committed.
    unfoldable pub start_benchmark_run :
        (spawned : Bool)
        → (now id : ℕ) → ScenarioKey
        → Option ℕ
        → Option ℕ
        → BenchmarkWorld Report
        → Result BenchmarkError (BenchmarkRun Report) × BenchmarkWorld Report
    start_benchmark_run spawned now id key duration max_wait w =
        let run = new_run id key now in
        let task : Monitor = record {
          run_id = id;
          scenario_key = key;
          command = command settings key duration max_wait;
        } in
        if not (is_scenario key)
        then (err (unknown_scenario key), w)
        else elim (get_running_run w.runs) [
          | some existing ↦ (err (benchmark_already_running existing.id), w)
          | none ↦
              if spawned
              then (
                ok run,
                record { runs = run ∷ w.runs; background_tasks = task ∷ w.background_tasks },
              )
              else (err spawn_failed, record w { runs = run ∷ w.runs })
        ]

    -- The code of `POST /run`.
    abbrev pub run_benchmark :
        (spawned : Bool)
        → (now id : ℕ) → ScenarioKey
        → Option ℕ
        → Option ℕ
        → BenchmarkWorld Report
        → ℕ × BenchmarkWorld Report
    run_benchmark spawned now id key duration max_wait w =
        let done = start_benchmark_run spawned now id key duration max_wait w in
        (elim done.0 [ ok run ↦ 202 | err e ↦ run_error_code e ], done.1)

    -- `GET /{run_id}`
    abbrev pub get_run_code : ℕ → BenchmarkWorld Report → ℕ
    get_run_code id w = elim (get_run id w.runs) [ none ↦ 404 | some r ↦ 200 ]

    -- What can happen: a call, with a new id; the end of a subprocess whose task is there; a restart
    -- of the process, whose tasks are gone.
    pub data BenchmarkStep : BenchmarkWorld Report → BenchmarkWorld Report → Type 0 where
      call :
          (spawned : Bool) (now id : ℕ) (key : ScenarioKey) (duration max_wait : Option ℕ)
          {w : BenchmarkWorld Report}
          → any (λ r. r.id == id) w.runs ≡ false
          → BenchmarkStep w (start_benchmark_run spawned now id key duration max_wait w).1
      subprocess_ends :
          (now : ℕ) (exit : Exit Report) (m : Monitor) {w : BenchmarkWorld Report}
          → any (λ n. n.run_id == m.run_id) w.background_tasks ≡ true
          → BenchmarkStep w (monitor_run now exit m w)
      restart : {w : BenchmarkWorld Report} → BenchmarkStep w (record w { background_tasks = [] })

    pub data BenchmarkSteps : BenchmarkWorld Report → BenchmarkWorld Report → Type 0 where
      done : {w : BenchmarkWorld Report} → BenchmarkSteps w w
      step :
          {w v u : BenchmarkWorld Report}
          → BenchmarkSteps w v
          → BenchmarkStep v u
          → BenchmarkSteps w u
