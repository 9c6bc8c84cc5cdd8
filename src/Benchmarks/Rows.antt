-- ===== src/Benchmarks/Rows.antt =====
-- The table of the benchmark runs with its tasks: how many rows are RUNNING, and what a settled row and
-- a task that ends change of it.
use modelops_control_plane.Base.{
  ℕ, ◌≤◌, suc, ◌≡◌, refl, Bool, true, false, not, none, some, List, [], ◌∷◌, any, count, All,
  All-where_, if◌then◌else◌, Bool-cases, arith, inl, inr, ◌==◌,
}
use modelops_control_plane.Benchmarks.{
  is_running, BenchmarkRun, Monitor, Exit, BenchmarkWorld, get_running_run, get_run, finish_run,
  update_run, forget_task, escapes,
}

abbrev pub no_runs : (Report : Type 0) → BenchmarkWorld Report
no_runs Report = record { runs = []; background_tasks = [] }

module _ {Report : Type 0} where
  abbrev pub running_count : List (BenchmarkRun Report) → ℕ
  running_count = count (λ r. is_running r.status)

  -- The row of an id is there and RUNNING.
  abbrev pub is_running_id : ℕ → List (BenchmarkRun Report) → Bool
  is_running_id id rows = elim (get_run id rows) [ none ↦ false | some r ↦ is_running r.status ]

  -- At most one row is RUNNING, and each task waits for the subprocess of a row that is.
  abbrev pub IsWatched : BenchmarkWorld Report → Type 0
  IsWatched w =
      running_count w.runs ≤ 1 × All (λ m. is_running_id m.run_id w.runs ≡ true) w.background_tasks

  pub get_running_run-none :
      (rows : List (BenchmarkRun Report)) → get_running_run rows ≡ none → running_count rows ≡ 0
  get_running_run-none [] h = refl
  get_running_run-none (r ∷ rs) h = let rest = get_running_run-none rs in ground arith

  pub is_running_id-count :
      (id : ℕ) (rows : List (BenchmarkRun Report))
      → is_running_id id rows ≡ true
      → 1 ≤ running_count rows
  is_running_id-count id [] h = absurd (ground arith)
  is_running_id-count id (r ∷ rs) h = let rest = is_running_id-count id rs in ground arith

  pub no_task :
      (rows : List (BenchmarkRun Report)) (tasks : List Monitor)
      → running_count rows ≡ 0
      → All (λ m. is_running_id m.run_id rows ≡ true) tasks
      → tasks ≡ []
  no_task rows [] h all = refl
  no_task rows (m ∷ ms) h all =
      let some_running = is_running_id-count m.run_id rows all.0 in absurd (ground arith)

  -- With no run in progress, no task is left.
  pub idle-no_task :
      (w : BenchmarkWorld Report)
      → get_running_run w.runs ≡ none
      → IsWatched w
      → w.background_tasks ≡ []
  idle-no_task w q h = no_task w.runs w.background_tasks (get_running_run-none w.runs q) h.1

  pub update_run-count :
      (id now : ℕ) (exit : Exit Report) (rows : List (BenchmarkRun Report))
      → is_running_id id rows ≡ true
      → running_count rows ≡ suc (running_count (update_run id (finish_run now exit) rows))
  unfolding finish_run
  update_run-count id now exit [] h = absurd (ground arith)
  update_run-count id now exit (r ∷ rs) h =
      let rest = update_run-count id now exit rs in ground arith

  pub get_run-update_run :
      (id other now : ℕ) (exit : Exit Report) (rows : List (BenchmarkRun Report))
      → (id == other) ≡ false
      → get_run other (update_run id (finish_run now exit) rows) ≡ get_run other rows
  unfolding finish_run
  get_run-update_run id other now exit [] h = refl
  get_run-update_run id other now exit (r ∷ rs) h =
      let rest = get_run-update_run id other now exit rs in ground arith

  pub forget_task-All :
      (id now : ℕ) (exit : Exit Report) (rows : List (BenchmarkRun Report)) (tasks : List Monitor)
      → All (λ m. is_running_id m.run_id rows ≡ true) tasks
      → All
          (λ m. is_running_id m.run_id (update_run id (finish_run now exit) rows) ≡ true)
          (forget_task id tasks)
  forget_task-All id now exit rows tasks all =
      All-where_ (λ m. not (m.run_id == id)) tasks
        (λ m keep here.
          let same = get_run-update_run id m.run_id now exit rows (ground arith) in ground arith)
        all

  -- The rows after a subprocess, whether its task settles the row or not.
  abbrev pub rows_after :
      (id now : ℕ) → Exit Report → List (BenchmarkRun Report) → List (BenchmarkRun Report)
  rows_after id now exit rows =
      if escapes exit then rows else update_run id (finish_run now exit) rows

  pub rows_after-IsWatched :
      (id now : ℕ) (exit : Exit Report) (rows : List (BenchmarkRun Report)) (tasks : List Monitor)
      → is_running_id id rows ≡ true
      → running_count rows ≤ 1
      → All (λ m. is_running_id m.run_id rows ≡ true) tasks
      → (running_count (rows_after id now exit rows) ≤ 1)
        × All
            (λ m. is_running_id m.run_id (rows_after id now exit rows) ≡ true)
            (forget_task id tasks)
  rows_after-IsWatched id now exit rows tasks live few all = elim (Bool-cases (escapes exit)) [
    | inl q ↦ rw q (few, All-where_ (λ m. not (m.run_id == id)) tasks (λ m keep here. here) all)
    | inr q ↦
        let fewer = update_run-count id now exit rows live in
        rw q (omega (arith, fewer, few), forget_task-All id now exit rows tasks all)
  ]

  pub task-is_running_id :
      (id : ℕ) (rows : List (BenchmarkRun Report)) (tasks : List Monitor)
      → All (λ m. is_running_id m.run_id rows ≡ true) tasks
      → any (λ m. m.run_id == id) tasks ≡ true
      → is_running_id id rows ≡ true
  task-is_running_id id rows [] all h = absurd (ground arith)
  task-is_running_id id rows (m ∷ ms) all h = elim (Bool-cases (m.run_id == id)) [
    | inl q ↦ let e : m.run_id ≡ id = ground arith in rw (← e) all.0
    | inr q ↦ task-is_running_id id rows ms all.1 (ground arith)
  ]

  pub running_count-none :
      (rows : List (BenchmarkRun Report)) → running_count rows ≡ 0 → get_running_run rows ≡ none
  running_count-none [] h = refl
  running_count-none (r ∷ rs) h = let rest = running_count-none rs in ground arith

  pub get_run-any :
      (id : ℕ) (rows : List (BenchmarkRun Report)) (r : BenchmarkRun Report)
      → get_run id rows ≡ some r
      → any (λ r. r.id == id) rows ≡ true
  get_run-any id [] r h = absurd (ground arith)
  get_run-any id (x ∷ xs) r h = let rest = get_run-any id xs r in ground arith
