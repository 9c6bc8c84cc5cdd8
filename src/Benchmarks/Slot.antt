-- ===== src/Benchmarks/Slot.antt =====
-- The one slot of the benchmark runs: at most one row is RUNNING, a row that is settled stays as it is,
-- and when the end of a subprocess frees the slot.
use modelops_control_plane.Base.{
  ℕ, ◌≤◌, ◌≡◌, sym, ◌∙◌, Bool, true, false, Option, none, some, ◌∷◌, any, All, Bool-cases,
  Option-cases, arith, inl, inr, ◌==◌, ==_refl, subst, ◌⊎◌, if◌then◌else◌,
}
use modelops_control_plane.Benchmarks.{
  ScenarioKey, is_scenario, is_running, BenchmarkRun, BenchmarkApiSettings, Monitor, Exit, command,
  BenchmarkWorld, escapes, get_running_run, get_run, new_run, finish_run, update_run, monitor_run,
  start_benchmark_run, run_benchmark, BenchmarkStep, call, subprocess_ends, restart, BenchmarkSteps,
  done, step,
}
use modelops_control_plane.Benchmarks.Rows.{
  no_runs, running_count, is_running_id, IsWatched, get_running_run-none, idle-no_task,
  update_run-count, get_run-update_run, rows_after-IsWatched, is_running_id-count,
  task-is_running_id, running_count-none, get_run-any,
}

module _ {Report : Type 0} where
  module _ (settings : BenchmarkApiSettings) where
    -- The table with a new row, and its task where the subprocess was made.
    abbrev started :
        (spawned : Bool)
        → (now id : ℕ) → ScenarioKey
        → Option ℕ
        → Option ℕ
        → BenchmarkWorld Report
        → BenchmarkWorld Report
    started spawned now id key duration max_wait w = record {
      runs = new_run id key now ∷ w.runs;
      background_tasks =
          if spawned
          then record {
            run_id = id;
            scenario_key = key;
            command = command settings key duration max_wait;
          }
            ∷ w.background_tasks
          else w.background_tasks;
    }

    -- A call leaves the world, or there was no run in progress.
    pub start-cases :
        (spawned : Bool) (now id : ℕ) (key : ScenarioKey) (duration max_wait : Option ℕ)
        (w : BenchmarkWorld Report)
        → ((start_benchmark_run settings spawned now id key duration max_wait w).1 ≡ w)
          ⊎ ((get_running_run w.runs ≡ none)
              × ((start_benchmark_run settings spawned now id key duration max_wait w).1
                  ≡ started spawned now id key duration max_wait w))
    unfolding start_benchmark_run
    start-cases spawned now id key duration max_wait w =
        elim (Option-cases (get_running_run w.runs)) [
          | inr (r, q) ↦ inl (ground arith)
          | inl q ↦ elim (Bool-cases (is_scenario key)) [
            | inl q' ↦ inr (q, ground arith)
            | inr q' ↦ inl (ground arith)
          ]
        ]

    started-IsWatched :
        (spawned : Bool) (now id : ℕ) (key : ScenarioKey) (duration max_wait : Option ℕ)
        (w : BenchmarkWorld Report)
        → get_running_run w.runs ≡ none
        → IsWatched w
        → IsWatched (started spawned now id key duration max_wait w)
    started-IsWatched spawned now id key duration max_wait w q h =
        let free = get_running_run-none w.runs q in
        let idle = idle-no_task w q h in
        let here = ==_refl id in
        elim spawned as (λ b. IsWatched (started b now id key duration max_wait w)) [
          | true ↦ (
            omega (arith, free),
            (
              ground arith,
              subst
                  (λ ts. All (λ m. is_running_id m.run_id (new_run id key now ∷ w.runs) ≡ true) ts)
                  (sym idle) tt,
            ),
          )
          | false ↦ (
            omega (arith, free),
            subst (λ ts. All (λ m. is_running_id m.run_id (new_run id key now ∷ w.runs) ≡ true) ts)
                (sym idle) tt,
          )
        ]

    step-IsWatched :
        {w v : BenchmarkWorld Report} → BenchmarkStep settings w v → IsWatched w → IsWatched v
    unfolding monitor_run
    step-IsWatched (call spawned now id key duration max_wait {w} fresh) h =
        elim (start-cases spawned now id key duration max_wait w) [
          | inl same ↦ subst IsWatched (sym same) h
          | inr (free, same) ↦
              subst IsWatched (sym same)
                (started-IsWatched spawned now id key duration max_wait w free h)
        ]
    step-IsWatched (subprocess_ends now exit m {w} there) h =
        let live = task-is_running_id m.run_id w.runs w.background_tasks h.1 there in
        rows_after-IsWatched m.run_id now exit w.runs w.background_tasks live h.0 h.1
    step-IsWatched restart h = (h.0, tt)

    step-settled :
        {w v : BenchmarkWorld Report} (id : ℕ) (r : BenchmarkRun Report)
        → BenchmarkStep settings w v
        → IsWatched w
        → get_run id w.runs ≡ some r
        → is_running r.status ≡ false
        → get_run id v.runs ≡ some r
    unfolding monitor_run
    step-settled id r (call spawned now new key duration max_wait {w} fresh) h found over =
        elim (start-cases spawned now new key duration max_wait w) [
          | inl same ↦ subst (λ v. get_run id v.runs ≡ some r) (sym same) found
          | inr (free, same) ↦
              let there = get_run-any id w.runs r found in
              let apart : new ≡ id → ⊥ = λ e. absurd (ground arith) in
              subst (λ v. get_run id v.runs ≡ some r) (sym same) (ground arith)
        ]
    step-settled id r (subprocess_ends now exit m {w} there) h found over =
        let live = task-is_running_id m.run_id w.runs w.background_tasks h.1 there in
        let same = get_run-update_run m.run_id id now exit w.runs in
        elim (Bool-cases (escapes exit)) [
          | inl escaped ↦ rw escaped found
          | inr settles ↦ rw settles (elim (Bool-cases (m.run_id == id)) [
            | inl q ↦ let e : m.run_id ≡ id = ground arith in absurd (ground arith)
            | inr q ↦ same q ∙ found
          ])
        ]
    step-settled id r restart h found over = found

    pub steps-IsWatched :
        {w v : BenchmarkWorld Report} → BenchmarkSteps settings w v → IsWatched w → IsWatched v
    steps-IsWatched done h = h
    steps-IsWatched (step before s) h = step-IsWatched s (steps-IsWatched before h)

    -- However calls, subprocesses and restarts follow each other, from an empty table, at most one run
    -- is RUNNING.
    pub one_run_at_a_time :
        {w : BenchmarkWorld Report}
        → BenchmarkSteps settings (no_runs Report) w
        → running_count w.runs ≤ 1
    one_run_at_a_time path = (steps-IsWatched path (omega arith, tt)).0

    steps-settled :
        {w v : BenchmarkWorld Report} (id : ℕ) (r : BenchmarkRun Report)
        → BenchmarkSteps settings w v
        → IsWatched w
        → get_run id w.runs ≡ some r
        → is_running r.status ≡ false
        → get_run id v.runs ≡ some r
    steps-settled id r done h found over = found
    steps-settled id r (step before s) h found over =
        step-settled id r s (steps-IsWatched before h) (steps-settled id r before h found over) over

    -- A run that is COMPLETED or FAILED keeps its row as it is, whatever happens later.
    pub settled_is_final :
        {w v : BenchmarkWorld Report} (id : ℕ) (r : BenchmarkRun Report)
        → BenchmarkSteps settings (no_runs Report) w
        → BenchmarkSteps settings w v
        → get_run id w.runs ≡ some r
        → is_running r.status ≡ false
        → get_run id v.runs ≡ some r
    settled_is_final id r before after found over =
        steps-settled id r after (steps-IsWatched before (omega arith, tt)) found over

    -- After the end of a subprocess, whatever its code and its output, the next call of a known scenario
    -- whose subprocess can be made is accepted, except where the code is 0 and the report's file raises
    -- an error that is not caught: then it is refused with a 409.
    pub end_frees_slot :
        {w : BenchmarkWorld Report} (now : ℕ) (exit : Exit Report) (m : Monitor)
        → BenchmarkSteps settings (no_runs Report) w
        → any (λ n. n.run_id == m.run_id) w.background_tasks ≡ true
        → (now' id : ℕ) (key : ScenarioKey) (duration max_wait : Option ℕ) → is_scenario key ≡ true
        → (run_benchmark settings true now' id key duration max_wait (monitor_run now exit m w)).0
          ≡ (if escapes exit then 409 else 202)
    unfolding monitor_run start_benchmark_run
    end_frees_slot {w} now exit m path there now' id key duration max_wait known =
        let h = steps-IsWatched path (omega arith, tt) in
        let live = task-is_running_id m.run_id w.runs w.background_tasks h.1 there in
        elim (Bool-cases (escapes exit)) [
          | inl escaped ↦
              let busy = is_running_id-count m.run_id w.runs live in
              elim (Option-cases (get_running_run w.runs)) [
                | inl q ↦
                    let idle = get_running_run-none w.runs q in absurd (omega (arith, busy, idle))
                | inr (r, q) ↦ ground arith
              ]
          | inr settles ↦
              let fewer = update_run-count m.run_id now exit w.runs live in
              let rows = update_run m.run_id (finish_run now exit) w.runs in
              let free : running_count rows ≡ 0 = omega (arith, fewer, h.0) in
              let none_running = running_count-none rows free in ground arith
        ]
