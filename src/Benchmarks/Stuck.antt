-- ===== src/Benchmarks/Stuck.antt =====
-- A RUNNING row that no task waits for: after a subprocess that could not be made, and after a restart
-- of the process.
use modelops_control_plane.Base.{
  ℕ, ◌≡◌, ◌≢◌, refl, sym, subst, Bool, true, false, Option, none, [], ◌∷◌, Option-cases, arith, inl,
  inr,
}
use modelops_control_plane.Benchmarks.{
  ScenarioKey, is_scenario, BenchmarkApiSettings, BenchmarkWorld, get_running_run, new_run,
  start_benchmark_run, run_benchmark, BenchmarkStep, call, subprocess_ends, restart, BenchmarkSteps,
  done, step,
}
use modelops_control_plane.Benchmarks.Rows.{IsWatched, no_runs, idle-no_task}
use modelops_control_plane.Benchmarks.Slot.{start-cases, steps-IsWatched}

module _ {Report : Type 0} (settings : BenchmarkApiSettings) where
  -- A run is in progress, and no task will ever settle it.
  abbrev pub IsLost : BenchmarkWorld Report → Type 0
  IsLost w = (get_running_run w.runs ≢ none) × (w.background_tasks ≡ [])

  step-IsLost : {w v : BenchmarkWorld Report} → BenchmarkStep settings w v → IsLost w → IsLost v
  step-IsLost (call spawned now id key duration max_wait {w} fresh) h =
      elim (start-cases settings spawned now id key duration max_wait w) [
        | inl same ↦ subst IsLost (sym same) h
        | inr (free, same) ↦ absurd (h.0 free)
      ]
  step-IsLost (subprocess_ends now exit m {w} there) h = let empty = h.1 in absurd (ground arith)
  step-IsLost restart h = (h.0, refl)

  steps-IsLost : {w v : BenchmarkWorld Report} → BenchmarkSteps settings w v → IsLost w → IsLost v
  steps-IsLost done h = h
  steps-IsLost (step before s) h = step-IsLost s (steps-IsLost before h)

  run_benchmark-IsLost :
      (spawned : Bool) (now id : ℕ) (key : ScenarioKey) (duration max_wait : Option ℕ)
      (w : BenchmarkWorld Report)
      → IsLost w
      → is_scenario key ≡ true
      → (run_benchmark settings spawned now id key duration max_wait w).0 ≡ 409
  unfolding start_benchmark_run
  run_benchmark-IsLost spawned now id key duration max_wait w h known =
      elim (Option-cases (get_running_run w.runs)) [
        | inl q ↦ absurd (h.0 q)
        | inr (r, q) ↦ ground arith
      ]

  -- A run in progress when the process restarts is lost: whatever happens later, further restarts
  -- included, every call of a known scenario is refused with a 409.
  pub restart_blocks :
      (w : BenchmarkWorld Report) {v : BenchmarkWorld Report}
      → get_running_run w.runs ≢ none
      → BenchmarkSteps settings (record w { background_tasks = [] }) v
      → (spawned : Bool) (now id : ℕ) (key : ScenarioKey) (duration max_wait : Option ℕ)
      → is_scenario key ≡ true
      → (run_benchmark settings spawned now id key duration max_wait v).0 ≡ 409
  restart_blocks w h path spawned now id key duration max_wait known =
      run_benchmark-IsLost spawned now id key duration max_wait _ (steps-IsLost path (h, refl))
        known

  failed_spawn-IsLost :
      (now id : ℕ) (key : ScenarioKey) (duration max_wait : Option ℕ) (w : BenchmarkWorld Report)
      → IsWatched w
      → get_running_run w.runs ≡ none
      → is_scenario key ≡ true
      → IsLost (start_benchmark_run settings false now id key duration max_wait w).1
  unfolding start_benchmark_run
  failed_spawn-IsLost now id key duration max_wait w h free known =
      let idle = idle-no_task w free h in
      let e : (start_benchmark_run settings false now id key duration max_wait w).1
          ≡ record w { runs = new_run id key now ∷ w.runs } =
        ground arith in
      subst IsLost (sym e) ((λ n. absurd (ground arith)), idle)

  -- Where the subprocess of an accepted scenario cannot be made, the row that was committed is left
  -- RUNNING: whatever happens later, restarts included, every call of a known scenario is refused
  -- with a 409.
  pub failed_spawn_blocks :
      {w v : BenchmarkWorld Report} (now id : ℕ) (key : ScenarioKey) (duration max_wait : Option ℕ)
      → BenchmarkSteps settings (no_runs Report) w
      → get_running_run w.runs ≡ none
      → is_scenario key ≡ true
      → BenchmarkSteps settings
          (start_benchmark_run settings false now id key duration max_wait w).1
          v
      → (spawned : Bool) (now' id' : ℕ) (key' : ScenarioKey) (duration' max_wait' : Option ℕ)
      → is_scenario key' ≡ true
      → (run_benchmark settings spawned now' id' key' duration' max_wait' v).0 ≡ 409
  failed_spawn_blocks {w} now id key duration max_wait before free known after spawned now' id' key'
        duration' max_wait' known' =
      let h = steps-IsWatched settings before (omega arith, tt) in
      run_benchmark-IsLost spawned now' id' key' duration' max_wait' _
        (steps-IsLost after (failed_spawn-IsLost now id key duration max_wait w h free known))
        known'
