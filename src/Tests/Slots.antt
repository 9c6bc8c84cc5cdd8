-- ===== src/Tests/Slots.antt =====
-- Runs of the benchmark suite, one after another.
use modelops_control_plane.Base.{
  ℕ, ◌≤◌, ◌≡◌, refl, true, false, none, some, [], ◌∷◌, any, ◌==◌, if◌then◌else◌,
}
use modelops_control_plane.Benchmarks.{
  BenchmarkApiSettings, BenchmarkWorld, Monitor, Exit, no_file, escapes, baseline, success, command,
  start_benchmark_run, run_benchmark, monitor_run, call, BenchmarkSteps, done, step,
}
use modelops_control_plane.Benchmarks.Rows.{running_count, no_runs}
use modelops_control_plane.Benchmarks.Slot.{one_run_at_a_time, end_frees_slot}
use modelops_control_plane.Benchmarks.Stuck.{failed_spawn_blocks}

abbrev api_settings : BenchmarkApiSettings
api_settings = record {
  router_url = 1;
  control_plane_url = 2;
  default_users = 20;
  default_target_rps = 100;
}

abbrev first_run : BenchmarkWorld ℕ
first_run = (start_benchmark_run api_settings true 10 1 baseline (some 60) none (no_runs ℕ)).1

first_path : BenchmarkSteps api_settings (no_runs ℕ) first_run
first_path = step done (call true 10 1 baseline (some 60) none refl)

abbrev refused_run : BenchmarkWorld ℕ
refused_run = (start_benchmark_run api_settings true 12 2 success none none first_run).1

fresh_id : any (λ r. r.id == 2) first_run.runs ≡ false
unfolding start_benchmark_run
fresh_id = refl

one_run_at_a_time_example : running_count refused_run.runs ≤ 1
one_run_at_a_time_example =
    one_run_at_a_time api_settings (step first_path (call true 12 2 success none none fresh_id))

abbrev monitor : Monitor
monitor = record {
  run_id = 1;
  scenario_key = baseline;
  command = command api_settings baseline (some 60) none;
}

abbrev crashed : Exit ℕ
crashed = record { returncode = 2; stdout = 7 ∷ []; report = no_file }

first_task : any (λ n. n.run_id == 1) first_run.background_tasks ≡ true
unfolding start_benchmark_run
first_task = refl

abbrev accepted : ℕ
accepted = 202

end_frees_slot_example :
    (run_benchmark api_settings true 30 2 success none none
      (monitor_run 20 crashed monitor first_run)).0
    ≡ (if escapes crashed then 409 else accepted)
end_frees_slot_example =
    end_frees_slot api_settings 20 crashed monitor first_path first_task 30 2 success none none refl

abbrev unspawned : BenchmarkWorld ℕ
unspawned = (start_benchmark_run api_settings false 10 1 baseline none none (no_runs ℕ)).1

abbrev conflict : ℕ
conflict = 409

failed_spawn_blocks_example :
    (run_benchmark api_settings true 90 2 success none none unspawned).0 ≡ conflict
failed_spawn_blocks_example =
    failed_spawn_blocks api_settings 10 1 baseline none none done refl refl done true 90 2 success
      none none refl
