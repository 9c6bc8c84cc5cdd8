-- ===== src/Tests/Automation.antt =====
-- The worker on the control plane, where every push of a turn is lost, from a canary with a tenth of
-- the traffic.
use modelops_control_plane.Base.{ℕ, ◌≡◌, refl, arith, some, [], ◌∷◌, true}
use modelops_control_plane.Status.{canary_running, promoted, inconclusive}
use modelops_control_plane.Store.{Deployment, PolicyEvaluationResult, pass, default_settings}
use modelops_control_plane.Gateway.{Delivery, lost}
use modelops_control_plane.Service.Query.{get_policy_config, find_row}
use modelops_control_plane.Service.Reachability.{World}
use modelops_control_plane.System.Automation.Sweeps.{idle_untouched}
use modelops_control_plane.Worker.{Line, run_forever}
use modelops_control_plane.System.Automation.{Plant, http_worker_client}
use modelops_control_plane.System.Automation.Progress.{turns, row_in}
use modelops_control_plane.System.Automation.Endings.{passes_promote}
use modelops_control_plane.System.Automation.Setbacks.{inconclusives_freeze}
use modelops_control_plane.Tests.Samples.{engine, settings, running_world, row}

abbrev silent : ℕ → Delivery
silent clock = lost

abbrev running : Line Plant
running = record { there = record { world = running_world; clock = 10 }; requests = [] }

abbrev waiting : PolicyEvaluationResult
waiting = PolicyEvaluationResult.inconclusive

passes_promote_example :
    (d : Deployment) × (row_in engine default_settings settings silent 400 300 5
        (turns engine default_settings settings silent 400 300 pass 5 5 running)
      ≡ some d)
    × (d.status ≡ promoted)
passes_promote_example =
    passes_promote engine default_settings settings silent 400 300 5 5 running (row canary_running)
      refl refl (λ e. omega (arith, e)) (omega arith)

inconclusives_freeze_example :
    (d : Deployment) × (row_in engine default_settings settings silent 400 300 5
        (turns engine default_settings settings silent 400 300 waiting 20 5 running)
      ≡ some d)
    × (d.status ≡ inconclusive)
unfolding get_policy_config
inconclusives_freeze_example =
    inconclusives_freeze engine default_settings settings silent 400 300 20 5 running
      (row canary_running) refl refl (omega arith) (omega arith)

-- The same world, where the automation of its deployment is paused.
abbrev paused_row : Deployment
paused_row = record (row canary_running) { automation_paused = true }

abbrev paused_world : World
paused_world = record running_world {
  db = record running_world.db { deployments = paused_row ∷ [] };
}

abbrev paused_line : Line Plant
paused_line = record { there = record { world = paused_world; clock = 10 }; requests = [] }

idle_untouched_example :
    let after =
      run_forever
        (http_worker_client engine default_settings settings silent)
        300
        (400 ∷ 415 ∷ 430 ∷ [])
        paused_line in
    find_row 5 after.there.world.db.deployments ≡ some paused_row
idle_untouched_example =
    idle_untouched engine default_settings settings silent 5 300 (400 ∷ 415 ∷ 430 ∷ []) paused_line
      (refl, tt)
