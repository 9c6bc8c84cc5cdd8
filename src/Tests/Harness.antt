-- ===== src/Tests/Harness.antt =====
-- A load test that reports three labels, and scenarios on a serving process.
use modelops_control_plane.Base.{
  Bool, ℕ, ◌+◌, ◌≡◌, ◌≢◌, ◌↔◌, refl, true, none, List, [], ◌∷◌, All, where_, not, arith, ◌==◌,
}
use modelops_control_plane.Number.{ratio}
use modelops_control_plane.Gateway.{reply_lost, delivered}
use modelops_control_plane.Serving.{
  Server, predict, serve, respond, create_app, with_faults, no_rate,
  disable_fault_injection_in_production,
}
use modelops_control_plane.Serving
use modelops_control_plane.LabelFeeder.{
  SentLabel, QueuedLabel, Feeder, FeederStep, queues, flushes, run_feeder, new_feeder,
}
use modelops_control_plane.LabelFeeder.Batches.{
  waiting, posted, reported, is_due_label, IsBatch, reported_is_posted_or_left, stop_leaves_not_due,
}
use modelops_control_plane.Scenario.{ScenarioRun, run_scenario, set_fault_injection_at}
use modelops_control_plane.Scenario.Faults.{scenario_resets, ends_clean_iff}
use modelops_control_plane.Tests.Processes.{validate, in_development, loaded, requests}

abbrev label : ℕ → SentLabel
label n = record { prediction_id = n; actual_label = 1 }

-- The second one is not covered, and the third one comes too late.
abbrev steps : List FeederStep
steps =
    queues 300000000 1 (label 1)
    ∷ queues 900000000 2 (label 2)
    ∷ flushes 12
    ∷ queues 500000000 13 (label 3)
    ∷ []

abbrev is_positive : SentLabel → Bool
is_positive l = l.actual_label == 1

reported_is_posted_or_left_example :
    let f = run_feeder steps 20 (new_feeder 10 800000000) in
    (posted is_positive f.posts + waiting is_positive f.queue
      ≡ reported is_positive 800000000 steps)
    × All IsBatch f.posts
reported_is_posted_or_left_example = reported_is_posted_or_left is_positive 10 800000000 steps 20

abbrev queued : ℕ → ℕ → QueuedLabel
queued send_at n = record { send_at = send_at; label = label n }

abbrev busy : Feeder
busy = record {
  label_delay = 10;
  label_coverage = 800000000;
  queue = queued 18 1 ∷ queued 21 2 ∷ queued 23 3 ∷ [];
  posts = [];
}

stop_leaves_not_due_example :
    (run_feeder [] 20 busy).queue ≡ where_ (λ x. not (is_due_label 20 x)) busy.queue
stop_leaves_not_due_example = stop_leaves_not_due 20 busy (omega arith)

abbrev raises : ScenarioRun ℕ ℕ validate ℕ
raises = record { requests = requests; ends = none }

abbrev before : Server ℕ ℕ
before = (serve ℕ ℕ validate (create_app ℕ ℕ in_development loaded) requests).1

put_returns : (set_fault_injection_at ℕ ℕ validate delivered 400 (ratio 1 2) before).0 ≡ true
unfolding set_fault_injection_at serve respond create_app Serving.set_fault_injection
    disable_fault_injection_in_production
put_returns = refl

scenario_resets_example :
    run_scenario ℕ ℕ validate delivered reply_lost 400 (ratio 1 2) raises before
    ≡ (none, create_app ℕ ℕ (with_faults 0 no_rate in_development) loaded)
scenario_resets_example =
    scenario_resets validate in_development loaded requests delivered reply_lost 400 (ratio 1 2)
      raises put_returns (λ e. cc)

abbrev at_rest : Server ℕ ℕ
at_rest = create_app ℕ ℕ (with_faults 0 no_rate in_development) loaded

ends_clean_iff_example :
    ((run_scenario ℕ ℕ validate reply_lost delivered 400 (ratio 1 2) raises at_rest).1 ≡ at_rest)
    ↔ (reply_lost ≢ reply_lost)
ends_clean_iff_example =
    ends_clean_iff validate in_development loaded reply_lost delivered 400 (ratio 1 2) raises refl
      refl (λ e. omega (arith, e)) (λ e. cc)
