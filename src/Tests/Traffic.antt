-- ===== src/Tests/Traffic.antt =====
-- Requests through the router, the metrics that they leave, and the timeline of an evaluation.
use modelops_control_plane.Base.{
  ◌+◌, ◌≡◌, refl, true, ◌&&◌, some, List, [], ◌∷◌, All, count, if◌then◌else◌, ◌==◌,
}
use modelops_control_plane.Status.{canary_running}
use modelops_control_plane.Store.{Db, Target, PolicyConfig, default_settings, to_policy_config}
use modelops_control_plane.Router.{RouterConfig, resolve_base_url, find_host}
use modelops_control_plane.Router.Predict.{
  choose_target, Upstream, Reply, object, prediction, prediction_id, integer, string, route_predict,
  routed_code, Routed, Outgoing,
}
use modelops_control_plane.Router.Predict.Share.{
  choose_target-share, tally_below, is_version, version_weight,
}
use modelops_control_plane.Router.Predict.Attribution.{
  one_metric_per_answer, IsFor, is_metric, has_deployment, is_answered,
}
use modelops_control_plane.System.Traffic.{
  answered_is_sampled, is_recorded, samples, deliver_metrics,
}
use modelops_control_plane.Policy.Service.{run_evaluation}
use modelops_control_plane.Tests.Samples.{settings, ten_percent, row, running_db}

abbrev split : RouterConfig
split = record { model_name = 1; targets = ten_percent; deployment_id = some 5; revision = 1 }

abbrev reply : Reply
reply = record {
  status_code = 200;
  body = some (object ((prediction, integer 1) ∷ (prediction_id, string 77) ∷ []));
  text = 0;
}

abbrev upstream : Upstream
upstream = record { ready = λ url. some 200; forward_predict = λ url. some reply }

abbrev canary : Target
canary = record { version = 2; weight = 100000000 }

chosen : choose_target ten_percent 950000000 ≡ some canary
unfolding choose_target
chosen = refl

host : resolve_base_url settings 2 ≡ some 12
unfolding resolve_base_url find_host
host = refl

abbrev routed : Routed × List Outgoing
routed = route_predict settings true upstream 950000000 35 split

one_metric_per_answer_example :
    All (IsFor (some 5) 2 12 (routed_code routed.0)) routed.1
    × count is_metric routed.1
      ≡ (if true && (has_deployment split.deployment_id && is_answered routed.0) then 1 else 0)
one_metric_per_answer_example =
    one_metric_per_answer settings true upstream 35 950000000 split canary 12 chosen host

answered_is_sampled_example :
    samples (deliver_metrics 100 routed.1 running_db) 5 2 300 100
    ≡ (if is_recorded routed.0 running_db.metrics && (canary.version == 2) then 1 else 0)
      + samples running_db 5 2 300 100
answered_is_sampled_example =
    answered_is_sampled settings upstream 950000000 35 100 300 2 5 split canary 12 running_db
      (row canary_running) refl (λ e. cc) refl chosen host

choose_target-share_example :
    tally_below 1000000000 (λ draw. is_version 2 (choose_target ten_percent draw))
    ≡ version_weight 2 ten_percent
choose_target-share_example = choose_target-share 2 ten_percent

abbrev policy : PolicyConfig
policy = to_policy_config default_settings

abbrev evaluated : Db
evaluated = (run_evaluation running_db (row canary_running) policy 400).1
