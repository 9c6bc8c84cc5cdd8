-- ===== src/Tests/Processes.antt =====
-- A registry with one version, and serving processes of it.
use modelops_control_plane.Base.{
  Bool, true, ℕ, ◌≡◌, refl, false, ◌&&◌, Option, none, some, List, [], ◌∷◌, All, ok, Word,
  if◌then◌else◌, ◌==◌,
}
use modelops_control_plane.Number.{Number, ratio}
use modelops_control_plane.Registry.{
  Entry, file, folder, empty, entry, model_joblib, metadata_json, evaluation_json, file_name,
  version_dir, model_dir, read_json, get_model_path, load_model, get_version_metadata,
}
use modelops_control_plane.Registry.Lookup.{is_complete, is_read, artifact}
use modelops_control_plane.Serving.{
  ServingSettings, Server, Request, ready, predict, put_fault_injection, get_fault_injection,
  FeatureType, Feature, amount, country_mismatch, LoadedModel, PredictionResponse, predicted,
  Chance, no_rate, with_faults, respond, serve, create_app, predict_with, request_row,
  apply_fault_injection,
}
use modelops_control_plane.Serving.ClassWeight.{
  ℤ, pos, negsuc, int_keyed, normalize_class_weight, through_json,
}
use modelops_control_plane.Serving.ClassWeight.Roundtrip.{normalize_class_weight-through_json}
use modelops_control_plane.Serving.Faults.{production_is_fault_free, shows_fault}
use modelops_control_plane.Serving.Startup.{start, ready_iff_readable, says_ready}

abbrev class_weights : List (ℤ × ℕ)
class_weights = (negsuc 0, 3) ∷ (pos 0, 1) ∷ (pos 150, 7) ∷ []

normalize_class_weight-through_json_example :
    normalize_class_weight (through_json class_weights) ≡ some (int_keyed class_weights)
normalize_class_weight-through_json_example =
    normalize_class_weight-through_json class_weights ((refl, (refl, tt)), ((refl, tt), (tt, tt)))

abbrev model : Word
model = 109 ∷ []

abbrev version : Word
version = 118 ∷ 49 ∷ []

-- A file holds a number; 0 is no document.
abbrev loads : ℕ → Option ℕ
loads n = if n == 0 then none else some n

abbrev artifacts : (metadata : ℕ) → Option (Entry ℕ)
artifacts metadata = some (
    folder (
      entry model
        (folder (
          entry version
            (folder (
              entry (file_name metadata_json) (file metadata) (
                entry (file_name evaluation_json) (file 7)
                  (entry (file_name model_joblib) (file 9) empty))))
            empty))
        empty))

-- Metadata 3 has a list of features, and no other one has.
abbrev features : ℕ → Option (List Feature)
features n = if n == 3 then some (amount ∷ []) else none

abbrev run : ℕ → List ℕ → Option (ℕ × Number)
run pipeline row = some (1, ratio 9 10)

abbrev pub validate : FeatureType → ℕ → Option ℕ
validate type value = some value

abbrev settings : Word → ServingSettings
settings environment = record {
  model_name = model;
  model_version = version;
  environment = environment;
  injected_latency_ms = 500;
  injected_error_rate = ratio 1 1;
}

-- "Production" and "development"
abbrev in_production : ServingSettings
in_production = settings (80 ∷ 114 ∷ 111 ∷ 100 ∷ 117 ∷ 99 ∷ 116 ∷ 105 ∷ 111 ∷ 110 ∷ [])

abbrev pub in_development : ServingSettings
in_development = settings (100 ∷ 101 ∷ 118 ∷ [])

abbrev pub loaded : Option (LoadedModel ℕ ℕ)
loaded = some (record { features = amount ∷ []; pipeline = run 9 })

abbrev chance : Chance
chance = record { draw = ratio 1 2; uuid = 4; took = ratio 3 1 }

abbrev payload : List (Feature × ℕ)
payload = (country_mismatch, 1) ∷ (amount, 250) ∷ []

abbrev pub requests : List (Request ℕ ℕ)
requests = predict payload chance ∷ put_fault_injection 100 (ratio 1 1) ∷ get_fault_injection ∷ []

production_is_fault_free_example :
    let done = serve ℕ ℕ validate (create_app ℕ ℕ in_production loaded) requests in
    All (λ a. shows_fault a ≡ false) done.0
    × done.1.settings.injected_latency_ms ≡ 0
    × done.1.settings.injected_error_rate ≡ no_rate
production_is_fault_free_example =
    production_is_fault_free validate in_production loaded requests refl

abbrev calm : Server ℕ ℕ
calm = record { settings = with_faults 0 no_rate in_development; loaded_model = loaded }

abbrev answer : PredictionResponse
answer = record {
  prediction_id = 4;
  prediction = 1;
  fraud_probability = ratio 9 10;
  model_name = model;
  model_version = version;
  latency_ms = ratio 3 1;
}

predicts_fraud : (respond ℕ ℕ validate calm (predict payload chance)).0 ≡ predicted answer
unfolding respond predict_with request_row apply_fault_injection
predicts_fraud = refl

metadata_served : get_version_metadata loads (artifacts 3) model version ≡ ok 3
unfolding read_json version_dir model_dir
metadata_served = refl

abbrev creates : List Feature → Bool
creates fs = true

abbrev app : Server ℕ ℕ
app = create_app ℕ ℕ in_development loaded

app_started : start loads some features run creates in_development (artifacts 3) ≡ some app
unfolding start load_model get_model_path read_json version_dir model_dir
app_started = refl

ready_iff_readable_example :
    let done = (serve ℕ ℕ validate app requests).1 in
    let file_of = artifact (artifacts 3) model version in
    says_ready (respond ℕ ℕ validate done ready).0 ≡ (
      is_complete (artifacts 3) model version
      && is_read loads (file_of metadata_json)
      && is_read loads (file_of evaluation_json)
      && is_read some (file_of model_joblib))
ready_iff_readable_example =
    ready_iff_readable loads some features run creates validate in_development (artifacts 3) app
      requests app_started
