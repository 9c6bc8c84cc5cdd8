-- ===== src/Serving.antt =====
-- The serving app of one model version: backend/app/serving/config.py, fault_injection.py, schemas.py
-- and main.py. The pipeline, the validation of one value, the uuid, the clock and the draw of
-- `random.random()` come from outside the source, and are fields or arguments here.
pub mod Faults
pub mod Predictions
pub mod Startup
pub mod ClassWeight
use modelops_control_plane.Base.{
  ℕ, ◌+◌, Bool, true, false, ◌&&◌, ◌||◌, Option, none, some, List, [], ◌∷◌, map, ltb, leb, ◌==◌,
  Result, ok, err, Word, lower, word_eq, ◌>>=◌, ◌>>◌, if◌then◌else◌,
}
use modelops_control_plane.Number.{Number, ratio, of_count, less, positive}

-- "production"
abbrev pub production_environment : Word
production_environment = 112 ∷ 114 ∷ 111 ∷ 100 ∷ 117 ∷ 99 ∷ 116 ∷ 105 ∷ 111 ∷ 110 ∷ []

-- A latency below 0 is never slept, and the schema of a PUT refuses it: latencies are naturals.
pub record ServingSettings : Type 0 where
  pub model_name : Word
  pub model_version : Word
  pub environment : Word
  pub injected_latency_ms : ℕ
  pub injected_error_rate : Number

abbrev pub is_production : ServingSettings → Bool
is_production s = word_eq (lower s.environment) production_environment

abbrev pub no_rate : Number
no_rate = of_count 0

abbrev pub with_faults : ℕ → Number → ServingSettings → ServingSettings
with_faults latency rate s = record s { injected_latency_ms = latency; injected_error_rate = rate }

-- The validator that runs when the settings are built.
unfoldable pub disable_fault_injection_in_production : ServingSettings → ServingSettings
disable_fault_injection_in_production s = if is_production s then with_faults 0 no_rate s else s

unfoldable pub set_fault_injection : ServingSettings → ℕ → Number → ServingSettings
set_fault_injection s latency rate =
    if is_production s then with_faults 0 no_rate s else with_faults latency rate s

-- The reasons of the app's refusals, and their codes; `pipeline_error` is an exception of the
-- pipeline, which no handler catches.
pub data Refusal : Type 0 where
  not_loaded invalid_payload injected_fault disabled_in_production pipeline_error : Refusal

abbrev pub refusal_code : Refusal → ℕ
refusal_code not_loaded = 503
refusal_code invalid_payload = 422
refusal_code injected_fault = 500
refusal_code disabled_in_production = 403
refusal_code pipeline_error = 500

-- The milliseconds slept, and the fault if the draw raises it.
unfoldable pub apply_fault_injection :
    ServingSettings → (draw : Number) → ℕ × Result Refusal (Unit {0})
apply_fault_injection s draw =
    let slept = if ltb 0 s.injected_latency_ms then s.injected_latency_ms else 0 in
    let raised = positive s.injected_error_rate && less draw s.injected_error_rate in
    if is_production s then (0, ok tt) else (slept, (if raised then err injected_fault else ok tt))

-- The columns with a type of their own, and every other name, by a number.
pub data Feature : Type 0 where
  amount merchant_category transaction_hour device_risk_score : Feature
  customer_age_days previous_declines country_mismatch is_new_customer : Feature
  numbered : ℕ → Feature

pub data FeatureType : Type 0 where
  float str int : FeatureType

abbrev pub feature_type : Feature → FeatureType
feature_type amount = float
feature_type merchant_category = str
feature_type transaction_hour = int
feature_type device_risk_score = float
feature_type customer_age_days = int
feature_type previous_declines = int
feature_type country_mismatch = int
feature_type is_new_customer = int
feature_type (numbered n) = float

abbrev pub column : Feature → ℕ
column amount = 0
column merchant_category = 1
column transaction_hour = 2
column device_risk_score = 3
column customer_age_days = 4
column previous_declines = 5
column country_mismatch = 6
column is_new_customer = 7
column (numbered n) = 8 + n

pub record PredictionResponse : Type 0 where
  pub prediction_id : ℕ
  pub prediction : ℕ
  pub fraud_probability : Number
  pub model_name : Word
  pub model_version : Word
  pub latency_ms : Number

-- What the process is given for one prediction: the draw, the uuid, and the time that it took.
pub record Chance : Type 0 where
  pub draw : Number
  pub uuid : ℕ
  pub took : Number

pub record FaultInjection : Type 0 where
  pub latency_ms : ℕ
  pub error_rate : Number
  pub environment : Word

-- A value of a JSON object is a `Value`.
module _ {Value : Type 0} where
  abbrev pub lookup : Feature → List (Feature × Value) → Option Value
  lookup f [] = none
  lookup f ((g, v) ∷ rest) = if column f == column g then some v else lookup f rest

-- A validated value is a `Cell`.
module _ (Value Cell : Type 0) where
  pub record LoadedModel : Type 0 where
    pub features : List Feature
    pub pipeline : List Cell → Option (ℕ × Number)

  -- The state of the process.
  pub record Server : Type 0 where
    pub settings : ServingSettings
    pub loaded_model : Option LoadedModel

  pub data Request : Type 0 where
    health ready get_fault_injection : Request
    put_fault_injection : (latency_ms : ℕ) (error_rate : Number) → Request
    predict : List (Feature × Value) → Chance → Request

  pub data Response : Type 0 where
    healthy : (model_name model_version : Word) → Response
    is_ready : (model_name model_version : Word) → List Feature → Response
    faults : FaultInjection → Response
    predicted : PredictionResponse → Response
    refused : Refusal → Response

  abbrev pub fault_injection_out : ServingSettings → Response
  fault_injection_out s = faults (record {
    latency_ms = s.injected_latency_ms;
    error_rate = s.injected_error_rate;
    environment = s.environment;
  })

  abbrev pub answer_predict : Result Refusal PredictionResponse → Response
  answer_predict (ok p) = predicted p
  answer_predict (err r) = refused r

  abbrev pub run_pipeline : LoadedModel → List Cell → Result Refusal (ℕ × Number)
  run_pipeline m row = elim (m.pipeline row) [ none ↦ err pipeline_error | some p ↦ ok p ]

  -- `create_app`, with what `load_model` gives for the settings' model.
  unfoldable pub create_app : ServingSettings → (loaded : Option LoadedModel) → Server
  create_app s loaded = record {
    settings = disable_fault_injection_in_production s;
    loaded_model = loaded;
  }

  module _ (validate : FeatureType → Value → Option Cell) where
    abbrev pub field_value : Feature → Option Value → Result Refusal Cell
    field_value f none = err invalid_payload
    field_value f (some v) = elim (validate (feature_type f) v) [
      | none ↦ err invalid_payload
      | some cell ↦ ok cell
    ]

    -- `build_request_model` on a payload: every feature is required, and no other key is read.
    unfoldable pub request_row : List Feature → List (Feature × Value) → Result Refusal (List Cell)
    request_row [] payload = ok []
    request_row (f ∷ fs) payload = do
      cell ← field_value f (lookup f payload)
      rest ← request_row fs payload
      ok (cell ∷ rest)

    unfoldable pub predict_with :
        ServingSettings
        → LoadedModel
        → List (Feature × Value)
        → Chance
        → Result Refusal PredictionResponse
    predict_with s m payload chance = do
      row ← request_row m.features payload
      (apply_fault_injection s chance.draw).1 >> do
        p ← run_pipeline m row
        ok (record {
          prediction_id = chance.uuid;
          prediction = p.0;
          fraud_probability = p.1;
          model_name = s.model_name;
          model_version = s.model_version;
          latency_ms = chance.took;
        })

    -- A handler of the app.
    unfoldable pub respond : Server → Request → Response × Server
    respond server health =
        (healthy server.settings.model_name server.settings.model_version, server)
    respond server ready = elim server.loaded_model [
      | none ↦ (refused not_loaded, server)
      | some m ↦
          (is_ready server.settings.model_name server.settings.model_version m.features, server)
    ]
    respond server get_fault_injection = (fault_injection_out server.settings, server)
    respond server (put_fault_injection latency rate) =
        let s = set_fault_injection server.settings latency rate in
        if less (of_count 1) rate || less rate (of_count 0)
        then (refused invalid_payload, server)
        else if is_production server.settings
        then (refused disabled_in_production, server)
        else (fault_injection_out s, record server { settings = s })
    respond server (predict payload chance) = elim server.loaded_model [
      | none ↦ (refused not_loaded, server)
      | some m ↦ (answer_predict (predict_with server.settings m payload chance), server)
    ]

    -- The requests of a process, in the order it takes them.
    unfoldable pub serve : Server → List Request → List Response × Server
    serve server [] = ([], server)
    serve server (r ∷ rs) =
        let (answer, next) = respond server r in
        let (answers, last) = serve next rs in (answer ∷ answers, last)
