-- ===== src/Serving/Startup.antt =====
-- The start of a serving process: `create_app` of backend/app/serving/main.py on what the registry
-- (backend/app/registry/local.py) holds.
use modelops_control_plane.Base.{
  ℕ, ◌≡◌, refl, ap, ◌∙◌, Bool, true, false, ◌&&◌, Bool-cases, if◌then◌else◌, Option, none, some,
  List, [], ◌∷◌, ok, err, is_ok, Result-cases, Option-cases, arith, inl, inr,
}
use modelops_control_plane.Registry.{
  Entry, load_model, model_joblib, metadata_json, evaluation_json,
}
use modelops_control_plane.Registry.Lookup.{
  is_some, is_read, artifact, is_complete, load_model-is_ok,
}
use modelops_control_plane.Number.{Number}
use modelops_control_plane.Serving.{
  ServingSettings, Server, Request, ready, get_fault_injection, health, put_fault_injection,
  predict, Response, is_ready, FeatureType, Feature, respond, create_app, serve,
}

module _ {Value Cell : Type 0} where
  abbrev pub says_ready : Response Value Cell → Bool
  says_ready (is_ready model version fs) = true
  says_ready _ = false

module _ {Value Cell Contents Document Pipeline : Type 0} (loads : Contents → Option Document)
    (joblib : Contents → Option Pipeline) (features : Document → Option (List Feature))
    (run : Pipeline → List Cell → Option (ℕ × Number)) (creates : List Feature → Bool) where
  -- `loaded_model.features` and `build_request_model` stand outside the `try`: metadata that has no
  -- "features" raises there, and so do the names of features of which pydantic's `create_model`
  -- makes no model (`creates`); no app comes of it.
  unfoldable pub start :
      ServingSettings → (artifacts : Option (Entry Contents)) → Option (Server Value Cell)
  start s artifacts = elim (load_model loads joblib artifacts s.model_name s.model_version) [
    | err e ↦ if creates [] then some (create_app Value Cell s none) else none
    | ok a ↦ elim (features a.metadata) [
      | none ↦ none
      | some fs ↦
          if creates fs
          then some
              (create_app Value Cell s (some (record { features = fs; pipeline = run a.pipeline })))
          else none
    ]
  ]

  module _ (validate : FeatureType → Value → Option Cell) where
    respond-loaded_model :
        (server : Server Value Cell) (r : Request Value Cell)
        → (respond Value Cell validate server r).1.loaded_model ≡ server.loaded_model
    unfolding respond
    respond-loaded_model server health = refl
    respond-loaded_model server ready = ground arith
    respond-loaded_model server get_fault_injection = refl
    respond-loaded_model server (put_fault_injection latency rate) = ground arith
    respond-loaded_model server (predict payload chance) = ground arith

    serve-loaded_model :
        (server : Server Value Cell) (rs : List (Request Value Cell))
        → (serve Value Cell validate server rs).1.loaded_model ≡ server.loaded_model
    unfolding serve
    serve-loaded_model server [] = refl
    serve-loaded_model server (r ∷ rs) =
        serve-loaded_model (respond Value Cell validate server r).1 rs
        ∙ respond-loaded_model server r

    start-loaded_model :
        (s : ServingSettings) (artifacts : Option (Entry Contents)) (app : Server Value Cell)
        → start s artifacts ≡ some app
        → is_some app.loaded_model
          ≡ is_ok (load_model loads joblib artifacts s.model_name s.model_version)
    unfolding start create_app
    start-loaded_model s artifacts app h =
        elim (Result-cases (load_model loads joblib artifacts s.model_name s.model_version)) [
          | inr (e, q) ↦ elim (Bool-cases (creates [])) [
            | inl b ↦ ground arith
            | inr b ↦ absurd (ground arith)
          ]
          | inl (a, q) ↦ elim (Option-cases (features a.metadata)) [
            | inl q' ↦ absurd (ground arith)
            | inr (fs, q') ↦ elim (Bool-cases (creates fs)) [
              | inl b ↦ ground arith
              | inr b ↦ absurd (ground arith)
            ]
          ]
        ]

    ready-says_ready :
        (server : Server Value Cell)
        → says_ready (respond Value Cell validate server ready).0 ≡ is_some server.loaded_model
    unfolding respond
    ready-says_ready server = ground arith

    -- A process that has started is ready, before and after any requests, exactly where the registry
    -- had the three files of its version and they could be read.
    pub ready_iff_readable :
        (s : ServingSettings) (artifacts : Option (Entry Contents)) (app : Server Value Cell)
        (rs : List (Request Value Cell))
        → start s artifacts ≡ some app
        → let done = (serve Value Cell validate app rs).1 in
          let file = artifact artifacts s.model_name s.model_version in
          says_ready (respond Value Cell validate done ready).0 ≡ (
            is_complete artifacts s.model_name s.model_version
            && is_read loads (file metadata_json)
            && is_read loads (file evaluation_json)
            && is_read joblib (file model_joblib))
    ready_iff_readable s artifacts app rs h =
        ready-says_ready (serve Value Cell validate app rs).1
        ∙ ap is_some (serve-loaded_model app rs)
        ∙ start-loaded_model s artifacts app h
        ∙ load_model-is_ok loads joblib artifacts s.model_name s.model_version
