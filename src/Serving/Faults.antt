-- ===== src/Serving/Faults.antt =====
-- Injected faults: the guard of production and the end of a fault.
use modelops_control_plane.Base.{
  ◌≡◌, refl, sym, ap, ◌∙◌, Bool, true, false, ◌||◌, Option, List, [], ◌∷◌, All, ltb, err,
  Bool-cases, Result-cases, Option-cases, arith, inl, inr,
}
use modelops_control_plane.Number.{positive}
use modelops_control_plane.Serving.{
  ServingSettings, Server, Request, health, ready, get_fault_injection, put_fault_injection,
  predict, Response, faults, refused, Refusal, invalid_payload, injected_fault, FeatureType,
  Feature, LoadedModel, Chance, is_production, with_faults, no_rate, apply_fault_injection,
  disable_fault_injection_in_production, set_fault_injection, predict_with, request_row,
  answer_predict, respond, create_app, serve,
}

module _ {Value Cell : Type 0} where
  -- An answer in which a fault shows.
  abbrev pub shows_fault : Response Value Cell → Bool
  shows_fault (faults f) = ltb 0 f.latency_ms || positive f.error_rate
  shows_fault (refused injected_fault) = true
  shows_fault _ = false

  module _ (validate : FeatureType → Value → Option Cell) where
    -- Settings that are in production and have no fault.
    abbrev IsGuarded : Server Value Cell → Type 0
    IsGuarded server =
        is_production server.settings ≡ true
        × server.settings.injected_latency_ms ≡ 0
        × server.settings.injected_error_rate ≡ no_rate

    request_row-err :
        (fs : List Feature) (payload : List (Feature × Value)) (r : Refusal)
        → request_row Value Cell validate fs payload ≡ err r
        → r ≡ invalid_payload
    unfolding request_row
    request_row-err [] payload r h = cc
    request_row-err (f ∷ fs) payload r h = let rest = request_row-err fs payload r in ground arith

    predict_with-no_fault :
        (s : ServingSettings) (m : LoadedModel Value Cell) (payload : List (Feature × Value))
        (chance : Chance)
        → is_production s ≡ true
        → shows_fault
            (answer_predict Value Cell (predict_with Value Cell validate s m payload chance))
          ≡ false
    unfolding predict_with apply_fault_injection
    predict_with-no_fault s m payload chance h =
        elim (Result-cases (request_row Value Cell validate m.features payload)) [
          | inl (row, q) ↦ ground arith
          | inr (r, q) ↦ let same = request_row-err m.features payload r q in ground arith
        ]

    respond-IsGuarded :
        (server : Server Value Cell) (r : Request Value Cell)
        → IsGuarded server
        → IsGuarded (respond Value Cell validate server r).1
          × shows_fault (respond Value Cell validate server r).0 ≡ false
    unfolding respond
    respond-IsGuarded server health h = (h, refl)
    respond-IsGuarded server ready h = ground arith
    respond-IsGuarded server get_fault_injection h = ground arith
    respond-IsGuarded server (put_fault_injection latency rate) h = ground arith
    respond-IsGuarded server (predict payload chance) h = elim (Option-cases server.loaded_model) [
      | inl q ↦ ground arith
      | inr (m, q) ↦
          let quiet = predict_with-no_fault server.settings m payload chance h.0 in ground arith
    ]

    serve-IsGuarded :
        (server : Server Value Cell) (rs : List (Request Value Cell))
        → IsGuarded server
        → All (λ a. shows_fault a ≡ false) (serve Value Cell validate server rs).0
          × IsGuarded (serve Value Cell validate server rs).1
    unfolding serve
    serve-IsGuarded server [] h = (tt, h)
    serve-IsGuarded server (r ∷ rs) h =
        let step = respond-IsGuarded server r h in
        let rest = serve-IsGuarded (respond Value Cell validate server r).1 rs step.0 in
        ((step.1, rest.0), rest.1)

    create_app-IsGuarded :
        (s : ServingSettings) (loaded : Option (LoadedModel Value Cell))
        → is_production s ≡ true
        → IsGuarded (create_app Value Cell s loaded)
    unfolding create_app disable_fault_injection_in_production
    create_app-IsGuarded s loaded h = ground arith

    -- A process that starts in production, whatever faults its environment variables ask for, and
    -- whatever requests it takes, PUTs of faults among them: no answer is an injected fault or
    -- reports a fault that is on, and at the end no fault is set.
    pub production_is_fault_free :
        (s : ServingSettings) (loaded : Option (LoadedModel Value Cell))
        (rs : List (Request Value Cell))
        → is_production s ≡ true
        → let done = serve Value Cell validate (create_app Value Cell s loaded) rs in
          All (λ a. shows_fault a ≡ false) done.0
          × done.1.settings.injected_latency_ms ≡ 0
          × done.1.settings.injected_error_rate ≡ no_rate
    production_is_fault_free s loaded rs h =
        let all =
          serve-IsGuarded (create_app Value Cell s loaded) rs (create_app-IsGuarded s loaded h) in
        (all.0, all.1.1, all.1.2)

    abbrev without_faults : Server Value Cell → Server Value Cell
    without_faults server = record server { settings = with_faults 0 no_rate server.settings }

    respond-without_faults :
        (server : Server Value Cell) (r : Request Value Cell)
        → without_faults (respond Value Cell validate server r).1 ≡ without_faults server
    unfolding respond set_fault_injection
    respond-without_faults server health = refl
    respond-without_faults server ready = ground arith
    respond-without_faults server get_fault_injection = refl
    respond-without_faults server (put_fault_injection latency rate) = ground arith
    respond-without_faults server (predict payload chance) = ground arith

    serve-without_faults :
        (server : Server Value Cell) (rs : List (Request Value Cell))
        → without_faults (serve Value Cell validate server rs).1 ≡ without_faults server
    unfolding serve
    serve-without_faults server [] = refl
    serve-without_faults server (r ∷ rs) =
        serve-without_faults (respond Value Cell validate server r).1 rs
        ∙ respond-without_faults server r

    put_no_fault :
        (server : Server Value Cell)
        → (is_production server.settings ≡ true → IsGuarded server)
        → (respond Value Cell validate server (put_fault_injection 0 no_rate)).1
          ≡ without_faults server
    unfolding respond set_fault_injection
    put_no_fault server guarded = elim (Bool-cases (is_production server.settings)) [
      | inl q ↦ let off = guarded q in ground arith
      | inr q ↦ ground arith
    ]

    create_app-without_faults :
        (s : ServingSettings) (loaded : Option (LoadedModel Value Cell))
        → without_faults (create_app Value Cell s loaded)
          ≡ create_app Value Cell (with_faults 0 no_rate s) loaded
    unfolding create_app disable_fault_injection_in_production
    create_app-without_faults s loaded = ground arith

    -- The environment never changes.
    serve-is_production :
        (s : ServingSettings) (loaded : Option (LoadedModel Value Cell))
        (rs : List (Request Value Cell))
        → is_production (serve Value Cell validate (create_app Value Cell s loaded) rs).1.settings
          ≡ is_production s
    unfolding create_app disable_fault_injection_in_production
    serve-is_production s loaded rs =
        let app = create_app Value Cell s loaded in
        ap (λ (x : Server Value Cell). is_production x.settings) (serve-without_faults app rs)
        ∙ ground arith

    -- A fault ends: after any requests and a PUT of no fault, the process is in the state of one that
    -- was started with no fault configured, in production as elsewhere.
    pub faults_end :
        (s : ServingSettings) (loaded : Option (LoadedModel Value Cell))
        (rs : List (Request Value Cell))
        → let before = (serve Value Cell validate (create_app Value Cell s loaded) rs).1 in
          (respond Value Cell validate before (put_fault_injection 0 no_rate)).1
          ≡ create_app Value Cell (with_faults 0 no_rate s) loaded
    faults_end s loaded rs =
        let app = create_app Value Cell s loaded in
        let done = (serve Value Cell validate app rs).1 in
        let guarded : is_production done.settings ≡ true → IsGuarded done = λ p.
          (serve-IsGuarded app rs
            (create_app-IsGuarded s loaded (sym (serve-is_production s loaded rs) ∙ p))).1 in
        put_no_fault done guarded ∙ serve-without_faults app rs ∙ create_app-without_faults s loaded
