-- ===== src/Scenario/Faults.antt =====
-- What a scenario leaves on the serving process that its fault was put on.
use modelops_control_plane.Base.{
  ℕ, ◌≡◌, ◌≢◌, ◌↔◌, refl, sym, ap, ◌∙◌, true, false, Option, none, List, [], ◌∷◌, ◌++◌, arith, ◌||◌,
}
use modelops_control_plane.Number.{Number, of_count, less}
use modelops_control_plane.Gateway.{Delivery, lost, reply_lost, delivered}
use modelops_control_plane.Serving.{
  Server, Request, put_fault_injection, FeatureType, respond, serve, no_rate, create_app,
  with_faults, disable_fault_injection_in_production, ServingSettings, LoadedModel, is_production,
}
use modelops_control_plane.Serving
use modelops_control_plane.Serving.Faults.{faults_end}
use modelops_control_plane.Scenario.{
  set_fault_injection_at, reset_fault_injection, ScenarioRun, run_scenario,
}

module _ {Value Cell : Type 0} (validate : FeatureType → Value → Option Cell) where
  serve-append :
      (server : Server Value Cell) (rs rs' : List (Request Value Cell))
      → (serve Value Cell validate (serve Value Cell validate server rs).1 rs').1
        ≡ (serve Value Cell validate server (rs ++ rs')).1
  unfolding serve
  serve-append server [] rs' = refl
  serve-append server (r ∷ rs) rs' = serve-append (respond Value Cell validate server r).1 rs rs'

  -- A PUT that returns has arrived.
  returned-respond :
      (put : Delivery) (latency : ℕ) (rate : Number) (server : Server Value Cell)
      → (set_fault_injection_at Value Cell validate put latency rate server).0 ≡ true
      → (set_fault_injection_at Value Cell validate put latency rate server).1
        ≡ (respond Value Cell validate server (put_fault_injection latency rate)).1
  unfolding set_fault_injection_at
  returned-respond lost latency rate server h = absurd (ground arith)
  returned-respond reply_lost latency rate server h = refl
  returned-respond delivered latency rate server h = refl

  reset-respond :
      (reset : Delivery) (server : Server Value Cell)
      → reset ≢ lost
      → reset_fault_injection Value Cell validate reset server
        ≡ (respond Value Cell validate server (put_fault_injection 0 no_rate)).1
  unfolding set_fault_injection_at
  reset-respond lost server h = absurd (h refl)
  reset-respond reply_lost server h = refl
  reset-respond delivered server h = refl

  returned_scenario :
      {Report : Type 0} (put reset : Delivery) (latency : ℕ) (rate : Number)
      (body : ScenarioRun Value Cell validate Report) (server : Server Value Cell)
      → (set_fault_injection_at Value Cell validate put latency rate server).0 ≡ true
      → let faulty = (set_fault_injection_at Value Cell validate put latency rate server).1 in
        run_scenario Value Cell validate put reset latency rate body server ≡ (
          body.ends,
          reset_fault_injection Value Cell validate reset
              (serve Value Cell validate faulty body.requests).1,
        )
  unfolding run_scenario
  returned_scenario put reset latency rate body server returns = rw returns refl

  -- A scenario on a serving process that has taken any requests, whose first PUT returns: however its
  -- body ends, with a report or an exception, and whatever the process takes in it, the process is
  -- afterwards as if it had been started with no fault, where the reset arrives.
  pub scenario_resets :
      {Report : Type 0} (s : ServingSettings) (loaded : Option (LoadedModel Value Cell))
      (rs : List (Request Value Cell)) (put reset : Delivery) (latency : ℕ) (rate : Number)
      (body : ScenarioRun Value Cell validate Report)
      → let before = (serve Value Cell validate (create_app Value Cell s loaded) rs).1 in
        (set_fault_injection_at Value Cell validate put latency rate before).0 ≡ true
        → reset ≢ lost
        → run_scenario Value Cell validate put reset latency rate body before
          ≡ (body.ends, create_app Value Cell (with_faults 0 no_rate s) loaded)
  unfolding serve
  scenario_resets s loaded rs put reset latency rate body returns arrives =
      let app = create_app Value Cell s loaded in
      let before = (serve Value Cell validate app rs).1 in
      let faulty = (set_fault_injection_at Value Cell validate put latency rate before).1 in
      let fault = put_fault_injection latency rate in
      let joined = serve-append app rs (fault ∷ body.requests) in
      let clean = faults_end validate s loaded (rs ++ (fault ∷ body.requests)) in
      let arrived = returned-respond put latency rate before returns in
      let taken =
        ap (λ server. (serve Value Cell validate server body.requests).1) arrived ∙ joined in
      let reset_to =
        reset-respond reset (serve Value Cell validate faulty body.requests).1 arrives
        ∙ ap (λ server. (respond Value Cell validate server (put_fault_injection 0 no_rate)).1)
            taken
        ∙ clean in
      returned_scenario put reset latency rate body before returns
      ∙ ap (λ server. (body.ends, server)) reset_to

  -- Where the first PUT arrives and its reply is lost, nothing resets the fault.
  unanswered_put_leaves_fault :
      {Report : Type 0} (reset : Delivery) (latency : ℕ) (rate : Number)
      (body : ScenarioRun Value Cell validate Report) (server : Server Value Cell)
      → is_production server.settings ≡ false
      → (less (of_count 1) rate || less rate (of_count 0)) ≡ false
      → run_scenario Value Cell validate reply_lost reset latency rate body server
        ≡ (none, record server { settings = with_faults latency rate server.settings })
  unfolding run_scenario set_fault_injection_at respond Serving.set_fault_injection
  unanswered_put_leaves_fault reset latency rate body server stage in_range = ground arith

  returned_at_delivery :
      (latency : ℕ) (rate : Number) (server : Server Value Cell)
      → is_production server.settings ≡ false
      → (less (of_count 1) rate || less rate (of_count 0)) ≡ false
      → (set_fault_injection_at Value Cell validate delivered latency rate server).0 ≡ true
  unfolding set_fault_injection_at respond
  returned_at_delivery latency rate server stage in_range = ground arith

  started_clean :
      (s : ServingSettings) (loaded : Option (LoadedModel Value Cell))
      → is_production s ≡ false
      → let clean = create_app Value Cell (with_faults 0 no_rate s) loaded in
        (is_production clean.settings ≡ false) × (clean.settings.injected_latency_ms ≡ 0)
  unfolding create_app disable_fault_injection_in_production
  started_clean s loaded stage = (ground arith, ground arith)

  -- A process outside production that was started with no fault: a scenario with a latency above 0 and
  -- a rate from 0 to 1, however its body ends and whatever the process takes in it, leaves the process
  -- without a fault exactly where its first PUT does not arrive with its reply lost, if the reset
  -- arrives. Where that reply is lost, the scenario raises, and the fault stays.
  pub ends_clean_iff :
      {Report : Type 0} (s : ServingSettings) (loaded : Option (LoadedModel Value Cell))
      (put reset : Delivery) (latency : ℕ) (rate : Number)
      (body : ScenarioRun Value Cell validate Report)
      → is_production s ≡ false
      → (less (of_count 1) rate || less rate (of_count 0)) ≡ false
      → latency ≢ 0
      → reset ≢ lost
      → let clean = create_app Value Cell (with_faults 0 no_rate s) loaded in
        ((run_scenario Value Cell validate put reset latency rate body clean).1 ≡ clean)
        ↔ (put ≢ reply_lost)
  unfolding run_scenario set_fault_injection_at serve
  ends_clean_iff s loaded lost reset latency rate body stage in_range on arrives =
      (λ h e. cc, λ apart. refl)
  ends_clean_iff {Report = Report} s loaded reply_lost reset latency rate body stage in_range on
        arrives =
      let clean = create_app Value Cell (with_faults 0 no_rate s) loaded in
      let at_start = started_clean s loaded stage in
      let left = unanswered_put_leaves_fault reset latency rate body clean at_start.0 in_range in
      (
        λ h e. on (
            ap (λ (x : Option Report × Server Value Cell). x.1.settings.injected_latency_ms)
              (sym left)
            ∙ ap (λ (x : Server Value Cell). x.settings.injected_latency_ms) h
            ∙ at_start.1),
        λ apart. absurd (apart refl),
      )
  ends_clean_iff {Report = Report} s loaded delivered reset latency rate body stage in_range on
        arrives =
      let clean = create_app Value Cell (with_faults 0 no_rate s) loaded in
      let at_start = started_clean s loaded stage in
      let returns = returned_at_delivery latency rate clean at_start.0 in_range in
      (
        λ h e. cc,
        λ apart.
            ap (λ (x : Option Report × Server Value Cell). x.1)
              (scenario_resets (with_faults 0 no_rate s) loaded [] delivered reset latency rate body
                returns arrives),
      )
