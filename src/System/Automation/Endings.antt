-- ===== src/System/Automation/Endings.antt =====
-- Where a rollout ends whose evaluations all pass (backend/app/worker/decide.py and
-- loop.py, on the actions of backend/app/control_plane/service.py).
use modelops_control_plane.Base.{
  ℕ, zero, suc, ◌+◌, ◌≤◌, ◌≡◌, ◌≢◌, ◌⊎◌, sym, ap, ◌∙◌, subst, inl, inr, true, false, Bool-cases,
  Result-cases, some, arith, ok, is_ok,
}
use modelops_control_plane.Status.{promoted}
use modelops_control_plane.Store.{Deployment, pass, PolicySettings, automatic}
use modelops_control_plane.Router.{RouterSettings}
use modelops_control_plane.Gateway.{Delivery}
use modelops_control_plane.Service.Query.{current_canary_weight}
use modelops_control_plane.Service.Session.{Session, Engine, require_active}
use modelops_control_plane.Service.Actions.{next_stage, advance_session, promote_session}
use modelops_control_plane.Service.Actions.Effects.{
  is_active, is_routing, promote_session-ok, promote_session-accepts, advance_session-ok,
}
use modelops_control_plane.Service.Actions.Ramp.{stages_left, advance_session-ramps}
use modelops_control_plane.Service.Perform.{promote, advance}
use modelops_control_plane.Service.Perform.Outcomes.{session_of}
use modelops_control_plane.Worker.{Line, decide_action, canary_at_full_traffic, process_deployment}
use modelops_control_plane.Api.{action_of}
use modelops_control_plane.System.Automation.{Plant, call_of}
use modelops_control_plane.System.Automation.Progress.{
  steady, turns, row_in, turns-idle, turn-lands,
}

module _ (engine : Engine) (policies : PolicySettings) (settings : RouterSettings)
    (net : ℕ → Delivery) (now default : ℕ) where
  -- Below full traffic there is a further stage.
  advance_session-accepts :
      (clock : ℕ) (s : Session)
      → is_active s.row.status ≡ true
      → canary_at_full_traffic s.row ≡ false
      → is_ok (advance_session clock s) ≡ true
  unfolding advance_session require_active current_canary_weight next_stage
  advance_session-accepts clock s active below = ground arith

  at_full-action :
      (d : Deployment)
      → canary_at_full_traffic d ≡ true
      → promote automatic
        ≡ action_of policies d (call_of (decide_action pass (canary_at_full_traffic d)))
  unfolding decide_action
  at_full-action d h = ground arith

  below_full-action :
      (d : Deployment)
      → canary_at_full_traffic d ≡ false
      → advance ≡ action_of policies d (call_of (decide_action pass (canary_at_full_traffic d)))
  unfolding decide_action
  below_full-action d h = ground arith

  -- A row whose rollout goes on, with fewer stages ahead than a row before it.
  abbrev Climbs : Deployment → Deployment → Type 0
  Climbs d d' =
      (is_active d'.status ≡ true)
      × (d'.stable_version ≢ d'.canary_version)
      × (suc (stages_left (current_canary_weight d')) ≤ stages_left (current_canary_weight d))

  advance-Climbs :
      (clock : ℕ) (start s : Session) (version : ℕ)
      → advance_session clock start ≡ ok s
      → start.row.stable_version ≢ start.row.canary_version
      → Climbs start.row (record s.row { version_id = version })
  unfolding current_canary_weight
  advance-Climbs clock start s version q apart =
      let ramps = advance_session-ramps clock start s q apart in
      let (active, (next, stage, made), deployments, generations) =
        advance_session-ok clock start q in
      (
        ap (λ (x : Deployment). is_active x.status) made ∙ active,
        subst (λ (x : Deployment). x.stable_version ≢ x.canary_version) (sym made) apart,
        ramps.2,
      )

  -- A turn that passes promotes, or moves the canary up.
  pass-turn :
      (id : ℕ) (line : Line Plant) (d : Deployment)
      → row_in engine policies settings net now default id line ≡ some d
      → is_active d.status ≡ true
      → d.stable_version ≢ d.canary_version
      → (d' : Deployment) × (row_in engine policies settings net now default id
            (process_deployment
              (steady engine policies settings net now default pass)
              now
              default
              id
              line).1
          ≡ some d')
        × ((d'.status ≡ promoted) ⊎ Climbs d d')
  pass-turn id line d found active apart =
      let start : Session = record { row = d; db = line.there.world.db } in
      let clock = line.there.clock in
      elim (Bool-cases (canary_at_full_traffic d)) [
        | inl full ↦
            let routing : is_routing d.status ≡ true = ground arith in
            let accepts = promote_session-accepts clock automatic start routing in
            elim (Result-cases (promote_session clock automatic start)) [
              | inr (e, q) ↦ absurd (ground arith)
              | inl (s, q) ↦
                  let accepted =
                    subst (λ a. session_of clock a start ≡ ok s) (at_full-action d full) q in
                  let (d', found', row) =
                    turn-lands engine policies settings net now default pass id line d s found
                      active accepted in
                  let made = promote_session-ok clock automatic start q in
                  (
                    d',
                    found',
                    inl (
                        ap (λ (x : Deployment). x.status) row
                        ∙ ap (λ (x : Deployment). x.status) made.1),
                  )
            ]
        | inr below ↦
            let accepts = advance_session-accepts clock start active below in
            elim (Result-cases (advance_session clock start)) [
              | inr (e, q) ↦ absurd (ground arith)
              | inl (s, q) ↦
                  let accepted =
                    subst (λ a. session_of clock a start ≡ ok s) (below_full-action d below) q in
                  let (d', found', row) =
                    turn-lands engine policies settings net now default pass id line d s found
                      active accepted in
                  (
                    d',
                    found',
                    inr (
                        subst (Climbs d) (sym row)
                          (advance-Climbs clock start s (d.version_id + 1) q apart)),
                  )
            ]
      ]

  passes_climb :
      (n id : ℕ) (line : Line Plant) (d : Deployment)
      → row_in engine policies settings net now default id line ≡ some d
      → is_active d.status ≡ true
      → d.stable_version ≢ d.canary_version
      → suc (stages_left (current_canary_weight d)) ≤ n
      → (d' : Deployment) × (row_in engine policies settings net now default id
            (turns engine policies settings net now default pass n id line)
          ≡ some d')
        × (d'.status ≡ promoted)
  passes_climb zero id line d found active apart enough = absurd (omega (arith, enough))
  passes_climb (suc n) id line d found active apart enough =
      let (d', found', next) = pass-turn id line d found active apart in
      let line' =
        (process_deployment (steady engine policies settings net now default pass) now default id
          line).1 in
      elim next [
        | inl over ↦
            let idle : is_active d'.status ≡ false = ground arith in
            (
              d',
              turns-idle engine policies settings net now default pass n id line' d' found' idle,
              over,
            )
        | inr (active', apart', fewer) ↦
            passes_climb n id line' d' found' active' apart' (omega (arith, fewer, enough))
      ]

  stages_left-bounded : (w : ℕ) → stages_left w ≤ 4
  unfolding stages_left
  stages_left-bounded w = ground arith

  -- A deployment that is in CANARY_RUNNING or EVALUATING, with two different versions, whatever
  -- traffic its canary has and whatever the network does to the pushes: after five turns of the
  -- worker, or more, whose evaluations are due and pass, it is PROMOTED.
  pub passes_promote :
      (n id : ℕ) (line : Line Plant) (d : Deployment)
      → row_in engine policies settings net now default id line ≡ some d
      → is_active d.status ≡ true
      → d.stable_version ≢ d.canary_version
      → 5 ≤ n
      → (d' : Deployment) × (row_in engine policies settings net now default id
            (turns engine policies settings net now default pass n id line)
          ≡ some d')
        × (d'.status ≡ promoted)
  passes_promote n id line d found active apart enough =
      let bound = stages_left-bounded (current_canary_weight d) in
      passes_climb n id line d found active apart (omega (arith, bound, enough))
