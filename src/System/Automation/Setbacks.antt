-- ===== src/System/Automation/Setbacks.antt =====
-- Where a rollout ends whose evaluations all fail, or are all inconclusive
-- (backend/app/worker/decide.py and loop.py, on the actions of backend/app/control_plane/service.py).
use modelops_control_plane.Base.{
  ℕ, zero, suc, ◌+◌, ◌≤◌, ◌<◌, ◌≡◌, ◌⊎◌, sym, ap, ◌∙◌, subst, inl, inr, true, false, Bool-cases,
  Result-cases, some, arith, ok, is_ok, ltb,
}
use modelops_control_plane.Status.{rolled_back, inconclusive, validate_transition}
use modelops_control_plane.Store.{
  Deployment, PolicyEvaluationResult, fail, PolicySettings, automatic,
}
use modelops_control_plane.Router.{RouterSettings}
use modelops_control_plane.Gateway.{Delivery}
use modelops_control_plane.Service.Query.{get_policy_config}
use modelops_control_plane.Service.Session.{Session, Engine, require_active, transition}
use modelops_control_plane.Service.Actions.{
  inconclusive_session, leave_canary_running, rollback_session,
}
use modelops_control_plane.Service.Actions.Effects.{
  is_active, is_routing, rollback_session-ok, rollback_session-accepts, inconclusive_session-ok,
}
use modelops_control_plane.Service.Perform.{rollback, inconclusive_cycle}
use modelops_control_plane.Service.Perform.Outcomes.{session_of}
use modelops_control_plane.Worker.{Line, decide_action, canary_at_full_traffic}
use modelops_control_plane.Api.{action_of}
use modelops_control_plane.System.Automation.{Plant, call_of}
use modelops_control_plane.System.Automation.Progress.{turns, row_in, turns-idle, turn-lands}

module _ (engine : Engine) (policies : PolicySettings) (settings : RouterSettings)
    (net : ℕ → Delivery) (now default : ℕ) where
  fail-action :
      (d : Deployment)
      → rollback automatic
        ≡ action_of policies d (call_of (decide_action fail (canary_at_full_traffic d)))
  unfolding decide_action
  fail-action d = ground arith

  -- A deployment in CANARY_RUNNING or EVALUATING: after one turn of the worker, or more, whose
  -- evaluations are due and fail, it is ROLLED_BACK.
  pub fails_roll_back :
      (n id : ℕ) (line : Line Plant) (d : Deployment)
      → row_in engine policies settings net now default id line ≡ some d
      → is_active d.status ≡ true
      → 1 ≤ n
      → (d' : Deployment) × (row_in engine policies settings net now default id
            (turns engine policies settings net now default fail n id line)
          ≡ some d')
        × (d'.status ≡ rolled_back)
  fails_roll_back zero id line d found active enough = absurd (omega (arith, enough))
  fails_roll_back (suc n) id line d found active enough =
      let start : Session = record { row = d; db = line.there.world.db } in
      let clock = line.there.clock in
      let routing : is_routing d.status ≡ true = ground arith in
      let accepts = rollback_session-accepts clock automatic start routing in
      elim (Result-cases (rollback_session clock automatic start)) [
        | inr (e, q) ↦ absurd (ground arith)
        | inl (s, q) ↦
            let accepted = subst (λ a. session_of clock a start ≡ ok s) (fail-action d) q in
            let (d', found', row) =
              turn-lands engine policies settings net now default fail id line d s found active
                accepted in
            let made = rollback_session-ok clock automatic start q in
            let over : d'.status ≡ rolled_back =
              ap (λ (x : Deployment). x.status) row ∙ ap (λ (x : Deployment). x.status) made.1 in
            let idle : is_active d'.status ≡ false = ground arith in
            (
              d',
              turns-idle engine policies settings net now default fail n id _ d' found' idle,
              over,
            )
      ]

  abbrev limit_of : Deployment → ℕ
  limit_of d = let config = get_policy_config policies d in config.max_inconclusive_retries

  inconclusive-action :
      (d : Deployment)
      → inconclusive_cycle (limit_of d)
        ≡ action_of policies d
            (call_of (decide_action PolicyEvaluationResult.inconclusive (canary_at_full_traffic d)))
  unfolding decide_action
  inconclusive-action d = ground arith

  inconclusive_session-accepts :
      (clock limit : ℕ) (s : Session)
      → is_active s.row.status ≡ true
      → is_ok (inconclusive_session clock limit s) ≡ true
  unfolding inconclusive_session require_active leave_canary_running transition validate_transition
  inconclusive_session-accepts clock limit s active = ground arith

  -- A row whose rollout goes on with the same limit and one more retry.
  abbrev Waits : Deployment → Deployment → Type 0
  Waits d d' =
      (is_active d'.status ≡ true)
      × (limit_of d' ≡ limit_of d)
      × (d'.inconclusive_retry_count ≡ suc d.inconclusive_retry_count)
      × (suc d.inconclusive_retry_count ≤ limit_of d)

  counted-Waits :
      (clock : ℕ) (start s : Session) (version : ℕ)
      → inconclusive_session clock (limit_of start.row) start ≡ ok s
      → ((record s.row { version_id = version }).status ≡ inconclusive)
        ⊎ Waits start.row (record s.row { version_id = version })
  unfolding get_policy_config
  counted-Waits clock start s version q =
      let made = inconclusive_session-ok clock (limit_of start.row) start q in
      elim (Bool-cases (ltb (limit_of start.row) (start.row.inconclusive_retry_count + 1))) [
        | inl past ↦ inl (ground (arith, made))
        | inr within ↦
            let row : s.row ≡ record start.row {
              inconclusive_retry_count = start.row.inconclusive_retry_count + 1;
            } =
              ground (arith, made) in
            inr (
              ap (λ (x : Deployment). is_active x.status) row ∙ made.0,
              ap limit_of row,
              ap (λ (x : Deployment). x.inconclusive_retry_count) row ∙ omega arith,
              ground arith,
            )
      ]

  -- An active deployment whose evaluations are all due and inconclusive: once the turns bring the
  -- count of retries past the deployment's limit, it is frozen in INCONCLUSIVE, and later turns
  -- leave it there.
  pub inconclusives_freeze :
      (n id : ℕ) (line : Line Plant) (d : Deployment)
      → row_in engine policies settings net now default id line ≡ some d
      → is_active d.status ≡ true
      → d.inconclusive_retry_count ≤ limit_of d
      → limit_of d < d.inconclusive_retry_count + n
      → (d' : Deployment) × (row_in engine policies settings net now default id (
            turns engine policies settings net now default PolicyEvaluationResult.inconclusive n id
              line)
          ≡ some d')
        × (d'.status ≡ inconclusive)
  inconclusives_freeze zero id line d found active within enough =
      absurd (omega (arith, within, enough))
  inconclusives_freeze (suc n) id line d found active within enough =
      let start : Session = record { row = d; db = line.there.world.db } in
      let clock = line.there.clock in
      let verdict = PolicyEvaluationResult.inconclusive in
      let accepts = inconclusive_session-accepts clock (limit_of d) start active in
      elim (Result-cases (inconclusive_session clock (limit_of d) start)) [
        | inr (e, q) ↦ absurd (ground arith)
        | inl (s, q) ↦
            let accepted = subst (λ a. session_of clock a start ≡ ok s) (inconclusive-action d) q in
            let (d', found', row) =
              turn-lands engine policies settings net now default verdict id line d s found active
                accepted in
            let next : (d'.status ≡ inconclusive) ⊎ Waits d d' =
              subst (λ x. (x.status ≡ inconclusive) ⊎ Waits d x) (sym row)
                (counted-Waits clock start s (d.version_id + 1) q) in
            elim next [
              | inl over ↦
                  let idle : is_active d'.status ≡ false = ground arith in
                  (
                    d',
                    turns-idle engine policies settings net now default verdict n id _ d' found'
                        idle,
                    over,
                  )
              | inr (active', same_limit, one_more, left) ↦
                  inconclusives_freeze n id _ d' found' active'
                    (omega (arith, same_limit, one_more, left))
                    (omega (arith, same_limit, one_more, enough))
            ]
      ]
