-- ===== src/Worker/Preserved.antt =====
-- A property of the control plane that each call of the worker's client preserves holds after a sweep
-- and after any number of them.
use modelops_control_plane.Base.{
  ℕ, Bool, true, All, ◌≡◌, subst, inl, inr, Bool-cases, List, [], ◌∷◌, arith,
}
use modelops_control_plane.Store.{Deployment}
use modelops_control_plane.Status.{status_in}
use modelops_control_plane.Worker.{
  active_statuses, WorkerAction, decide_action, canary_at_full_traffic, is_due, Reply-cases, reply,
  get_deployment, get_policy_evaluations, list_deployments, reconcile, WorkerClient, Line,
  evaluate_and_act, process_deployment, process_all, active_ids, run_once, run_forever,
}

module _ {S : Type 0} (client : WorkerClient S) (P : S → Type 0) (allows : ℕ → Bool) where
  -- `P` holds after each call, of the calls for one deployment after those that are allowed, and lists
  -- only deployments that are.
  pub record IsPreserved : Type 0 where
    pub by_reconcile : (s : S) → P s → P (client.on_reconcile s).1
    pub by_list : (s : S) → P s → P (client.on_list_deployments s).1
    pub listed :
        (s : S) (ds : List Deployment)
        → P s
        → (client.on_list_deployments s).0 ≡ reply ds
        → All (λ id. allows id ≡ true) (active_ids ds)
    pub by_get : (id : ℕ) (s : S) → P s → P (client.on_get_deployment id s).1
    pub by_history : (id : ℕ) (s : S) → P s → P (client.on_get_policy_evaluations id s).1
    pub by_evaluate : (id : ℕ) (s : S) → allows id ≡ true → P s → P (client.on_evaluate id s).1
    pub by_action :
        (a : WorkerAction) (id : ℕ) (s : S) → allows id ≡ true → P s → P (client.on_action a id s).1

  module _ (kept : IsPreserved) where
    evaluate_and_act-preserves :
        (d : Deployment) (id : ℕ) (line : Line S)
        → allows id ≡ true
        → P line.there
        → P (evaluate_and_act client d id line).1.there
    unfolding evaluate_and_act
    evaluate_and_act-preserves d id line allowed h =
        let s = (client.on_evaluate id line.there).1 in
        let asked = kept.by_evaluate id line.there allowed h in
        elim (Reply-cases (client.on_evaluate id line.there).0) [
          | inr other ↦
              let e : s ≡ (evaluate_and_act client d id line).1.there = ground arith in
              subst P e asked
          | inl (verdict, q) ↦
              let action = decide_action verdict (canary_at_full_traffic d) in
              let e : (client.on_action action id s).1
                  ≡ (evaluate_and_act client d id line).1.there =
                ground arith in
              subst P e (kept.by_action action id s allowed asked)
        ]

    process_deployment-preserves :
        (now default id : ℕ) (line : Line S)
        → allows id ≡ true
        → P line.there
        → P (process_deployment client now default id line).1.there
    unfolding process_deployment
    process_deployment-preserves now default id line allowed h =
        let s = (client.on_get_deployment id line.there).1 in
        let got = kept.by_get id line.there h in
        let t = (client.on_get_policy_evaluations id s).1 in
        let past = kept.by_history id s got in
        let final = (process_deployment client now default id line).1.there in
        elim (Reply-cases (client.on_get_deployment id line.there).0) [
          | inr other ↦ let e : s ≡ final = ground arith in subst P e got
          | inl (d, q) ↦ elim (Bool-cases (status_in d.status active_statuses)) [
            | inr idle ↦ let e : s ≡ final = ground arith in subst P e got
            | inl active ↦ elim (Reply-cases (client.on_get_policy_evaluations id s).0) [
              | inr other ↦ let e : t ≡ final = ground arith in subst P e past
              | inl (es, q') ↦ elim (Bool-cases (is_due now d default es)) [
                | inr soon ↦ let e : t ≡ final = ground arith in subst P e past
                | inl due ↦
                    let after : Line S = record {
                      there = t;
                      requests = get_policy_evaluations id ∷ get_deployment id ∷ line.requests;
                    } in
                    let e : (evaluate_and_act client d id after).1.there ≡ final = ground arith in
                    subst P e (evaluate_and_act-preserves d id after allowed past)
              ]
            ]
          ]
        ]

    process_all-preserves :
        (now default : ℕ) (ids : List ℕ) (line : Line S)
        → All (λ id. allows id ≡ true) ids
        → P line.there
        → P (process_all client now default ids line).there
    unfolding process_all
    process_all-preserves now default [] line all h = h
    process_all-preserves now default (id ∷ ids) line all h =
        process_all-preserves now default ids (process_deployment client now default id line).1
          all.1 (process_deployment-preserves now default id line all.0 h)

    pub run_once-preserves :
        (now default : ℕ) (line : Line S)
        → P line.there
        → P (run_once client now default line).1.there
    unfolding run_once
    run_once-preserves now default line h =
        let s = (client.on_reconcile line.there).1 in
        let ticked = kept.by_reconcile line.there h in
        let t = (client.on_list_deployments s).1 in
        let after_list = kept.by_list s ticked in
        let final = (run_once client now default line).1.there in
        elim (Reply-cases (client.on_list_deployments s).0) [
          | inr other ↦ let e : t ≡ final = ground arith in subst P e after_list
          | inl (ds, q) ↦
              let after : Line S = record {
                there = t;
                requests = list_deployments ∷ reconcile ∷ line.requests;
              } in
              let e : (process_all client now default (active_ids ds) after).there ≡ final =
                ground arith in
              subst P e (
                process_all-preserves now default (active_ids ds) after (kept.listed s ds ticked q)
                  after_list)
        ]

    pub run_forever-preserves :
        (default : ℕ) (times : List ℕ) (line : Line S)
        → P line.there
        → P (run_forever client default times line).there
    unfolding run_forever
    run_forever-preserves default [] line h = h
    run_forever-preserves default (now ∷ times) line h =
        run_forever-preserves default times (run_once client now default line).1
          (run_once-preserves now default line h)
