-- ===== src/System/Register.antt =====
-- The routing state of a model as a register: what backend/app/control_plane/service.py promises the
-- router of `TrafficAllocation.revision`, and how a change of the tables moves it.
pub mod Refines
use modelops_control_plane.Base.{
  ℕ, suc, ◌<◌, ◌≤◌, ◌≡◌, ◌≢◌, ◌⊎◌, inl, inr, refl, sym, ap, ◌∙◌, subst, Bool, true, false, Option,
  none, some, List, [], ◌∷◌, All, Any, arith, Bool-cases, Option-cases, ◌==◌, Result,
}
use modelops_control_plane.Store.{Db, Deployment, TrafficAllocation, PolicySettings}
use modelops_control_plane.Router.{RouterConfig, RouterSettings}
use modelops_control_plane.Gateway.{Delivery}
use modelops_control_plane.Service.Query.{find_row, get_authoritative_allocation}
use modelops_control_plane.Service.Session.{ServiceError, Engine, generation_of, write_row}
use modelops_control_plane.Service.Reachability.{World, desired_config}
use modelops_control_plane.Service.Create.{CreateRequest}
use modelops_control_plane.Service.Create.Started.{
  Creation, unchanged, started, create_deployment-Creation,
}
use modelops_control_plane.Service.Perform.{Action, perform}
use modelops_control_plane.Service.Perform.Outcomes.{
  SameRows, Outcome, refused, nothing_to_do, wrote, perform-Outcome,
}
use modelops_control_plane.Service.Order.{revision_of, newest_of, is_allocated, RowOk, IsConsistent}
use modelops_control_plane.Service.Order.Authoritative.{
  authoritative-newest_of, authoritative-model_name,
}
use modelops_control_plane.Service.Order.Writes.{Replaces, newest_of-write_row}
use modelops_control_plane.Service.Order.Consistency.{Inserts}
use modelops_control_plane.Service.History.{empty_db}
use modelops_control_plane.Service.History.Copies.{IsCopy, Any-All}
use modelops_control_plane.Service.History.Invariant.{History-Holds}
use modelops_control_plane.Service.History.Steps.{Holds, run_session-IsWrite, started-Inserts}
use modelops_control_plane.Reconcile.{reconcile_router_state}
use modelops_control_plane.Reconcile.Corrects.{reconcile-SameRows}
use modelops_control_plane.System.{
  Run, start, load, request, create, other_writer, send, arrive, tick, restart,
}
use modelops_control_plane.System.Messages.{Advances, SameRows-Advances}
use modelops_control_plane.System.Runs.{Run-History, Outcome-Step, Creation-Step}

-- A counter, and what was published at its current value.
pub record Register : Type 0 where
  pub generation : ℕ
  pub config : Option RouterConfig

-- A register stands still, or a config of its model is published under a higher generation, which is
-- the config's revision.
pub data RegisterStep (model : ℕ) : Register → Register → Type 0 where
  stays : {r : Register} → RegisterStep model r r
  publishes :
      {r : Register} (c : RouterConfig)
      → r.generation < c.revision
      → c.model_name ≡ model
      → RegisterStep model r (record { generation = c.revision; config = some c })

abbrev pub desired_of : Option Deployment → Option RouterConfig
desired_of none = none
desired_of (some d) = elim d.traffic_allocation [ none ↦ none | some a ↦ some (desired_config d a) ]

-- The register that the tables hold for a model.
abbrev pub register_of : Db → (model : ℕ) → Register
register_of db model = record {
  generation = generation_of model db.generations;
  config = desired_of (get_authoritative_allocation db model);
}

-- Where a model has no row afterwards, it had none before, and its counter stands.
abbrev pub KeepsRows : Db → Db → (model : ℕ) → Type 0
KeepsRows db db' model =
    newest_of model db'.deployments ≡ none
    → (newest_of model db.deployments ≡ none)
      × (generation_of model db'.generations ≡ generation_of model db.generations)

newest_of-All :
    (P : Deployment → Type 0) (model : ℕ) (rows : List Deployment) {d : Deployment}
    → All P rows
    → newest_of model rows ≡ some d
    → P d
newest_of-All P model [] h e = cc
newest_of-All P model (x ∷ xs) {d} h e = elim (Bool-cases (x.model_name == model)) [
  | inl here ↦ let same : x ≡ d = ground arith in subst P same h.0
  | inr later ↦ newest_of-All P model xs h.1 (ground arith)
]

pub Advances-RegisterStep :
    (db db' : Db) (clock clock' model : ℕ)
    → IsConsistent db clock
    → IsConsistent db' clock'
    → Advances db db'
    → KeepsRows db db' model
    → RegisterStep model (register_of db model) (register_of db' model)
Advances-RegisterStep db db' clock clock' model c c' advances keeps =
    let before = authoritative-newest_of db clock model c in
    let after = authoritative-newest_of db' clock' model c' in
    elim (Option-cases (newest_of model db'.deployments)) [
      | inl gone ↦
          let was = keeps gone in
          let same : register_of db model ≡ register_of db' model = ground arith in
          subst (RegisterStep model (register_of db model)) same stays
      | inr (d, q) ↦
          let ok = newest_of-All (RowOk db'.generations clock') model db'.deployments c'.rows q in
          elim (Option-cases d.traffic_allocation) [
            | inl empty ↦ absurd (ground (arith, ok.allocated))
            | inr (a, f) ↦
                let stamped = c'.top model d q in
                let named = authoritative-model_name db' model (after ∙ q) in
                elim (advances model) [
                  | inl grew ↦
                      let same : record {
                        generation = a.revision;
                        config = some (desired_config d a);
                      }
                          ≡ register_of db' model =
                        ground arith in
                      subst (RegisterStep model (register_of db model)) same
                        (publishes (desired_config d a) (ground arith) named)
                  | inr (stands, desired) ↦
                      let old = desired d a q f in
                      let was = old.was_newest in
                      let had = old.was_allocated in
                      let is = old.same in
                      let same : register_of db model ≡ register_of db' model = ground arith in
                      subst (RegisterStep model (register_of db model)) same stays
                ]
          ]
    ]
