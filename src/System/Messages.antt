-- ===== src/System/Messages.antt =====
-- What holds of a config that the control plane has sent, as the tables move on.
use modelops_control_plane.Base.{
  ℕ, ◌≤◌, ◌<◌, ◌≡◌, ◌⊎◌, inl, inr, refl, sym, ap, ◌∙◌, subst, some, ◌∷◌, arith, ◌==◌, ltb,
  Bool-cases, if◌then◌else◌,
}
use modelops_control_plane.Store.{Db, Deployment, TrafficAllocation}
use modelops_control_plane.Router.{RouterConfig}
use modelops_control_plane.Service.Query.{find_row}
use modelops_control_plane.Service.Session.{generation_of, write_row}
use modelops_control_plane.Service.Reachability.{desired_config}
use modelops_control_plane.Service.Perform.Outcomes.{SameRows}
use modelops_control_plane.Service.Order.{revision_of, newest_of, Ordered}
use modelops_control_plane.Service.Order.Writes.{Replaces, newest_of-write_row}
use modelops_control_plane.Service.Order.Consistency.{Inserts}
use modelops_control_plane.Service.History.Changes.{newest_of-live}

-- It is not ahead of its model's generation, and at that generation it is what the newest row of the
-- model asks for.
pub record IsPast (db : Db) (c : RouterConfig) : Type 0 where
  pub behind : c.revision ≤ generation_of c.model_name db.generations
  pub latest :
      c.revision ≡ generation_of c.model_name db.generations
      → (d : Deployment) (a : TrafficAllocation) → newest_of c.model_name db.deployments ≡ some d
      → d.traffic_allocation ≡ some a
      → c ≡ desired_config d a

-- The newest row of a model asks in `db'` for what one asked for in `db`.
pub record SameDesired (db db' : Db) (model : ℕ) (d : Deployment) (a : TrafficAllocation)
    : Type 0 where
  pub old : Deployment
  pub was_newest : newest_of model db.deployments ≡ some old
  pub was_allocated : old.traffic_allocation ≡ some a
  pub same : desired_config d a ≡ desired_config old a

-- For each model the counter has grown, or it stands and the desired state is the same.
abbrev pub Advances : Db → Db → Type 0
Advances db db' =
    (model : ℕ)
    → (generation_of model db.generations < generation_of model db'.generations)
      ⊎ ((generation_of model db'.generations ≡ generation_of model db.generations)
          × ((d : Deployment) (a : TrafficAllocation)
              → newest_of model db'.deployments ≡ some d
              → d.traffic_allocation ≡ some a
              → SameDesired db db' model d a))

pub IsPast-Advances :
    (db db' : Db) (c : RouterConfig) → Advances db db' → IsPast db c → IsPast db' c
IsPast-Advances db db' c step p = elim (step c.model_name) [
  | inl grew ↦ record {
    behind = omega (arith, p.behind, grew);
    latest = λ at d a e f. let le = p.behind in absurd (omega (arith, le, at, grew));
  }
  | inr (stands, desired) ↦ record {
    behind = let le = p.behind in omega (arith, le, stands);
    latest = λ at d a e f.
        let s = desired d a e f in
        p.latest (at ∙ stands) s.old a s.was_newest s.was_allocated ∙ sym s.same;
  }
]

pub SameRows-Advances : (db db' : Db) → SameRows db db' → Advances db db'
SameRows-Advances db db' same model = inr (
  ap (generation_of model) same.generations,
  λ d a e f. record {
    old = d;
    was_newest = subst (λ l. newest_of model l ≡ some d) same.deployments e;
    was_allocated = f;
    same = refl;
  },
)

pub Replaces-Advances :
    {now : ℕ} {d r : Deployment} (db db' : Db)
    → Replaces now db.generations db'.generations d r
    → find_row d.id db.deployments ≡ some d
    → Ordered db.deployments
    → db'.deployments ≡ write_row r db.deployments
    → Advances db db'
Replaces-Advances {now} {d} {r} db db' step found order written model =
    let this_now : now ≤ now = omega arith in
    let shape = newest_of-write_row step this_now model db.deployments order found in
    let newest : newest_of model db'.deployments
        ≡ (if d.model_name == model then some r else newest_of model db.deployments) =
      ap (newest_of model) written ∙ shape in
    elim (Bool-cases (d.model_name == model)) [
      | inr other ↦ inr (
        step.others model (ground arith),
        λ x a e f. record { old = x; was_newest = ground arith; was_allocated = f; same = refl },
      )
      | inl same ↦
          let names : d.model_name ≡ model = ground arith in
          let was : newest_of model db.deployments ≡ some d =
            subst (λ m. newest_of m db.deployments ≡ some d) names
              (newest_of-live d.id db.deployments d order found step.live) in
          let grows : generation_of model db.generations ≤ generation_of model db'.generations =
            subst (λ m. generation_of m db.generations ≤ generation_of m db'.generations) names
              step.counter_grows in
          elim (Bool-cases
            (ltb (generation_of model db.generations) (generation_of model db'.generations))) [
              | inl grew ↦ inl (ground arith)
              | inr stood ↦
                  let stands : generation_of model db'.generations
                      ≡ generation_of model db.generations =
                    ground arith in
                  inr (
                    stands,
                    λ x a e f.
                        let is_r : r ≡ x = ground arith in
                        let kept : r.traffic_allocation ≡ d.traffic_allocation = step.kept (
                          subst
                            (λ m. generation_of m db'.generations ≡ generation_of m db.generations)
                            (sym names) stands) in
                        record {
                          old = d;
                          was_newest = was;
                          was_allocated = ground arith;
                          same = ground (arith, step.same_model, step.same_id);
                        },
                  )
            ]
    ]

pub Inserts-Advances :
    {r : Deployment} (db db' : Db)
    → Inserts db.generations db'.generations db.deployments r
    → db'.deployments ≡ r ∷ db.deployments
    → Advances db db'
Inserts-Advances {r} db db' step written model = elim (Bool-cases (r.model_name == model)) [
  | inl same ↦
      let names : r.model_name ≡ model = ground arith in
      inl (
        subst (λ m. generation_of m db.generations < generation_of m db'.generations) names
          step.counter_grows)
  | inr other ↦ inr (
    step.others model (ground arith),
    λ d a e f. record { old = d; was_newest = ground arith; was_allocated = f; same = refl },
  )
]

-- What the newest row of a model asks for, stamped with the model's generation, may be sent.
pub desired_config-IsPast :
    (db : Db) (d : Deployment) (a : TrafficAllocation)
    → newest_of d.model_name db.deployments ≡ some d
    → d.traffic_allocation ≡ some a
    → revision_of d ≡ generation_of d.model_name db.generations
    → IsPast db (desired_config d a)
desired_config-IsPast db d a newest allocated stamped = record {
  behind = ground arith;
  latest = λ at x b e f.
      let same_row : d ≡ x = ground arith in
      let same_allocation : a ≡ b = ground arith in ground arith;
}
