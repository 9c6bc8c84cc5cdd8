-- ===== src/Service/Order/Authoritative.antt =====
-- The authoritative allocation is that of the model's newest row.
use modelops_control_plane.Base.{
  ℕ, ◌≡◌, refl, Bool, true, Option, none, some, List, [], ◌∷◌, All, subst, where_, first_by, arith,
  ◌==◌, inl, inr, Bool-cases, Option-cases,
}
use modelops_control_plane.Status.{is_terminal, status_in}
use modelops_control_plane.Store.{Db, Deployment}
use modelops_control_plane.Service.Query.{
  routing_statuses, authoritative_terminal_statuses, by_created, by_completed, of_model,
  get_authoritative_allocation,
}
use modelops_control_plane.Service.Order.{
  IsBefore, newest_of, settled_statuses, Older, Ordered, RowOk, IsConsistent,
}

abbrev routing : ℕ → Deployment → Bool
routing model = of_model model routing_statuses

abbrev finished : ℕ → Deployment → Bool
finished model = of_model model authoritative_terminal_statuses

-- Behind the newest row of a model no row of it routes.
where-routing-Older :
    (d : Deployment) (ds : List Deployment)
    → All (Older d) ds
    → where_ (routing d.model_name) ds ≡ []
where-routing-Older d [] h = refl
where-routing-Older d (e ∷ es) h = ground (arith, where-routing-Older d es h.1)

-- An element that the order picks has what all have.
first_by-All {ℓ} :
    {A : Type ℓ} (P : A → Type 0) (le : A → A → Bool) (xs : List A) {x : A}
    → All P xs
    → first_by le xs ≡ some x
    → P x
first_by-All P le [] h e = cc
first_by-All P le (y ∷ ys) {x} h e = elim (Option-cases (first_by le ys)) [
  | inl empty ↦ let same : y ≡ x = ground arith in subst P same h.0
  | inr (z, q) ↦ elim (Bool-cases (le y z)) [
    | inl first ↦ let same : y ≡ x = ground arith in subst P same h.0
    | inr later ↦ let same : z ≡ x = ground arith in subst P same (first_by-All P le ys h.1 q)
  ]
]

-- A row that is over comes first of the finished rows of its model, where all others are older.
where-finished-Older :
    (d : Deployment) (ds : List Deployment)
    → is_terminal d.status ≡ true
    → All (Older d) ds
    → All (λ e. by_completed d e ≡ true) (where_ (finished d.model_name) ds)
where-finished-Older d [] over h = tt
where-finished-Older d (e ∷ es) over h = elim (Bool-cases (finished d.model_name e)) [
  | inl kept ↦
      let before : IsBefore d e = h.0 (ground arith) in
      rw kept
        (let earlier = before.earlier over in ground arith, where-finished-Older d es over h.1)
  | inr dropped ↦ rw dropped (where-finished-Older d es over h.1)
]

first-finished :
    (d : Deployment) (ds : List Deployment)
    → finished d.model_name d ≡ true
    → All (Older d) ds
    → first_by by_completed (where_ (finished d.model_name) (d ∷ ds)) ≡ some d
first-finished d ds over h =
    elim (Option-cases (first_by by_completed (where_ (finished d.model_name) ds))) [
      | inl e ↦ rw over (rw e)
      | inr (y, e) ↦ rw over (
          rw e (
            rw (
              first_by-All (λ z. by_completed d z ≡ true) by_completed _
                (where-finished-Older d ds (ground arith) h) e)))
    ]

-- The two queries of `get_authoritative_allocation`, on the rows.
abbrev pick : ℕ → List Deployment → Option Deployment
pick model rows = elim (first_by by_created (where_ (routing model) rows)) [
  | some row ↦ some row
  | none ↦ first_by by_completed (where_ (finished model) rows)
]

pick-head :
    (d : Deployment) (ds : List Deployment)
    → status_in d.status settled_statuses ≡ true
    → All (Older d) ds
    → pick d.model_name (d ∷ ds) ≡ some d
pick-head d ds settled h = elim (Bool-cases (routing d.model_name d)) [
  | inl routes ↦ ground (arith, where-routing-Older d ds h)
  | inr over ↦
      let ends : finished d.model_name d ≡ true = ground arith in
      ground (arith, where-routing-Older d ds h, first-finished d ds ends h)
]

pick-newest_of :
    (generations : List (ℕ × ℕ)) (clock model : ℕ) (rows : List Deployment)
    → All (RowOk generations clock) rows
    → Ordered rows
    → pick model rows ≡ newest_of model rows
pick-newest_of generations clock model [] ok order = refl
pick-newest_of generations clock model (d ∷ ds) ok order =
    elim (Bool-cases (d.model_name == model)) [
      | inl same ↦
          let settled = (ok.0).settled in
          rw same
            (subst (λ m. pick m (d ∷ ds) ≡ some d) (ground arith) (pick-head d ds settled order.0))
      | inr other ↦ ground (arith, pick-newest_of generations clock model ds ok.1 order.1)
    ]

-- In a consistent table, the deployment whose allocation the router should serve for a model is
-- the model's newest one, and there is none where the model has no row.
pub authoritative-newest_of :
    (db : Db) (clock model : ℕ)
    → IsConsistent db clock
    → get_authoritative_allocation db model ≡ newest_of model db.deployments
unfolding get_authoritative_allocation
authoritative-newest_of db clock model c =
    pick-newest_of db.generations clock model db.deployments c.rows c.order

where_-All {ℓ} : {A : Type ℓ} (p : A → Bool) (xs : List A) → All (λ x. p x ≡ true) (where_ p xs)
where_-All p [] = tt
where_-All p (x ∷ xs) = elim (Bool-cases (p x)) [
  | inl kept ↦ rw kept (kept, where_-All p xs)
  | inr dropped ↦ rw dropped (where_-All p xs)
]

-- The authoritative deployment of a model is a deployment of that model.
pub authoritative-model_name :
    (db : Db) (model : ℕ) {d : Deployment}
    → get_authoritative_allocation db model ≡ some d
    → d.model_name ≡ model
unfolding get_authoritative_allocation
authoritative-model_name db model {d} e =
    elim (Option-cases (first_by by_created (where_ (routing model) db.deployments))) [
      | inr (r, q) ↦
          let kept =
            first_by-All (λ x. routing model x ≡ true) by_created _
              (where_-All (routing model) db.deployments) q in
          let same : r ≡ d = ground arith in subst (λ x. x.model_name ≡ model) same (ground arith)
      | inl q ↦
          let picked : first_by by_completed (where_ (finished model) db.deployments) ≡ some d =
            ground arith in
          let kept =
            first_by-All (λ x. finished model x ≡ true) by_completed _
              (where_-All (finished model) db.deployments) picked in
          ground arith
    ]
