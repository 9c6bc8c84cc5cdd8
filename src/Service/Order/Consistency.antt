-- ===== src/Service/Order/Consistency.antt =====
-- The table stays consistent under a request's write and under an insertion.
use modelops_control_plane.Base.{
  ℕ, suc, ◌≤◌, ◌<◌, ◌≡◌, ◌≢◌, sym, ◌∙◌, true, false, some, List, [], ◌∷◌, All, arith, ◌==◌, subst,
  inl, inr, Bool-cases, any,
}
use modelops_control_plane.Status.{is_terminal, status_in}
use modelops_control_plane.Store.{Db, Deployment}
use modelops_control_plane.Service.Query.{find_row, completed_key}
use modelops_control_plane.Service.Session.{generation_of, write_row, in_flight}
use modelops_control_plane.Service.Order.{
  revision_of, is_allocated, newest_of, settled_statuses, Older, Ordered, RowOk, IsConsistent,
}
use modelops_control_plane.Service.Order.Writes.{
  All-write_row, Replaces, RowOk-after, Ordered-write_row, newest_of-write_row,
}

pub All-map :
    (P Q : Deployment → Type 0) (rows : List Deployment)
    → ((e : Deployment) → P e → Q e)
    → All P rows
    → All Q rows
All-map P Q [] f h = tt
All-map P Q (e ∷ es) f h = (f e h.0, All-map P Q es f h.1)

pub replace-IsConsistent :
    {now clock : ℕ} {d r : Deployment} (db db' : Db)
    → Replaces now db.generations db'.generations d r
    → clock ≤ now
    → find_row d.id db.deployments ≡ some d
    → db'.deployments ≡ write_row r db.deployments
    → IsConsistent db clock
    → IsConsistent db' (suc now)
replace-IsConsistent {now} {clock} {d} {r} db db' step later found written c = record {
  rows = rows';
  order = order';
  top = top';
}
  where
    r-ok : RowOk db'.generations (suc now) r
    r-ok = record {
      settled = step.settled;
      allocated = step.allocated;
      stamped_before = ground (arith, step.stamped, step.same_model);
      completed_before = step.completed;
    }

    rows' : All (RowOk db'.generations (suc now)) db'.deployments
    rows' = rw written (
        All-write_row _ r db.deployments
          (All-map _ _ db.deployments (RowOk-after step later) c.rows) r-ok)

    order' : Ordered db'.deployments
    order' = rw written (Ordered-write_row step later db.deployments c.rows c.order found)

    top' :
        (model : ℕ) (x : Deployment)
        → newest_of model db'.deployments ≡ some x
        → revision_of x ≡ generation_of model db'.generations
    top' model x e =
        let shape = newest_of-write_row step later model db.deployments c.order found in
        let e' : newest_of model (write_row r db.deployments) ≡ some x =
          subst (λ l. newest_of model l ≡ some x) written e in
        elim (Bool-cases (d.model_name == model)) [
          | inl same ↦
              let is_r : r ≡ x = ground arith in
              let names : d.model_name ≡ model = ground arith in
              subst (λ y. revision_of y ≡ generation_of model db'.generations) is_r
                (subst (λ m. revision_of r ≡ generation_of m db'.generations) names step.stamped)
          | inr other ↦ c.top model x (ground arith) ∙ sym (step.others model (ground arith))
        ]

-- A row that is new at the front of the table, with the model's next generation.
pub record Inserts (before after : List (ℕ × ℕ)) (rows : List Deployment) (r : Deployment)
    : Type 0 where
  pub free : any (in_flight r.model_name) rows ≡ false
  pub live : is_terminal r.status ≡ false
  pub settled : status_in r.status settled_statuses ≡ true
  pub allocated : is_allocated r ≡ true
  pub stamped : revision_of r ≡ generation_of r.model_name after
  pub counter_grows : generation_of r.model_name before < generation_of r.model_name after
  pub others :
      (model : ℕ) → model ≢ r.model_name → generation_of model after ≡ generation_of model before
  pub open_ended : completed_key r ≡ 0

module _ {now clock : ℕ} {before after : List (ℕ × ℕ)} {rows : List Deployment} {r : Deployment}
    (step : Inserts before after rows r) (later : clock ≤ now) where
  inserted-RowOk : (e : Deployment) → RowOk before clock e → RowOk after (suc now) e
  inserted-RowOk e ok = elim (Bool-cases (e.model_name == r.model_name)) [
    | inl same ↦ record {
      settled = ok.settled;
      allocated = ok.allocated;
      stamped_before =
          let same' : e.model_name ≡ r.model_name = ground arith in
          ground (arith, step.counter_grows);
      completed_before = omega arith;
    }
    | inr other ↦
        let kept = step.others e.model_name (ground arith) in
        record {
          settled = ok.settled;
          allocated = ok.allocated;
          stamped_before = ground arith;
          completed_before = omega arith;
        }
  ]

  inserted-Older :
      (es : List Deployment)
      → any (in_flight r.model_name) es ≡ false
      → All (RowOk before clock) es
      → All (Older r) es
  inserted-Older [] free ok = tt
  inserted-Older (e ∷ es) free ok = (
    λ same.
        let e-ok = ok.0 in
        record {
          over = ground arith;
          lower = ground (arith, step.stamped, step.counter_grows, e-ok.stamped_before);
          earlier = λ over. absurd (ground (arith, step.live));
        },
    inserted-Older es (ground arith) ok.1,
  )

pub insert-IsConsistent :
    {now clock : ℕ} {r : Deployment} (db db' : Db)
    → Inserts db.generations db'.generations db.deployments r
    → clock ≤ now
    → db'.deployments ≡ r ∷ db.deployments
    → IsConsistent db clock
    → IsConsistent db' (suc now)
insert-IsConsistent {now} {clock} {r} db db' step later written c = record {
  rows = rows';
  order = order';
  top = top';
}
  where
    rows' : All (RowOk db'.generations (suc now)) db'.deployments
    rows' = rw written (
      record {
        settled = step.settled;
        allocated = step.allocated;
        stamped_before = ground (arith, step.stamped);
        completed_before = ground (arith, step.open_ended);
      },
      All-map _ _ db.deployments (inserted-RowOk step later) c.rows,
    )

    order' : Ordered db'.deployments
    order' = rw written (inserted-Older step later db.deployments step.free c.rows, c.order)

    top' :
        (model : ℕ) (x : Deployment)
        → newest_of model db'.deployments ≡ some x
        → revision_of x ≡ generation_of model db'.generations
    top' model x e =
        let e' : newest_of model (r ∷ db.deployments) ≡ some x =
          subst (λ l. newest_of model l ≡ some x) written e in
        elim (Bool-cases (r.model_name == model)) [
          | inl same ↦
              let is_r : r ≡ x = ground arith in
              let names : r.model_name ≡ model = ground arith in
              subst (λ y. revision_of y ≡ generation_of model db'.generations) is_r
                (subst (λ m. revision_of r ≡ generation_of m db'.generations) names step.stamped)
          | inr other ↦ c.top model x (ground arith) ∙ sym (step.others model (ground arith))
        ]
