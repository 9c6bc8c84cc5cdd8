-- ===== src/Service/Order/Writes.antt =====
-- A write of a live row, and an insertion, keep the order of the table.
use modelops_control_plane.Base.{
  ℕ, suc, ◌≤◌, ◌≡◌, ◌≢◌, sym, ap, ◌∙◌, true, false, some, List, [], ◌∷◌, All, arith, ◌==◌,
  if◌then◌else◌, subst, inl, inr, Bool-cases,
}
use modelops_control_plane.Status.{is_terminal, status_in}
use modelops_control_plane.Store.{Deployment}
use modelops_control_plane.Service.Query.{find_row, completed_key}
use modelops_control_plane.Service.Session.{generation_of, write_row}
use modelops_control_plane.Service.Order.{
  revision_of, is_allocated, newest_of, settled_statuses, Older, Ordered, RowOk,
}

pub All-write_row :
    (P : Deployment → Type 0) (r : Deployment) (rows : List Deployment)
    → All P rows
    → P r
    → All P (write_row r rows)
All-write_row P r [] h p = tt
All-write_row P r (e ∷ es) h p =
    elim (e.id == r.id) as (λ b. All P (if b then r ∷ es else e ∷ write_row r es)) [
      | true ↦ (p, h.1)
      | false ↦ (h.0, All-write_row P r es h.1 p)
    ]

pub All-find_row :
    (P : Deployment → Type 0) (id : ℕ) (rows : List Deployment) {d : Deployment}
    → All P rows
    → find_row id rows ≡ some d
    → P d
All-find_row P id [] h e = cc
All-find_row P id (x ∷ xs) {d} h e = elim (Bool-cases (x.id == id)) [
  | inl here ↦ let same : x ≡ d = ground arith in subst P same h.0
  | inr later ↦ All-find_row P id xs h.1 (ground arith)
]

-- How a request's row `r` stands to the row `d` that it replaces, and the counters after it to
-- those before.
pub record Replaces (now : ℕ) (before after : List (ℕ × ℕ)) (d r : Deployment) : Type 0 where
  pub live : is_terminal d.status ≡ false
  pub same_id : r.id ≡ d.id
  pub same_model : r.model_name ≡ d.model_name
  pub settled : status_in r.status settled_statuses ≡ true
  pub allocated : is_allocated r ≡ true
  pub grows : revision_of d ≤ revision_of r
  pub stamped : revision_of r ≡ generation_of d.model_name after
  pub counter_grows : generation_of d.model_name before ≤ generation_of d.model_name after
  pub others :
      (model : ℕ) → model ≢ d.model_name → generation_of model after ≡ generation_of model before
  pub kept :
      generation_of d.model_name after ≡ generation_of d.model_name before
      → r.traffic_allocation ≡ d.traffic_allocation
  pub completed : completed_key r ≤ suc now
  pub ends : is_terminal r.status ≡ true → completed_key r ≡ suc now

module _ {now clock : ℕ} {before after : List (ℕ × ℕ)} {d r : Deployment}
    (step : Replaces now before after d r) (later : clock ≤ now) where
  pub RowOk-after : (e : Deployment) → RowOk before clock e → RowOk after (suc now) e
  RowOk-after e ok = elim (Bool-cases (e.model_name == d.model_name)) [
    | inl same ↦ record {
      settled = ok.settled;
      allocated = ok.allocated;
      stamped_before = ground (arith, step.counter_grows);
      completed_before = omega arith;
    }
    | inr other ↦
        let kept = step.others e.model_name (ground arith) in
        record {
          settled = ok.settled;
          allocated = ok.allocated;
          stamped_before = ground arith;
          completed_before = omega arith;
        }
  ]

  -- The rows behind the replaced one stay behind; those before it are of other models.
  Older-behind : (e : Deployment) → RowOk before clock e → Older d e → Older r e
  Older-behind e ok old same =
      let b = old (same ∙ step.same_model) in
      record {
        over = b.over;
        lower = ground (arith, step.grows, b.lower);
        earlier = λ over. ground (arith, step.ends over, ok.completed_before);
      }

  All-Older-behind :
      (es : List Deployment) → All (RowOk before clock) es → All (Older d) es → All (Older r) es
  All-Older-behind [] ok old = tt
  All-Older-behind (e ∷ es) ok old = (Older-behind e ok.0 old.0, All-Older-behind es ok.1 old.1)

  Older-ahead : (e : Deployment) → Older e d → Older e r
  Older-ahead e old same =
      let b = old (sym step.same_model ∙ same) in absurd (ground (arith, b.over, step.live))

  pub Ordered-write_row :
      (rows : List Deployment)
      → All (RowOk before clock) rows
      → Ordered rows
      → find_row d.id rows ≡ some d
      → Ordered (write_row r rows)
  Ordered-write_row [] ok order found = tt
  Ordered-write_row (e ∷ es) ok order found = elim (Bool-cases (e.id == r.id)) [
    | inl here ↦
        let same : e ≡ d = ground (arith, step.same_id) in
        rw here (All-Older-behind es ok.1 (subst (λ x. All (Older x) es) same order.0), order.1)
    | inr there ↦
        let further : find_row d.id es ≡ some d = ground (arith, step.same_id) in
        rw there (
          All-write_row (Older e) r es order.0
              (Older-ahead e (All-find_row (Older e) d.id es order.0 further)),
          Ordered-write_row es ok.1 order.1 further,
        )
  ]

  -- The replaced row was the newest of its model, and so is what replaces it.
  pub newest_of-write_row :
      (model : ℕ) (rows : List Deployment)
      → Ordered rows
      → find_row d.id rows ≡ some d
      → newest_of model (write_row r rows)
        ≡ (if d.model_name == model then some r else newest_of model rows)
  newest_of-write_row model [] order found = cc
  newest_of-write_row model (e ∷ es) order found = elim (Bool-cases (e.id == r.id)) [
    | inl here ↦
        let same : e ≡ d = ground (arith, step.same_id) in
        let names : e.model_name ≡ d.model_name = ap (λ x. x.model_name) same in
        ground (arith, step.same_model)
    | inr there ↦
        let further : find_row d.id es ≡ some d = ground (arith, step.same_id) in
        let behind : Older e d = All-find_row (Older e) d.id es order.0 further in
        let apart : d.model_name ≢ e.model_name =
          λ same. let b = behind same in absurd (ground (arith, b.over, step.live)) in
        ground (arith, newest_of-write_row model es order.1 further)
  ]
