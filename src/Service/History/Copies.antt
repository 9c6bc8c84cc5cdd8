-- ===== src/Service/History/Copies.antt =====
-- A copy of a row that a request holds: the row in the table has its version or a later one, and is
-- the same row where it has the same version.
use modelops_control_plane.Base.{
  ℕ, ◌+◌, ◌≤◌, ◌≡◌, refl, sym, none, some, List, [], ◌∷◌, All, Any, arith, ◌==◌, inl, inr,
  Bool-cases, subst,
}
use modelops_control_plane.Store.{Deployment}
use modelops_control_plane.Service.Query.{find_row}
use modelops_control_plane.Service.Session.{write_row}
use modelops_control_plane.Service.Rows.{find_row-write_row, find_row-write_row_ne, find_row-id}

pub record IsCopy (rows : List Deployment) (c : Deployment) : Type 0 where
  pub stored : Deployment
  pub found : find_row c.id rows ≡ some stored
  pub not_newer : c.version_id ≤ stored.version_id
  pub same_row : stored.version_id ≡ c.version_id → stored ≡ c

pub loaded-IsCopy :
    (id : ℕ) (rows : List Deployment) (d : Deployment) → find_row id rows ≡ some d → IsCopy rows d
loaded-IsCopy id rows d h = record {
  stored = d;
  found = subst (λ i. find_row i rows ≡ some d) (sym (find_row-id id rows h)) h;
  not_newer = omega arith;
  same_row = λ e. refl;
}

pub IsCopy-write_row :
    (rows : List Deployment) (r d c : Deployment)
    → find_row r.id rows ≡ some d
    → r.version_id ≡ d.version_id + 1
    → IsCopy rows c
    → IsCopy (write_row r rows) c
IsCopy-write_row rows r d c found next copy = elim (Bool-cases (c.id == r.id)) [
  | inl same ↦
      let same_id : c.id ≡ r.id = ground arith in
      let was : find_row r.id rows ≡ some (copy.stored) =
        subst (λ i. find_row i rows ≡ some (copy.stored)) same_id copy.found in
      let bound : c.version_id ≤ d.version_id = ground (arith, copy.not_newer) in
      record {
        stored = r;
        found = rw same_id (find_row-write_row r d rows found);
        not_newer = ground arith;
        same_row = λ e. absurd (ground arith);
      }
  | inr other ↦ record {
    stored = copy.stored;
    found = ground (arith, copy.found, find_row-write_row_ne c.id r rows);
    not_newer = copy.not_newer;
    same_row = copy.same_row;
  }
]

pub IsCopy-insert :
    (rows : List Deployment) (r c : Deployment)
    → find_row r.id rows ≡ none
    → IsCopy rows c
    → IsCopy (r ∷ rows) c
IsCopy-insert rows r c fresh copy = elim (Bool-cases (r.id == c.id)) [
  | inl same ↦
      let same_id : r.id ≡ c.id = ground arith in
      let gone : find_row c.id rows ≡ none = subst (λ i. find_row i rows ≡ none) same_id fresh in
      absurd (ground (arith, copy.found))
  | inr other ↦ record {
    stored = copy.stored;
    found = rw other copy.found;
    not_newer = copy.not_newer;
    same_row = copy.same_row;
  }
]

pub Any-All :
    (P : Deployment → Type 0) (cs : List Deployment) {d : Deployment}
    → All P cs
    → Any (λ c. c ≡ d) cs
    → P d
Any-All P [] h a = absurd a
Any-All P (c ∷ cs) h (inl e) = subst P e h.0
Any-All P (c ∷ cs) h (inr a) = Any-All P cs h.1 a
