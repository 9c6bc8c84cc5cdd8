-- ===== src/Service/Rows.antt =====
-- Lemmas on the rows of the tables: what is found after a write, and the generation counters.
use modelops_control_plane.Base.{
  ℕ, ◌+◌, ◌≡◌, ◌≢◌, refl, some, List, [], ◌∷◌, arith, ◌==◌, if◌then◌else◌,
}
use modelops_control_plane.Store.{Deployment}
use modelops_control_plane.Service.Query.{find_row}
use modelops_control_plane.Service.Session.{write_row, generation_of, bump_generation}

pub find_row-write_row :
    (d old : Deployment) (rows : List Deployment)
    → find_row d.id rows ≡ some old
    → find_row d.id (write_row d rows) ≡ some d
find_row-write_row d old [] h = cc
find_row-write_row d old (e ∷ es) h = ground (arith, find_row-write_row d old es)

pub find_row-write_row_ne :
    (id : ℕ) (d : Deployment) (rows : List Deployment)
    → d.id ≢ id
    → find_row id (write_row d rows) ≡ find_row id rows
find_row-write_row_ne id d [] h = refl
find_row-write_row_ne id d (e ∷ es) h = ground (arith, find_row-write_row_ne id d es h)

pub find_row-id :
    (id : ℕ) (rows : List Deployment) {d : Deployment} → find_row id rows ≡ some d → d.id ≡ id
find_row-id id [] h = cc
find_row-id id (e ∷ es) {d} h = ground (arith, find_row-id id es {d = d})

-- The counter of a model goes up by one, from 0 where it had no row; the others stay.
pub generation_of-bump_generation :
    (j k : ℕ) (rows : List (ℕ × ℕ))
    → generation_of j (bump_generation k rows)
      ≡ (if k == j then generation_of k rows + 1 else generation_of j rows)
generation_of-bump_generation j k [] = ground arith
generation_of-bump_generation j k ((m, g) ∷ rows) =
    ground (arith, generation_of-bump_generation j k rows)
