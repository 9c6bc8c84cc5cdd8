-- ===== src/Service/History/Steps.antt =====
-- What holds at a point of a history, and what a write and a creation are for the tables there.
use modelops_control_plane.Base.{
  ℕ, ◌+◌, ◌≤◌, ◌≡◌, sym, ap, ◌∙◌, subst, Option, some, List, All, arith, ok,
}
use modelops_control_plane.Store.{Db, Deployment, PolicySettings}
use modelops_control_plane.Service.Query.{find_row}
use modelops_control_plane.Service.Session.{Session, Engine, write_row, bump_generation, inserted}
use modelops_control_plane.Service.Rows.{generation_of-bump_generation}
use modelops_control_plane.Service.Actions.{run_session}
use modelops_control_plane.Service.Locking.{run_session-Committed}
use modelops_control_plane.Service.Create.{CreateRequest, new_row}
use modelops_control_plane.Service.Create.Started.{started_row}
use modelops_control_plane.Service.Perform.{Action}
use modelops_control_plane.Service.Perform.Outcomes.{session_of, session_of-Keeps, session_of-live}
use modelops_control_plane.Service.Order.{RowOk, IsConsistent}
use modelops_control_plane.Service.Order.Writes.{All-find_row, Replaces}
use modelops_control_plane.Service.Order.Consistency.{Inserts}
use modelops_control_plane.Service.History.Copies.{IsCopy}
use modelops_control_plane.Service.History.Changes.{newest_of-live, session_of-Replaces}

pub record Holds (db : Db) (clock : ℕ) (copies : List Deployment) : Type 0 where
  pub consistent : IsConsistent db clock
  pub copies_ok : All (IsCopy db.deployments) copies

-- What a request's write is for the tables that it finds, however old the copy is.
pub record IsWrite (now : ℕ) (d : Deployment) (db : Db) (s : Session) : Type 0 where
  pub found : find_row d.id db.deployments ≡ some d
  pub step : Replaces now db.generations s.db.generations d s.row
  pub written : s.db.deployments ≡ write_row s.row db.deployments
  pub same_id : s.row.id ≡ d.id
  pub next : s.row.version_id ≡ d.version_id + 1

module _ (engine : Engine) (policies : PolicySettings) where
  -- A request whose copy was loaded in the history writes to the row that it has loaded.
  pub run_session-IsWrite :
      (clock now : ℕ) (copies : List Deployment) (a : Action) (d : Deployment) (db : Db)
      (s : Session)
      → run_session engine (session_of now a) db d ≡ ok s
      → IsCopy db.deployments d
      → clock ≤ now
      → Holds db clock copies
      → IsWrite now d db s
  run_session-IsWrite clock now copies a d db s e copy later p =
      let c = run_session-Committed engine (session_of now a) db d (session_of-Keeps now a) e in
      let cons = p.consistent in
      let is_d : copy.stored ≡ d = copy.same_row (ground (arith, copy.found, c.found, c.current)) in
      let found : find_row d.id db.deployments ≡ some d = copy.found ∙ ap some is_d in
      let row_ok = All-find_row (RowOk db.generations clock) d.id db.deployments cons.rows found in
      let live = session_of-live now a (record { row = d; db = db }) c.changed c.accepted in
      let top =
        cons.top d.model_name d (newest_of-live d.id db.deployments d cons.order found live) in
      let step = session_of-Replaces now clock db d later row_ok top a c.changed c.accepted in
      let counters : s.db.generations ≡ c.changed.db.generations = ground (arith, c.db_is) in
      record {
        found = found;
        step =
            subst (λ g. Replaces now db.generations g d s.row) (sym counters)
              (subst (λ x. Replaces now db.generations c.changed.db.generations d x) (sym c.row_is)
                step);
        written = ground (arith, c.db_is, c.keeps.same_deployments);
        same_id = ground (arith, c.row_is, c.keeps.same_id);
        next = ap (λ x. x.version_id) c.row_is;
      }

  -- What a creation is for the tables that it finds.
  pub started-Inserts :
      (now id : ℕ) (key : Option ℕ) (q : CreateRequest) (db : Db) (s : Session)
      → engine.insert_row (new_row policies now id key q) db.deployments ≡ inserted
      → s.row ≡ started_row policies now id key q db
      → s.db.generations ≡ bump_generation q.model_name db.generations
      → Inserts db.generations s.db.generations db.deployments s.row
  started-Inserts now id key q db s here row_is counters =
      let free = (engine.inserted_iff (new_row policies now id key q) db.deployments).0 here in
      let bump = generation_of-bump_generation q.model_name q.model_name db.generations in
      let model : s.row.model_name ≡ q.model_name = ap (λ x. x.model_name) row_is in
      record {
        free = ground (arith, free.1);
        live = ground arith;
        settled = ground arith;
        allocated = ground arith;
        stamped = ground arith;
        counter_grows = ground arith;
        others =
            λ m apart. ground (arith, generation_of-bump_generation m q.model_name db.generations);
        open_ended = ground arith;
      }
