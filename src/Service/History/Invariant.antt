-- ===== src/Service/History/Invariant.antt =====
-- What holds at every point of every history.
use modelops_control_plane.Base.{
  ℕ, suc, ◌≤◌, ◌≡◌, sym, subst, Bool, Option, none, some, List, All, arith, Result,
}
use modelops_control_plane.Store.{Db, Deployment, PolicySettings}
use modelops_control_plane.Router.{RouterSettings}
use modelops_control_plane.Gateway.{Delivery}
use modelops_control_plane.Service.Query.{find_row}
use modelops_control_plane.Service.Session.{ServiceError, Engine}
use modelops_control_plane.Service.Reachability.{World}
use modelops_control_plane.Service.Create.{CreateRequest}
use modelops_control_plane.Service.Create.Started.{
  Creation, unchanged, started, create_deployment-Creation,
}
use modelops_control_plane.Service.Perform.{Action}
use modelops_control_plane.Service.Perform.Outcomes.{
  SameRows, Outcome, refused, nothing_to_do, wrote, perform-Outcome,
}
use modelops_control_plane.Service.Order.{newest_of, RowOk}
use modelops_control_plane.Service.Order.Consistency.{
  replace-IsConsistent, insert-IsConsistent, All-map,
}
use modelops_control_plane.Service.History.{History, start, load, request, create, other_writer}
use modelops_control_plane.Service.History.Steps.{Holds, run_session-IsWrite, started-Inserts}
use modelops_control_plane.Service.History.Copies.{
  IsCopy, loaded-IsCopy, IsCopy-write_row, IsCopy-insert, Any-All,
}

-- Time passes.
RowOk-later :
    (generations : List (ℕ × ℕ)) (clock later : ℕ) (e : Deployment)
    → clock ≤ later
    → RowOk generations clock e
    → RowOk generations later e
RowOk-later generations clock later e h row = record {
  settled = row.settled;
  allocated = row.allocated;
  stamped_before = row.stamped_before;
  completed_before = omega (arith, row.completed_before);
}

Holds-later :
    (db : Db) (clock now : ℕ) (copies : List Deployment)
    → clock ≤ now
    → Holds db clock copies
    → Holds db (suc now) copies
Holds-later db clock now copies h p =
    let c = p.consistent in
    record {
      consistent = record {
        rows =
            All-map _ _ db.deployments
              (λ e. RowOk-later db.generations clock (suc now) e (omega arith)) c.rows;
        order = c.order;
        top = c.top;
      };
      copies_ok = p.copies_ok;
    }

-- The invariant speaks of the deployments and the counters only.
Holds-SameRows :
    (db db' : Db) (clock : ℕ) (copies : List Deployment)
    → SameRows db db'
    → Holds db clock copies
    → Holds db' clock copies
Holds-SameRows db db' clock copies same p =
    let c = p.consistent in
    record {
      consistent = record {
        rows = rw (same.generations, same.deployments) c.rows;
        order = rw same.deployments c.order;
        top = λ model d e.
            rw same.generations
              (c.top model d (subst (λ l. newest_of model l ≡ some d) same.deployments e));
      };
      copies_ok = rw same.deployments p.copies_ok;
    }

All-map-copies :
    (rows rows' : List Deployment) (copies : List Deployment)
    → ((c : Deployment) → IsCopy rows c → IsCopy rows' c)
    → All (IsCopy rows) copies
    → All (IsCopy rows') copies
All-map-copies rows rows' copies f h = All-map (IsCopy rows) (IsCopy rows') copies f h

module _ (engine : Engine) (settings : RouterSettings) (policies : PolicySettings) where
  -- A request keeps the invariant, however old the copy is that it acts on.
  Outcome-Holds :
      (net : Delivery) (clock now : ℕ) (copies : List Deployment) (a : Action) (d : Deployment)
      (w : World) (r : Result ServiceError Deployment × World)
      → Outcome engine settings net now a d w r
      → IsCopy w.db.deployments d
      → clock ≤ now
      → Holds w.db clock copies
      → Holds r.1.db (suc now) copies
  Outcome-Holds net clock now copies a d w r (refused e) copy later p =
      Holds-later w.db clock now copies later p
  Outcome-Holds net clock now copies a d w r nothing_to_do copy later p =
      Holds-later w.db clock now copies later p
  Outcome-Holds net clock now copies a d w r (wrote s w' e same reaches) copy later p =
      let q = run_session-IsWrite engine policies clock now copies a d w.db s e copy later p in
      let written = q.written in
      Holds-SameRows s.db w'.db (suc now) copies same (record {
        consistent = replace-IsConsistent w.db s.db q.step later q.found written p.consistent;
        copies_ok = rw written (
            All-map-copies w.db.deployments _ copies
              (λ x.
                IsCopy-write_row w.db.deployments s.row d x
                  (subst (λ i. find_row i w.db.deployments ≡ some d) (sym q.same_id) q.found)
                  q.next)
              p.copies_ok);
      })

  -- A creation keeps it, if its id is a new one.
  Creation-Holds :
      (net : Delivery) (clock now id : ℕ) (key : Option ℕ) (q : CreateRequest)
      (copies : List Deployment) (w : World) (r : Result ServiceError (Deployment × Bool) × World)
      → Creation engine policies now id key q settings net w r
      → find_row id w.db.deployments ≡ none
      → clock ≤ now
      → Holds w.db clock copies
      → Holds r.1.db (suc now) copies
  Creation-Holds net clock now id key q copies w r (unchanged x not_created) fresh later p =
      Holds-later w.db clock now copies later p
  Creation-Holds net clock now id key q copies w r
        (started s w' here row_is rows_are counters same reaches) fresh later p =
      let step = started-Inserts engine policies now id key q w.db s here row_is counters in
      Holds-SameRows s.db w'.db (suc now) copies same (record {
        consistent = insert-IsConsistent w.db s.db step later rows_are p.consistent;
        copies_ok = rw rows_are (
            All-map-copies w.db.deployments _ copies
              (λ x. IsCopy-insert w.db.deployments s.row x (ground (arith, fresh))) p.copies_ok);
      })

  pub History-Holds :
      {w : World} {clock : ℕ} {copies : List Deployment}
      → History engine settings policies w clock copies
      → Holds w.db clock copies
  History-Holds (start router) = record {
    consistent = record { rows = tt; order = tt; top = λ m d e. cc };
    copies_ok = tt;
  }
  History-Holds (load {w} id d h found) =
      let p = History-Holds h in
      record {
        consistent = p.consistent;
        copies_ok = (loaded-IsCopy id w.db.deployments d found, p.copies_ok);
      }
  History-Holds (request {w} {clock} {copies} net now a d h held later) =
      let p = History-Holds h in
      Outcome-Holds net clock now copies a d w _ (perform-Outcome engine settings net now a d w)
        (Any-All (IsCopy w.db.deployments) copies p.copies_ok held) later p
  History-Holds (create {w} {clock} {copies} net now id key q seen h fresh later) =
      Creation-Holds net clock now id key q copies w _
        (create_deployment-Creation engine policies now id key q settings net seen w) fresh later
        (History-Holds h)
  History-Holds (other_writer {w} {clock} {copies} w' h same) =
      Holds-SameRows w.db w'.db clock copies same (History-Holds h)
