-- ===== src/Review/Tests.antt =====
-- Runs of the handlers of one review, and the theorems on them at concrete reviews.
use sql_rpa.Base.{
  ℕ, ◌≡◌, ◌≤◌, refl, true, false, none, some, List, [], ◌∷◌, ◌==◌, if◌then◌else◌, All, codes,
  if_elim, length, map, truthy,
}
use sql_rpa.Review.{
  awaiting_review, executing, target_committed, update, Task, Rows, Request, Settings,
  requires_second_approval, transition, create_saga, update_status, update_saga, record_approval,
}
use sql_rpa.Text.{split, strip, upper}
use sql_rpa.Review.Where.{extract_where}
use sql_rpa.Review.Approve.{
  fine, raised_after, Input, Response, completed_with, Point, approve_review, step,
}
use sql_rpa.Review.Approve.Outcome.{IsLost, IsTold, approve_review-outcome}
use sql_rpa.Review.Manage.{repair, done}
use sql_rpa.Review.Manage.Repair.{IsDone, IsRepaired, repair-IsDone}
use sql_rpa.Review.World.{World, approves, Reach, here, next, IsFresh}
use sql_rpa.Review.World.Once.{Reach-commits-le-one}
use sql_rpa.Review.World.FourEyes.{IsSigned, IsSubmitted, IsByOthers, Reach-IsByOthers}

abbrev settings : Settings
settings = record {
  four_eyes_enabled = true;
  four_eyes_operation_types = codes "DELETE";
  four_eyes_affected_rows = 1000;
}

abbrev task : Task
task = record {
  tenant_id = "acme";
  sql = codes "UPDATE staff SET pay = 1 WHERE id = 7";
  operation_type = update;
  affected_table = codes "staff";
  affected_rows = 1;
  required_approvals = 1;
  status = awaiting_review;
  assigned_to = none;
  submitted_by = some "ann";
  approved_by = none;
  reviewer_note = "";
  backup_id = none;
  first_approver_id = none;
  second_approver_id = none;
  has_result = false;
}

abbrev rows : Rows
rows = record { task = some task; saga = none; logs = []; events = []; commits = [] }

abbrev request : Request
request = record {
  user_id = "bob";
  username = "Bob";
  role = "approver";
  scope_ids = "acme" ∷ [];
  tenant_id = "acme";
  auth = true;
  reviewer_note = "ok";
}

abbrev inputs : ℕ → Input
inputs _ = record { answer = fine; backup_id = "b1"; wrote = some 1 }

approve_completes :
    (approve_review settings request inputs rows).1 ≡ Point.done (completed_with 1 (some "b1"))
unfolding approve_review requires_second_approval split strip upper transition create_saga
    extract_where update_status update_saga record_approval
approve_completes = refl

approve_review-outcome_example :
    (r : Response) × ((approve_review settings request inputs rows).1 ≡ Point.done r)
    × IsTold request
        (IsLost settings request inputs 18 rows Point.reading)
        r
        rows
        (approve_review settings request inputs rows).0
approve_review-outcome_example = approve_review-outcome settings request inputs rows

-- The target database commits and then raises.
abbrev late_error : ℕ → Input
late_error n = record {
  answer = if n == 9 then raised_after else fine;
  backup_id = "b1";
  wrote = some 1;
}

committed_but_500 :
    ((approve_review settings request late_error rows).1 ≡ Point.done (Response.http 500))
    × (length (approve_review settings request late_error rows).0.commits ≡ 1)
unfolding approve_review requires_second_approval split strip upper transition create_saga
    extract_where update_status update_saga record_approval
committed_but_500 = (refl, refl)

abbrev world : World
world = record {
  rows = rows;
  approvals = λ _. record { request = request; point = Point.reading };
  snapshots = [];
}

fresh : IsFresh world
fresh = record { no_saga = refl; no_commit = refl; no_snapshot = refl; idle = λ _. refl }

-- Two approvals of the same review begin, and the first one goes on to its claim.
reached : (v : World) × Reach settings world v
reached = (
  _,
  next (next (next here (approves _ 0 (inputs 0))) (approves _ 1 (inputs 0)))
      (approves _ 0 (inputs 0)),
)

Reach-commits-le-one_example : length reached.0.rows.commits ≤ 1
Reach-commits-le-one_example = Reach-commits-le-one settings world reached.0 fresh reached.1

-- A review that needs two approvals: Bob's and then Cleo's, up to the end of hers.
abbrev high_risk : World
high_risk = record {
  rows = record rows { task = some (record task { required_approvals = 2 }) };
  approvals = λ i. record {
    request = if i == 0 then request else record request { user_id = "cleo"; username = "Cleo" };
    point = Point.reading;
  };
  snapshots = [];
}

abbrev turns :
    List ℕ → (v : World) → Reach settings high_risk v → (z : World) × Reach settings high_risk z
turns [] v r = (v, r)
turns (i ∷ is) v r = turns is _ (next r (approves v i (inputs 0)))

abbrev schedule : List ℕ
schedule = 0 ∷ 0 ∷ 0 ∷ 0 ∷ 1 ∷ 1 ∷ 1 ∷ 1 ∷ 1 ∷ 1 ∷ 1 ∷ 1 ∷ 1 ∷ []

abbrev approved : (z : World) × Reach settings high_risk z
approved = turns schedule high_risk here

two_people :
    (map (λ x. x.executed_by) approved.0.rows.commits ≡ "cleo" ∷ [])
    × (map (λ x. x.task.approved_by) approved.0.rows.commits ≡ some "bob" ∷ [])
unfolding step requires_second_approval split strip upper transition create_saga extract_where
    update_status update_saga record_approval
two_people = (refl, refl)

high_risk-IsFresh : IsFresh high_risk
high_risk-IsFresh = record {
  no_saga = refl;
  no_commit = refl;
  no_snapshot = refl;
  idle = λ _. refl;
}

signed : IsSigned settings (some "ann") high_risk
signed = record {
  auth = λ i. if_elim (λ (r : Request). r.auth ≡ true) (i == 0) (λ _. refl) (λ _. refl);
  named = λ i. if_elim (λ (r : Request). truthy r.user_id ≡ true) (i == 0) (λ _. refl) (λ _. refl);
}

submitted : IsSubmitted settings (some "ann") high_risk
submitted = record {
  task = record task { required_approvals = 2 };
  row = refl;
  by = refl;
  waits = refl;
  unapproved = refl;
}

Reach-IsByOthers_example : All (IsByOthers settings "ann") approved.0.rows.commits
Reach-IsByOthers_example =
    Reach-IsByOthers settings "ann" high_risk approved.0 refl high_risk-IsFresh signed submitted
      approved.1

-- A commit whose records are still to be written.
abbrev pending_rows : Rows
pending_rows = record rows {
  task = some (record task { status = executing });
  saga = some (record {
    tenant_id = "acme";
    state = target_committed;
    backup_id = none;
    affected_rows = 1;
  });
}

repaired : (repair 3 "acme" ("acme" ∷ []) "Bob" pending_rows).1 ≡ done
unfolding repair
repaired = refl

repair-IsDone_example :
    IsRepaired "acme"
      ("acme" ∷ [])
      "Bob"
      pending_rows
      (repair 3 "acme" ("acme" ∷ []) "Bob" pending_rows).0
    × IsDone "acme" (repair 3 "acme" ("acme" ∷ []) "Bob" pending_rows).0
repair-IsDone_example = repair-IsDone "acme" ("acme" ∷ []) "Bob" pending_rows repaired
