-- ===== src/Submission/Tests.antt =====
-- A deletion that is submitted, and submitted again.
use sql_rpa.Base.{◌≡◌, refl, true, none, some, [], ◌∷◌, codes, arith}
use sql_rpa.Text.{contains, lower, split, strip, upper, words}
use sql_rpa.Text.Regex.{matches, search}
use sql_rpa.Safety.{check, check_has_where, check_word, first_word, statements}
use sql_rpa.Review.Where.{extract_where}
use sql_rpa.Policy.{combine, evaluate_policy, ordered}
use sql_rpa.Submission.{
  Caller, Input, Request, ReviewTask, calculate_risk_score, count_affected, create_review_task,
  extract_table_name, http, is_known_table, replay, submit_key, submit_new, submit_review,
  submit_word,
}
use sql_rpa.Submission.Admitted.{IsAdmitted, submit_review-IsAdmitted}
use sql_rpa.Submission.Replay.{by_replay, submit_review-again}

abbrev input : Input
input = record {
  where_required = true;
  scope_ids = [];
  policies = [];
  connected = true;
  tables = some (codes "t" ∷ []);
  count = some 12;
  id = "r1";
  meanwhile = [];
}

abbrev ann : Caller
ann = record { id = "ann"; tenant_id = codes "acme"; context = none }

abbrev request : Request
request = record {
  sql = codes "DELETE FROM t WHERE id=1";
  reason = [];
  idempotency_key = codes "k";
}

abbrev task : ReviewTask
task = record {
  id = "r1";
  tenant_id = codes "acme";
  organization_id = codes "acme";
  membership_id = none;
  idempotency_key = some (codes "k");
  sql = request.sql;
  reason = [];
  operation_type = codes "DELETE";
  affected_table = codes "t";
  affected_rows = 12;
  submitted_by = "ann";
  policy_id = none;
  policy_version = none;
  required_approvals = 1;
  risk_score = 65;
}

submit_review-IsAdmitted_example :
    ((submit_review input ann request []).0 ≡ task ∷ []) × IsAdmitted input ann request task
unfolding submit_review submit_key submit_new submit_word create_review_task calculate_risk_score
    count_affected is_known_table extract_table_name check check_has_where check_word first_word
    statements extract_where evaluate_policy combine ordered matches search contains split strip
    upper words lower
submit_review-IsAdmitted_example = submit_review-IsAdmitted input ann request [] task refl

submit_review-again_example :
    submit_review input ann (record request { reason = codes "why" }) (task ∷ [])
    ≡ (task ∷ [], http 409)
unfolding submit_review submit_key replay
submit_review-again_example =
    submit_review-again input input ann request (record request { reason = codes "why" })
      (task ∷ []) [] (codes "k") task refl (omega arith) by_replay refl
