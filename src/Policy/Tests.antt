-- ===== src/Policy/Tests.antt =====
-- Two policies that disagree about a large deletion.
use sql_rpa.Base.{◌≡◌, refl, true, [], ◌∷◌, codes}
use sql_rpa.Policy.{
  ApprovalPolicy, Operation, insert, ordered, is_match, most, combine, evaluate_policy,
}
use sql_rpa.Policy.Strictest.{IsStrictest, Applies, evaluate_policy-IsStrictest}

abbrev usual : ApprovalPolicy
usual = record {
  id = "usual";
  tenant_id = "acme";
  version = 1;
  enabled = true;
  priority = 100;
  operation_types = [];
  tables = [];
  sensitive_columns = [];
  min_affected_rows = 0;
  required_approvals = 1;
}

abbrev large : ApprovalPolicy
large = record usual {
  id = "large";
  operation_types = codes "delete" ∷ [];
  tables = codes "Staff" ∷ [];
  sensitive_columns = codes "pay" ∷ [];
  min_affected_rows = 10;
  required_approvals = 2;
}

abbrev operation : Operation
operation = record {
  operation_type = codes "DELETE";
  table = codes "staff";
  affected_rows = 10;
  sql = codes "DELETE FROM staff WHERE Pay > 1";
}

conflict :
    (evaluate_policy ("acme" ∷ []) (usual ∷ large ∷ []) operation).conflicts
    ≡ ("usual" ∷ "large" ∷ []) ∷ []
unfolding evaluate_policy combine most is_match ordered insert sql_rpa.Text.upper sql_rpa.Text.lower
    sql_rpa.Text.contains
conflict = refl

evaluate_policy-IsStrictest_example :
    IsStrictest
      (Applies ("acme" ∷ []) (usual ∷ large ∷ []) operation)
      (evaluate_policy ("acme" ∷ []) (usual ∷ large ∷ []) operation)
evaluate_policy-IsStrictest_example =
    evaluate_policy-IsStrictest ("acme" ∷ []) (usual ∷ large ∷ []) operation
