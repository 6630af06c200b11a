-- ===== src/Policy.antt =====
-- backend/approval_policy.py: the policy that decides how many approvals a review needs.
pub mod Strictest
mod Tests
use sql_rpa.Base.{
  ℕ, String, Bool, true, false, ◌&&◌, ◌||◌, not, Option, none, some, List, [], ◌∷◌, ◌==◌, ltb, leb,
  any, all, find, keep, map, max, str_in, if◌then◌else◌,
}
use sql_rpa.Text.{Text, upper, lower, contains, text_in}

-- `ApprovalPolicy`
pub record ApprovalPolicy : Type 0 where
  pub id : String
  pub tenant_id : String
  pub version : ℕ
  pub enabled : Bool
  pub priority : ℕ
  pub operation_types : List Text
  pub tables : List Text
  pub sensitive_columns : List Text
  pub min_affected_rows : ℕ
  pub required_approvals : ℕ

-- What a write does, as `evaluate_policy` is told.
pub record Operation : Type 0 where
  pub operation_type : Text
  pub table : Text
  pub affected_rows : ℕ
  pub sql : Text

-- `conflicts` has the ids of the policies of each conflict.
pub record PolicyResult : Type 0 where
  pub required_approvals : ℕ
  pub policy : Option ApprovalPolicy
  pub matches : List ApprovalPolicy
  pub conflicts : List (List String)

-- `order_by(priority, version.desc())`, which leaves open how equal rows are ordered: here they
-- stay as they are.
abbrev comes_first : ApprovalPolicy → ApprovalPolicy → Bool
comes_first p q = ltb p.priority q.priority || (p.priority == q.priority && leb q.version p.version)

unfoldable pub insert : ApprovalPolicy → List ApprovalPolicy → List ApprovalPolicy
insert p [] = p ∷ []
insert p (q ∷ qs) = let rest = insert p qs in if comes_first p q then p ∷ q ∷ qs else q ∷ rest

unfoldable pub ordered : List ApprovalPolicy → List ApprovalPolicy
unfolding insert
ordered [] = []
ordered (p ∷ ps) = insert p (ordered ps)

abbrev pub is_visible : List String → ApprovalPolicy → Bool
is_visible scope_ids p = p.enabled && str_in p.tenant_id scope_ids

abbrev is_empty : List Text → Bool
is_empty [] = true
is_empty (_ ∷ _) = false

-- The four conditions of the loop.
unfoldable pub is_match : Operation → ApprovalPolicy → Bool
is_match op p =
    (is_empty p.operation_types || text_in (upper op.operation_type) (map upper p.operation_types))
    && (is_empty p.tables || text_in (lower op.table) (map lower p.tables))
    && not (ltb op.affected_rows p.min_affected_rows)
    && (is_empty p.sensitive_columns
        || any (λ column. contains (lower column) (lower op.sql)) p.sensitive_columns)

-- `max(policy.required_approvals for policy in matches)`
unfoldable pub most : List ApprovalPolicy → ℕ
most [] = 0
most (p ∷ ps) = max p.required_approvals (most ps)

-- `len({policy.required_approvals for policy in matches}) > 1`
abbrev differ : List ApprovalPolicy → Bool
differ [] = false
differ (p ∷ ps) = not (all (λ q. q.required_approvals == p.required_approvals) ps)

abbrev conflict_of : List ApprovalPolicy → List (List String)
conflict_of ps = if differ ps then map (λ p. p.id) ps ∷ [] else []

unfoldable pub combine : List ApprovalPolicy → PolicyResult
unfolding most
combine [] = record { required_approvals = 1; policy = none; matches = []; conflicts = [] }
combine (p ∷ ps) = record {
  required_approvals = most (p ∷ ps);
  policy = find (λ q. q.required_approvals == most (p ∷ ps)) (p ∷ ps);
  matches = p ∷ ps;
  conflicts = conflict_of (p ∷ ps);
}

-- `evaluate_policy`, with the visible organizations and the table.
unfoldable pub evaluate_policy : List String → List ApprovalPolicy → Operation → PolicyResult
unfolding combine ordered
evaluate_policy scope_ids policies op =
    combine (keep (is_match op) (ordered (keep (is_visible scope_ids) policies)))
