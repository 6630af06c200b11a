-- ===== src/Submission.antt =====
-- `submit_review` of backend/api/db_operations.py: how a write enters the queue of reviews, with its
-- risk score and the key that makes a repeated request harmless. Previews, the log entry and times
-- are left out. What the target database answers, and the rows that other requests add between the
-- look for the key and the insertion, are an `Input`.
pub mod Replay
pub mod Admitted
mod Tests
use sql_rpa.Base.{
  ℕ, ◌+◌, ◌≡◌, refl, String, Bool, true, false, ◌&&◌, ◌||◌, not, Option, none, some, List, [], ◌∷◌,
  ◌++◌, leb, ltb, min, length, any, find, is_some, codes, if◌then◌else◌,
}
use sql_rpa.Text.{Text, text_eq, text_in}
use sql_rpa.Text.Regex.{
  Regex, Place, set, group, end, start, boundary, space, is_word, is_digit, many, chain, one_of,
  some_of, maybe, word, search, matches,
}
use sql_rpa.Safety.{SafetyResult, check, first_word}
use sql_rpa.Review.Where.{Where, clause, disallowed, extract_where}
use sql_rpa.Policy.{ApprovalPolicy, Operation, PolicyResult, evaluate_policy}

-- The columns of `DbReviewTask` that a submission writes.
pub record ReviewTask : Type 0 where
  pub id : String
  pub tenant_id : Text
  pub organization_id : Text
  pub membership_id : Option String
  pub idempotency_key : Option Text
  pub sql : Text
  pub reason : Text
  pub operation_type : Text
  pub affected_table : Text
  pub affected_rows : ℕ
  pub submitted_by : String
  pub policy_id : Option String
  pub policy_version : Option ℕ
  pub required_approvals : ℕ
  pub risk_score : ℕ

pub data Reply : Type 0 where
  created replayed : ReviewTask → Reply
  http : ℕ → Reply
  raised : Reply

-- An absent key is empty, which is as good as absent.
pub record Request : Type 0 where
  pub sql : Text
  pub reason : Text
  pub idempotency_key : Text

-- The identity of the request; `context` is an organization with a membership.
pub record Caller : Type 0 where
  pub id : String
  pub tenant_id : Text
  pub context : Option (Text × String)

-- `tables` and `count` are `none` if the query raises; `count` is 0 for no row.
pub record Input : Type 0 where
  pub where_required : Bool
  pub scope_ids : List String
  pub policies : List ApprovalPolicy
  pub connected : Bool
  pub tables : Option (List Text)
  pub count : Option ℕ
  pub id : String
  pub meanwhile : List ReviewTask

abbrev quote : Regex
quote = maybe (set (λ c. text_in (c ∷ []) (codes "\"" ∷ codes "`" ∷ codes "[" ∷ [])))

abbrev table_re : Text → Regex
table_re keyword = chain (
    boundary
    ∷ word keyword
    ∷ some_of space
    ∷ quote
    ∷ group (some_of (set is_word))
    ∷ maybe (set (λ c. text_in (c ∷ []) (codes "\"" ∷ codes "`" ∷ codes "]" ∷ [])))
    ∷ [])

abbrev table_at : Option Place → Text
table_at none = codes "unknown"
table_at (some p) = elim p.found [ none ↦ codes "unknown" | some table ↦ table ]

abbrev table_keyword : Text → Option Text
table_keyword op =
    if text_eq op (codes "SELECT") || text_eq op (codes "DELETE")
    then some (codes "from")
    else if text_eq op (codes "INSERT")
    then some (codes "into")
    else if text_eq op (codes "UPDATE")
    then some (codes "update")
    else none

-- `_extract_table_name`
pub extract_table_name : Text → Text → Text
extract_table_name sql op = elim (table_keyword op) [
  | none ↦ codes "unknown"
  | some keyword ↦ table_at (search (table_re keyword) sql)
]

-- `_quote_table_if_known` finds the table; the quoted name itself goes to the database only.
abbrev table_name_re : Regex
table_name_re =
    chain (start ∷ set (λ c. is_word c && not (is_digit c)) ∷ many (set is_word) ∷ end ∷ [])

pub is_known_table : Option (List Text) → Text → Bool
is_known_table none table = false
is_known_table (some tables) table =
    not (text_eq table [])
    && not (text_eq table (codes "unknown"))
    && matches table_name_re table
    && text_in table tables

abbrev pub has_where : Option Text → Bool
has_where none = false
has_where (some []) = false
has_where (some (_ ∷ _)) = true

-- `_build_count_sql` has a query: for an update with a condition, or a deletion.
abbrev has_count_sql : Text → Option Text → Bool → Bool
has_count_sql op condition known =
    known && (text_eq op (codes "DELETE") || (text_eq op (codes "UPDATE") && has_where condition))

abbrev count_of : Option ℕ → ℕ
count_of none = 0
count_of (some n) = n

pub count_affected : Input → Text → Option Text → Text → ℕ
unfolding is_known_table
count_affected inp op condition table =
    if has_count_sql op condition (is_known_table inp.tables table) then count_of inp.count else 0

abbrev sensitive_re : Regex
sensitive_re = chain (
    boundary
    ∷ one_of (
        word (codes "password")
        ∷ word (codes "secret")
        ∷ word (codes "token")
        ∷ word (codes "api_key")
        ∷ word (codes "credit_card")
        ∷ word (codes "phone")
        ∷ word (codes "email")
        ∷ [])
    ∷ boundary
    ∷ [])

abbrev base_score : Text → ℕ
base_score op =
    if text_eq op (codes "INSERT")
    then 15
    else if text_eq op (codes "UPDATE")
    then 35
    else if text_eq op (codes "DELETE")
    then 55
    else 10

abbrev rows_score : ℕ → ℕ
rows_score n = if leb 1000 n then 30 else if leb 100 n then 20 else if leb 10 n then 10 else 0

abbrev when : Bool → ℕ → ℕ
when b n = if b then n else 0

abbrev some_conflict : List (List String) → Bool
some_conflict [] = false
some_conflict (_ ∷ _) = true

-- `_calculate_risk_score`, with the condition that `_extract_where` finds; the factors are left out.
pub calculate_risk_score : Text → Text → Option Text → ℕ → List (List String) → ℕ
calculate_risk_score op sql condition affected conflicts =
    min
      (base_score op
        + rows_score affected
        + when (matches sensitive_re sql) 20
        + when (text_in op (codes "UPDATE" ∷ codes "DELETE" ∷ []) && not (has_where condition)) 40
        + when (some_conflict conflicts) 10)
      100

abbrev pub organization_of : Caller → Text
organization_of user = elim user.context [
  | none ↦ user.tenant_id
  | some (organization, _) ↦ organization
]

-- `scoped_idempotency_key`
abbrev pub scoped_key : Caller → Text → Option Text
scoped_key user [] = none
scoped_key user (c ∷ key) = elim user.context [
  | none ↦ some (c ∷ key)
  | some (organization, _) ↦ some (organization ++ b'|' ∷ c ∷ key)
]

abbrev pub same_key : Option Text → Text → Bool
same_key none key = false
same_key (some k) key = text_eq k key

abbrev pub has_key : Text → Text → ReviewTask → Bool
has_key organization key t =
    text_eq t.organization_id organization && same_key t.idempotency_key key

abbrev pub lookup : Text → Text → List ReviewTask → Option ReviewTask
lookup organization key rows = find (has_key organization key) rows

abbrev pub is_same : Request → ReviewTask → Bool
is_same req t = text_eq t.sql req.sql && text_eq t.reason req.reason

pub replay : Request → ReviewTask → Reply
replay req t = if is_same req t then replayed t else http 409

-- `_create_review_task` under the unique key of organization and key, and the answer to its error.
pub create_review_task : Request → ReviewTask → List ReviewTask → List ReviewTask × Reply
unfolding replay
create_review_task req t rows = elim t.idempotency_key [
  | none ↦ (rows ++ t ∷ [], created t)
  | some key ↦ elim (lookup t.organization_id key rows) [
    | some existing ↦ (rows, replay req existing)
    | none ↦ (rows ++ t ∷ [], created t)
  ]
]

abbrev operation_of : Input → Text → Text → Option Text → Operation
operation_of inp sql op condition = record {
  operation_type = op;
  table = extract_table_name sql op;
  affected_rows = count_affected inp op condition (extract_table_name sql op);
  sql = sql;
}

abbrev new_task : Input → Caller → Request → Option Text → Operation → PolicyResult → ReviewTask
new_task inp user req condition op result = record {
  id = inp.id;
  tenant_id = user.tenant_id;
  organization_id = organization_of user;
  membership_id = elim user.context [ none ↦ none | some (_, membership) ↦ some membership ];
  idempotency_key = scoped_key user req.idempotency_key;
  sql = req.sql;
  reason = req.reason;
  operation_type = op.operation_type;
  affected_table = op.table;
  affected_rows = op.affected_rows;
  submitted_by = user.id;
  policy_id = elim result.policy [ none ↦ none | some p ↦ some p.id ];
  policy_version = elim result.policy [ none ↦ none | some p ↦ some p.version ];
  required_approvals = result.required_approvals;
  risk_score =
      calculate_risk_score op.operation_type req.sql condition op.affected_rows result.conflicts;
}

abbrev pub task_of : Input → Caller → Request → Text → Option Text → ReviewTask
task_of inp user req op condition =
    let operation = operation_of inp req.sql op condition in
    new_task inp user req condition operation (evaluate_policy inp.scope_ids inp.policies operation)

abbrev pub review_operations : List Text
review_operations = codes "INSERT" ∷ codes "UPDATE" ∷ codes "DELETE" ∷ []

-- From the first word on: the condition is checked before anything is counted.
submit_word : Input → Caller → Request → List ReviewTask → Option Text → List ReviewTask × Reply
unfolding create_review_task calculate_risk_score count_affected extract_table_name
submit_word inp user req rows none = (rows, raised)
submit_word inp user req rows (some op) =
    if not (text_in op review_operations) then (rows, http 400) else elim (extract_where req.sql) [
      | disallowed ↦ (rows, http 400)
      | clause condition ↦
          create_review_task req (task_of inp user req op condition) (rows ++ inp.meanwhile)
    ]

submit_new : Input → Caller → Request → List ReviewTask → List ReviewTask × Reply
unfolding submit_word
submit_new inp user req rows =
    if not inp.connected
    then (rows, raised)
    else if (check inp.where_required req.sql []).blocked
    then (rows, http 400)
    else submit_word inp user req rows (first_word req.sql)

submit_key : Input → Caller → Request → List ReviewTask → Option Text → List ReviewTask × Reply
unfolding submit_new replay
submit_key inp user req rows none = submit_new inp user req rows
submit_key inp user req rows (some key) =
    if ltb 200 (length req.idempotency_key)
    then (rows, http 400)
    else elim (lookup (organization_of user) key rows) [
      | some existing ↦ (rows, replay req existing)
      | none ↦ submit_new inp user req rows
    ]

-- `submit_review`
pub submit_review : Input → Caller → Request → List ReviewTask → List ReviewTask × Reply
unfolding submit_key
submit_review inp user req rows = submit_key inp user req rows (scoped_key user req.idempotency_key)
