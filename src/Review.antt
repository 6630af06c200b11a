-- ===== src/Review.antt =====
-- The rows behind one review in backend/api/db_operations.py, and the helpers that read and write
-- them. Every statement of these handlers is filtered by the id of one review (and, for the task,
-- by tenant), so `Rows` holds what the tables have under that id. Times are not modelled.
pub mod Where
pub mod Approve
pub mod Manage
pub mod World
mod Tests
use sql_rpa.Base.{
  ℕ, ◌+◌, String, Bool, true, false, ◌&&◌, ◌||◌, not, Option, none, some, List, [], ◌∷◌, ◌++◌, ◌==◌,
  leb, any, str_eq, str_in, truthy, or_empty, map, keep, codes, if◌then◌else◌,
}
use sql_rpa.Text.{Text, strip, upper, split, text_in}

pub data Status : Type 0 where
  awaiting_review pending pending_second_approval escalated executing completed failed
        executed_record_pending rejected expired revoked :
      Status

abbrev rank : Status → ℕ
rank awaiting_review = 0
rank pending = 1
rank pending_second_approval = 2
rank escalated = 3
rank executing = 4
rank completed = 5
rank failed = 6
rank executed_record_pending = 7
rank rejected = 8
rank expired = 9
rank revoked = 10

abbrev pub status_eq : Status → Status → Bool
status_eq a b = rank a == rank b

abbrev pub status_in : Status → List Status → Bool
status_in s xs = any (status_eq s) xs

-- The statuses of a task that still waits for a decision.
abbrev pub active : List Status
active = awaiting_review ∷ pending_second_approval ∷ escalated ∷ []

pub data Operation : Type 0 where
  insert update delete : Operation

abbrev pub name_of : Operation → Text
name_of insert = codes "INSERT"
name_of update = codes "UPDATE"
name_of delete = codes "DELETE"

-- `DbReviewTask`; an optional column that is NULL is `none`.
pub record Task : Type 0 where
  pub tenant_id : String
  pub sql : Text
  pub operation_type : Operation
  pub affected_table : Text
  pub affected_rows : ℕ
  pub required_approvals : ℕ
  pub status : Status
  pub assigned_to : Option String
  pub submitted_by : Option String
  pub approved_by : Option String
  pub reviewer_note : String
  pub backup_id : Option String
  pub first_approver_id : Option String
  pub second_approver_id : Option String
  pub has_result : Bool

pub data SagaState : Type 0 where
  prepared backup_ready target_committed target_rolled_back records_repaired : SagaState

-- `DbExecutionSaga`, whose `review_id` is unique.
pub record Saga : Type 0 where
  pub tenant_id : String
  pub state : SagaState
  pub backup_id : Option String
  pub affected_rows : ℕ

-- A line of the operation log under this review.
pub record Log : Type 0 where
  pub status : Status
  pub affected_rows : ℕ
  pub backup_id : Option String
  pub executed_by : String
  pub submitted_by : Option String
  pub approved_by : Option String

pub data Event : Type 0 where
  moved : Status → Event
  transferred : String → Event

-- A commit of the review's SQL in the target database: who ran it, and the task that was read.
pub record Commit : Type 0 where
  pub executed_by : String
  pub task : Task

pub record Rows : Type 0 where
  pub task : Option Task
  pub saga : Option Saga
  pub logs : List Log
  pub events : List Event
  pub commits : List Commit

-- The request: the user, the tenants in its scope, `get_tenant_id()`, and `auth_enabled(request)`.
pub record Request : Type 0 where
  pub user_id : String
  pub username : String
  pub role : String
  pub scope_ids : List String
  pub tenant_id : String
  pub auth : Bool
  pub reviewer_note : String

pub record Settings : Type 0 where
  pub four_eyes_enabled : Bool
  pub four_eyes_operation_types : Text
  pub four_eyes_affected_rows : ℕ

-- `item.strip().upper() for item in settings.four_eyes_operation_types.split(",") if item.strip()`
abbrev is_word : Text → Bool
is_word [] = false
is_word (_ ∷ _) = true

operation_types : Settings → List Text
operation_types c = map upper (keep is_word (map strip (split b',' c.four_eyes_operation_types)))

-- `_requires_second_approval`; `required_approvals or 1` reads 0 as 1.
unfoldable pub requires_second_approval : Settings → Task → Bool
unfolding operation_types
requires_second_approval c t =
    if leb 2 t.required_approvals
    then true
    else if not c.four_eyes_enabled
    then false
    else if text_in (name_of t.operation_type) (operation_types c)
    then true
    else leb c.four_eyes_affected_rows t.affected_rows

-- `_get_review_task`
abbrev pub in_scope : List String → Option Task → Option Task
in_scope scope none = none
in_scope scope (some t) = if str_in t.tenant_id scope then some t else none

abbrev pub read_task : List String → Rows → Option Task
read_task scope rows = in_scope scope rows.task

-- `_update_review_task_status`: writes a status whatever the old one; empty arguments keep the
-- columns. `approved_by` and the note are "" where the call gives none.
set_status : Status → Option String → String → String → Task → Task
set_status status backup approved note t = record t {
  status = status;
  backup_id = elim backup [
    | none ↦ t.backup_id
    | some b ↦ if truthy b then some b else t.backup_id
  ];
  reviewer_note = if truthy note then note else t.reviewer_note;
  approved_by = if truthy approved then some approved else t.approved_by;
}

unfoldable pub update_status : List String → Status → Option String → String → String → Rows → Rows
unfolding set_status
update_status scope status backup approved note rows = elim rows.task [
  | none ↦ rows
  | some t ↦
      if str_in t.tenant_id scope
      then (record rows { task = some (set_status status backup approved note t) })
      else rows
]

-- `_transition_review_task` up to its commit: one UPDATE that is guarded by the old status. The
-- event that follows is `emit`.
unfoldable pub transition : List String → List Status → Status → (Task → Task) → Rows → Rows × Bool
transition scope from to fields rows = elim rows.task [
  | none ↦ (rows, false)
  | some t ↦
      if str_in t.tenant_id scope && status_in t.status from
      then (record rows { task = some (fields (record t { status = to })) }, true)
      else (rows, false)
]

-- `_emit_domain_event`
abbrev pub emit : Event → Rows → Rows
emit e rows = record rows { events = rows.events ++ e ∷ [] }

-- `_create_execution_saga`: the unique key refuses a second row.
unfoldable pub create_saga : String → Rows → Rows × Bool
create_saga tenant rows = elim rows.saga [
  | some _ ↦ (rows, false)
  | none ↦ (
    record rows {
      saga =
          some
            (record { tenant_id = tenant; state = prepared; backup_id = none; affected_rows = 0 });
    },
    true,
  )
]

-- `_update_execution_saga`, with the columns that the call gives.
unfoldable pub update_saga : SagaState → (Saga → Saga) → Rows → Rows
update_saga state fields rows = elim rows.saga [
  | none ↦ rows
  | some s ↦ record rows { saga = some (fields (record s { state = state })) }
]

-- `_record_approval`: the task is looked up by the tenant of the request, not by its scope.
unfoldable pub record_approval : String → String → Bool → Rows → Rows
record_approval tenant approver is_first rows = elim rows.task [
  | none ↦ rows
  | some t ↦
      if str_eq t.tenant_id tenant
      then (record rows {
        task = some (
            if is_first
            then record t { first_approver_id = some approver }
            else record t { second_approver_id = some approver });
      })
      else rows
]

abbrev pub add_log : Log → Rows → Rows
add_log l rows = record rows { logs = rows.logs ++ l ∷ [] }
