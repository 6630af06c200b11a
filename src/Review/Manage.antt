-- ===== src/Review/Manage.antt =====
-- The other handlers of a review: `reject_review`, `review_state_action`, `expire_overdue_reviews`
-- and `_repair_committed_execution`. Each reads the task in one transaction and writes in a later
-- one; the write takes the task that was read, so that other requests may run in between.
pub mod Kept
pub mod Repair
pub mod Written
use sql_rpa.Base.{
  ℕ, zero, suc, String, Bool, true, false, ◌&&◌, ◌||◌, not, Option, none, some, List, [], ◌∷◌,
  str_eq, str_in, truthy, or_empty, if◌then◌else◌,
}
use sql_rpa.Review.{
  Status, awaiting_review, pending, pending_second_approval, escalated, completed, rejected,
  expired, revoked, status_in, active, Task, Saga, SagaState, target_committed, records_repaired,
  Log, moved, transferred, Rows, Request, read_task, update_status, transition, emit, update_saga,
  add_log,
}

pub data Reply : Type 0 where
  done : Reply
  http : ℕ → Reply
  lookup_error value_error : Reply

-- The statuses that can still be rejected.
abbrev pub rejectable : List Status
rejectable = awaiting_review ∷ pending ∷ pending_second_approval ∷ escalated ∷ []

-- `assigned_to` names somebody else, and the user is no admin.
abbrev pub is_blocked : Request → Task → Bool
is_blocked req t =
    truthy (or_empty t.assigned_to)
    && not (str_eq (or_empty t.assigned_to) req.user_id)
    && not (str_eq req.role "admin")

unfoldable pub reject_check : Request → Option Task → Reply
reject_check req none = http 404
reject_check req (some t) =
    if not (status_in t.status rejectable)
    then http 409
    else if is_blocked req t
    then http 403
    else done

abbrev rejection : Request → Task → Log
rejection req t = record {
  status = rejected;
  affected_rows = 0;
  backup_id = none;
  executed_by = req.username;
  submitted_by = t.submitted_by;
  approved_by = some req.user_id;
}

-- `logged` says if the log entry could be written; its exception is dropped.
unfoldable pub reject_write : Bool → Request → Task → Rows → Rows × Reply
reject_write logged req t rows =
    let (rows', changed) =
      transition req.scope_ids rejectable rejected
        (λ s. record s { approved_by = some req.user_id; reviewer_note = req.reviewer_note })
        rows in
    if changed
    then (
      if logged
          then add_log (rejection req t) (emit (moved rejected) rows')
          else emit (moved rejected) rows',
      done,
    )
    else (rows', http 409)

pub data Action : Type 0 where
  expire revoke escalate transfer unsupported : Action

abbrev manages_routing : Action → Bool
manages_routing expire = true
manages_routing escalate = true
manages_routing transfer = true
manages_routing _ = false

abbrev is_approver : Request → Bool
is_approver req = str_eq req.role "approver" || str_eq req.role "admin"

-- What an action requires besides the routing role. `is_member` is the answer of the query for an
-- active membership of the assignee as approver or admin, which multi-tenant mode makes.
action_check : Bool → Bool → Request → Action → String → Task → Reply
action_check multi_tenant is_member req expire assigned t = done
action_check multi_tenant is_member req revoke assigned t =
    if truthy (or_empty t.submitted_by)
      && not (str_eq (or_empty t.submitted_by) req.user_id)
      && not (str_eq req.role "admin")
    then http 403
    else done
action_check multi_tenant is_member req escalate assigned t = done
action_check multi_tenant is_member req transfer assigned t =
    if not (truthy assigned)
    then http 400
    else if multi_tenant && not is_member
    then http 422
    else done
action_check multi_tenant is_member req unsupported assigned t = http 404

unfoldable pub state_action_check : Bool → Bool → Request → Action → String → Option Task → Reply
unfolding action_check
state_action_check multi_tenant is_member req action assigned none = http 404
state_action_check multi_tenant is_member req action assigned (some t) =
    if manages_routing action && not (is_approver req)
    then http 403
    else action_check multi_tenant is_member req action assigned t

-- `assigned_to or None`
abbrev or_none : String → Option String
or_none s = if truthy s then some s else none

-- The guarded write of an action, with the event of the transition.
action_write : Request → Action → String → Task → Rows → Rows × Bool
action_write req expire assigned t rows = transition req.scope_ids active expired (λ s. s) rows
action_write req revoke assigned t rows = transition req.scope_ids active revoked (λ s. s) rows
action_write req escalate assigned t rows =
    transition req.scope_ids (awaiting_review ∷ pending_second_approval ∷ []) escalated
      (λ s. record s { assigned_to = or_none assigned }) rows
action_write req transfer assigned t rows =
    transition req.scope_ids active t.status (λ s. record s { assigned_to = some assigned }) rows
action_write req unsupported assigned t rows = (rows, false)

event_of : Action → String → Task → Rows → Rows
event_of expire assigned t rows = emit (moved expired) rows
event_of revoke assigned t rows = emit (moved revoked) rows
event_of escalate assigned t rows = emit (moved escalated) rows
event_of transfer assigned t rows = emit (transferred assigned) (emit (moved t.status) rows)
event_of unsupported assigned t rows = rows

unfoldable pub state_action_write : Request → Action → String → Task → Rows → Rows × Reply
unfolding action_write event_of
state_action_write req action assigned t rows =
    let (rows', changed) = action_write req action assigned t rows in
    if changed then (event_of action assigned t rows', done) else (rows', http 409)

-- One round of `expire_overdue_reviews`, in the tenant of the row that was found overdue.
unfoldable pub expire_overdue : Task → Rows → Rows
expire_overdue t rows =
    let (rows', changed) = transition (t.tenant_id ∷ []) active expired (λ s. s) rows in
    if changed then emit (moved expired) rows' else rows'

-- `_repair_committed_execution` after its reads: the three writes, of which an exception may leave
-- only the first ones done.
abbrev has_log : Rows → Bool
has_log rows = elim rows.logs [ [] ↦ false | _ ∷ _ ↦ true ]

abbrev repair_log : String → Task → Saga → Log
repair_log who t s = record {
  status = completed;
  affected_rows = s.affected_rows;
  backup_id = s.backup_id;
  executed_by = who;
  submitted_by = t.submitted_by;
  approved_by = t.approved_by;
}

pub repair_status : List String → Task → Saga → Rows → Rows
repair_status scope t s rows =
    update_status scope completed s.backup_id (or_empty t.approved_by) t.reviewer_note rows

pub repair_entry : String → Task → Saga → Bool → Rows → Rows
repair_entry who t s had_log rows = if had_log then rows else add_log (repair_log who t s) rows

pub repair_writes : ℕ → List String → String → Task → Saga → Bool → Rows → Rows
unfolding repair_status repair_entry
repair_writes zero scope who t s had_log rows = rows
repair_writes (suc zero) scope who t s had_log rows = repair_status scope t s rows
repair_writes (suc (suc zero)) scope who t s had_log rows =
    repair_entry who t s had_log (repair_status scope t s rows)
repair_writes _ scope who t s had_log rows =
    update_saga records_repaired (λ r. r)
      (repair_entry who t s had_log (repair_status scope t s rows))

-- The guards on the rows that were read. The task is looked up by the tenant of the request.
repair_found : ℕ → String → List String → String → Task → Saga → Rows → Rows × Reply
unfolding repair_writes
repair_found writes tenant scope who t s rows =
    if not (str_eq t.tenant_id tenant) then (rows, lookup_error) else elim s.state [
      | records_repaired ↦ (rows, done)
      | target_committed ↦ (repair_writes writes scope who t s (has_log rows) rows, done)
      | _ ↦ (rows, value_error)
    ]

-- In one step, though each write is a transaction of its own. `writes` is the number of writes that
-- take effect, 3 or more for all.
unfoldable pub repair : ℕ → String → List String → String → Rows → Rows × Reply
unfolding repair_found
repair writes tenant scope who rows = elim rows.saga [
  | none ↦ (rows, lookup_error)
  | some s ↦ elim rows.task [
    | none ↦ (rows, lookup_error)
    | some t ↦ repair_found writes tenant scope who t s rows
  ]
]
