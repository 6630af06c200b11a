-- ===== src/Review/Approve.antt =====
-- `approve_review` as a program of steps: between two of them other requests may run. A step is one
-- transaction on the program's database or one call of the target database.
pub mod Quiet
pub mod Steps
pub mod Outcome
pub mod Cleared
use sql_rpa.Base.{
  ℕ, zero, suc, ◌+◌, String, Bool, true, false, ◌&&◌, ◌||◌, not, Option, none, some, List, [], ◌∷◌,
  ◌++◌, ◌≡◌, refl, ltb, str_eq, str_in, truthy, or_empty, if◌then◌else◌,
}
use sql_rpa.Text.{Text}
use sql_rpa.Review.{
  Status, awaiting_review, pending_second_approval, escalated, executing, completed, failed,
  executed_record_pending, status_eq, status_in, active, Task, Saga, SagaState, backup_ready,
  target_committed, target_rolled_back, records_repaired, Log, Event, moved, Commit, Rows, Request,
  Settings, requires_second_approval, read_task, update_status, transition, emit, create_saga,
  update_saga, record_approval, add_log,
}
use sql_rpa.Review.Where.{Where, clause, disallowed, extract_where}

-- How a call ends: well, by an exception before it took effect, or by one after.
pub data Answer : Type 0 where
  fine raised raised_after : Answer

-- What a step meets: the answer, the id of a new backup, and the row count that the target database
-- reports (`none` is a negative one).
pub record Input : Type 0 where
  pub answer : Answer
  pub backup_id : String
  pub wrote : Option ℕ

-- `crashed` is an exception that leaves the handler.
pub data Response : Type 0 where
  second_needed : Response
  completed_with : ℕ → Option String → Response
  record_pending : ℕ → Option String → Response
  http : ℕ → Response
  crashed : Response

-- Where the handler stands, with the local variables that it still uses.
pub data Point : Type 0 where
  reading : Point
  first_claim first_event first_record : Task → Point
  claim claim_event connecting new_saga : Task → Point
  approval backing_up : Task → Point
  mark_backup : Task → String → Point
  executing_sql : Task → Option String → Point
  capturing mark_committed completing storing logging mark_repaired :
      Task → Option String → ℕ → Point
  pending_saga pending_status : Option String → ℕ → Point
  undo_saga undo_status : Point
  done : Response → Point

-- The guards on the task that was read, down to the first write.
unfoldable pub admit : Settings → Request → Task → Point
admit c req t =
    if not (status_in t.status active)
    then done (http 409)
    else if truthy (or_empty t.assigned_to)
        && not (str_eq (or_empty t.assigned_to) req.user_id)
        && not (str_eq req.role "admin")
    then done (http 403)
    else if not req.auth
    then claim t
    else if truthy (or_empty t.submitted_by) && str_eq (or_empty t.submitted_by) req.user_id
    then done (http 403)
    else if not (requires_second_approval c t)
    then claim t
    else if status_in t.status (awaiting_review ∷ escalated ∷ [])
        && not (truthy (or_empty t.approved_by))
    then first_claim t
    else if str_eq (or_empty t.approved_by) req.user_id
    then done (http 409)
    else claim t

-- After `_get_review_task`.
read_point : Settings → Request → Answer → Option Task → Point
read_point c req fine none = done (http 404)
read_point c req fine (some t) = admit c req t
read_point c req _ found = done crashed

-- A write with the next point, and the point of the exception's handler.
abbrev attempt : Answer → (Rows → Rows) → Rows → Point → Point → Rows × Point
attempt fine write rows next handler = (write rows, next)
attempt raised write rows next handler = (rows, handler)
attempt raised_after write rows next handler = (write rows, handler)

-- A guarded write, which says if it changed the row.
abbrev decide : Answer → Rows × Bool → Rows → Point → Rows × Point
decide fine (rows', changed) rows next = (rows', if changed then next else done (http 409))
decide raised (rows', changed) rows next = (rows, done crashed)
decide raised_after (rows', changed) rows next = (rows', done crashed)

abbrev given : Option Text → Bool
given none = false
given (some []) = false
given (some (_ ∷ _)) = true

-- `affected if affected >= 0 else task["affected_rows"]`
abbrev actual_rows : Option ℕ → Task → ℕ
actual_rows none t = t.affected_rows
actual_rows (some n) t = n

-- Before the business SQL: the backup of the rows under the WHERE clause.
backup_point : Task → Where → Input → Point
backup_point t disallowed inp = done (http 400)
backup_point t (clause w) inp =
    if given w
    then elim inp.answer [ fine ↦ mark_backup t inp.backup_id | _ ↦ undo_saga ]
    else executing_sql t none

module _ (c : Settings) (req : Request) where
  abbrev committed : Task → Rows → Rows
  committed t rows = record rows {
    commits = rows.commits ++ (record { executed_by = req.user_id; task = t }) ∷ [];
  }

  -- The transaction of the target database may also raise after its commit, when the connection is
  -- given back.
  run_sql : Answer → Task → Option String → Option ℕ → Rows → Rows × Point
  run_sql answer t b wrote rows =
      attempt answer (committed t) rows (capturing t b (actual_rows wrote t)) undo_saga

  -- The row is read again; without one the assignment raises.
  store_result : Answer → Task → Option String → ℕ → Option Task → Rows → Rows × Point
  store_result answer t b n none rows = (rows, pending_saga b n)
  store_result answer t b n (some stored) rows =
      attempt answer (λ r. record r { task = some (record stored { has_result = true }) }) rows
        (logging t b n) (pending_saga b n)

  abbrev log_of : Task → Option String → ℕ → Log
  log_of t b n = record {
    status = completed;
    affected_rows = n;
    backup_id = b;
    executed_by = req.username;
    submitted_by = t.submitted_by;
    approved_by = some req.user_id;
  }

  unfoldable pub step : Input → Rows → Point → Rows × Point
  unfolding admit read_point backup_point run_sql store_result
  step inp rows reading = (rows, read_point c req inp.answer (read_task req.scope_ids rows))
  step inp rows (first_claim t) =
      decide inp.answer
        (transition req.scope_ids (awaiting_review ∷ escalated ∷ []) pending_second_approval
          (λ s. record s { approved_by = some req.user_id; reviewer_note = req.reviewer_note })
          rows)
        rows (first_event t)
  step inp rows (first_event t) =
      attempt inp.answer (emit (moved pending_second_approval)) rows (first_record t) (done crashed)
  step inp rows (first_record t) =
      attempt inp.answer (record_approval req.tenant_id req.user_id true) rows (done second_needed)
        (done crashed)
  step inp rows (claim t) =
      decide inp.answer (transition req.scope_ids active executing (λ s. s) rows) rows
        (claim_event t)
  step inp rows (claim_event t) =
      attempt inp.answer (emit (moved executing)) rows (connecting t) (done crashed)
  step inp rows (connecting t) = attempt inp.answer (λ r. r) rows (new_saga t) (done crashed)
  step inp rows (new_saga t) = decide inp.answer (create_saga req.tenant_id rows) rows (approval t)
  step inp rows (approval t) =
      attempt inp.answer
        (record_approval req.tenant_id req.user_id
          (not (status_eq t.status pending_second_approval)))
        rows (backing_up t) undo_saga
  step inp rows (backing_up t) =
      if ltb 0 t.affected_rows
      then (rows, backup_point t (extract_where t.sql) inp)
      else (rows, executing_sql t none)
  step inp rows (mark_backup t b) =
      attempt inp.answer (update_saga backup_ready (λ s. record s { backup_id = some b })) rows
        (executing_sql t (some b)) undo_saga
  step inp rows (executing_sql t b) = run_sql inp.answer t b inp.wrote rows
  step inp rows (capturing t b n) =
      attempt inp.answer (λ r. r) rows (mark_committed t b n) (pending_saga b n)
  step inp rows (mark_committed t b n) =
      attempt inp.answer
        (update_saga target_committed (λ s. record s { backup_id = b; affected_rows = n })) rows
        (completing t b n) (pending_saga b n)
  step inp rows (completing t b n) =
      attempt inp.answer (update_status req.scope_ids completed b req.user_id req.reviewer_note)
        rows (storing t b n) (pending_saga b n)
  step inp rows (storing t b n) = store_result inp.answer t b n (read_task req.scope_ids rows) rows
  step inp rows (logging t b n) =
      attempt inp.answer (add_log (log_of t b n)) rows (mark_repaired t b n) (pending_saga b n)
  step inp rows (mark_repaired t b n) =
      attempt inp.answer (update_saga records_repaired (λ s. s)) rows (done (completed_with n b))
        (pending_saga b n)
  step inp rows (pending_saga b n) =
      attempt inp.answer
        (update_saga target_committed (λ s. record s { backup_id = b; affected_rows = n })) rows
        (pending_status b n) (done (record_pending n b))
  step inp rows (pending_status b n) =
      attempt inp.answer (update_status req.scope_ids executed_record_pending b "" "") rows
        (done (record_pending n b)) (done (record_pending n b))
  step inp rows undo_saga =
      attempt inp.answer (update_saga target_rolled_back (λ s. s)) rows undo_status
        (done (http 500))
  step inp rows undo_status =
      attempt inp.answer (update_status req.scope_ids failed none "" "") rows (done (http 500))
        (done (http 500))
  step inp rows (done r) = (rows, done r)

  -- The handler run alone, for a number of steps; the inputs are those of the steps left.
  unfoldable pub run : ℕ → (ℕ → Input) → Rows → Point → Rows × Point
  unfolding step
  run zero inputs rows p = (rows, p)
  run (suc left) inputs rows p =
      let (rows', p') = step (inputs left) rows p in run left inputs rows' p'

  -- `approve_review`: the longest way through the handler has 18 steps.
  unfoldable pub approve_review : (ℕ → Input) → Rows → Rows × Point
  unfolding run
  approve_review inputs rows = run 18 inputs rows reading

-- What holds of each way in which a write can end holds of the write.
pub attempt-All :
    (P : Rows × Point → Type 0) (a : Answer) (write : Rows → Rows) (rows : Rows)
    (next handler : Point)
    → P (write rows, next)
    → P (rows, handler)
    → P (write rows, handler)
    → P (attempt a write rows next handler)
attempt-All P fine write rows next handler x y z = x
attempt-All P raised write rows next handler x y z = y
attempt-All P raised_after write rows next handler x y z = z

pub decide-All :
    (P : Rows × Point → Type 0) (a : Answer) (w : Rows × Bool) (rows : Rows) (next : Point)
    → (w.1 ≡ true → P (w.0, next))
    → P (w.0, done (http 409))
    → P (rows, done crashed)
    → P (w.0, done crashed)
    → P (decide a w rows next)
decide-All P fine (rows', true) rows next x y z u = x refl
decide-All P fine (rows', false) rows next x y z u = y
decide-All P raised w rows next x y z u = z
decide-All P raised_after w rows next x y z u = u
