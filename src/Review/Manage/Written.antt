-- ===== src/Review/Manage/Written.antt =====
-- What the writes of `_repair_committed_execution` leave.
use sql_rpa.Base.{
  ◌≡◌, refl, String, Bool, true, false, Option, none, some, List, [], ◌∷◌, ◌++◌, ◌⊎◌, str_in, arith,
  Bool-cases, inl, inr, ap, ◌∙◌, or_empty, truthy, if◌then◌else◌,
}
use sql_rpa.Review.{
  Task, Saga, Log, completed, records_repaired, Rows, update_status, set_status, update_saga,
}
use sql_rpa.Review.Manage.{has_log, repair_status, repair_entry, repair_log, repair_writes}

-- The task that is completed, with the saga's backup if it names one.
abbrev pub completed_task : Task → Option String → Task
completed_task t none = record t { status = completed }
completed_task t (some b) = record t {
  status = completed;
  backup_id = if truthy b then some b else t.backup_id;
}

-- What a repair writes: the task, if it is in its scope, is completed, its log has an entry, a new one
-- if it had none, and the saga is repaired.
pub record IsWritten (scope : List String) (who : String) (t : Task) (s : Saga) (old rows : Rows)
    : Type 0 where
  pub saga : rows.saga ≡ some (record s { state = records_repaired })
  pub task :
      ((str_in t.tenant_id scope ≡ true) × (rows.task ≡ some (completed_task t s.backup_id)))
      ⊎ ((str_in t.tenant_id scope ≡ false) × (rows.task ≡ some t))
  pub logs :
      ((old.logs ≡ [])
        × (rows.logs
            ≡ record {
              status = completed;
              affected_rows = s.affected_rows;
              backup_id = s.backup_id;
              executed_by = who;
              submitted_by = t.submitted_by;
              approved_by = t.approved_by;
            }
              ∷ []))
      ⊎ ((has_log old ≡ true) × (rows.logs ≡ old.logs))
  pub commits : rows.commits ≡ old.commits

same_note : (n : String) → (if truthy n then n else n) ≡ n
same_note n = ground arith

same_approver : (a : Option String) → (if truthy (or_empty a) then some (or_empty a) else a) ≡ a
same_approver none = refl
same_approver (some a) = go (truthy a)
  where
    go : (b : Bool) → (if b then some a else some a) ≡ some a
    go true = refl
    go false = refl

set_status-completed :
    (t : Task) (b : Option String)
    → set_status completed b (or_empty t.approved_by) t.reviewer_note t ≡ completed_task t b
unfolding set_status
set_status-completed t none = rw (same_note t.reviewer_note, same_approver t.approved_by) refl
set_status-completed t (some b) = rw (same_note t.reviewer_note, same_approver t.approved_by) refl

pub status-saga :
    (scope : List String) (t : Task) (s : Saga) (rows : Rows)
    → rows.task ≡ some t
    → (repair_status scope t s rows).saga ≡ rows.saga
unfolding repair_status update_status
status-saga scope t s rows e = elim (Bool-cases (str_in t.tenant_id scope)) [
  | inl k ↦ rw (e, k) refl
  | inr k ↦ rw (e, k) refl
]

pub entry-same :
    (who : String) (t : Task) (s : Saga) (had : Bool) (rows : Rows)
    → ((repair_entry who t s had rows).saga ≡ rows.saga)
      × ((repair_entry who t s had rows).task ≡ rows.task)
unfolding repair_entry
entry-same who t s true rows = (refl, refl)
entry-same who t s false rows = (refl, refl)

pub update-task :
    (s : Saga) (rows : Rows)
    → rows.saga ≡ some s
    → (update_saga records_repaired (λ r. r) rows).task ≡ rows.task
unfolding update_saga
update-task s rows e = rw e refl

-- What the three writes leave in each column.
status-completed :
    (scope : List String) (t : Task) (s : Saga) (rows : Rows)
    → rows.task ≡ some t
    → ((str_in t.tenant_id scope ≡ true)
        × ((repair_status scope t s rows).task ≡ some (completed_task t s.backup_id)))
      ⊎ ((str_in t.tenant_id scope ≡ false) × ((repair_status scope t s rows).task ≡ some t))
unfolding repair_status update_status
status-completed scope t s rows e = elim (Bool-cases (str_in t.tenant_id scope)) [
  | inl k ↦ inl (k, rw (e, k) (ap some (set_status-completed t s.backup_id)))
  | inr k ↦ inr (k, rw (e, k) refl)
]

status-same :
    (scope : List String) (t : Task) (s : Saga) (rows : Rows)
    → rows.task ≡ some t
    → ((repair_status scope t s rows).logs ≡ rows.logs)
      × ((repair_status scope t s rows).commits ≡ rows.commits)
unfolding repair_status update_status
status-same scope t s rows e = elim (Bool-cases (str_in t.tenant_id scope)) [
  | inl k ↦ rw (e, k) (refl, refl)
  | inr k ↦ rw (e, k) (refl, refl)
]

abbrev has_entry : List Log → Bool
has_entry ls = elim ls [ [] ↦ false | _ ∷ _ ↦ true ]

entry-logs :
    (who : String) (t : Task) (s : Saga) (ls : List Log) (rows : Rows)
    → rows.logs ≡ ls
    → ((ls ≡ []) × ((repair_entry who t s (has_entry ls) rows).logs ≡ repair_log who t s ∷ []))
      ⊎ ((has_entry ls ≡ true) × ((repair_entry who t s (has_entry ls) rows).logs ≡ ls))
unfolding repair_entry
entry-logs who t s [] rows q = inl (refl, ap (λ xs. xs ++ repair_log who t s ∷ []) q)
entry-logs who t s (x ∷ xs) rows q = inr (refl, q)

entry-commits :
    (who : String) (t : Task) (s : Saga) (had : Bool) (rows : Rows)
    → (repair_entry who t s had rows).commits ≡ rows.commits
unfolding repair_entry
entry-commits who t s true rows = refl
entry-commits who t s false rows = refl

update-rest :
    (s : Saga) (rows : Rows)
    → rows.saga ≡ some s
    → ((update_saga records_repaired (λ r. r) rows).saga
        ≡ some (record s { state = records_repaired }))
      × (((update_saga records_repaired (λ r. r) rows).logs ≡ rows.logs)
          × ((update_saga records_repaired (λ r. r) rows).commits ≡ rows.commits))
unfolding update_saga
update-rest s rows e = rw e (refl, (refl, refl))

pub writes-IsWritten :
    (scope : List String) (who : String) (t : Task) (s : Saga) (rows : Rows)
    → rows.saga ≡ some s
    → rows.task ≡ some t
    → IsWritten scope who t s rows (repair_writes 3 scope who t s (has_log rows) rows)
unfolding repair_writes
writes-IsWritten scope who t s rows e f =
    let first = repair_status scope t s rows in
    let second = repair_entry who t s (has_log rows) first in
    let (es, et) = entry-same who t s (has_log rows) first in
    let found : second.saga ≡ some s = es ∙ status-saga scope t s rows f ∙ e in
    let (us, (ul, uc)) = update-rest s second found in
    let (fl, fc) = status-same scope t s rows f in
    let ut = update-task s second found ∙ et in
    record {
      saga = us;
      task = elim (status-completed scope t s rows f) [
        | inl (k, q) ↦ inl (k, ut ∙ q)
        | inr (k, q) ↦ inr (k, ut ∙ q)
      ];
      logs = elim (entry-logs who t s rows.logs first fl) [
        | inl (k, q) ↦ inl (k, ul ∙ q)
        | inr (k, q) ↦ inr (k, ul ∙ q)
      ];
      commits = uc ∙ entry-commits who t s (has_log rows) first ∙ fc;
    }
