-- ===== src/Review/Manage/Repair.antt =====
-- `_repair_committed_execution` run to its end, and run again.
use sql_rpa.Base.{
  ℕ, ◌≡◌, refl, String, Bool, true, false, Option, none, some, List, ◌⊎◌, str_eq, str_in, arith,
  Bool-cases, inl, inr, ap, subst, sym, ◌∙◌,
}
use sql_rpa.Review.{
  Task, Saga, SagaState, prepared, backup_ready, target_committed, target_rolled_back,
  records_repaired, Rows, update_status, set_status, update_saga,
}
use sql_rpa.Review.Manage.Written.{
  IsWritten, entry-same, status-saga, update-task, writes-IsWritten,
}
use sql_rpa.Review.Manage.{
  Reply, done, lookup_error, has_log, repair_status, repair_entry, repair_writes, repair_found,
  repair,
}

abbrev is_repaired_state : SagaState → Bool
is_repaired_state records_repaired = true
is_repaired_state _ = false

abbrev saga_repaired : Option Saga → Bool
saga_repaired none = false
saga_repaired (some s) = is_repaired_state s.state

abbrev task_of : String → Option Task → Bool
task_of tenant none = false
task_of tenant (some t) = str_eq t.tenant_id tenant

again-saga :
    (n : ℕ) (tenant : String) (scope : List String) (who : String) (t : Task) (s : Saga)
    (rows : Rows)
    → str_eq t.tenant_id tenant ≡ true
    → (state : SagaState) → s.state ≡ state
    → is_repaired_state state ≡ true
    → repair_found n tenant scope who t s rows ≡ (rows, done)
unfolding repair_found
again-saga n tenant scope who t s rows h records_repaired e r = rw (h, e) refl
again-saga n tenant scope who t s rows h prepared e r = absurd (ground (arith, r))
again-saga n tenant scope who t s rows h backup_ready e r = absurd (ground (arith, r))
again-saga n tenant scope who t s rows h target_committed e r = absurd (ground (arith, r))
again-saga n tenant scope who t s rows h target_rolled_back e r = absurd (ground (arith, r))

-- `repair` on the rows that it reads.
abbrev on_rows : ℕ → String → List String → String → Rows → Option Saga → Option Task → Rows × Reply
on_rows n tenant scope who rows saga task = elim saga as (λ _. Rows × Reply) [
  | none ↦ (rows, lookup_error)
  | some s ↦ elim task as (λ _. Rows × Reply) [
    | none ↦ (rows, lookup_error)
    | some t ↦ repair_found n tenant scope who t s rows
  ]
]

repair-on_rows :
    (n : ℕ) (tenant : String) (scope : List String) (who : String) (rows : Rows)
    → repair n tenant scope who rows ≡ on_rows n tenant scope who rows rows.saga rows.task
unfolding repair
repair-on_rows n tenant scope who rows = refl

again :
    (n : ℕ) (tenant : String) (scope : List String) (who : String) (rows : Rows)
    (saga : Option Saga) (task : Option Task)
    → saga_repaired saga ≡ true
    → task_of tenant task ≡ true
    → on_rows n tenant scope who rows saga task ≡ (rows, done)
again n tenant scope who rows none task a b = absurd (ground (arith, a))
again n tenant scope who rows (some s) none a b = absurd (ground (arith, b))
again n tenant scope who rows (some s) (some t) a b =
    again-saga n tenant scope who t s rows b s.state refl a

status-task :
    (tenant : String) (scope : List String) (t : Task) (s : Saga) (rows : Rows)
    → rows.task ≡ some t
    → str_eq t.tenant_id tenant ≡ true
    → task_of tenant (repair_status scope t s rows).task ≡ true
unfolding repair_status update_status set_status
status-task tenant scope t s rows e h = elim (Bool-cases (str_in t.tenant_id scope)) [
  | inl k ↦ rw (e, k) h
  | inr k ↦ rw (e, k) h
]

update-saga_repaired :
    (s : Saga) (rows : Rows)
    → rows.saga ≡ some s
    → saga_repaired (update_saga records_repaired (λ r. r) rows).saga ≡ true
unfolding update_saga
update-saga_repaired s rows e = rw e refl

written :
    (tenant : String) (scope : List String) (who : String) (t : Task) (s : Saga) (had : Bool)
    (rows : Rows)
    → rows.saga ≡ some s
    → rows.task ≡ some t
    → str_eq t.tenant_id tenant ≡ true
    → (saga_repaired (repair_writes 3 scope who t s had rows).saga ≡ true)
      × (task_of tenant (repair_writes 3 scope who t s had rows).task ≡ true)
unfolding repair_writes
written tenant scope who t s had rows e f h =
    let (es, et) = entry-same who t s had (repair_status scope t s rows) in
    let saga : (repair_entry who t s had (repair_status scope t s rows)).saga ≡ some s =
      es ∙ status-saga scope t s rows f ∙ e in
    (
      update-saga_repaired s _ saga,
      ap (task_of tenant) (update-task s _ saga ∙ et) ∙ status-task tenant scope t s rows f h,
    )

-- The execution is repaired: repairs find nothing to do.
abbrev pub IsDone : String → Rows → Type 0
IsDone tenant rows =
    (n : ℕ) (scope : List String) (who : String) → repair n tenant scope who rows ≡ (rows, done)

-- What a repair that is done did: nothing, if the execution was repaired before, or else its writes.
abbrev pub IsRepaired : String → List String → String → Rows → Rows → Type 0
IsRepaired tenant scope who old rows =
    (t : Task) × (s : Saga) × (((old.task ≡ some t)
        × ((old.saga ≡ some s) × (str_eq t.tenant_id tenant ≡ true)))
      × (((s.state ≡ records_repaired) × (rows ≡ old))
          ⊎ ((s.state ≡ target_committed) × IsWritten scope who t s old rows)))

-- What is shown of the rows that a repair leaves.
abbrev Ends : String → List String → String → Rows → Rows → Type 0
Ends tenant scope who old rows = IsRepaired tenant scope who old rows × IsDone tenant rows

state-Ends :
    (tenant : String) (scope : List String) (who : String) (t : Task) (s : Saga) (rows : Rows)
    → rows.saga ≡ some s
    → rows.task ≡ some t
    → str_eq t.tenant_id tenant ≡ true
    → (state : SagaState) → s.state ≡ state
    → (repair_found 3 tenant scope who t s rows).1 ≡ done
    → Ends tenant scope who rows (repair_found 3 tenant scope who t s rows).0
unfolding repair_found
state-Ends tenant scope who t s rows e f h records_repaired q r =
    rw (h, q)
      (
        (t, s, ((f, (e, h)), inl (q, refl))),
        λ n sc w.
            repair-on_rows n tenant sc w rows
            ∙ again n tenant sc w rows rows.saga rows.task (ap saga_repaired e ∙ rw q refl)
                (ap (task_of tenant) f ∙ h),
      )
state-Ends tenant scope who t s rows e f h target_committed q r =
    let (a, b) = written tenant scope who t s (has_log rows) rows e f h in
    rw (h, q)
      (
        (t, s, ((f, (e, h)), inr (q, writes-IsWritten scope who t s rows e f))),
        λ n sc w.
            repair-on_rows n tenant sc w (repair_writes 3 scope who t s (has_log rows) rows)
            ∙ again n tenant sc w (repair_writes 3 scope who t s (has_log rows) rows) _ _ a b,
      )
state-Ends tenant scope who t s rows e f h prepared q r = absurd (ground (arith, rw (h, q) at r))
state-Ends tenant scope who t s rows e f h backup_ready q r =
    absurd (ground (arith, rw (h, q) at r))
state-Ends tenant scope who t s rows e f h target_rolled_back q r =
    absurd (ground (arith, rw (h, q) at r))

found-Ends :
    (tenant : String) (scope : List String) (who : String) (t : Task) (s : Saga) (rows : Rows)
    → rows.saga ≡ some s
    → rows.task ≡ some t
    → (repair_found 3 tenant scope who t s rows).1 ≡ done
    → Ends tenant scope who rows (repair_found 3 tenant scope who t s rows).0
unfolding repair_found
found-Ends tenant scope who t s rows e f r = elim (Bool-cases (str_eq t.tenant_id tenant)) [
  | inl h ↦ state-Ends tenant scope who t s rows e f h s.state refl r
  | inr h ↦ absurd (other h r)
]
  where
    other :
        str_eq t.tenant_id tenant ≡ false → (repair_found 3 tenant scope who t s rows).1 ≡ done → ⊥
    other h r = ground (arith, rw h at r)

on_rows-Ends :
    (tenant : String) (scope : List String) (who : String) (rows : Rows) (saga : Option Saga)
    (task : Option Task)
    → rows.saga ≡ saga
    → rows.task ≡ task
    → (on_rows 3 tenant scope who rows saga task).1 ≡ done
    → Ends tenant scope who rows (on_rows 3 tenant scope who rows saga task).0
on_rows-Ends tenant scope who rows none task e f r = absurd (ground (arith, r))
on_rows-Ends tenant scope who rows (some s) none e f r = absurd (ground (arith, r))
on_rows-Ends tenant scope who rows (some s) (some t) e f r =
    found-Ends tenant scope who t s rows e f r

-- A repair whose writes all took effect and that answers that it is done found the saga repaired, and
-- wrote nothing, or found it committed in the target. Then the saga is repaired, and otherwise as it
-- was; the task, if its tenant is in the scope of the request, is completed with the saga's backup and
-- otherwise as it was; the log has the entries that it had, or, if it had none, one with the saga's
-- row count and backup; and no SQL is committed. Either way every later repair in that tenant, by
-- whomever, answers the same and writes nothing.
pub repair-IsDone :
    (tenant : String) (scope : List String) (who : String) (rows : Rows)
    → (repair 3 tenant scope who rows).1 ≡ done
    → IsRepaired tenant scope who rows (repair 3 tenant scope who rows).0
      × IsDone tenant (repair 3 tenant scope who rows).0
repair-IsDone tenant scope who rows r =
    let same = repair-on_rows 3 tenant scope who rows in
    subst (λ p. Ends tenant scope who rows p.0) (sym same)
      (on_rows-Ends tenant scope who rows rows.saga rows.task refl refl
        (ap (λ p. p.1) (sym same) ∙ r))
