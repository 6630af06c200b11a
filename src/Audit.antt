-- ===== src/Audit.antt =====
-- The audit log: `audit_entry_hash` and `verify_audit_chain` of backend/audit.py, and
-- `BackupManager.log_operation` of backend/db_connector/backup.py. The digest of the canonical JSON
-- is a parameter, a function of what the JSON holds. The table is a list with the newest row first.
pub mod Chain
pub mod Tamper
mod Tests
use sql_rpa.Base.{
  ℕ, zero, suc, ◌+◌, String, Bool, true, false, ◌&&◌, ◌||◌, not, Option, none, some, List, [], ◌∷◌,
  ◌++◌, ◌==◌, ltb, leb, keep, str_eq, or_empty, if◌then◌else◌,
}

-- What a caller gives to `log_operation`, with the clock and the new id.
pub record Draft : Type 0 where
  pub id : String
  pub tenant_id : String
  pub operation_type : String
  pub sql_text : String
  pub affected_rows : ℕ
  pub table_name : Option String
  pub backup_id : Option String
  pub review_id : Option String
  pub status : String
  pub error_message : Option String
  pub executed_by : String
  pub submitted_by : Option String
  pub approved_by : Option String
  pub reviewer_note : Option String
  pub created_at : ℕ

-- `DbOperationLog`
pub record Log : Type 0 where
  pub draft : Draft
  pub sequence : ℕ
  pub prev_hash : Option String
  pub entry_hash : String

-- The values of the canonical JSON.
pub record Canonical : Type 0 where
  pub sequence : ℕ
  pub operation_type : String
  pub sql_text : String
  pub affected_rows : ℕ
  pub table_name : String
  pub backup_id : Option String
  pub status : String
  pub executed_by : String
  pub submitted_by : Option String
  pub approved_by : Option String
  pub reviewer_note : Option String
  pub created_at : ℕ
  pub prev_hash : Option String

-- What is hashed: not the id, tenant, review and error message.
pub canonical : Draft → ℕ → Option String → Canonical
canonical d sequence prev_hash = record {
  sequence = sequence;
  operation_type = d.operation_type;
  sql_text = d.sql_text;
  affected_rows = d.affected_rows;
  table_name = or_empty d.table_name;
  backup_id = d.backup_id;
  status = d.status;
  executed_by = d.executed_by;
  submitted_by = d.submitted_by;
  approved_by = d.approved_by;
  reviewer_note = d.reviewer_note;
  created_at = d.created_at;
  prev_hash = prev_hash;
}

abbrev pub content : Log → Canonical
content l = canonical l.draft l.sequence l.prev_hash

-- `order_by(sequence.desc()).limit(1)`
pub latest : List Log → Option Log
latest [] = none
latest (l ∷ logs) =
    let rest = latest logs in
    elim rest [ none ↦ some l | some m ↦ if leb m.sequence l.sequence then some l else some m ]

abbrev pub sequence_of : Option Log → ℕ
sequence_of none = 0
sequence_of (some l) = l.sequence

abbrev pub hash_of : Option Log → Option String
hash_of none = none
hash_of (some l) = some l.entry_hash

-- `order_by(sequence, created_at)`
abbrev pub before : Log → Log → Bool
before l m =
    ltb l.sequence m.sequence
    || (l.sequence == m.sequence && leb l.draft.created_at m.draft.created_at)

pub insert : Log → List Log → List Log
insert l [] = l ∷ []
insert l (m ∷ logs) = let rest = insert l logs in if before l m then l ∷ m ∷ logs else m ∷ rest

pub order : List Log → List Log
order [] = []
order (l ∷ logs) = insert l (order logs)

pub data Error : Type 0 where
  sequence_gap previous_hash_mismatch entry_hash_mismatch : String → Error

pub record AuditVerification : Type 0 where
  pub valid : Bool
  pub checked : ℕ
  pub errors : List Error

abbrev pub opt_eq : Option String → Option String → Bool
opt_eq none none = true
opt_eq (some a) (some b) = str_eq a b
opt_eq _ _ = false

abbrev report_if : Bool → Error → List Error
report_if true e = e ∷ []
report_if false e = []

-- `(log.sequence or expected_sequence) + 1`
abbrev pub next_expected : ℕ → Log → ℕ
next_expected expected l = if l.sequence == 0 then expected + 1 else l.sequence + 1

-- The hash of the row with a sequence.
find_hash : ℕ → List Log → Option String
find_hash sequence [] = none
find_hash sequence (l ∷ logs) =
    let rest = find_hash sequence logs in if l.sequence == sequence then some l.entry_hash else rest

abbrev is_empty : List Error → Bool
is_empty [] = true
is_empty (_ ∷ _) = false

abbrev count : List Log → ℕ
count [] = 0
count (_ ∷ logs) = suc (count logs)

module _ (digest : Canonical → String) where
  abbrev pub audit_entry_hash : Log → String
  audit_entry_hash l = digest (content l)

  -- One entry of the log, and the row that follows a row.
  pub entry : Draft → Option Log → Log
  entry d previous = record {
    draft = d;
    sequence = sequence_of previous + 1;
    prev_hash = hash_of previous;
    entry_hash = digest (canonical d (sequence_of previous + 1) (hash_of previous));
  }

  pub append : Draft → List Log → List Log
  append d logs = entry d (latest logs) ∷ logs

  pub append_all : List Draft → List Log → List Log
  append_all [] logs = logs
  append_all (d ∷ ds) logs = append_all ds (append d logs)

  -- The attempts of `log_operation`, `left` after this one. `rivals left` are the rows that other
  -- processes commit between the read and the commit of an attempt; `sequence` is unique, so any
  -- such row makes the commit fail. `false` is the `IntegrityError` of the last attempt.
  pub log_attempts : ℕ → (ℕ → List Draft) → Draft → List Log → List Log × Bool
  log_attempts zero rivals d logs = elim (rivals zero) [
    | [] ↦ (append d logs, true)
    | r ∷ rs ↦ (append_all (r ∷ rs) logs, false)
  ]
  log_attempts (suc left) rivals d logs =
      let again = log_attempts left rivals d (append_all (rivals (suc left)) logs) in
      elim (rivals (suc left)) [ [] ↦ (append d logs, true) | _ ∷ _ ↦ again ]

  pub log_operation : (ℕ → List Draft) → Draft → List Log → List Log × Bool
  log_operation rivals d logs = log_attempts 4 rivals d logs

  -- The errors of one row.
  pub entry_errors : ℕ → Option String → Log → List Error
  entry_errors expected previous l =
      report_if (not (l.sequence == expected)) (sequence_gap l.draft.id)
      ++ (report_if (not (opt_eq l.prev_hash previous)) (previous_hash_mismatch l.draft.id)
          ++ report_if (not (str_eq l.entry_hash (audit_entry_hash l)))
              (entry_hash_mismatch l.draft.id))

  pub chain_errors : ℕ → Option String → List Log → List Error
  chain_errors expected previous [] = []
  chain_errors expected previous (l ∷ logs) =
      entry_errors expected previous l
      ++ chain_errors (next_expected expected l) (some l.entry_hash) logs

  pub verify_audit_chain : ℕ → List Log → AuditVerification
  unfolding find_hash
  verify_audit_chain after_sequence logs =
      let rows = order (keep (λ l. ltb after_sequence l.sequence) logs) in
      let errors =
        chain_errors (after_sequence + 1)
          (if after_sequence == 0 then none else find_hash after_sequence logs) rows in
      record { valid = is_empty errors; checked = count rows; errors = errors }
