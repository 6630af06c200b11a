-- ===== src/Backup/Requests.antt =====
-- `rollback_operation` of backend/api/db_operations.py: a reverse backup, then the rollback, with its
-- record. The row of the original review and the texts of errors are left out.
pub mod Reversible
use sql_rpa.Base.{
  ℕ, ◌+◌, ◌<◌, ◌≡◌, ◌⊎◌, refl, sym, ap, ◌∙◌, String, Bool, true, false, ◌&&◌, not, Option, none,
  some, List, [], ◌∷◌, ◌++◌, arith, find, length, leb, map, str_eq, str_in, Bool-cases,
  Option-cases, inl, inr, if◌then◌else◌,
}
use sql_rpa.Text.{Text}
use sql_rpa.Crypto.{Cipher, IsSound, get_key, is_nonempty}
use sql_rpa.Crypto.Rotation.{has_colon}
use sql_rpa.Backup.{
  Codec, Connector, DbBackup, Draft, Exception, Attempt, Settings, Snapshot, Store, active_key,
  bad_value, chunks_of, create_backup, decode_snapshot, err, new_backup, ok, raised, rollback,
  save_snapshot, stored, take_snapshot,
}
use sql_rpa.Backup.Saved.{IsFaithful, IsReady, decode_snapshot-stored}

-- The body with the user: the scope of the organization, `get_tenant_id()` and the confirmation.
pub record Request : Type 0 where
  pub backup_id : String
  pub confirm : Bool
  pub scope_ids : List String
  pub tenant_id : String

-- What the call draws, and whether the last writes go through: the ids of the reverse backup and of
-- the record, the ivs, the clock, the commit of the new status and the entry of the log.
pub record Input : Type 0 where
  pub reverse_id : String
  pub record_id : String
  pub ivs : ℕ → List ℕ
  pub now : ℕ
  pub saved : Bool
  pub logged : Bool

pub data RecordStatus : Type 0 where
  executing completed failed : RecordStatus

-- `DbRollbackRecord`
pub record DbRollbackRecord : Type 0 where
  pub id : String
  pub tenant_id : String
  pub original_backup_id : String
  pub reverse_backup_id : String
  pub status : RecordStatus

-- `crashed`: an exception that the handler lets through.
pub data Reply : Type 0 where
  restored : ℕ → Reply
  http : ℕ → Reply
  crashed : Reply

pub record World (Db : Type 0) : Type 0 where
  pub db : Db
  pub store : Store
  pub records : List DbRollbackRecord

abbrev pub visible : Request → DbBackup → Bool
visible r b = str_eq b.id r.backup_id && str_in b.tenant_id r.scope_ids

abbrev pub reverse_draft : Request → Input → DbBackup → Draft
reverse_draft r i b = record {
  id = i.reverse_id;
  tenant_id = r.tenant_id;
  table_name = b.table_name;
  condition = b.condition_sql;
  operation_type = "ROLLBACK";
  ivs = i.ivs;
  now = i.now;
}

-- The record is written with a status; a record that is there gets the new one.
abbrev pub with_record :
    Request → Input → RecordStatus → List DbRollbackRecord → List DbRollbackRecord
with_record r i status records =
    records
    ++ record {
      id = i.record_id;
      tenant_id = r.tenant_id;
      original_backup_id = r.backup_id;
      reverse_backup_id = i.reverse_id;
      status = status;
    }
      ∷ []

module _ {Cell Db : Type 0} (c : Settings) (cipher : Cipher) (codec : Codec Cell)
    (connector : Connector Cell Db) where
  -- The answer of `rollback`, and the record.
  finish : Request → Input → List DbRollbackRecord → Db × (Store × Attempt ℕ) → World Db × Reply
  finish r i records (db, (s, err bad_value)) =
      (record { db = db; store = s; records = with_record r i failed records }, http 404)
  finish r i records (db, (s, err raised)) =
      (record { db = db; store = s; records = with_record r i executing records }, crashed)
  finish r i records (db, (s, ok n)) =
      if i.logged
      then (record { db = db; store = s; records = with_record r i completed records }, restored n)
      else (record { db = db; store = s; records = with_record r i executing records }, crashed)

  run_rollback : Request → Input → World Db → Attempt (Store × Snapshot Cell) → World Db × Reply
  unfolding finish
  run_rollback r i w (err e) = (w, http 500)
  run_rollback r i w (ok (s, snapshot)) =
      finish r i w.records
        (rollback c cipher codec connector i.saved r.backup_id r.tenant_id w.db s)

  -- `rollback_operation`
  unfoldable pub rollback_operation : Request → Input → World Db → World Db × Reply
  unfolding run_rollback
  rollback_operation r i w =
      if not r.confirm then (w, http 400) else elim (find (visible r) w.store.backups) [
        | none ↦ (w, http 404)
        | some b ↦
            run_rollback r i w
              (create_backup c cipher codec connector (reverse_draft r i b) w.db w.store)
      ]
