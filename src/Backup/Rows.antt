-- ===== src/Backup/Rows.antt =====
-- The rows of `BackupManager`, in the tables of backend/models/schemas.py, with their order and their
-- cleanup, and what it asks of a connector. Times are in seconds.
use sql_rpa.Base.{
  ℕ, ◌+◌, String, Bool, true, false, ◌&&◌, not, Option, none, some, List, [], ◌∷◌, leb, ltb, any,
  codes, keep, length, map, str_eq, if◌then◌else◌,
}
use sql_rpa.Text.{Text, text_eq}
use sql_rpa.SqlUtils.{Checked, accepted, value_error, Dialect, quote_identifier}
use sql_rpa.Crypto.{Keyring, get_key, is_nonempty}

-- `ValueError`, and any other exception.
pub data Exception : Type 0 where
  bad_value raised : Exception

pub data Attempt {ℓ} (A : Type ℓ) : Type ℓ where
  err : Exception → Attempt A
  ok : A → Attempt A

infixl 5 ◌>>=◌
abbrev pub ◌>>=◌ {ℓ κ} : {A : Type ℓ} {B : Type κ} → Attempt A → (A → Attempt B) → Attempt B
err why >>= next = err why
ok x >>= next = next x

-- `if not …: raise ValueError`
abbrev pub guard : Bool → Attempt (Unit {0})
guard false = err bad_value
guard true = ok tt

abbrev pub checked : Checked → Attempt Text
checked (accepted s) = ok s
checked value_error = err bad_value

-- The names in a statement, each quoted.
unfoldable pub quotes : Dialect → List Text → Attempt (Unit {0})
quotes dialect [] = ok tt
quotes dialect (name ∷ names) = do _ ← checked (quote_identifier name dialect); quotes dialect names

abbrev pub or_raise {ℓ} : {A : Type ℓ} → Exception → Option A → Attempt A
or_raise e none = err e
or_raise e (some a) = ok a

pub data BackupStatus : Type 0 where
  active expired rolled_back : BackupStatus

abbrev pub is_active : BackupStatus → Bool
is_active active = true
is_active _ = false

-- `DbBackup`; `has_rollback_sql` says if `rollback_sql` is not "".
pub record DbBackup : Type 0 where
  pub id : String
  pub tenant_id : String
  pub table_name : Text
  pub operation_type : String
  pub condition_sql : Text
  pub has_rollback_sql : Bool
  pub data_snapshot : Text
  pub affected_rows : ℕ
  pub status : BackupStatus
  pub expired_at : ℕ

-- `DbBackupChunk`
pub record DbBackupChunk : Type 0 where
  pub backup_id : String
  pub chunk_index : ℕ
  pub payload : Text
  pub byte_size : ℕ

pub record Store : Type 0 where
  pub backups : List DbBackup
  pub chunks : List DbBackupChunk

-- The settings that are read, with the ring of keys and the active version; `decrypt_fault` is the
-- exception that a value raises whose decryption fails.
pub record Settings : Type 0 where
  pub max_snapshot_bytes : ℕ
  pub total_capacity_bytes : ℕ
  pub chunk_bytes : ℕ
  pub retention : ℕ
  pub secret_key : Text
  pub encryption_key_version : Text
  pub ring : Keyring
  pub decrypt_fault : Text → Exception

-- `get_active_encryption_key`
abbrev pub active_key : Settings → Attempt Text
active_key c = elim (get_key c.encryption_key_version c.ring) [
  | none ↦ err raised
  | some k ↦ if is_nonempty k then ok k else err raised
]

abbrev pub sum_sizes : List DbBackupChunk → ℕ
sum_sizes [] = 0
sum_sizes (c ∷ cs) = c.byte_size + sum_sizes cs

abbrev pub chunks_of : String → List DbBackupChunk → List DbBackupChunk
chunks_of id cs = keep (λ c. str_eq c.backup_id id) cs

-- `order_by(chunk_index)`
unfoldable pub insert_chunk : DbBackupChunk → List DbBackupChunk → List DbBackupChunk
insert_chunk c [] = c ∷ []
insert_chunk c (d ∷ ds) =
    let later = d ∷ insert_chunk c ds in
    if leb c.chunk_index d.chunk_index then c ∷ d ∷ ds else later

unfoldable pub order_chunks : List DbBackupChunk → List DbBackupChunk
order_chunks [] = []
order_chunks (c ∷ cs) = insert_chunk c (order_chunks cs)

pub record Snapshot (Cell : Type 0) : Type 0 where
  pub columns : List Text
  pub rows : List (List Cell)
  pub primary_keys : List Text

-- A connector to the target database, in a state of type `Db`; `none` is an exception. A query gives
-- the names of its columns too, and the schema the names with whether they are in the primary key.
pub record Connector (Cell Db : Type 0) : Type 0 where
  pub dialect : Dialect
  pub query : Text → Text → Db → Option (List Text × List (List Cell))
  pub get_schema : Text → Db → Option (List (Text × Bool))
  pub delete_key : Text → List Text → List (Option Cell) → Db → Option Db
  pub delete_where : Text → Text → Db → Option (Db × ℕ)
  pub execute_many : Text → List Text → List (List Cell) → Db → Option Db

-- `json.dumps` with `zlib.compress`, and the ways back; `unpack_fault` is the exception for bytes that
-- cannot be unpacked.
pub record Codec (Cell : Type 0) : Type 0 where
  pub pack : Snapshot Cell → List ℕ
  pub unpack : List ℕ → Option (Snapshot Cell)
  pub unpack_fault : List ℕ → Exception
  pub loads : Text → Option (Snapshot Cell)

-- What a call of `create_backup` is given, and what it draws: the tenant, ids, ivs and the clock.
pub record Draft : Type 0 where
  pub id : String
  pub tenant_id : String
  pub table_name : Text
  pub condition : Text
  pub operation_type : String
  pub ivs : ℕ → List ℕ
  pub now : ℕ

abbrev pub chunked : Text
chunked = codes "CHUNKED:v1"

abbrev pub is_reverse : String → Bool
is_reverse operation_type = str_eq operation_type "ROLLBACK"

abbrev pub is_empty {ℓ} : {A : Type ℓ} → List A → Bool
is_empty [] = true
is_empty (_ ∷ _) = false

-- `[…] or [b""]`
abbrev pub or_blank : List (List ℕ) → List (List ℕ)
or_blank [] = [] ∷ []
or_blank (p ∷ ps) = p ∷ ps

abbrev pub names_of : List (Text × Bool) → List Text
names_of schema = map (λ (name, _). name) schema

abbrev pub keys_of : List (Text × Bool) → List Text
keys_of schema = names_of (keep (λ (_, is_key). is_key) schema)

abbrev pub with_status : BackupStatus → String → List DbBackup → List DbBackup
with_status status id bs = map (λ b. if str_eq b.id id then record b { status = status } else b) bs

-- `cleanup_expired_backups`
abbrev pub is_stale : ℕ → DbBackup → Bool
is_stale now b = is_active b.status && ltb b.expired_at now

unfoldable pub cleanup_expired_backups : ℕ → Store → Store × ℕ
cleanup_expired_backups now s =
    let stale = keep (is_stale now) s.backups in
    (
      record {
        backups = map (λ b. if is_stale now b then record b { status = expired } else b) s.backups;
        chunks = keep (λ c. not (any (λ b. str_eq c.backup_id b.id) stale)) s.chunks;
      },
      length stale,
    )

module _ {Cell : Type 0} where
  -- `dict(zip(columns, row))[name]`; a row has a cell for each of its columns.
  unfoldable pub cell_of : List Text → List Cell → Text → Option Cell
  cell_of [] row name = none
  cell_of (c ∷ cs) [] name = none
  cell_of (c ∷ cs) (x ∷ xs) name =
      let rest = cell_of cs xs name in if text_eq c name then some x else rest

  unfoldable pub key_of : List Text → List Text → List Cell → List (Option Cell)
  unfolding cell_of
  key_of columns keys row = map (cell_of columns row) keys
