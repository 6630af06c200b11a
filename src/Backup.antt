-- ===== src/Backup.antt =====
-- backend/db_connector/backup.py: `BackupManager` without the audit log. The target database, JSON
-- with zlib, and the cipher are parameters; the statement that is kept for display is left out but
-- for whether it is empty. Times are in seconds.
pub mod Bytes
mod Rows
pub mod Gone
pub mod Once
pub mod Requests
pub mod Saved
pub mod Restore
mod Tests
use sql_rpa.Base.{
  ℕ, zero, suc, ◌+◌, ◌*◌, ◌≡◌, String, Bool, true, false, ◌&&◌, ◌||◌, not, Option, none, some, List,
  [], ◌∷◌, ◌++◌, ◌==◌, leb, ltb, any, codes, drop, find, keep, length, map, str_eq, take,
  if◌then◌else◌,
}
use sql_rpa.Text.{Text, starts_with, text_eq, text_in}
use sql_rpa.SqlUtils.{
  Checked, accepted, value_error, Dialect, quote_identifier, validate_user_identifier,
  validate_where_condition,
}
use sql_rpa.Crypto.{Cipher, Keyring, decrypt_if_needed, encrypt_if_needed, get_key, is_nonempty}
use Bytes.{from_hex, hex, pieces}
pub use Rows.{
  Exception, bad_value, raised, Attempt, err, ok, ◌>>=◌, guard, checked, or_raise, BackupStatus,
  active, expired, rolled_back, is_active, DbBackup, DbBackupChunk, Store, Settings, active_key,
  sum_sizes, chunks_of, Snapshot, Connector, Codec, Draft, chunked, is_reverse, is_empty, or_blank,
  names_of, keys_of, with_status, is_stale,
}
unfoldable pub use Rows.{
  quotes, insert_chunk, order_chunks, cleanup_expired_backups, cell_of, key_of,
}

module _ (settings : Settings) (cipher : Cipher) where
  abbrev pub new_chunk : String → (ℕ → List ℕ) → Text → ℕ → List ℕ → DbBackupChunk
  new_chunk id ivs secret index p = record {
    backup_id = id;
    chunk_index = index;
    payload = encrypt_if_needed cipher (ivs index) (hex p) secret settings.encryption_key_version;
    byte_size = length p;
  }

  pub new_chunks : String → (ℕ → List ℕ) → Text → ℕ → List (List ℕ) → List DbBackupChunk
  unfolding hex
  new_chunks id ivs secret index [] = []
  new_chunks id ivs secret index (p ∷ ps) =
      new_chunk id ivs secret index p ∷ new_chunks id ivs secret (index + 1) ps

  -- `b"".join(bytes.fromhex(decrypt_if_needed(chunk.data, …)) for chunk in chunks)`
  pub join_chunks : List DbBackupChunk → Attempt (List ℕ)
  unfolding from_hex
  join_chunks [] = ok []
  join_chunks (c ∷ cs) =
      let rest = join_chunks cs in
      do
        plain ←
            or_raise (settings.decrypt_fault c.payload)
              (decrypt_if_needed cipher c.payload settings.secret_key settings.ring)
        bytes ← or_raise bad_value (from_hex plain)
        more ← rest
        ok (bytes ++ more)

  module _ {Cell : Type 0} (codec : Codec Cell) where
    -- `_decode_snapshot`
    pub decode_chunks : List DbBackupChunk → Attempt (Snapshot Cell)
    unfolding join_chunks
    decode_chunks [] = err bad_value
    decode_chunks (c ∷ cs) = do
      compressed ← join_chunks (c ∷ cs)
      or_raise (codec.unpack_fault compressed) (codec.unpack compressed)

    unpack_hex : Text → Attempt (Snapshot Cell)
    unpack_hex plaintext = do
      compressed ← or_raise bad_value (from_hex plaintext)
      or_raise (codec.unpack_fault compressed) (codec.unpack compressed)

    -- The two formats of old snapshots.
    decode_plain : Text → Text → Attempt (Snapshot Cell)
    decode_plain stored plaintext =
        if starts_with (codes "ENC:") stored
        then unpack_hex plaintext
        else if starts_with (codes "{") stored || starts_with (codes "[") stored
        then or_raise bad_value (codec.loads stored)
        else err bad_value

    decode_stored : Text → Attempt (Snapshot Cell)
    unfolding decode_plain unpack_hex
    decode_stored stored = do
      plaintext ←
          or_raise (settings.decrypt_fault stored)
            (decrypt_if_needed cipher stored settings.secret_key settings.ring)
      decode_plain stored plaintext

    pub decode_snapshot : Store → DbBackup → Attempt (Snapshot Cell)
    unfolding decode_chunks decode_stored order_chunks
    decode_snapshot s b =
        if text_eq b.data_snapshot chunked
        then decode_chunks (order_chunks (chunks_of b.id s.chunks))
        else decode_stored b.data_snapshot

    module _ {Db : Type 0} (connector : Connector Cell Db) where
      -- The snapshot that `create_backup` takes.
      pub take_snapshot : Text → Text → Db → Attempt (Snapshot Cell)
      take_snapshot table_name condition db = do
        _ ← checked (validate_user_identifier table_name)
        _ ← checked (validate_where_condition condition)
        _ ← checked (quote_identifier table_name connector.dialect)
        (columns, rows) ← or_raise raised (connector.query table_name condition db)
        schema ← or_raise raised (connector.get_schema table_name db)
        _ ← quotes connector.dialect (if is_empty rows then [] else columns)
        ok (record {
          columns = if is_empty rows then names_of schema else columns;
          rows = rows;
          primary_keys = keys_of schema;
        })

      -- The rows that `create_backup` commits for a snapshot, with the active key.
      abbrev pub new_backup : Draft → Snapshot Cell → DbBackup
      new_backup d snapshot = record {
        id = d.id;
        tenant_id = d.tenant_id;
        table_name = d.table_name;
        operation_type = d.operation_type;
        condition_sql = d.condition;
        has_rollback_sql = not (is_empty snapshot.rows);
        data_snapshot = chunked;
        affected_rows = length snapshot.rows;
        status = active;
        expired_at = d.now + settings.retention;
      }

      pub stored : Text → Draft → Snapshot Cell → Store → Store
      unfolding new_chunks pieces
      stored secret d snapshot s = record {
        backups = s.backups ++ new_backup d snapshot ∷ [];
        chunks =
            s.chunks
            ++ new_chunks d.id d.ivs secret 0 (
                or_blank (
                  pieces (length (codec.pack snapshot)) settings.chunk_bytes
                    (codec.pack snapshot)));
      }

      pub save_snapshot : Draft → Snapshot Cell → Store → Attempt Store
      save_snapshot d snapshot s = do
        _ ← guard (leb (length (codec.pack snapshot)) settings.max_snapshot_bytes)
        secret ← active_key settings
        _ ← guard (leb 1 settings.chunk_bytes)
        _ ←
            guard (
              leb (sum_sizes s.chunks + length (codec.pack snapshot)) settings.total_capacity_bytes)
        ok (stored secret d snapshot s)

      -- `create_backup`
      pub create_backup : Draft → Db → Store → Attempt (Store × Snapshot Cell)
      create_backup d db s = do
        snapshot ← take_snapshot d.table_name d.condition db
        s' ← save_snapshot d snapshot s
        ok (s', snapshot)

      pub delete_rows : Text → List Text → List Text → List (List Cell) → Db → Option Db
      unfolding key_of
      delete_rows table_name columns keys [] db = some db
      delete_rows table_name columns keys (row ∷ rows) db =
          elim (connector.delete_key table_name keys (key_of columns keys row) db) [
            | none ↦ none
            | some db' ↦ delete_rows table_name columns keys rows db'
          ]

      -- One transaction: the rows of the snapshot are deleted by their keys and inserted again.
      pub restore : Text → Snapshot Cell → Db → Option Db
      unfolding delete_rows
      restore table_name snapshot db =
          elim (delete_rows table_name snapshot.columns snapshot.primary_keys snapshot.rows db) [
            | none ↦ none
            | some db' ↦
                if is_empty snapshot.rows || is_empty snapshot.columns
                then some db'
                else connector.execute_many table_name snapshot.columns snapshot.rows db'
          ]

      -- What `rollback` does to the target database, for a backup that was found: the rows of an
      -- empty reverse backup go, and all others come back.
      undo_empty : DbBackup → Db → Attempt (Db × ℕ)
      undo_empty b db = do
        _ ← checked (validate_where_condition b.condition_sql)
        or_raise raised (connector.delete_where b.table_name b.condition_sql db)

      undo_rows : DbBackup → Snapshot Cell → Db → Attempt (Db × ℕ)
      unfolding restore
      undo_rows b snapshot db = do
        _ ← guard (not (is_empty snapshot.primary_keys))
        _ ← guard (not (any (λ key. not (text_in key snapshot.columns)) snapshot.primary_keys))
        _ ← quotes connector.dialect snapshot.primary_keys
        _ ← quotes connector.dialect (if is_empty snapshot.rows then [] else snapshot.columns)
        db' ← or_raise raised (restore b.table_name snapshot db)
        ok (db', length snapshot.rows)

      pub undo : DbBackup → Snapshot Cell → Db → Attempt (Db × ℕ)
      unfolding undo_empty undo_rows
      undo b snapshot db = do
        _ ← checked (validate_user_identifier b.table_name)
        _ ← checked (quote_identifier b.table_name connector.dialect)
        if is_empty snapshot.rows && is_reverse b.operation_type
            then undo_empty b db
            else undo_rows b snapshot db

      pub find_backup : String → String → List DbBackup → Option DbBackup
      find_backup id tenant_id bs =
          find (λ b. str_eq b.id id && str_eq b.tenant_id tenant_id && is_active b.status) bs

      -- The guards of `rollback` on the row, and its snapshot.
      pub prepare : String → String → Store → Attempt (DbBackup × Snapshot Cell)
      prepare id tenant_id s = do
        b ← or_raise bad_value (find_backup id tenant_id s.backups)
        _ ← guard (b.has_rollback_sql || is_reverse b.operation_type)
        snapshot ← decode_snapshot s b
        ok (b, snapshot)

      -- `rollback`, as one call at a time: the row is read without a lock, and others may read it before
      -- its new status is committed. `saved` says if the commit of the new status goes through.
      pub rollback : Bool → String → String → Db → Store → Db × (Store × Attempt ℕ)
      rollback saved id tenant_id db s = elim (prepare id tenant_id s) [
        | err e ↦ (db, (s, err e))
        | ok (b, snapshot) ↦ elim (undo b snapshot db) [
          | err e ↦ (db, (s, err e))
          | ok (db', n) ↦
              if saved
              then (db', (record s { backups = with_status rolled_back b.id s.backups }, ok n))
              else (db', (s, err raised))
        ]
      ]
