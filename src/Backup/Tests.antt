-- ===== src/Backup/Tests.antt =====
-- A table of numbers with a key, in which two rows meet the condition of a backup.
mod Serial
use mathlib.Core.List.{Memᴰ, Perm}
use sql_rpa.Base.{
  ℕ, zero, suc, ◌+◌, ◌≡◌, ◌≤◌, ◌⊎◌, refl, Bool, true, false, ◌&&◌, ◌||◌, not, Option, none, some,
  List, [], ◌∷◌, ◌++◌, ◌==◌, All, String, arith, codes, find, keep, length, map,
}
use sql_rpa.Text.{Text, strip, text_eq}
use sql_rpa.Text.Regex.{matches, matches_at_start}
use sql_rpa.SqlUtils.{
  accepted, other, quote_identifier, validate_user_identifier, validate_where_condition,
}
use sql_rpa.Crypto.{decrypt_if_needed, encrypt_if_needed, get_key}
use sql_rpa.Crypto.Tests.{open_cipher, open_cipher-IsSound, zeros}
use sql_rpa.Backup.{
  DbBackup, insert_chunk, Snapshot, save_snapshot, undo, delete_rows, new_chunks, Connector, Draft,
  Attempt, Settings, Store, raised, create_backup, decode_snapshot, err, find_backup, key_of,
  new_backup, ok, prepare, quotes, stored, rollback, take_snapshot,
}
use sql_rpa.Backup.Bytes.{hex, pieces}
use sql_rpa.Backup.Saved.{IsReady}
use sql_rpa.Backup.Restore.{IsTable, rollback-restores}
use sql_rpa.Backup.Restore.Writes.{Write, deletes, updates, write, write_all}
use sql_rpa.Backup.Once.{Call, cleans, count_restores, count_restores-le-one, creates, rolls}
use sql_rpa.Backup.Requests.{Input, Request, World, reverse_draft, rollback_operation, visible}
use sql_rpa.Backup.Requests.Reversible.{rollback_operation-reversible}
use Serial.{codec, codec-IsFaithful}

abbrev columns : List Text
columns = codes "id" ∷ codes "v" ∷ []

abbrev keys : List Text
keys = codes "id" ∷ []

abbrev Row : Type 0
Row = List ℕ

-- The second cell, for the conditions `v = 1` and `v = 2`.
abbrev second : Row → ℕ
second (a ∷ b ∷ r) = b
second _ = 0

abbrev meets : Text → Row → Bool
meets condition r =
    (text_eq condition (codes "v = 1") && second r == 1)
    || (text_eq condition (codes "v = 2") && second r == 2)

same : List (Option ℕ) → List (Option ℕ) → Bool
same [] [] = true
same (some a ∷ as') (some b ∷ bs) = a == b && same as' bs
same _ _ = false

same_comm : (a b : List (Option ℕ)) → same a b ≡ same b a
unfolding same
same_comm [] [] = refl
same_comm [] (some b ∷ bs) = refl
same_comm [] (none ∷ bs) = refl
same_comm (some a ∷ as') [] = refl
same_comm (none ∷ as') [] = refl
same_comm (some a ∷ as') (some b ∷ bs) = ground (arith, same_comm as' bs)
same_comm (some a ∷ as') (none ∷ bs) = refl
same_comm (none ∷ as') (some b ∷ bs) = refl
same_comm (none ∷ as') (none ∷ bs) = refl

abbrev connector : Connector ℕ (List Row)
connector = record {
  dialect = other;
  query = λ table condition db. some (columns, keep (meets condition) db);
  get_schema = λ table db. some ((codes "id", true) ∷ (codes "v", false) ∷ []);
  delete_key = λ table ks key db. some (keep (λ r. not (same key (key_of columns ks r))) db);
  delete_where = λ table condition db.
      some (keep (λ r. not (meets condition r)) db, length (keep (meets condition) db));
  execute_many = λ table cs rs db. some (db ++ rs);
}

connector-IsTable : IsTable connector (codes "t") columns keys (λ db. db) meets same
unfolding quotes quote_identifier
connector-IsTable = record {
  columns_quoted = refl;
  keys_quoted = refl;
  query-rows = λ condition db. refl;
  schema = λ db. ((codes "id", true) ∷ (codes "v", false) ∷ [], refl, refl);
  same_comm = same_comm;
  delete_key-rows = λ key db. (keep (λ r. not (same key (key_of columns keys r))) db, refl, refl);
  execute_many-rows = λ rs db _. (db ++ rs, refl, refl);
}

abbrev settings : Settings
settings = record {
  max_snapshot_bytes = 10000;
  total_capacity_bytes = 100000;
  chunk_bytes = 200;
  retention = 100;
  secret_key = codes "k";
  encryption_key_version = codes "1";
  ring = (codes "1", codes "k") ∷ [];
  decrypt_fault = λ _. raised;
}

ready : IsReady settings (codes "k")
unfolding get_key
ready = record { key = refl; secret_given = refl; version = refl }

abbrev draft : Draft
draft = record {
  id = "b1";
  tenant_id = "acme";
  table_name = codes "t";
  condition = codes "v = 1";
  operation_type = "UPDATE";
  ivs = λ _. zeros;
  now = 5;
}

abbrev rows : List Row
rows = (1 ∷ 1 ∷ []) ∷ (2 ∷ 3 ∷ []) ∷ (3 ∷ 1 ∷ []) ∷ []

abbrev empty : Store
empty = record { backups = []; chunks = [] }

-- `UPDATE t SET v = 2 WHERE v = 1`
abbrev written : Write Row
written = updates (meets (codes "v = 1")) (λ r. elim r [ [] ↦ [] | a ∷ _ ↦ a ∷ 2 ∷ [] ])

rollback-restores_example :
    (s₁ s₂ : Store) × (db₂ : List Row) × (create_backup settings open_cipher codec connector draft
        rows empty
      ≡ ok (
        s₁,
        record { columns = columns; rows = keep (meets (codes "v = 1")) rows; primary_keys = keys },
      ))
    × (rollback settings open_cipher codec connector true "b1" "acme"
          (write_all (written ∷ []) rows)
          s₁
        ≡ (db₂, (s₂, ok 2)))
    × Perm db₂ rows
unfolding validate_user_identifier validate_where_condition quote_identifier codec find_backup same
    key_of write write_all
rollback-restores_example =
    rollback-restores settings open_cipher codec connector (codes "t") columns keys (λ db. db) meets
      same connector-IsTable refl refl refl (codes "k") (λ x. x) open_cipher-IsSound
      codec-IsFaithful ready (omega arith) draft (34 ∷ b't' ∷ 34 ∷ []) (written ∷ []) rows
      (write_all (written ∷ []) rows) empty refl refl refl refl refl refl refl (λ i. refl) refl refl
      ((refl, (refl, tt)), ((refl, tt), (tt, tt))) (refl, (refl, (refl, tt))) refl refl
      (((λ _. (refl, refl)), ((λ h. (h, h)), ((λ _. (refl, refl)), tt))), tt)

-- The rollback of the update, twice, and a clean-up.
abbrev later_calls : List (Call × List Row)
later_calls =
    (rolls true "b1" "acme", write_all (written ∷ []) rows)
    ∷ (rolls true "b1" "acme", rows)
    ∷ (cleans 200, rows)
    ∷ []

-- The store with the backup of the two rows.
abbrev after_backup : Store
after_backup =
    stored settings open_cipher codec connector (codes "k") draft
      (record { columns = columns; rows = keep (meets (codes "v = 1")) rows; primary_keys = keys })
      empty

count_restores-le-one_example :
    count_restores settings open_cipher codec connector "b1" later_calls after_backup ≤ 1
count_restores-le-one_example =
    count_restores-le-one settings open_cipher codec connector "b1" later_calls after_backup
      (tt, (tt, (tt, tt)))

abbrev request : Request
request = record { backup_id = "b1"; confirm = true; scope_ids = "acme" ∷ []; tenant_id = "acme" }

abbrev input : Input
input = record {
  reverse_id = "b2";
  record_id = "r1";
  ivs = λ _. zeros;
  now = 9;
  saved = true;
  logged = true;
}

abbrev world : World (List Row)
world = record { db = write_all (written ∷ []) rows; store = after_backup; records = [] }

rollback_operation-reversible_example :
    ((rollback_operation settings open_cipher codec connector request input world).0.db ≡ world.db)
    ⊎ ((b : DbBackup) × (snapshot : Snapshot ℕ) × (find (visible request) world.store.backups
          ≡ some b)
        × (take_snapshot settings open_cipher codec connector b.table_name b.condition_sql world.db
            ≡ ok snapshot)
        × (prepare settings open_cipher codec connector "b2" "acme"
              (rollback_operation settings open_cipher codec connector request input world).0.store
            ≡ ok (
              new_backup settings open_cipher codec connector
                  (reverse_draft request input b)
                  snapshot,
              record snapshot { rows = map (map (λ x. x)) snapshot.rows },
            )))
unfolding stored new_chunks pieces find_backup codec hex encrypt_if_needed
rollback_operation-reversible_example =
    rollback_operation-reversible settings open_cipher codec connector request input world (λ x. x)
      open_cipher-IsSound codec-IsFaithful refl (λ n. refl) refl refl refl

-- The rollback of an update that changed the column of its condition takes an empty reverse backup;
-- the rollback of that one deletes the rows that came back, in place of the values before.
abbrev second_request : Request
second_request = record request { backup_id = "b2" }

abbrev second_input : Input
second_input = record input { reverse_id = "b3"; record_id = "r2" }

undone_twice :
    (rollback_operation settings open_cipher codec connector second_request second_input
      (rollback_operation settings open_cipher codec connector request input world).0).0.db
    ≡ (2 ∷ 3 ∷ []) ∷ []
unfolding rollback_operation create_backup take_snapshot save_snapshot stored rollback prepare undo
    find_backup decode_snapshot delete_rows key_of same codec encrypt_if_needed decrypt_if_needed
    validate_user_identifier validate_where_condition quote_identifier quotes get_key new_chunks
    pieces hex write_all write insert_chunk
undone_twice = refl
