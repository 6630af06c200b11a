-- ===== src/Backup/Restore.antt =====
-- A rollback puts the rows back that a backup has taken.
mod Rows
pub mod Writes
use mathlib.Core.List.{Memᴰ, Perm}
use sql_rpa.Base.{
  ℕ, zero, suc, ◌+◌, ◌≤◌, ◌<◌, ◌≡◌, refl, sym, ap, ◌∙◌, String, Bool, true, false, ◌&&◌, ◌||◌, not,
  Option, none, some, List, [], ◌∷◌, ◌++◌, ◌==◌, leb, All, All-mem, any, arith, codes, eq_iff, find,
  find-append-none, keep, keep-append, length, map, str_eq, Bool-cases, inl, inr, if◌then◌else◌,
}
use sql_rpa.Text.{Text, text_in}
use sql_rpa.SqlUtils.{
  accepted, quote_identifier, validate_user_identifier, validate_where_condition,
}
use sql_rpa.Crypto.{Cipher, IsSound}
use sql_rpa.Backup.{
  Codec, Connector, DbBackup, Draft, Attempt, Settings, Snapshot, Store, ◌>>=◌, active_key, checked,
  chunks_of, create_backup, delete_rows, find_backup, guard, is_active, is_empty, key_of, keys_of,
  new_backup, ok, or_raise, prepare, restore, rolled_back, rollback, save_snapshot, stored,
  sum_sizes, take_snapshot, quotes, undo, undo_rows, with_status,
}
use sql_rpa.Backup.Saved.{find_backup-stored, IsFaithful, IsReady, decode_snapshot-stored}
use Writes.{AllWithin, Write, write_all, write_all-others}
use Rows.{Distinct, Distinct-dropped, Distinct-keep, has_key, keep-keep, keep-same, restored-perm}

-- What SQL says of a table with columns and a primary key, where nothing else constrains the rows and
-- the connection holds: `matches` is a condition, and `same` is `=` on keys.
pub record IsTable {Cell Db : Type 0} (connector : Connector Cell Db) (table : Text)
    (columns keys : List Text) (rows : Db → List (List Cell)) (matches : Text → List Cell → Bool)
    (same : List (Option Cell) → List (Option Cell) → Bool) : Type 0 where
  pub columns_quoted : quotes connector.dialect columns ≡ ok tt
  pub keys_quoted : quotes connector.dialect keys ≡ ok tt
  pub query-rows :
      (condition : Text) (db : Db)
      → connector.query table condition db ≡ some (columns, keep (matches condition) (rows db))
  pub schema :
      (db : Db)
      → (s : List (Text × Bool)) × (connector.get_schema table db ≡ some s) × (keys_of s ≡ keys)
  pub same_comm : (a b : List (Option Cell)) → same a b ≡ same b a
  pub delete_key-rows :
      (key : List (Option Cell)) (db : Db)
      → (db' : Db) × (connector.delete_key table keys key db ≡ some db')
        × (rows db' ≡ keep (λ r. not (same key (key_of columns keys r))) (rows db))
  pub execute_many-rows :
      (rs : List (List Cell)) (db : Db)
      → Distinct (λ r r'. same (key_of columns keys r) (key_of columns keys r')) (rows db ++ rs)
      → (db' : Db) × (connector.execute_many table columns rs db ≡ some db')
        × (rows db' ≡ rows db ++ rs)

module _ {Cell Db : Type 0} (c : Settings) (cipher : Cipher) (codec : Codec Cell)
    (connector : Connector Cell Db) (table : Text) (columns keys : List Text)
    (rows : Db → List (List Cell)) (matches : Text → List Cell → Bool)
    (same : List (Option Cell) → List (Option Cell) → Bool)
    (laws : IsTable connector table columns keys rows matches same) where
  abbrev pub same_row : List Cell → List Cell → Bool
  same_row r r' = same (key_of columns keys r) (key_of columns keys r')

  -- The rows that are left when those with the keys of some rows are deleted one by one.
  abbrev left : List (List Cell) → Db → List (List Cell)
  left ks db = keep (λ r. not (has_key same_row ks r)) (rows db)

  keep-all : (xs : List (List Cell)) → keep (λ r. not false) xs ≡ xs
  keep-all [] = refl
  keep-all (x ∷ xs) = ap (λ l. x ∷ l) (keep-all xs)

  delete_rows-rows :
      (ks : List (List Cell)) (db : Db)
      → (db' : Db) × (delete_rows c cipher codec connector table columns keys ks db ≡ some db')
        × (rows db' ≡ left ks db)
  unfolding delete_rows
  delete_rows-rows [] db = (db, refl, sym (keep-all (rows db)))
  delete_rows-rows (k ∷ ks) db =
      let (db₁, e₁, r₁) = laws.delete_key-rows (key_of columns keys k) db in
      let (db₂, e₂, r₂) = delete_rows-rows ks db₁ in
      (
        db₂,
        rw (e₁, delete_rows) e₂,
        r₂
            ∙ ap (λ l. keep (λ r. not (has_key same_row ks r)) l) r₁
            ∙ keep-keep (λ r. not (has_key same_row ks r)) (λ r. not (same_row k r)) (rows db)
            ∙ keep-same (λ r. not (same_row k r) && not (has_key same_row ks r))
                (λ r. not (has_key same_row (k ∷ ks) r)) (rows db)
                (λ r _. both (same_row k r) (has_key same_row ks r)),
      )
    where
      both : (a b : Bool) → (not a && not b) ≡ not (a || b)
      both a b = ground arith

  -- What the guards of `rollback` want of the columns and the keys.
  module _ (no_key : is_empty keys ≡ false) (no_column : is_empty columns ≡ false)
      (named : any (λ key. not (text_in key columns)) keys ≡ false) where
    restore-rows :
        (ks : List (List Cell)) (db : Db)
        → is_empty ks ≡ false
        → Distinct same_row (left ks db ++ ks)
        → (db' : Db) × (restore c cipher codec connector table
              (record { columns = columns; rows = ks; primary_keys = keys })
              db
            ≡ some db')
          × (rows db' ≡ left ks db ++ ks)
    unfolding restore
    restore-rows ks db full apart =
        let (db₁, e₁, r₁) = delete_rows-rows ks db in
        let (db₂, e₂, r₂) = laws.execute_many-rows ks db₁ (rw r₁ apart) in
        (db₂, rw (e₁, restore) (rw (full, no_column) e₂), r₂ ∙ ap (λ l. l ++ ks) r₁)

    undo-rows :
        (b : DbBackup) (q : Text) (ks : List (List Cell)) (db : Db)
        → b.table_name ≡ table
        → validate_user_identifier table ≡ accepted table
        → quote_identifier table connector.dialect ≡ accepted q
        → is_empty ks ≡ false
        → Distinct same_row (left ks db ++ ks)
        → (db' : Db) × (undo c cipher codec connector b
              (record { columns = columns; rows = ks; primary_keys = keys })
              db
            ≡ ok (db', length ks))
          × (rows db' ≡ left ks db ++ ks)
    unfolding undo undo_rows
    undo-rows b q ks db name valid quoted full apart =
        let (db', e, r) = restore-rows ks db full apart in
        (
          db',
          rw name (
              rw valid (
                rw quoted (
                  rw full (
                    rw no_key
                      (rw named (rw laws.keys_quoted (rw laws.columns_quoted (rw e refl)))))))),
          r,
        )

    module _ (secret : Text) (jsonify : Cell → Cell) (sound : IsSound cipher)
        (faithful : IsFaithful codec jsonify) (ready : IsReady c secret)
        (positive : 0 < c.chunk_bytes) where
      abbrev pub snapshot_of : Text → Db → Snapshot Cell
      snapshot_of condition db = record {
        columns = columns;
        rows = keep (matches condition) (rows db);
        primary_keys = keys;
      }

      take_snapshot-rows :
          (name condition q : Text) (db : Db)
          → name ≡ table
          → validate_user_identifier table ≡ accepted table
          → validate_where_condition condition ≡ accepted condition
          → quote_identifier table connector.dialect ≡ accepted q
          → is_empty (keep (matches condition) (rows db)) ≡ false
          → take_snapshot c cipher codec connector name condition db ≡ ok (snapshot_of condition db)
      unfolding take_snapshot
      take_snapshot-rows name condition q db e' valid valid' quoted full =
          let (schema, e, k) = laws.schema db in
          rw e' (
            rw valid (
              rw valid' (
                rw quoted (
                  rw (laws.query-rows condition db)
                    (rw e (rw full (rw laws.columns_quoted (rw k refl))))))))

      save_snapshot-stored :
          (d : Draft) (snapshot : Snapshot Cell) (s : Store)
          → leb (length (codec.pack snapshot)) c.max_snapshot_bytes ≡ true
          → leb (sum_sizes s.chunks + length (codec.pack snapshot)) c.total_capacity_bytes ≡ true
          → save_snapshot c cipher codec connector d snapshot s
            ≡ ok (stored c cipher codec connector secret d snapshot s)
      unfolding save_snapshot
      save_snapshot-stored d snapshot s small room =
          rw small (rw key (rw (positive_test c.chunk_bytes positive) (rw room refl)))
        where
          key : active_key c ≡ ok secret
          key = rw (ready.key, active_key) (rw ready.secret_given refl)

          positive_test : (n : ℕ) → 0 < n → leb 1 n ≡ true
          positive_test n h = ground arith

      prepare-stored :
          (d : Draft) (snapshot : Snapshot Cell) (s : Store)
          → ((i : ℕ) → length (d.ivs i) ≡ 12)
          → chunks_of d.id s.chunks ≡ []
          → find_backup c cipher codec connector d.id d.tenant_id s.backups ≡ none
          → is_empty snapshot.rows ≡ false
          → prepare c cipher codec connector d.id d.tenant_id
              (stored c cipher codec connector secret d snapshot s)
            ≡ ok (
              new_backup c cipher codec connector d snapshot,
              record snapshot { rows = map (map jsonify) snapshot.rows },
            )
      unfolding prepare
      prepare-stored d snapshot s long fresh absent full =
          rw (find_backup-stored c cipher codec connector secret d snapshot s absent) (
            rw
              (decode_snapshot-stored c cipher codec connector jsonify secret d snapshot s sound
                faithful ready positive long fresh)
              (rw full refl))

      rollback-undo :
          (id tenant_id : String) (b : DbBackup) (snapshot : Snapshot Cell) (n : ℕ) (db db' : Db)
          (s : Store)
          → prepare c cipher codec connector id tenant_id s ≡ ok (b, snapshot)
          → undo c cipher codec connector b snapshot db ≡ ok (db', n)
          → rollback c cipher codec connector true id tenant_id db s
            ≡ (db', (record s { backups = with_status rolled_back b.id s.backups }, ok n))
      unfolding rollback
      rollback-undo id tenant_id b snapshot n db db' s e e' = rw (e, rollback) (rw e' refl)

      -- After a backup of the rows of a condition, and any writes that touch and make only rows with the
      -- keys of those rows, a rollback answers with their number and the table holds the rows that it
      -- held before the backup. The table has a primary key that is not NULL, nothing else constrains
      -- its rows, its names can be quoted, the cells of the rows are those of JSON, and there is room for the snapshot.
      pub rollback-restores :
          (d : Draft) (q : Text) (ws : List (Write (List Cell))) (db db' : Db) (s : Store)
          → d.table_name ≡ table
          → validate_user_identifier table ≡ accepted table
          → validate_where_condition d.condition ≡ accepted d.condition
          → quote_identifier table connector.dialect ≡ accepted q
          → is_empty (keep (matches d.condition) (rows db)) ≡ false
          → leb (length (codec.pack (snapshot_of d.condition db))) c.max_snapshot_bytes ≡ true
          → leb
              (sum_sizes s.chunks + length (codec.pack (snapshot_of d.condition db)))
              c.total_capacity_bytes
            ≡ true
          → ((i : ℕ) → length (d.ivs i) ≡ 12)
          → chunks_of d.id s.chunks ≡ []
          → find_backup c cipher codec connector d.id d.tenant_id s.backups ≡ none
          → Distinct same_row (rows db)
          → All (λ r. same_row r r ≡ true) (rows db)
          → map (map jsonify) (keep (matches d.condition) (rows db))
            ≡ keep (matches d.condition) (rows db)
          → rows db' ≡ write_all ws (rows db)
          → AllWithin (has_key same_row (keep (matches d.condition) (rows db))) ws (rows db)
          → (s₁ s₂ : Store) × (db₂ : Db) × (create_backup c cipher codec connector d db s
              ≡ ok (s₁, snapshot_of d.condition db))
            × (rollback c cipher codec connector true d.id d.tenant_id db' s₁
                ≡ (db₂, (s₂, ok (length (keep (matches d.condition) (rows db))))))
            × Perm (rows db₂) (rows db)
      unfolding rollback create_backup
      rollback-restores d q ws db db' s name valid valid' quoted full small room long fresh absent
            apart own plain written within =
          let kept = keep (matches d.condition) (rows db) in
          let snapshot = snapshot_of d.condition db in
          let s₁ = stored c cipher codec connector secret d snapshot s in
          let others : left kept db' ≡ left kept db =
            ap (λ l. keep (λ r. not (has_key same_row kept r)) l) written
            ∙ write_all-others (has_key same_row kept) ws (rows db) within in
          let comm =
            λ (r r' : List Cell). laws.same_comm (key_of columns keys r) (key_of columns keys r') in
          let (db₂, e, r) =
            undo-rows (new_backup c cipher codec connector d snapshot) q kept db' name valid quoted
              full
              (rw others (
                Distinct-dropped same_row comm kept (rows db)
                  (Distinct-keep same_row comm (matches d.condition) (rows db) apart) apart)) in
          (
            s₁,
            record s₁ { backups = with_status rolled_back d.id s₁.backups },
            db₂,
            rw (take_snapshot-rows d.table_name d.condition q db name valid valid' quoted full)
                (rw (save_snapshot-stored d snapshot s small room) refl),
            rollback-undo d.id d.tenant_id (new_backup c cipher codec connector d snapshot) snapshot
                (length kept) db' db₂ s₁
                (prepare-stored d snapshot s long fresh absent full
                  ∙ ap
                      (λ l. ok (
                        new_backup c cipher codec connector d snapshot,
                        record snapshot { rows = l },
                      ))
                      plain)
                e,
            rw r (
                rw others (
                  restored-perm same_row comm (matches d.condition) (rows db) apart
                    (λ x m. All-mem (λ r. same_row r r ≡ true) (rows db) x own m))),
          )
