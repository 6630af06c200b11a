-- ===== src/Backup/Requests/Reversible.antt =====
-- A rollback that changes the target has a reverse backup that can be rolled back in its turn.
use sql_rpa.Base.{
  ℕ, ◌≡◌, ◌⊎◌, refl, ap, ◌∙◌, String, Bool, true, false, ◌||◌, none, some, List, [], ◌∷◌, arith,
  eq_iff, find, length, leb, leb→le, map, str_eq, Bool-cases, Option-cases, inl, inr,
}
use sql_rpa.Text.{Text}
use sql_rpa.Crypto.{Cipher, IsSound, get_key, is_nonempty}
use sql_rpa.Crypto.Rotation.{has_colon}
use sql_rpa.Backup.{
  BackupStatus, Codec, Connector, DbBackup, Draft, Attempt, Settings, Snapshot, Store, bad_value,
  chunks_of, create_backup, decode_snapshot, err, find_backup, is_reverse, new_backup, ok, prepare,
  raised, rollback, rolled_back, save_snapshot, stored, take_snapshot, with_status,
}
use sql_rpa.Backup.Saved.{IsFaithful, IsReady, decode_snapshot-stored, find_backup-stored}
use sql_rpa.Backup.Gone.{Attempt-cases, find_backup-id}
use sql_rpa.Backup.Once.{rollback-cases}
use sql_rpa.Backup.Requests.{
  Input, Request, World, DbRollbackRecord, finish, reverse_draft, rollback_operation, run_rollback,
  visible,
}

module _ {Cell Db : Type 0} (c : Settings) (cipher : Cipher) (codec : Codec Cell)
    (connector : Connector Cell Db) where
  finish-db :
      (r : Request) (i : Input) (records : List DbRollbackRecord) (x : Db × (Store × Attempt ℕ))
      → ((finish c cipher codec connector r i records x).0.db ≡ x.0)
        × ((finish c cipher codec connector r i records x).0.store ≡ x.1.0)
  unfolding finish
  finish-db r i records (db, (s, err bad_value)) = (refl, refl)
  finish-db r i records (db, (s, err raised)) = (refl, refl)
  finish-db r i records (db, (s, ok n)) = ground arith

  -- A rollback leaves the chunks.
  rollback-chunks :
      (saved : Bool) (id tenant_id : String) (db : Db) (s : Store)
      → (rollback c cipher codec connector saved id tenant_id db s).1.0.chunks ≡ s.chunks
  unfolding rollback
  rollback-chunks saved id tenant_id db s = ground arith

  -- A backup that is created has taken a snapshot, and its rows are stored under the active key.
  create_backup-parts :
      (d : Draft) (db : Db) (s s' : Store) (snapshot : Snapshot Cell)
      → create_backup c cipher codec connector d db s ≡ ok (s', snapshot)
      → (take_snapshot c cipher codec connector d.table_name d.condition db ≡ ok snapshot)
        × (save_snapshot c cipher codec connector d snapshot s ≡ ok s')
  unfolding create_backup
  create_backup-parts d db s s' snapshot e = ground arith

  save_snapshot-parts :
      (d : Draft) (s s' : Store) (snapshot : Snapshot Cell)
      → save_snapshot c cipher codec connector d snapshot s ≡ ok s'
      → (secret : Text) × (s' ≡ stored c cipher codec connector secret d snapshot s)
        × (get_key c.encryption_key_version c.ring ≡ some secret)
        × (is_nonempty secret ≡ true)
        × (leb 1 c.chunk_bytes ≡ true)
  unfolding save_snapshot
  save_snapshot-parts d s s' snapshot e =
      elim (Option-cases (get_key c.encryption_key_version c.ring)) [
        | inl n ↦ absurd (ground (arith, e, n))
        | inr (secret, p) ↦ (secret, ground arith, p, ground arith, ground arith)
      ]

  find_backup-with_status :
      (status : BackupStatus) (id id' tenant_id : String) (bs : List DbBackup)
      → str_eq id' id ≡ false
      → find_backup c cipher codec connector id tenant_id (with_status status id' bs)
        ≡ find_backup c cipher codec connector id tenant_id bs
  unfolding find_backup
  find_backup-with_status status id id' tenant_id [] other = refl
  find_backup-with_status status id id' tenant_id (b ∷ bs) other =
      elim (Bool-cases (str_eq b.id id')) [
        | inr h ↦ rw h (rw (find_backup-with_status status id id' tenant_id bs other) refl)
        | inl h ↦ rw h (rw (differs h) (find_backup-with_status status id id' tenant_id bs other))
      ]
    where
      differs : str_eq b.id id' ≡ true → str_eq b.id id ≡ false
      differs h = rw ((eq_iff b.id id').0 h) other

  prepare-parts :
      (id tenant_id : String) (s : Store) (b : DbBackup) (snapshot : Snapshot Cell)
      → find_backup c cipher codec connector id tenant_id s.backups ≡ some b
      → is_reverse b.operation_type ≡ true
      → decode_snapshot c cipher codec s b ≡ ok snapshot
      → prepare c cipher codec connector id tenant_id s ≡ ok (b, snapshot)
  unfolding prepare
  prepare-parts id tenant_id s b snapshot e f g =
      rw (e, prepare) (rw f (rw (any_or b.has_rollback_sql) (rw g refl)))
    where
      any_or : (x : Bool) → (x || true) ≡ true
      any_or x = ground arith

  decode_snapshot-chunks :
      (s s' : Store) (b : DbBackup)
      → s'.chunks ≡ s.chunks
      → decode_snapshot c cipher codec s' b ≡ decode_snapshot c cipher codec s b
  unfolding decode_snapshot
  decode_snapshot-chunks s s' b e =
      ap (λ cs. decode_snapshot c cipher codec (record s { chunks = cs }) b) e

  module _ (r : Request) (i : Input) (w : World Db) (jsonify : Cell → Cell) (sound : IsSound cipher)
      (faithful : IsFaithful codec jsonify)
      (plain_version : has_colon c.encryption_key_version ≡ false)
      (long : (n : ℕ) → length (i.ivs n) ≡ 12) (fresh : chunks_of i.reverse_id w.store.chunks ≡ [])
      (absent : find_backup c cipher codec connector i.reverse_id r.tenant_id w.store.backups
        ≡ none)
      (other : str_eq r.backup_id i.reverse_id ≡ false) where
    -- After the rollback of the backup, the reverse backup is found.
    found_after :
        (secret : Text) (b : DbBackup) (snapshot : Snapshot Cell)
        → find_backup c cipher codec connector i.reverse_id r.tenant_id
            (rollback c cipher codec connector i.saved r.backup_id r.tenant_id w.db (
              stored c cipher codec connector secret
                (reverse_draft r i b)
                snapshot
                w.store)).1.0.backups
          ≡ some (new_backup c cipher codec connector (reverse_draft r i b) snapshot)
    found_after secret b snapshot =
        let d = reverse_draft r i b in
        let s = stored c cipher codec connector secret d snapshot w.store in
        let there = find_backup-stored c cipher codec connector secret d snapshot w.store absent in
        elim (rollback-cases c cipher codec connector r.backup_id r.tenant_id i.saved w.db s) [
          | inl (e, _) ↦ rw e there
          | inr (b', found, e) ↦
              rw
                (
                  e,
                  find_backup-id c cipher codec connector r.backup_id r.tenant_id s.backups b'
                      found,
                )
                (find_backup-with_status rolled_back i.reverse_id r.backup_id r.tenant_id s.backups
                    other
                  ∙ there)
        ]

    ready_after :
        (b : DbBackup) (s : Store) (snapshot : Snapshot Cell)
        → save_snapshot c cipher codec connector (reverse_draft r i b) snapshot w.store ≡ ok s
        → prepare c cipher codec connector i.reverse_id r.tenant_id
            (rollback c cipher codec connector i.saved r.backup_id r.tenant_id w.db s).1.0
          ≡ ok (
            new_backup c cipher codec connector (reverse_draft r i b) snapshot,
            record snapshot { rows = map (map jsonify) snapshot.rows },
          )
    ready_after b s snapshot saved =
        let d = reverse_draft r i b in
        let (secret, e, key, given, some_bytes) = save_snapshot-parts d w.store s snapshot saved in
        let s₁ = stored c cipher codec connector secret d snapshot w.store in
        let ready : IsReady c secret = record {
          key = key;
          secret_given = given;
          version = plain_version;
        } in
        let s₂ = (rollback c cipher codec connector i.saved r.backup_id r.tenant_id w.db s₁).1.0 in
        rw e (
          prepare-parts i.reverse_id r.tenant_id s₂ (new_backup c cipher codec connector d snapshot)
            (record snapshot { rows = map (map jsonify) snapshot.rows })
            (found_after secret b snapshot) refl
            (decode_snapshot-chunks s₁ s₂ (new_backup c cipher codec connector d snapshot)
                (rollback-chunks i.saved r.backup_id r.tenant_id w.db s₁)
              ∙ decode_snapshot-stored c cipher codec connector jsonify secret d snapshot w.store
                  sound faithful ready (leb→le 1 c.chunk_bytes some_bytes) long fresh))

    -- However a request for a rollback ends, it has left the target alone, or a reverse backup stands
    -- ready for a rollback, which holds the rows that met the condition of the backup before, with their
    -- cells as JSON gives them back.
    pub rollback_operation-reversible :
        ((rollback_operation c cipher codec connector r i w).0.db ≡ w.db)
        ⊎ ((b : DbBackup) × (snapshot : Snapshot Cell) × (find (visible r) w.store.backups ≡ some b)
            × (take_snapshot c cipher codec connector b.table_name b.condition_sql w.db
                ≡ ok snapshot)
            × (prepare c cipher codec connector i.reverse_id r.tenant_id
                  (rollback_operation c cipher codec connector r i w).0.store
                ≡ ok (
                  new_backup c cipher codec connector (reverse_draft r i b) snapshot,
                  record snapshot { rows = map (map jsonify) snapshot.rows },
                )))
    unfolding rollback_operation run_rollback
    rollback_operation-reversible = elim (Bool-cases r.confirm) [
      | inr h ↦ inl (rw (h, rollback_operation) refl)
      | inl h ↦ elim (Option-cases (find (visible r) w.store.backups)) [
        | inl e ↦ inl (rw (h, rollback_operation) (rw e refl))
        | inr (b, e) ↦
            elim (Attempt-cases
              (create_backup c cipher codec connector (reverse_draft r i b) w.db w.store)) [
                | inl (x, f) ↦ inl (rw (h, rollback_operation) (rw e (rw f refl)))
                | inr ((s, snapshot), f) ↦
                    let (taken, saved) =
                      create_backup-parts (reverse_draft r i b) w.db w.store s snapshot f in
                    inr (
                      b,
                      snapshot,
                      e,
                      taken,
                      rw (h, rollback_operation)
                          (rw e (
                            rw f (
                              rw
                                ((finish-db r i w.records (
                                  rollback c cipher codec connector i.saved r.backup_id r.tenant_id
                                    w.db s)).1)
                                (ready_after b s snapshot saved)))),
                    )
              ]
      ]
    ]
