-- ===== src/Backup/Once.antt =====
-- A backup is rolled back at most once, whatever else the manager is asked to do.
use sql_rpa.Base.{
  ℕ, ◌+◌, ◌≤◌, ◌⊎◌, ◌≡◌, refl, String, Bool, true, false, ◌&&◌, some, List, [], ◌∷◌, ◌++◌, All,
  arith, eq_iff, subst, str_eq, Bool-cases, inl, inr, if◌then◌else◌,
}
use sql_rpa.Crypto.{Cipher}
use sql_rpa.Backup.{
  Codec, Connector, DbBackup, Draft, Attempt, Settings, Snapshot, Store, cleanup_expired_backups,
  create_backup, err, find_backup, ok, save_snapshot, stored, prepare, rollback, rolled_back, undo,
  with_status, new_backup, take_snapshot,
}
use sql_rpa.Backup.Gone.{
  Attempt-cases, IsGone, with_status-IsGone, with_status-IsGone_self, cleanup-IsGone, any-append,
  find_backup-IsGone, find_backup-id,
}

-- A call of the manager; a rollback says if its status is saved.
pub data Call : Type 0 where
  creates : Draft → Call
  rolls : Bool → String → String → Call
  cleans : ℕ → Call

module _ {Cell Db : Type 0} (c : Settings) (cipher : Cipher) (codec : Codec Cell)
    (connector : Connector Cell Db) where
  store_of : Store → Attempt (Store × Snapshot Cell) → Store
  store_of s (err e) = s
  store_of s (ok (s', snapshot)) = s'

  -- The store after a call that finds the target database in a state.
  pub call : Call → Db → Store → Store
  unfolding store_of
  call (creates d) db s = store_of s (create_backup c cipher codec connector d db s)
  call (rolls saved id tenant_id) db s =
      (rollback c cipher codec connector saved id tenant_id db s).1.0
  call (cleans now) db s = (cleanup_expired_backups now s).0

  pub is_ok : Attempt ℕ → Bool
  is_ok (ok n) = true
  is_ok (err e) = false

  -- Whether a call is a rollback of a backup that answers that its rows are restored.
  pub restores : String → Call → Db → Store → Bool
  unfolding is_ok
  restores id (creates d) db s = false
  restores id (rolls saved id' tenant_id) db s =
      str_eq id' id && is_ok (rollback c cipher codec connector saved id' tenant_id db s).1.1
  restores id (cleans now) db s = false

  pub count_restores : String → List (Call × Db) → Store → ℕ
  count_restores id [] s = 0
  count_restores id ((r, db) ∷ rs) s =
      (if restores id r db s then 1 else 0) + count_restores id rs (call r db s)

  abbrev pub Draws : String → Call × Db → Type 0
  Draws id (creates d, db) = str_eq d.id id ≡ false
  Draws id (rolls saved id' tenant_id, db) = Unit
  Draws id (cleans now, db) = Unit

  save_snapshot-backups :
      (d : Draft) (snapshot : Snapshot Cell) (s s' : Store)
      → save_snapshot c cipher codec connector d snapshot s ≡ ok s'
      → s'.backups ≡ s.backups ++ new_backup c cipher codec connector d snapshot ∷ []
  unfolding save_snapshot stored
  save_snapshot-backups d snapshot s s' e = ground arith

  create-IsGone :
      (id : String) (d : Draft) (db : Db) (s : Store)
      → str_eq d.id id ≡ false
      → IsGone id s
      → IsGone id (call (creates d) db s)
  unfolding call create_backup
  create-IsGone id d db s other e =
      elim (Attempt-cases (take_snapshot c cipher codec connector d.table_name d.condition db)) [
        | inl (x, f) ↦ rw (f, create_backup) e
        | inr (snapshot, f) ↦
            elim (Attempt-cases (save_snapshot c cipher codec connector d snapshot s)) [
              | inl (x, g) ↦ rw (f, create_backup) (rw g e)
              | inr (s', g) ↦
                  rw (f, create_backup)
                    (rw g (
                      rw (save_snapshot-backups d snapshot s s' g) (
                        any-append id s.backups
                          (new_backup c cipher codec connector d snapshot ∷ []) e
                          (ground (arith, other)))))
            ]
      ]

  prepare-found :
      (id tenant_id : String) (s : Store) (b : DbBackup) (snapshot : Snapshot Cell)
      → prepare c cipher codec connector id tenant_id s ≡ ok (b, snapshot)
      → find_backup c cipher codec connector id tenant_id s.backups ≡ some b
  unfolding prepare
  prepare-found id tenant_id s b snapshot e = ground arith

  -- A rollback leaves the store and answers with an error, or marks the backup that it found.
  pub rollback-cases :
      (id tenant_id : String) (saved : Bool) (db : Db) (s : Store)
      → (((rollback c cipher codec connector saved id tenant_id db s).1.0 ≡ s)
          × (is_ok (rollback c cipher codec connector saved id tenant_id db s).1.1 ≡ false))
        ⊎ ((b : DbBackup) × (find_backup c cipher codec connector id tenant_id s.backups ≡ some b)
            × ((rollback c cipher codec connector saved id tenant_id db s).1.0
                ≡ record s { backups = with_status rolled_back b.id s.backups }))
  unfolding rollback is_ok
  rollback-cases id tenant_id saved db s =
      elim (Attempt-cases (prepare c cipher codec connector id tenant_id s)) [
        | inl (x, e) ↦ inl (rw (e, rollback) refl, rw (e, rollback) refl)
        | inr ((b, snapshot), e) ↦
            elim (Attempt-cases (undo c cipher codec connector b snapshot db)) [
              | inl (x, f) ↦ inl (rw (e, rollback) (rw f refl), rw (e, rollback) (rw f refl))
              | inr ((db', n), f) ↦ elim (Bool-cases saved) [
                | inl t ↦ inr (
                  b,
                  prepare-found id tenant_id s b snapshot e,
                  rw (e, rollback) (rw f (rw t refl)),
                )
                | inr t ↦
                    inl (rw (e, rollback) (rw f (rw t refl)), rw (e, rollback) (rw f (rw t refl)))
              ]
            ]
      ]

  rollback-IsGone :
      (id id' tenant_id : String) (saved : Bool) (db : Db) (s : Store)
      → IsGone id s
      → IsGone id (call (rolls saved id' tenant_id) db s)
  unfolding call
  rollback-IsGone id id' tenant_id saved db s e = elim (rollback-cases id' tenant_id saved db s) [
    | inl (f, g) ↦ rw f e
    | inr (b, found, f) ↦ rw f (with_status-IsGone id b.id s.backups e)
  ]

  -- A rollback that answers with the rows that it has restored leaves no active backup behind.
  restored-IsGone :
      (id tenant_id : String) (saved : Bool) (db : Db) (s : Store)
      → is_ok (rollback c cipher codec connector saved id tenant_id db s).1.1 ≡ true
      → IsGone id (rollback c cipher codec connector saved id tenant_id db s).1.0
  restored-IsGone id tenant_id saved db s e = elim (rollback-cases id tenant_id saved db s) [
    | inl (f, g) ↦ absurd (ground (arith, e, g))
    | inr (b, found, f) ↦
        rw (f, ← find_backup-id c cipher codec connector id tenant_id s.backups b found)
          (with_status-IsGone_self b.id s.backups)
  ]

  gone-fails :
      (id tenant_id : String) (saved : Bool) (db : Db) (s : Store)
      → IsGone id s
      → is_ok (rollback c cipher codec connector saved id tenant_id db s).1.1 ≡ false
  gone-fails id tenant_id saved db s e = elim (rollback-cases id tenant_id saved db s) [
    | inl (f, g) ↦ g
    | inr (b, found, f) ↦ absurd (
        ground (arith, found, find_backup-IsGone c cipher codec connector id tenant_id s.backups e))
  ]

  call-IsGone :
      (id : String) (r : Call) (db : Db) (s : Store)
      → Draws id (r, db)
      → IsGone id s
      → IsGone id (call r db s)
  unfolding call
  call-IsGone id (creates d) db s other e = create-IsGone id d db s other e
  call-IsGone id (rolls saved id' tenant_id) db s other e =
      rollback-IsGone id id' tenant_id saved db s e
  call-IsGone id (cleans now) db s other e = cleanup-IsGone id now s e

  gone-restores :
      (id : String) (r : Call) (db : Db) (s : Store) → IsGone id s → restores id r db s ≡ false
  unfolding restores
  gone-restores id (creates d) db s e = refl
  gone-restores id (cleans now) db s e = refl
  gone-restores id (rolls saved id' tenant_id) db s e = elim (Bool-cases (str_eq id' id)) [
    | inr h ↦ rw h refl
    | inl h ↦ rw h (rw ((eq_iff id' id).0 h) (gone-fails id tenant_id saved db s e))
  ]

  restores-IsGone :
      (id : String) (r : Call) (db : Db) (s : Store)
      → restores id r db s ≡ true
      → IsGone id (call r db s)
  unfolding restores call
  restores-IsGone id (creates d) db s h = absurd (ground (arith, h))
  restores-IsGone id (cleans now) db s h = absurd (ground (arith, h))
  restores-IsGone id (rolls saved id' tenant_id) db s h =
      let (p, q) = both _ _ h in
      subst (λ i. IsGone i (rollback c cipher codec connector saved id' tenant_id db s).1.0)
        ((eq_iff id' id).0 p) (restored-IsGone id' tenant_id saved db s q)
    where
      both : (x y : Bool) → (x && y) ≡ true → (x ≡ true) × (y ≡ true)
      both x y h = ground arith

  count_restores-IsGone :
      (id : String) (rs : List (Call × Db)) (s : Store)
      → All (Draws id) rs
      → IsGone id s
      → count_restores id rs s ≡ 0
  unfolding count_restores
  count_restores-IsGone id [] s h e = refl
  count_restores-IsGone id ((r, db) ∷ rs) s (h, hs) e =
      rw (gone-restores id r db s e)
        (omega (arith, count_restores-IsGone id rs (call r db s) hs (call-IsGone id r db s h e)))

  -- Over any calls of the manager that come one after another, each from the store that the one
  -- before has left, in any states of the target database, at most one rollback of a backup answers
  -- that its rows are restored, if no new backup draws the same id. Rollbacks that overlap are not
  -- covered: nothing keeps two of them from both restoring.
  pub count_restores-le-one :
      (id : String) (rs : List (Call × Db)) (s : Store)
      → All (Draws id) rs
      → count_restores id rs s ≤ 1
  unfolding count_restores
  count_restores-le-one id [] s h = omega arith
  count_restores-le-one id ((r, db) ∷ rs) s (h, hs) = elim (Bool-cases (restores id r db s)) [
    | inl t ↦
        rw t (
          omega (arith, count_restores-IsGone id rs (call r db s) hs (restores-IsGone id r db s t)))
    | inr t ↦ rw t (omega (arith, count_restores-le-one id rs (call r db s) hs))
  ]
