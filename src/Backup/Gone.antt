-- ===== src/Backup/Gone.antt =====
-- The backups that are not active any more, in the table of backend/db_connector/backup.py.
use sql_rpa.Base.{
  ℕ, ◌⊎◌, ◌≡◌, refl, String, Bool, true, false, ◌&&◌, ◌||◌, none, some, List, [], ◌∷◌, ◌++◌, any,
  arith, eq_iff, find-some, map, str_eq, inl, inr, if◌then◌else◌,
}
use sql_rpa.Crypto.{Cipher}
use sql_rpa.Backup.{
  Codec, Connector, DbBackup, Exception, Attempt, Settings, Store, cleanup_expired_backups, err,
  find_backup, is_active, expired, is_stale, ok, rolled_back, with_status,
}

pub Attempt-cases {ℓ} :
    {A : Type ℓ} (r : Attempt A) → ((e : Exception) × (r ≡ err e)) ⊎ ((a : A) × (r ≡ ok a))
Attempt-cases (err e) = inl (e, refl)
Attempt-cases (ok a) = inr (a, refl)

-- No active backup has the id.
abbrev pub is_live : String → DbBackup → Bool
is_live id b = str_eq b.id id && is_active b.status

abbrev pub IsGone : String → Store → Type 0
IsGone id s = any (is_live id) s.backups ≡ false

pub or_false : (a b : Bool) → (a || b) ≡ false → (a ≡ false) × (b ≡ false)
or_false a b h = ground arith

both_false : (a b : Bool) → a ≡ false → b ≡ false → (a || b) ≡ false
both_false a b h k = ground arith

map-IsGone :
    (id : String) (f : DbBackup → DbBackup) (bs : List DbBackup)
    → ((b : DbBackup) → is_live id b ≡ false → is_live id (f b) ≡ false)
    → any (is_live id) bs ≡ false
    → any (is_live id) (map f bs) ≡ false
map-IsGone id f [] h e = refl
map-IsGone id f (b ∷ bs) h e =
    let (p, q) = or_false (is_live id b) (any (is_live id) bs) e in
    both_false (is_live id (f b)) (any (is_live id) (map f bs)) (h b p) (map-IsGone id f bs h q)

pub with_status-IsGone :
    (id id' : String) (bs : List DbBackup)
    → any (is_live id) bs ≡ false
    → any (is_live id) (with_status rolled_back id' bs) ≡ false
with_status-IsGone id id' bs e =
    map-IsGone id (λ b. if str_eq b.id id' then record b { status = rolled_back } else b) bs
      (λ b h. ground (arith, h)) e

pub with_status-IsGone_self :
    (id : String) (bs : List DbBackup) → any (is_live id) (with_status rolled_back id bs) ≡ false
with_status-IsGone_self id [] = refl
with_status-IsGone_self id (b ∷ bs) =
    both_false (is_live id (if str_eq b.id id then record b { status = rolled_back } else b))
      (any (is_live id) (with_status rolled_back id bs)) (ground arith)
      (with_status-IsGone_self id bs)

pub cleanup-IsGone :
    (id : String) (now : ℕ) (s : Store) → IsGone id s → IsGone id (cleanup_expired_backups now s).0
unfolding cleanup_expired_backups
cleanup-IsGone id now s e =
    map-IsGone id (λ b. if is_stale now b then record b { status = expired } else b) s.backups
      (λ b h. ground (arith, h)) e

pub any-append :
    (id : String) (bs cs : List DbBackup)
    → any (is_live id) bs ≡ false
    → any (is_live id) cs ≡ false
    → any (is_live id) (bs ++ cs) ≡ false
any-append id [] cs h k = k
any-append id (b ∷ bs) cs h k =
    let (p, q) = or_false (is_live id b) (any (is_live id) bs) h in
    both_false (is_live id b) (any (is_live id) (bs ++ cs)) p (any-append id bs cs q k)

module _ {Cell Db : Type 0} (c : Settings) (cipher : Cipher) (codec : Codec Cell)
    (connector : Connector Cell Db) where
  pub find_backup-IsGone :
      (id tenant_id : String) (bs : List DbBackup)
      → any (is_live id) bs ≡ false
      → find_backup c cipher codec connector id tenant_id bs ≡ none
  unfolding find_backup
  find_backup-IsGone id tenant_id [] e = refl
  find_backup-IsGone id tenant_id (b ∷ bs) e =
      let (p, q) = or_false (is_live id b) (any (is_live id) bs) e in
      rw (tenant (str_eq b.id id) (str_eq b.tenant_id tenant_id) (is_active b.status) p)
        (find_backup-IsGone id tenant_id bs q)
    where
      tenant : (x y z : Bool) → (x && z) ≡ false → (x && y && z) ≡ false
      tenant x y z h = ground arith

  pub find_backup-id :
      (id tenant_id : String) (bs : List DbBackup) (b : DbBackup)
      → find_backup c cipher codec connector id tenant_id bs ≡ some b
      → b.id ≡ id
  unfolding find_backup
  find_backup-id id tenant_id bs b e = (eq_iff b.id id).0 (
      first _ _ _ (
        find-some (λ x. str_eq x.id id && str_eq x.tenant_id tenant_id && is_active x.status) bs b
          e))
    where
      first : (x y z : Bool) → (x && y && z) ≡ true → x ≡ true
      first x y z h = ground arith
