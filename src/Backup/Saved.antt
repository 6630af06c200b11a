-- ===== src/Backup/Saved.antt =====
-- A snapshot that is saved is read back.
use sql_rpa.Base.{
  ◌&&◌, find-append-none, ℕ, ◌+◌, ◌<◌, ◌≡◌, refl, ap, ◌∙◌, String, true, false, none, some, List,
  [], ◌∷◌, leb, All, arith, eq_iff, keep-append, length, map, str_eq,
}
use sql_rpa.Text.{Text}
use sql_rpa.Crypto.{Cipher, IsSound, decrypt_if_needed, get_key, is_nonempty}
use sql_rpa.Crypto.Rotation.{decrypt_if_needed-encrypt_if_needed, has_colon}
use sql_rpa.Backup.{
  find_backup, is_active, Codec, Connector, DbBackupChunk, Draft, Settings, Snapshot, Store,
  chunks_of, decode_chunks, decode_snapshot, insert_chunk, join_chunks, new_backup, new_chunk,
  new_chunks, ok, or_blank, order_chunks, stored,
}
use sql_rpa.Backup.Bytes.{
  All-pieces, flatten, flatten-pieces, from_hex-hex, hex, hex-starts_with, pieces,
}

-- `json.dumps(…, default=str)` keeps what JSON has, and makes texts of other cells; the bytes of the
-- compressed text are bytes.
pub record IsFaithful {Cell : Type 0} (codec : Codec Cell) (jsonify : Cell → Cell) : Type 0 where
  pub unpack-pack :
      (s : Snapshot Cell)
      → codec.unpack (codec.pack s) ≡ some (record s { rows = map (map jsonify) s.rows })
  pub pack-bytes : (s : Snapshot Cell) → All (λ b. b < 256) (codec.pack s)

-- The active key is in the ring, and an iv has 12 bytes.
pub record IsReady (c : Settings) (secret : Text) : Type 0 where
  pub key : get_key c.encryption_key_version c.ring ≡ some secret
  pub secret_given : is_nonempty secret ≡ true
  pub version : has_colon c.encryption_key_version ≡ false

module _ (c : Settings) (cipher : Cipher) (id : String) (ivs : ℕ → List ℕ) (secret : Text) where
  abbrev new : ℕ → List (List ℕ) → List DbBackupChunk
  new i ps = new_chunks c cipher id ivs secret i ps

  chunks_of-new : (i : ℕ) (ps : List (List ℕ)) → chunks_of id (new i ps) ≡ new i ps
  unfolding new_chunks
  chunks_of-new i [] = refl
  chunks_of-new i (p ∷ ps) =
      rw ((eq_iff id id).1 refl)
        (ap (λ cs. new_chunk c cipher id ivs secret i p ∷ cs) (chunks_of-new (i + 1) ps))

  insert_chunk-new :
      (i : ℕ) (p : List ℕ) (ps : List (List ℕ))
      → insert_chunk (new_chunk c cipher id ivs secret i p) (new (i + 1) ps) ≡ new i (p ∷ ps)
  unfolding insert_chunk new_chunks
  insert_chunk-new i p [] = refl
  insert_chunk-new i p (q ∷ ps) = rw (later i) refl
    where
      later : (i : ℕ) → leb i (i + 1) ≡ true
      later i = ground arith

  order_chunks-new : (i : ℕ) (ps : List (List ℕ)) → order_chunks (new i ps) ≡ new i ps
  unfolding order_chunks new_chunks
  order_chunks-new i [] = refl
  order_chunks-new i (p ∷ ps) = rw (order_chunks-new (i + 1) ps) (insert_chunk-new i p ps)

  module _ (sound : IsSound cipher) (ready : IsReady c secret)
      (long : (i : ℕ) → length (ivs i) ≡ 12) where
    decrypt-new :
        (i : ℕ) (p : List ℕ)
        → All (λ b. b < 256) p
        → decrypt_if_needed cipher
            (new_chunk c cipher id ivs secret i p).payload
            c.secret_key
            c.ring
          ≡ some (hex p)
    decrypt-new i p h =
        decrypt_if_needed-encrypt_if_needed cipher sound (ivs i) (hex p) c.secret_key
          c.encryption_key_version secret c.ring (long i) ready.version ready.key ready.secret_given
          (hex-starts_with p h)

    join_chunks-new :
        (i : ℕ) (ps : List (List ℕ))
        → All (λ p. All (λ b. b < 256) p) ps
        → join_chunks c cipher (new i ps) ≡ ok (flatten ps)
    unfolding join_chunks new_chunks
    join_chunks-new i [] h = refl
    join_chunks-new i (p ∷ ps) (h, hs) =
        rw (decrypt-new i p h) (rw (from_hex-hex p h) (rw (join_chunks-new (i + 1) ps hs) refl))

    module _ {Cell : Type 0} (codec : Codec Cell) (jsonify : Cell → Cell)
        (faithful : IsFaithful codec jsonify) where
      decode_chunks-new :
          (s : Snapshot Cell) (ps : List (List ℕ))
          → All (λ p. All (λ b. b < 256) p) ps
          → flatten ps ≡ codec.pack s
          → decode_chunks c cipher codec (new 0 (or_blank ps))
            ≡ ok (record s { rows = map (map jsonify) s.rows })
      unfolding decode_chunks new_chunks
      decode_chunks-new s [] h e =
          rw (join_chunks-new 0 ([] ∷ []) (tt, tt)) (rw e (rw (faithful.unpack-pack s) refl))
      decode_chunks-new s (p ∷ ps) h e =
          rw (join_chunks-new 0 (p ∷ ps) h) (rw e (rw (faithful.unpack-pack s) refl))

module _ {Cell Db : Type 0} (c : Settings) (cipher : Cipher) (codec : Codec Cell)
    (connector : Connector Cell Db) where
  -- What a backup with a fresh id saves is decoded to the snapshot, with the cells as JSON gives them
  -- back, whatever the size of the chunks and whatever else is in the tables.
  pub decode_snapshot-stored :
      (jsonify : Cell → Cell) (secret : Text) (d : Draft) (snapshot : Snapshot Cell) (s : Store)
      → IsSound cipher
      → IsFaithful codec jsonify
      → IsReady c secret
      → 0 < c.chunk_bytes
      → ((i : ℕ) → length (d.ivs i) ≡ 12)
      → chunks_of d.id s.chunks ≡ []
      → decode_snapshot c cipher codec
          (stored c cipher codec connector secret d snapshot s)
          (new_backup c cipher codec connector d snapshot)
        ≡ ok (record snapshot { rows = map (map jsonify) snapshot.rows })
  unfolding decode_snapshot stored
  decode_snapshot-stored jsonify secret d snapshot s sound faithful ready positive long fresh =
      rw
        (
          keep-append (λ k. str_eq k.backup_id d.id) s.chunks
              (new_chunks c cipher d.id d.ivs secret 0 (or_blank parts)),
          fresh,
          chunks_of-new c cipher d.id d.ivs secret 0 (or_blank parts),
          order_chunks-new c cipher d.id d.ivs secret 0 (or_blank parts),
        )
        (decode_chunks-new c cipher d.id d.ivs secret sound ready long codec jsonify faithful
          snapshot parts (All-pieces _ _ _ (faithful.pack-bytes snapshot)) whole)
    where
      parts : List (List ℕ)
      parts = pieces (length (codec.pack snapshot)) c.chunk_bytes (codec.pack snapshot)

      whole : flatten parts ≡ codec.pack snapshot
      whole = flatten-pieces _ c.chunk_bytes (codec.pack snapshot) positive (omega arith)

  -- The backup that is saved is found, if no active one has its id.
  pub find_backup-stored :
      (secret : Text) (d : Draft) (snapshot : Snapshot Cell) (s : Store)
      → find_backup c cipher codec connector d.id d.tenant_id s.backups ≡ none
      → find_backup c cipher codec connector d.id d.tenant_id
          (stored c cipher codec connector secret d snapshot s).backups
        ≡ some (new_backup c cipher codec connector d snapshot)
  unfolding find_backup stored
  find_backup-stored secret d snapshot s absent =
      find-append-none
        (λ b. str_eq b.id d.id && str_eq b.tenant_id d.tenant_id && is_active b.status) s.backups
        (new_backup c cipher codec connector d snapshot ∷ []) absent
      ∙ rw ((eq_iff d.id d.id).1 refl, (eq_iff d.tenant_id d.tenant_id).1 refl) refl
