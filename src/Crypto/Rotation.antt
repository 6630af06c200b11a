-- ===== src/Crypto/Rotation.antt =====
-- What is encrypted under a version of the key is decrypted as long as that key is in the ring.
use mathlib.Core.List.{append_assoc}
use sql_rpa.Base.{
  ℕ, zero, suc, ◌≡◌, refl, ap, Bool, true, false, some, List, [], ◌∷◌, ◌++◌, ◌==◌, codes, take,
  drop, length, length-append, arith, any,
}
use sql_rpa.Text.{Text, starts_with}
use sql_rpa.Crypto.{
  Cipher, IsSound, Keyring, decrypt, decrypt_if_needed, encrypt, encrypt_if_needed, envelope,
  get_key, is_nonempty, open_envelope, reencrypt, select_key, split_once,
}

take-append : (n : ℕ) (a b : List ℕ) → length a ≡ n → take n (a ++ b) ≡ a
take-append zero [] b h = refl
take-append zero (x ∷ a) b h = absurd (omega arith)
take-append (suc n) [] b h = absurd (omega arith)
take-append (suc n) (x ∷ a) b h = ap (λ l. x ∷ l) (take-append n a b (omega arith))

drop-append : (n : ℕ) (a b : List ℕ) → length a ≡ n → drop n (a ++ b) ≡ b
drop-append zero [] b h = refl
drop-append zero (x ∷ a) b h = absurd (omega arith)
drop-append (suc n) [] b h = absurd (omega arith)
drop-append (suc n) (x ∷ a) b h = drop-append n a b (omega arith)

abbrev pub has_colon : Text → Bool
has_colon s = any (λ c. c == b':') s

split_once-append :
    (s t : Text) → has_colon s ≡ false → split_once b':' (s ++ b':' ∷ t) ≡ some (s, t)
unfolding split_once
split_once-append [] t h = refl
split_once-append (c ∷ s) t h = ground (arith, split_once-append s t)

select_key-some :
    (version legacy secret : Text) (ring : Keyring)
    → get_key version ring ≡ some secret
    → is_nonempty secret ≡ true
    → select_key version legacy ring ≡ some secret
unfolding select_key
select_key-some version legacy secret ring have full = rw (have, select_key) (rw full refl)

module _ (c : Cipher) (sound : IsSound c) where
  decrypt-encrypt :
      (iv : List ℕ) (plain secret : Text)
      → length iv ≡ 12
      → decrypt c (encrypt c iv plain secret) secret ≡ some plain
  unfolding decrypt encrypt
  decrypt-encrypt iv plain secret long =
      let key = c.sha256 (c.encode secret) in
      let tag = (c.seal key iv (c.encode plain)).0 in
      let sealed = (c.seal key iv (c.encode plain)).1 in
      let tagged = sound.tag-length key iv (c.encode plain) in
      rw (sound.b64decode-b64encode (iv ++ (tag ++ sealed))) (
        rw (take-append 12 iv (tag ++ sealed) long, drop-append 12 iv (tag ++ sealed) long)
          (rw (take-append 16 tag sealed tagged, ← append_assoc iv tag sealed)
            (rw (drop-append 28 (iv ++ tag) sealed (omega (arith, length-append iv tag)))
              (rw (sound.unseal-seal key iv (c.encode plain)) (sound.decode-encode plain)))))

  -- The envelope of a version is opened with the key that the ring has for it.
  open-envelope :
      (iv : List ℕ) (plain legacy version secret : Text) (ring : Keyring)
      → length iv ≡ 12
      → has_colon version ≡ false
      → get_key version ring ≡ some secret
      → is_nonempty secret ≡ true
      → open_envelope c (drop 4 (envelope version (encrypt c iv plain secret))) legacy ring
        ≡ some plain
  unfolding open_envelope
  open-envelope iv plain legacy version secret ring long colon have full =
      rw (split_once-append (b'v' ∷ version) (encrypt c iv plain secret) colon) (
        rw (select_key-some version legacy secret ring have full)
          (decrypt-encrypt iv plain secret long))

  -- A value that is no envelope itself comes back from its envelope, the empty one included.
  pub decrypt_if_needed-encrypt_if_needed :
      (iv : List ℕ) (value legacy version secret : Text) (ring : Keyring)
      → length iv ≡ 12
      → has_colon version ≡ false
      → get_key version ring ≡ some secret
      → is_nonempty secret ≡ true
      → starts_with (codes "ENC:") value ≡ false
      → decrypt_if_needed c (encrypt_if_needed c iv value secret version) legacy ring ≡ some value
  unfolding decrypt_if_needed encrypt_if_needed
  decrypt_if_needed-encrypt_if_needed iv [] legacy version secret ring long colon have full plain =
      refl
  decrypt_if_needed-encrypt_if_needed iv (x ∷ s) legacy version secret ring long colon have full
        plain =
      rw plain (open-envelope iv (x ∷ s) legacy version secret ring long colon have full)

  -- A value that can be read, and whose text is no envelope itself, is encrypted again under the
  -- active version; whatever keys are added or dropped later, it is read as the same text as long as
  -- the key of that version stays.
  pub decrypt_if_needed-reencrypt :
      (iv : List ℕ) (value plain legacy legacy' version secret : Text) (ring later : Keyring)
      → length iv ≡ 12
      → has_colon version ≡ false
      → get_key version ring ≡ some secret
      → get_key version later ≡ some secret
      → is_nonempty secret ≡ true
      → decrypt_if_needed c value legacy ring ≡ some plain
      → starts_with (codes "ENC:") plain ≡ false
      → (value' : Text) × (reencrypt c iv value legacy version ring ≡ some value')
        × (decrypt_if_needed c value' legacy' later ≡ some plain)
  unfolding reencrypt
  decrypt_if_needed-reencrypt iv value plain legacy legacy' version secret ring later long colon
        have kept full readable bare =
      (
        encrypt_if_needed c iv plain secret version,
        rw have (rw full (rw readable refl)),
        decrypt_if_needed-encrypt_if_needed iv plain legacy' version secret later long colon kept
            full bare,
      )
