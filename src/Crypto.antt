-- ===== src/Crypto.antt =====
-- backend/utils/crypto.py: envelopes of encrypted values with the version of their key. AES-GCM,
-- SHA-256, base64 and UTF-8 are parameters. An exception is `none`.
pub mod Rotation
pub mod Tests
use sql_rpa.Base.{
  ℕ, ◌+◌, ◌≡◌, Bool, true, false, Option, none, some, List, [], ◌∷◌, ◌++◌, ◌==◌, codes, take, drop,
  length, if◌then◌else◌,
}
use sql_rpa.Text.{Text, text_eq, starts_with}

-- The third-party code: `seal` gives the tag and the ciphertext for a key, an iv and a plaintext.
pub record Cipher : Type 0 where
  pub sha256 : List ℕ → List ℕ
  pub encode : Text → List ℕ
  pub decode : List ℕ → Option Text
  pub b64encode : List ℕ → Text
  pub b64decode : Text → Option (List ℕ)
  pub seal : List ℕ → List ℕ → List ℕ → List ℕ × List ℕ
  pub unseal : List ℕ → List ℕ → List ℕ → List ℕ → Option (List ℕ)

-- Its documented behaviour.
pub record IsSound (c : Cipher) : Type 0 where
  pub decode-encode : (s : Text) → c.decode (c.encode s) ≡ some s
  pub b64decode-b64encode : (b : List ℕ) → c.b64decode (c.b64encode b) ≡ some b
  pub tag-length : (k iv p : List ℕ) → length (c.seal k iv p).0 ≡ 16
  pub unseal-seal : (k iv p : List ℕ) → c.unseal k iv (c.seal k iv p).0 (c.seal k iv p).1 ≡ some p

infixl 5 ◌>>=◌
abbrev pub ◌>>=◌ : {A B : Type 0} → Option A → (A → Option B) → Option B
none >>= f = none
some a >>= f = f a

-- `s.split(d, 1)` where the part after the first `d` is there.
pub split_once : ℕ → Text → Option (Text × Text)
split_once d [] = none
split_once d (c ∷ s) =
    let rest = split_once d s in
    if c == d then some ([], s) else (do (a, b) ← rest; some (c ∷ a, b))

abbrev remove_v : Text → Text
remove_v [] = []
remove_v (c ∷ s) = if c == b'v' then s else c ∷ s

abbrev pub is_nonempty : Text → Bool
is_nonempty [] = false
is_nonempty (_ ∷ _) = true

abbrev pub Keyring : Type 0
Keyring = List (Text × Text)

unfoldable pub get_key : Text → Keyring → Option Text
get_key version [] = none
get_key version ((v, k) ∷ ring) =
    let rest = get_key version ring in if text_eq v version then some k else rest

-- `f"ENC:v{version}:{...}"`
abbrev pub envelope : Text → Text → Text
envelope version encoded = codes "ENC:v" ++ (version ++ b':' ∷ encoded)

-- `(keyring or {}).get(version) or (secret if version == "1" else None)`, if it is not empty.
abbrev legacy_key : Text → Text → Option Text
legacy_key version secret =
    if text_eq version (codes "1") then (if is_nonempty secret then some secret else none) else none

pub select_key : Text → Text → Keyring → Option Text
select_key version secret ring = elim (get_key version ring) [
  | none ↦ legacy_key version secret
  | some k ↦ if is_nonempty k then some k else legacy_key version secret
]

module _ (c : Cipher) where
  -- `encrypt`, with the iv that it draws.
  pub encrypt : List ℕ → Text → Text → Text
  encrypt iv plaintext secret =
      let (tag, ciphertext) = c.seal (c.sha256 (c.encode secret)) iv (c.encode plaintext) in
      c.b64encode (iv ++ (tag ++ ciphertext))

  pub decrypt : Text → Text → Option Text
  decrypt encoded secret = do
    raw ← c.b64decode encoded
    plain ←
        c.unseal (c.sha256 (c.encode secret)) (take 12 raw) (take 16 (drop 12 raw)) (drop 28 raw)
    c.decode plain

  unfoldable pub encrypt_if_needed : List ℕ → Text → Text → Text → Text
  unfolding encrypt
  encrypt_if_needed iv [] secret version = []
  encrypt_if_needed iv (x ∷ s) secret version =
      if starts_with (codes "ENC:") (x ∷ s)
      then x ∷ s
      else envelope version (encrypt iv (x ∷ s) secret)

  -- The value behind "ENC:", which begins with "v".
  pub open_envelope : Text → Text → Keyring → Option Text
  unfolding decrypt split_once select_key get_key
  open_envelope value secret ring = do
    (marker, encoded) ← split_once b':' value
    selected ← select_key (remove_v marker) secret ring
    decrypt encoded selected

  unfoldable pub decrypt_if_needed : Text → Text → Keyring → Option Text
  unfolding open_envelope
  decrypt_if_needed value secret ring =
      if starts_with (codes "ENC:v") value
      then open_envelope (drop 4 value) secret ring
      else if starts_with (codes "ENC:") value
      then decrypt (drop 4 value) secret
      else some value

  pub reencrypt : List ℕ → Text → Text → Text → Keyring → Option Text
  unfolding decrypt_if_needed encrypt_if_needed
  reencrypt iv value legacy_secret active_version ring = do
    active_secret ← get_key active_version ring
    active ← if is_nonempty active_secret then some active_secret else none
    plain ← decrypt_if_needed value legacy_secret ring
    some (encrypt_if_needed iv plain active active_version)
