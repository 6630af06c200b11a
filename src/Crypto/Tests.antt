-- ===== src/Crypto/Tests.antt =====
-- A cipher that adds nothing but a tag, over a ring with two keys.
use sql_rpa.Base.{◌≡◌, refl, ℕ, some, List, [], ◌∷◌, codes}
use sql_rpa.Text.{Text}
use sql_rpa.Crypto.{
  Cipher, IsSound, Keyring, decrypt_if_needed, encrypt_if_needed, get_key, reencrypt,
}
use sql_rpa.Crypto.Rotation.{decrypt_if_needed-reencrypt}

abbrev pub zeros : List ℕ
zeros = 0 ∷ 0 ∷ 0 ∷ 0 ∷ 0 ∷ 0 ∷ 0 ∷ 0 ∷ 0 ∷ 0 ∷ 0 ∷ 0 ∷ []

abbrev pub open_cipher : Cipher
open_cipher = record {
  sha256 = λ b. b;
  encode = λ s. s;
  decode = λ b. some b;
  b64encode = λ b. b;
  b64decode = λ s. some s;
  seal = λ k iv p. (0 ∷ 0 ∷ 0 ∷ 0 ∷ zeros, p);
  unseal = λ k iv tag b. some b;
}

pub open_cipher-IsSound : IsSound open_cipher
open_cipher-IsSound = record {
  decode-encode = λ s. refl;
  b64decode-b64encode = λ b. refl;
  tag-length = λ k iv p. refl;
  unseal-seal = λ k iv p. refl;
}

abbrev ring : Keyring
ring = (codes "1", codes "old") ∷ (codes "2", codes "new") ∷ []

abbrev later : Keyring
later = (codes "2", codes "new") ∷ []

abbrev stored : Text
stored = codes "secret"

decrypt_if_needed-reencrypt_example :
    (value' : Text) × (reencrypt open_cipher zeros stored (codes "old") (codes "2") ring
      ≡ some value')
    × (decrypt_if_needed open_cipher value' (codes "gone") later ≡ some stored)
unfolding decrypt_if_needed get_key
decrypt_if_needed-reencrypt_example =
    decrypt_if_needed-reencrypt open_cipher open_cipher-IsSound zeros stored stored (codes "old")
      (codes "gone") (codes "2") (codes "new") ring later refl refl refl refl refl refl refl

-- A plain value that begins like an envelope is stored as it is, and cannot be read.
bare_envelope :
    encrypt_if_needed open_cipher zeros (codes "ENC:key") (codes "new") (codes "2")
    ≡ codes "ENC:key"
unfolding encrypt_if_needed
bare_envelope = refl
