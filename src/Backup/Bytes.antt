-- ===== src/Backup/Bytes.antt =====
-- Byte strings of backend/db_connector/backup.py: `bytes.hex`, `bytes.fromhex` and the slices.
use sql_rpa.Base.{
  ℕ, zero, suc, ◌+◌, ◌-◌, ◌/◌, ◌%◌, ◌*◌, ◌≤◌, ◌<◌, ◌≡◌, refl, ap, ◌∙◌, Option, none, some, List, [],
  ◌∷◌, ◌++◌, ltb, leb, ◌&&◌, All, arith, drop, length, take, codes, false, ◌==◌, if◌then◌else◌,
}
use sql_rpa.Text.{Text, starts_with}

digit : ℕ → ℕ
digit n = if ltb n 10 then b'0' + n else 87 + n

unfoldable pub hex : List ℕ → Text
unfolding digit
hex [] = []
hex (b ∷ bs) = digit (b / 16) ∷ digit (b % 16) ∷ hex bs

value : ℕ → Option ℕ
value c =
    if leb b'0' c && leb c b'9'
    then some (c - b'0')
    else if leb b'a' c && leb c b'f'
    then some (c - 87)
    else if leb b'A' c && leb c b'F'
    then some (c - 55)
    else none

abbrev byte : Option ℕ → Option ℕ → Option (List ℕ) → Option (List ℕ)
byte (some a) (some b) (some bs) = some ((16 * a + b) ∷ bs)
byte _ _ _ = none

-- `bytes.fromhex`, for texts without white space.
unfoldable pub from_hex : Text → Option (List ℕ)
unfolding value
from_hex [] = some []
from_hex (c ∷ []) = none
from_hex (c ∷ d ∷ s) = byte (value c) (value d) (from_hex s)

-- `[b[i:i + n] for i in range(0, len(b), n)]`; the length of `b` is fuel enough.
unfoldable pub pieces : ℕ → ℕ → List ℕ → List (List ℕ)
pieces zero n bs = []
pieces (suc fuel) n [] = []
pieces (suc fuel) n (b ∷ bs) = take n (b ∷ bs) ∷ pieces fuel n (drop n (b ∷ bs))

value-digit : (n : ℕ) → n < 16 → value (digit n) ≡ some n
unfolding value digit
value-digit n h = ground arith

from_hex-cons :
    (b : ℕ) (bs : List ℕ)
    → b < 256
    → from_hex (hex (b ∷ bs)) ≡ byte (some (b / 16)) (some (b % 16)) (from_hex (hex bs))
unfolding from_hex hex
from_hex-cons b bs h =
    rw (value-digit (b / 16) (omega arith), value-digit (b % 16) (omega arith)) refl

pub from_hex-hex : (bs : List ℕ) → All (λ b. b < 256) bs → from_hex (hex bs) ≡ some bs
unfolding hex from_hex
from_hex-hex [] h = refl
from_hex-hex (b ∷ bs) (h, hs) =
    from_hex-cons b bs h ∙ rw (from_hex-hex bs hs) (ap (λ n. some (n ∷ bs)) (omega arith))

-- The pieces of a byte string, each of them short, make it up again.
abbrev pub flatten : List (List ℕ) → List ℕ
flatten [] = []
flatten (p ∷ ps) = p ++ flatten ps

take-drop : (n : ℕ) (bs : List ℕ) → take n bs ++ drop n bs ≡ bs
take-drop zero bs = refl
take-drop (suc n) [] = refl
take-drop (suc n) (b ∷ bs) = ap (λ l. b ∷ l) (take-drop n bs)

length-drop : (n : ℕ) (bs : List ℕ) → length (drop n bs) ≤ length bs
length-drop zero bs = omega arith
length-drop (suc n) [] = omega arith
length-drop (suc n) (b ∷ bs) = omega (arith, length-drop n bs)

flatten-pieces-suc :
    (fuel n : ℕ) (bs : List ℕ) → length bs ≤ fuel → flatten (pieces fuel (suc n) bs) ≡ bs
unfolding pieces
flatten-pieces-suc zero n [] h = refl
flatten-pieces-suc zero n (b ∷ bs) h = absurd (omega arith)
flatten-pieces-suc (suc fuel) n [] h = refl
flatten-pieces-suc (suc fuel) n (b ∷ bs) h =
    ap (λ l. b ∷ take n bs ++ l)
      (flatten-pieces-suc fuel n (drop n bs) (omega (arith, length-drop n bs)))
    ∙ ap (λ l. b ∷ l) (take-drop n bs)

pub flatten-pieces :
    (fuel n : ℕ) (bs : List ℕ) → 0 < n → length bs ≤ fuel → flatten (pieces fuel n bs) ≡ bs
flatten-pieces fuel zero bs p h = absurd (omega arith)
flatten-pieces fuel (suc n) bs p h = flatten-pieces-suc fuel n bs h

-- The text of a byte string is no envelope.
pub hex-starts_with :
    (bs : List ℕ) → All (λ b. b < 256) bs → starts_with (codes "ENC:") (hex bs) ≡ false
unfolding hex
hex-starts_with [] h = refl
hex-starts_with (b ∷ bs) (h, hs) = rw (first b h) refl
  where
    first : (b : ℕ) → b < 256 → (69 == digit (b / 16)) ≡ false
    first b h = ground arith

All-take : (n : ℕ) (bs : List ℕ) → All (λ b. b < 256) bs → All (λ b. b < 256) (take n bs)
All-take zero bs h = tt
All-take (suc n) [] h = tt
All-take (suc n) (b ∷ bs) (h, hs) = (h, All-take n bs hs)

All-drop : (n : ℕ) (bs : List ℕ) → All (λ b. b < 256) bs → All (λ b. b < 256) (drop n bs)
All-drop zero bs h = h
All-drop (suc n) [] h = tt
All-drop (suc n) (b ∷ bs) (h, hs) = All-drop n bs hs

pub All-pieces :
    (fuel n : ℕ) (bs : List ℕ)
    → All (λ b. b < 256) bs
    → All (λ p. All (λ b. b < 256) p) (pieces fuel n bs)
unfolding pieces
All-pieces zero n bs h = tt
All-pieces (suc fuel) n [] h = tt
All-pieces (suc fuel) n (b ∷ bs) h =
    (All-take n (b ∷ bs) h, All-pieces fuel n (drop n (b ∷ bs)) (All-drop n (b ∷ bs) h))
