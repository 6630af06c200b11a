-- ===== src/Backup/Tests/Serial.antt =====
-- A way to write snapshots of numbers as bytes, and to read them, in place of JSON with zlib.
use mathlib.Core.List.{append-nil, append_assoc}
use mathlib.Core.Path.{ap₂}
use sql_rpa.Base.{
  ℕ, zero, suc, ◌+◌, ◌<◌, ◌≡◌, refl, sym, ap, ◌∙◌, Option, none, some, List, [], ◌∷◌, ◌++◌, All,
  arith, length, map,
}
use sql_rpa.Text.{Text}
use sql_rpa.Crypto.{◌>>=◌}
use sql_rpa.Backup.{bad_value, Codec, Snapshot}
use sql_rpa.Backup.Saved.{IsFaithful}

abbrev Parser : Type 0 → Type 0
Parser A = List ℕ → Option (A × List ℕ)

module _ {A : Type 0} (write : A → List ℕ) (parse : Parser A) where
  write_items : List A → List ℕ
  write_items [] = []
  write_items (x ∷ xs) = write x ++ write_items xs

  abbrev write_list : List A → List ℕ
  write_list xs = length xs ∷ write_items xs

  parse_items : ℕ → Parser (List A)
  parse_items zero s = some ([], s)
  parse_items (suc n) s = do (x, s') ← parse s; (xs, s'') ← parse_items n s'; some (x ∷ xs, s'')

  parse_list : Parser (List A)
  unfolding parse_items
  parse_list [] = none
  parse_list (n ∷ s) = parse_items n s

  module _ (back : (x : A) (rest : List ℕ) → parse (write x ++ rest) ≡ some (x, rest)) where
    parse_items-write :
        (xs : List A) (rest : List ℕ)
        → parse_items (length xs) (write_items xs ++ rest) ≡ some (xs, rest)
    unfolding write_items parse_items
    parse_items-write [] rest = refl
    parse_items-write (x ∷ xs) rest =
        rw (append_assoc (write x) (write_items xs) rest)
          (rw (back x (write_items xs ++ rest)) (rw (parse_items-write xs rest) refl))

    parse_list-write :
        (xs : List A) (rest : List ℕ) → parse_list (write_list xs ++ rest) ≡ some (xs, rest)
    unfolding parse_list
    parse_list-write xs rest = parse_items-write xs rest

abbrev write_number : ℕ → List ℕ
write_number n = n ∷ []

abbrev parse_number : Parser ℕ
parse_number [] = none
parse_number (n ∷ s) = some (n, s)

abbrev write_text : Text → List ℕ
write_text s = write_list write_number parse_number s

abbrev parse_text : Parser Text
parse_text s = parse_list write_number parse_number s

parse_text-write : (t : Text) (rest : List ℕ) → parse_text (write_text t ++ rest) ≡ some (t, rest)
parse_text-write t rest = parse_list-write write_number parse_number (λ n r. refl) t rest

abbrev write_texts : List Text → List ℕ
write_texts ts = write_list write_text parse_text ts

abbrev parse_texts : Parser (List Text)
parse_texts s = parse_list write_text parse_text s

parse_texts-write :
    (ts : List Text) (rest : List ℕ) → parse_texts (write_texts ts ++ rest) ≡ some (ts, rest)
parse_texts-write ts rest = parse_list-write write_text parse_text parse_text-write ts rest

abbrev write_snapshot : Snapshot ℕ → List ℕ
write_snapshot s = write_texts s.columns ++ (write_texts s.rows ++ write_texts s.primary_keys)

abbrev parse_snapshot : List ℕ → Option (Snapshot ℕ)
parse_snapshot s = do
  (columns, s') ← parse_texts s
  (rows, s'') ← parse_texts s'
  (keys, rest) ← parse_texts s''
  some (record { columns = columns; rows = rows; primary_keys = keys })

parse_snapshot-write : (s : Snapshot ℕ) → parse_snapshot (write_snapshot s) ≡ some s
parse_snapshot-write s =
    rw (parse_texts-write s.columns (write_texts s.rows ++ write_texts s.primary_keys)) (
      rw (parse_texts-write s.rows (write_texts s.primary_keys)) (
        rw (← append-nil (write_texts s.primary_keys))
          (rw (parse_texts-write s.primary_keys []) refl)))

-- Numbers as runs of ones.
ones : ℕ → List ℕ → List ℕ
ones zero s = 0 ∷ s
ones (suc n) s = 1 ∷ ones n s

to_bytes : List ℕ → List ℕ
to_bytes [] = []
to_bytes (n ∷ s) = ones n (to_bytes s)

of_bytes : ℕ → List ℕ → List ℕ
of_bytes acc [] = []
of_bytes acc (zero ∷ s) = acc ∷ of_bytes 0 s
of_bytes acc (suc b ∷ s) = of_bytes (acc + 1) s

of_bytes-ones : (acc n : ℕ) (s : List ℕ) → of_bytes acc (ones n s) ≡ (acc + n) ∷ of_bytes 0 s
unfolding of_bytes ones
of_bytes-ones acc zero s = ap (λ k. k ∷ of_bytes 0 s) (omega arith)
of_bytes-ones acc (suc n) s = of_bytes-ones (acc + 1) n s ∙ ap (λ k. k ∷ of_bytes 0 s) (omega arith)

of_bytes-to_bytes : (s : List ℕ) → of_bytes 0 (to_bytes s) ≡ s
unfolding to_bytes of_bytes
of_bytes-to_bytes [] = refl
of_bytes-to_bytes (n ∷ s) =
    of_bytes-ones 0 n (to_bytes s) ∙ rw (of_bytes-to_bytes s) (ap (λ k. k ∷ s) (omega arith))

ones-small : (n : ℕ) (s : List ℕ) → All (λ b. b < 256) s → All (λ b. b < 256) (ones n s)
unfolding ones
ones-small zero s h = (omega arith, h)
ones-small (suc n) s h = (omega arith, ones-small n s h)

to_bytes-small : (s : List ℕ) → All (λ b. b < 256) (to_bytes s)
unfolding to_bytes
to_bytes-small [] = tt
to_bytes-small (n ∷ s) = ones-small n (to_bytes s) (to_bytes-small s)

unfoldable pub codec : Codec ℕ
unfolding to_bytes of_bytes ones parse_list parse_items write_items
codec = record {
  pack = λ s. to_bytes (write_snapshot s);
  unpack = λ b. parse_snapshot (of_bytes 0 b);
  unpack_fault = λ _. bad_value;
  loads = λ s. none;
}

map-id : (rs : List (List ℕ)) → map (map (λ x. x)) rs ≡ rs
map-id [] = refl
map-id (r ∷ rs) = ap₂ (λ x xs. x ∷ xs) (ids r) (map-id rs)
  where
    ids : (r : List ℕ) → map (λ x. x) r ≡ r
    ids [] = refl
    ids (x ∷ r) = ap (λ l. x ∷ l) (ids r)

pub codec-IsFaithful : IsFaithful codec (λ x. x)
unfolding codec
codec-IsFaithful = record {
  unpack-pack = λ s.
      rw (of_bytes-to_bytes (write_snapshot s))
        (parse_snapshot-write s ∙ ap (λ l. some (record s { rows = l })) (sym (map-id s.rows)));
  pack-bytes = λ s. to_bytes-small (write_snapshot s);
}
