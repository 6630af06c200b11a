-- ===== src/Backup/Restore/Writes.antt =====
-- What is written to the table between a backup and its rollback.
use sql_rpa.Base.{
  ◌≡◌, refl, ◌∙◌, Bool, true, not, List, [], ◌∷◌, ◌++◌, keep, map, Bool-cases, inl, inr,
  if◌then◌else◌,
}

pub data Write (Row : Type 0) : Type 0 where
  updates : (Row → Bool) → (Row → Row) → Write Row
  deletes : (Row → Bool) → Write Row
  inserts : Row → Write Row

module _ {Row : Type 0} where
  unfoldable pub write : Write Row → List Row → List Row
  write (updates p f) rows = map (λ r. if p r then f r else r) rows
  write (deletes p) rows = keep (λ r. not (p r)) rows
  write (inserts r) rows = rows ++ r ∷ []

  unfoldable pub write_all : List (Write Row) → List Row → List Row
  write_all [] rows = rows
  write_all (w ∷ ws) rows = write_all ws (write w rows)

  -- A write touches only rows with a test, and makes only such rows.
  abbrev pub IsWithin : (Row → Bool) → Write Row → List Row → Type 0
  IsWithin q (updates p f) [] = Unit
  IsWithin q (updates p f) (r ∷ rows) =
      (p r ≡ true → (q r ≡ true) × (q (f r) ≡ true)) × IsWithin q (updates p f) rows
  IsWithin q (deletes p) [] = Unit
  IsWithin q (deletes p) (r ∷ rows) = (p r ≡ true → q r ≡ true) × IsWithin q (deletes p) rows
  IsWithin q (inserts r) rows = q r ≡ true

  -- So do the writes of a list, each on the rows that the ones before leave.
  abbrev pub AllWithin : (Row → Bool) → List (Write Row) → List Row → Type 0
  AllWithin q [] rows = Unit
  AllWithin q (w ∷ ws) rows = IsWithin q w rows × AllWithin q ws (write w rows)

  -- The other rows stay.
  write-others :
      (q : Row → Bool) (w : Write Row) (rows : List Row)
      → IsWithin q w rows
      → keep (λ r. not (q r)) (write w rows) ≡ keep (λ r. not (q r)) rows
  unfolding write
  write-others q (updates p f) [] h = refl
  write-others q (updates p f) (r ∷ rows) (h, hs) = elim (Bool-cases (p r)) [
    | inl t ↦ let (a, b) = h t in rw t (rw (a, b) (write-others q (updates p f) rows hs))
    | inr t ↦ rw t (rw (write-others q (updates p f) rows hs) refl)
  ]
  write-others q (deletes p) [] h = refl
  write-others q (deletes p) (r ∷ rows) (h, hs) = elim (Bool-cases (p r)) [
    | inl t ↦ rw t (rw (h t) (write-others q (deletes p) rows hs))
    | inr t ↦ rw t (rw (write-others q (deletes p) rows hs) refl)
  ]
  write-others q (inserts r) [] h = rw h refl
  write-others q (inserts r) (s ∷ rows) h = rw (write-others q (inserts r) rows h) refl

  pub write_all-others :
      (q : Row → Bool) (ws : List (Write Row)) (rows : List Row)
      → AllWithin q ws rows
      → keep (λ r. not (q r)) (write_all ws rows) ≡ keep (λ r. not (q r)) rows
  unfolding write_all
  write_all-others q [] rows h = refl
  write_all-others q (w ∷ ws) rows (h, hs) =
      write_all-others q ws (write w rows) hs ∙ write-others q w rows h
