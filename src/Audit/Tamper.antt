-- ===== src/Audit/Tamper.antt =====
-- What the verification rules out: two logs that it accepts and that end in the same hash.
use mathlib.Core.Option.{some_inj}
use sql_rpa.Base.{
  ℕ, ◌≡◌, refl, String, Bool, true, false, not, Option, none, some, List, [], ◌∷◌, ◌++◌, ◌==◌,
  str_eq, eq_iff, ap, sym, ◌∙◌, arith,
}
use sql_rpa.Audit.{
  Log, Canonical, canonical, content, opt_eq, Error, report_if, audit_entry_hash, entry_errors,
  next_expected, chain_errors, sequence_gap, previous_hash_mismatch, entry_hash_mismatch,
}

reported :
    (b : Bool) (e : Error) (rest : List Error)
    → report_if (not b) e ++ rest ≡ []
    → (b ≡ true) × (rest ≡ [])
reported true e rest h = (refl, h)
reported false e rest h = absurd (ground (arith, h))

opt_eq-eq : (a b : Option String) → opt_eq a b ≡ true → a ≡ b
opt_eq-eq none none h = refl
opt_eq-eq none (some b) h = absurd (ground (arith, h))
opt_eq-eq (some a) none h = absurd (ground (arith, h))
opt_eq-eq (some a) (some b) h = ap some ((eq_iff a b).0 h)

split_nil : (xs ys : List Error) → xs ++ ys ≡ [] → (xs ≡ []) × (ys ≡ [])
split_nil [] ys h = (refl, h)
split_nil (x ∷ xs) ys h = absurd (ground (arith, h))

module _ (digest : Canonical → String) where
  -- No two rows at the same place of the logs are a collision of the digest.
  abbrev pub NoCollision : List Log → List Log → Type 0
  NoCollision (x ∷ xs) (y ∷ ys) =
      (digest (content x) ≡ digest (content y) → content x ≡ content y) × NoCollision xs ys
  NoCollision _ _ = Unit

  -- As many rows, with the same contents.
  abbrev pub SameContents : List Log → List Log → Type 0
  SameContents [] [] = Unit
  SameContents (x ∷ xs) (y ∷ ys) = (content x ≡ content y) × SameContents xs ys
  SameContents _ _ = ⊥

  abbrev pub SameLength : List Log → List Log → Type 0
  SameLength [] [] = Unit
  SameLength (x ∷ xs) (y ∷ ys) = SameLength xs ys
  SameLength _ _ = ⊥

  -- The hash that a log ends in.
  abbrev pub last_hash : Option String → List Log → Option String
  last_hash previous [] = previous
  last_hash previous (x ∷ xs) = last_hash (some x.entry_hash) xs

  entry_accepted :
      (expected : ℕ) (previous : Option String) (l : Log)
      → entry_errors digest expected previous l ≡ []
      → (l.prev_hash ≡ previous) × (l.entry_hash ≡ digest (content l))
  unfolding entry_errors
  entry_accepted expected previous l h =
      let (_, a) =
        reported (l.sequence == expected) (sequence_gap l.draft.id)
          (report_if (not (opt_eq l.prev_hash previous)) (previous_hash_mismatch l.draft.id)
            ++ report_if (not (str_eq l.entry_hash (audit_entry_hash digest l)))
                (entry_hash_mismatch l.draft.id))
          h in
      let (p, b) =
        reported (opt_eq l.prev_hash previous) (previous_hash_mismatch l.draft.id)
          (report_if (not (str_eq l.entry_hash (audit_entry_hash digest l)))
            (entry_hash_mismatch l.draft.id))
          a in
      (
        opt_eq-eq l.prev_hash previous p,
        (eq_iff l.entry_hash _).0 (
            only (str_eq l.entry_hash (audit_entry_hash digest l)) (entry_hash_mismatch l.draft.id)
              b),
      )
    where
      only : (b : Bool) (e : Error) → report_if (not b) e ≡ [] → b ≡ true
      only true e h = refl
      only false e h = absurd (ground (arith, h))

  accepted-SameContents :
      (e f : ℕ) (p q : Option String) (xs ys : List Log)
      → SameLength xs ys
      → NoCollision xs ys
      → chain_errors digest e p xs ≡ []
      → chain_errors digest f q ys ≡ []
      → last_hash p xs ≡ last_hash q ys
      → (p ≡ q) × SameContents xs ys
  unfolding chain_errors canonical
  accepted-SameContents e f p q [] [] n k a b same = (same, tt)
  accepted-SameContents e f p q [] (y ∷ ys) n k a b same = absurd n
  accepted-SameContents e f p q (x ∷ xs) [] n k a b same = absurd n
  accepted-SameContents e f p q (x ∷ xs) (y ∷ ys) n (k, ks) a b same =
      let (ax, axs) = split_nil (entry_errors digest e p x) _ a in
      let (by, bys) = split_nil (entry_errors digest f q y) _ b in
      let (px, hx) = entry_accepted e p x ax in
      let (py, hy) = entry_accepted f q y by in
      let (hashes, rest) =
        accepted-SameContents (next_expected e x) (next_expected f y) (some x.entry_hash)
          (some y.entry_hash) xs ys n ks axs bys same in
      let same_content = k (sym hx ∙ some_inj.0 hashes ∙ hy) in
      (sym px ∙ ap Canonical.prev_hash same_content ∙ py, (same_content, rest))

  -- If the verification finds no error in two logs of the same length, the last rows have the same
  -- hash, and the digest has no collision between their rows, then every hashed value of every row
  -- is the same in both: a change in any row, or in their order, shows in the last hash.
  pub same_end-SameContents :
      (xs ys : List Log)
      → SameLength xs ys
      → NoCollision xs ys
      → chain_errors digest 1 none xs ≡ []
      → chain_errors digest 1 none ys ≡ []
      → last_hash none xs ≡ last_hash none ys
      → SameContents xs ys
  same_end-SameContents xs ys n k a b same =
      (accepted-SameContents 1 1 none none xs ys n k a b same).1
