-- ===== src/Audit/Chain.antt =====
-- The log that `log_operation` writes, under any rivals, is a chain that the verification accepts.
use mathlib.Core.List.{append_assoc, append-nil}
use sql_rpa.Base.{
  ℕ, zero, suc, ◌+◌, ◌≤◌, ◌<◌, ◌≡◌, refl, String, Bool, true, false, Option, none, some, List, [],
  ◌∷◌, ◌++◌, ltb, keep, All, length, eq_iff, arith, ap, subst, ◌∙◌, ==_iff,
}
use sql_rpa.Audit.{
  Draft, Log, Canonical, content, latest, sequence_of, hash_of, insert, order, opt_eq, entry,
  append, append_all, log_attempts, log_operation, entry_errors, next_expected, chain_errors,
  verify_audit_chain,
}

abbrev pub top : List Log → Option Log
top [] = none
top (l ∷ logs) = some l

-- The state of the loop behind rows: the next sequence and the last hash.
abbrev behind : ℕ → Option String → List Log → ℕ × Option String
behind expected previous [] = (expected, previous)
behind expected previous (l ∷ logs) = behind (next_expected expected l) (some l.entry_hash) logs

behind-append :
    (expected : ℕ) (previous : Option String) (xs : List Log) (l : Log)
    → behind expected previous (xs ++ l ∷ [])
      ≡ (next_expected (behind expected previous xs).0 l, some l.entry_hash)
behind-append expected previous [] l = refl
behind-append expected previous (x ∷ xs) l =
    behind-append (next_expected expected x) (some x.entry_hash) xs l

module _ (digest : Canonical → String) where
  -- Every row is the entry that follows the row below it.
  pub IsChain : List Log → Type 0
  IsChain [] = Unit
  IsChain (l ∷ logs) =
      (l.sequence ≡ length logs + 1)
      × (l.prev_hash ≡ hash_of (top logs))
      × (l.entry_hash ≡ digest (content l))
      × IsChain logs

  empty-IsChain : IsChain []
  unfolding IsChain
  empty-IsChain = tt

  sequence-top : (logs : List Log) → IsChain logs → sequence_of (top logs) ≡ length logs
  unfolding IsChain
  sequence-top [] c = refl
  sequence-top (l ∷ logs) (s, p, h, c) = omega (arith, s)

  latest-top : (logs : List Log) → IsChain logs → latest logs ≡ top logs
  unfolding IsChain latest
  latest-top [] c = refl
  latest-top (l ∷ []) c = refl
  latest-top (l ∷ m ∷ logs) (s, p, h, c) = rw (latest-top (m ∷ logs) c) (ground (arith, s, c.0))

  append-IsChain : (d : Draft) (logs : List Log) → IsChain logs → IsChain (append digest d logs)
  unfolding IsChain append entry
  append-IsChain d logs c = rw (latest-top logs c) (rw (sequence-top logs c) refl, refl, refl, c)

  append_all-IsChain :
      (ds : List Draft) (logs : List Log) → IsChain logs → IsChain (append_all digest ds logs)
  unfolding append_all
  append_all-IsChain [] logs c = c
  append_all-IsChain (d ∷ ds) logs c =
      append_all-IsChain ds (append digest d logs) (append-IsChain d logs c)

  log_attempts-IsChain :
      (left : ℕ) (rivals : ℕ → List Draft) (d : Draft) (logs : List Log)
      → IsChain logs
      → IsChain (log_attempts digest left rivals d logs).0
  unfolding log_attempts
  log_attempts-IsChain zero rivals d logs c = go (rivals zero)
    where
      go :
          (ds : List Draft)
          → IsChain
              (elim ds as (λ _. List Log × Bool) [
                | [] ↦ (append digest d logs, true)
                | r ∷ rs ↦ (append_all digest (r ∷ rs) logs, false)
              ]).0
      go [] = append-IsChain d logs c
      go (r ∷ rs) = append_all-IsChain (r ∷ rs) logs c
  log_attempts-IsChain (suc left) rivals d logs c =
      go (rivals (suc left))
        (log_attempts digest left rivals d (append_all digest (rivals (suc left)) logs))
        (log_attempts-IsChain left rivals d (append_all digest (rivals (suc left)) logs)
          (append_all-IsChain (rivals (suc left)) logs c))
    where
      go :
          (ds : List Draft) (later : List Log × Bool)
          → IsChain later.0
          → IsChain
              (elim ds as (λ _. List Log × Bool) [
                | [] ↦ (append digest d logs, true)
                | _ ∷ _ ↦ later
              ]).0
      go [] later h = append-IsChain d logs c
      go (r ∷ rs) later h = h

  -- Oldest first, a chain is what `order` makes of the rows.
  insert-last :
      (l : Log) (logs : List Log)
      → All (λ m. m.sequence < l.sequence) logs
      → insert l logs ≡ logs ++ l ∷ []
  unfolding insert
  insert-last l [] a = refl
  insert-last l (m ∷ logs) (lt, a) = ground (arith, lt, insert-last l logs a)

  All-append :
      (n : ℕ) (xs : List Log) (l : Log)
      → All (λ m. m.sequence < n) xs
      → l.sequence < n
      → All (λ m. m.sequence < n) (xs ++ l ∷ [])
  All-append n [] l a h = (h, tt)
  All-append n (x ∷ xs) l (p, a) h = (p, All-append n xs l a h)

  All-later :
      (n k : ℕ) (xs : List Log)
      → n ≤ k
      → All (λ m. m.sequence < n) xs
      → All (λ m. m.sequence < k) xs
  All-later n k [] le a = tt
  All-later n k (x ∷ xs) le (p, a) = (omega (arith, p), All-later n k xs le a)

  order-below :
      (logs : List Log) → IsChain logs → All (λ m. m.sequence < length logs + 1) (order logs)
  unfolding IsChain order
  order-below [] c = tt
  order-below (l ∷ logs) (s, p, h, c) =
      rw (insert-last l (order logs) (All-later _ _ _ (omega (arith, s)) (order-below logs c))) (
        All-append _ (order logs) l (All-later _ _ _ (omega arith) (order-below logs c))
          (omega (arith, s)))

  order-chain :
      (l : Log) (logs : List Log) → IsChain (l ∷ logs) → order (l ∷ logs) ≡ order logs ++ l ∷ []
  unfolding IsChain order
  order-chain l logs (s, p, h, c) =
      insert-last l (order logs) (All-later _ _ _ (omega (arith, s)) (order-below logs c))

  chain_errors-append :
      (expected : ℕ) (previous : Option String) (xs : List Log) (l : Log)
      → chain_errors digest expected previous (xs ++ l ∷ [])
        ≡ chain_errors digest expected previous xs
          ++ entry_errors digest (behind expected previous xs).0 (behind expected previous xs).1 l
  unfolding chain_errors
  chain_errors-append expected previous [] l = append-nil _
  chain_errors-append expected previous (x ∷ xs) l =
      rw (chain_errors-append (next_expected expected x) (some x.entry_hash) xs l, append_assoc)
        refl

  behind-chain :
      (logs : List Log)
      → IsChain logs
      → behind 1 none (order logs) ≡ (length logs + 1, hash_of (top logs))
  unfolding IsChain order
  behind-chain [] c = ap (λ n. (n, none)) (omega arith)
  behind-chain (l ∷ logs) (s, p, h, c) =
      rw (order-chain l logs (s, p, h, c))
        (behind-append 1 none (order logs) l ∙ ap (λ n. (n, some l.entry_hash)) next)
    where
      next : next_expected (behind 1 none (order logs)).0 l ≡ length (l ∷ logs) + 1
      next = ground (arith, s)

  opt_eq_refl : (a : Option String) → opt_eq a a ≡ true
  opt_eq_refl none = refl
  opt_eq_refl (some a) = (eq_iff a a).1 refl

  no_entry_errors :
      (l : Log) (logs : List Log)
      → l.sequence ≡ length logs + 1
      → l.prev_hash ≡ hash_of (top logs)
      → l.entry_hash ≡ digest (content l)
      → entry_errors digest (length logs + 1) (hash_of (top logs)) l ≡ []
  unfolding entry_errors
  no_entry_errors l logs s p h =
      rw
        (
          (==_iff _ _).1 s,
          subst (λ o. opt_eq l.prev_hash o ≡ true) p (opt_eq_refl l.prev_hash),
          (eq_iff _ _).1 h,
        )
        refl

  no_errors : (logs : List Log) → IsChain logs → chain_errors digest 1 none (order logs) ≡ []
  unfolding IsChain order chain_errors
  no_errors [] c = refl
  no_errors (l ∷ logs) (s, p, h, c) = rw (order-chain l logs (s, p, h, c)) (
      chain_errors-append 1 none (order logs) l
      ∙ rw (no_errors logs c) (rw (behind-chain logs c) (no_entry_errors l logs s p h)))

  keep-chain : (logs : List Log) → IsChain logs → keep (λ l. ltb 0 l.sequence) logs ≡ logs
  unfolding IsChain
  keep-chain [] c = refl
  keep-chain (l ∷ logs) (s, p, h, c) = ground (arith, s, keep-chain logs c)

  -- A log that is written by calls of `log_operation`, each with its rivals.
  pub write : List ((ℕ → List Draft) × Draft) → List Log → List Log
  write [] logs = logs
  write ((rivals, d) ∷ calls) logs = write calls (log_operation digest rivals d logs).0

  write-IsChain :
      (calls : List ((ℕ → List Draft) × Draft)) (logs : List Log)
      → IsChain logs
      → IsChain (write calls logs)
  unfolding write log_operation
  write-IsChain [] logs c = c
  write-IsChain ((rivals, d) ∷ calls) logs c =
      write-IsChain calls (log_operation digest rivals d logs).0
        (log_attempts-IsChain 4 rivals d logs c)

  -- Whatever the digest, a log that starts empty and is written by any calls of `log_operation`,
  -- with any rows that other processes commit between the attempts, is one in which the
  -- verification from the start finds no error.
  pub write-verifies :
      (calls : List ((ℕ → List Draft) × Draft))
      → ((verify_audit_chain digest 0 (write calls [])).errors ≡ [])
        × ((verify_audit_chain digest 0 (write calls [])).valid ≡ true)
  unfolding verify_audit_chain
  write-verifies calls =
      let c = write-IsChain calls [] empty-IsChain in
      rw (keep-chain (write calls []) c) (rw (no_errors (write calls []) c) (refl, refl))
