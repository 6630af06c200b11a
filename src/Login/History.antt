-- ===== src/Login/History.antt =====
-- The lock against the whole history of failures.
use sql_rpa.Base.{
  ℕ, ◌≤◌, ◌≡◌, refl, String, List, [], ◌∷◌, ◌++◌, length, leb, str_eq, if◌then◌else◌, arith,
  Bool-cases, inl, inr, eq_iff, ◌∙◌,
}
use sql_rpa.Login.{
  Failures, recent, remaining, prune_login_failures, local_lock_remaining, local_record_failure,
  local_reset,
}

-- The calls of the local lock, each for a user.
pub data Event : Type 0 where
  checks : String → ℕ → Event
  fails resets : String → Event

unfoldable pub step : ℕ → Event → Failures → Failures
step now (checks username max) store = (local_lock_remaining now username max store).0
step now (fails username) store = local_record_failure now username store
step now (resets username) store = local_reset username store

unfoldable pub run : List (ℕ × Event) → Failures → Failures
run [] store = store
run ((now, e) ∷ es) store = run es (step now e store)

-- All failures of a user since the last reset, none forgotten.
abbrev pub note : ℕ → Event → String → List ℕ → List ℕ
note now (checks username max) who h = h
note now (fails username) who h = if str_eq username who then h ++ now ∷ [] else h
note now (resets username) who h = if str_eq username who then [] else h

pub history : List (ℕ × Event) → String → List ℕ → List ℕ
history [] who h = h
history ((now, e) ∷ es) who h = history es who (note now e who h)

-- The times do not fall, and none is after `last`.
abbrev pub Runs : ℕ → List (ℕ × Event) → ℕ → Type 0
Runs start [] last = start ≤ last
Runs start ((now, e) ∷ es) last = (start ≤ now) × Runs now es last

Runs-le : (start last : ℕ) (es : List (ℕ × Event)) → Runs start es last → start ≤ last
Runs-le start last [] r = r
Runs-le start last ((now, e) ∷ es) (le, r) = omega (arith, le, Runs-le now last es r)

recent-recent : (old now : ℕ) (h : List ℕ) → old ≤ now → recent now (recent old h) ≡ recent now h
recent-recent old now [] le = refl
recent-recent old now (x ∷ h) le = ground (arith, recent-recent old now h le)

recent-append : (now : ℕ) (h k : List ℕ) → recent now (h ++ k) ≡ recent now h ++ recent now k
recent-append now [] k = refl
recent-append now (x ∷ h) k = ground (arith, recent-append now h k)

-- A store that is cut for one user is as good at a later time.
prune-recent :
    (last now : ℕ) (username who : String) (store : Failures)
    → now ≤ last
    → recent last (prune_login_failures username now store who) ≡ recent last (store who)
unfolding prune_login_failures
prune-recent last now username who store le = elim (Bool-cases (str_eq username who)) [
  | inl e ↦ rw (e, (eq_iff username who).0 e) (recent-recent now last (store who) le)
  | inr e ↦ rw e refl
]

record-recent :
    (last now : ℕ) (username who : String) (store : Failures)
    → now ≤ last
    → recent last (local_record_failure now username store who)
      ≡ recent last (note now (fails username) who (store who))
unfolding local_record_failure
record-recent last now username who store le = elim (Bool-cases (str_eq username who)) [
  | inl e ↦
      rw
        (
          e,
          (eq_iff username who).0 e,
          recent-append last (prune_login_failures who now store who) (now ∷ []),
          recent-append last (store who) (now ∷ []),
          prune-recent last now who who store le,
        )
        refl
  | inr e ↦ rw e refl
]

-- A step keeps what the store and the history have in common at a later time.
step-recent :
    (last now : ℕ) (e : Event) (store : Failures) (who : String) (h : List ℕ)
    → now ≤ last
    → recent last (store who) ≡ recent last h
    → recent last (step now e store who) ≡ recent last (note now e who h)
unfolding step local_lock_remaining local_reset
step-recent last now (checks username max) store who h le same =
    prune-recent last now username who store le ∙ same
step-recent last now (fails username) store who h le same =
    record-recent last now username who store le ∙ note-same
  where
    note-same :
        recent last (note now (fails username) who (store who))
        ≡ recent last (note now (fails username) who h)
    note-same = elim (Bool-cases (str_eq username who)) [
      | inl e ↦
          rw (e, recent-append last (store who) (now ∷ []), recent-append last h (now ∷ []), same)
            refl
      | inr e ↦ rw e same
    ]
step-recent last now (resets username) store who h le same =
    elim (Bool-cases (str_eq username who)) [ inl e ↦ rw e refl | inr e ↦ rw e same ]

run-recent :
    (start last : ℕ) (es : List (ℕ × Event)) (store : Failures) (who : String) (h : List ℕ)
    → Runs start es last
    → recent last (store who) ≡ recent last h
    → recent last (run es store who) ≡ recent last (history es who h)
unfolding run history
run-recent start last [] store who h r same = same
run-recent start last ((now, e) ∷ es) store who h (le, r) same =
    run-recent now last es (step now e store) who (note now e who h) r
      (step-recent last now e store who h (Runs-le now last es r) same)

abbrev pub no_failures : Failures
no_failures _ = []

-- The lock in the memory of the process, which serves without Redis: over any run of its checks,
-- failures and resets of any users, one after another and at times that do not fall, the lock that a
-- user then meets is the one of all failures of that user since the last reset: with fewer than the
-- limit of them in the lock time there is none, and otherwise it ends when the oldest of those is a
-- lock time old. Nothing is lost by the cuts at the earlier calls. Failures that are counted in Redis
-- are not among them.
pub lock-history :
    (es : List (ℕ × Event)) (now : ℕ) (who : String) (max : ℕ)
    → Runs 0 es now
    → (local_lock_remaining now who max (run es no_failures)).1 ≡ (
        let h = recent now (history es who []) in if leb max (length h) then remaining now h else 0)
unfolding local_lock_remaining prune_login_failures
lock-history es now who max r =
    rw ((eq_iff who who).1 refl, run-recent 0 now es no_failures who [] r refl) refl
