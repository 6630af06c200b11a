-- ===== src/RateLimit/Window.antt =====
-- The guarantee of one bucket: over any run of calls whose times do not fall, no interval as long
-- as the window holds more admitted calls than the limit.
use sql_rpa.Base.{
  ℕ, ◌+◌, ◌≤◌, ◌≡◌, refl, true, false, List, [], ◌∷◌, ◌++◌, ◌&&◌, length, keep, All, ltb, leb,
  arith, Bool-cases, inl, inr, if◌then◌else◌, ◌∙◌,
}
use sql_rpa.RateLimit.{prune, admit}

abbrev pub IsSorted : List ℕ → Type 0
IsSorted [] = Unit
IsSorted (x ∷ xs) = All (λ y. x ≤ y) xs × IsSorted xs

-- The admitted calls of an interval, both ends included.
abbrev pub within : ℕ → ℕ → List ℕ → List ℕ
within lo width h = keep (λ ts. leb lo ts && leb ts (lo + width)) h

-- The calls that are still inside the window at a time.
abbrev pub recent : ℕ → ℕ → List ℕ → List ℕ
recent now width h = keep (λ ts. leb now (ts + width)) h

recent_whole :
    (now width : ℕ) (x : ℕ) (h : List ℕ)
    → All (λ y. x ≤ y) h
    → now ≤ x + width
    → recent now width h ≡ h
recent_whole now width x [] a le = refl
recent_whole now width x (y ∷ h) (p, a) le = ground (arith, recent_whole now width x h a le)

-- On a sorted window the loop from the left keeps exactly the recent calls.
prune-recent : (now width : ℕ) (h : List ℕ) → IsSorted h → prune now width h ≡ recent now width h
unfolding prune
prune-recent now width [] s = refl
prune-recent now width (x ∷ h) (a, s) = elim (Bool-cases (ltb (x + width) now)) [
  | inl old ↦ ground (arith, prune-recent now width h s)
  | inr new ↦ ground (arith, recent_whole now width x h a)
]

-- An earlier cut keeps more: to cut twice is to cut at the later time.
recent-recent :
    (old now width : ℕ) (h : List ℕ)
    → old ≤ now
    → recent now width (recent old width h) ≡ recent now width h
recent-recent old now width [] le = refl
recent-recent old now width (x ∷ h) le = ground (arith, recent-recent old now width h le)

recent-append :
    (now width : ℕ) (h k : List ℕ)
    → recent now width (h ++ k) ≡ recent now width h ++ recent now width k
recent-append now width [] k = refl
recent-append now width (x ∷ h) k = ground (arith, recent-append now width h k)

All-recent : (P : ℕ → Type 0) (now width : ℕ) (h : List ℕ) → All P h → All P (recent now width h)
All-recent P now width [] a = tt
All-recent P now width (x ∷ h) (p, a) = elim (Bool-cases (leb now (x + width))) [
  | inl e ↦ rw e (p, All-recent P now width h a)
  | inr e ↦ rw e (All-recent P now width h a)
]

recent-IsSorted : (now width : ℕ) (h : List ℕ) → IsSorted h → IsSorted (recent now width h)
recent-IsSorted now width [] s = tt
recent-IsSorted now width (x ∷ h) (a, s) = elim (Bool-cases (leb now (x + width))) [
  | inl e ↦ rw e (All-recent (λ y. x ≤ y) now width h a, recent-IsSorted now width h s)
  | inr e ↦ rw e (recent-IsSorted now width h s)
]

All-concat : (P : ℕ → Type 0) (h : List ℕ) (x : ℕ) → All P h → P x → All P (h ++ x ∷ [])
All-concat P [] x a p = (p, tt)
All-concat P (y ∷ h) x (q, a) p = (q, All-concat P h x a p)

concat-IsSorted : (h : List ℕ) (x : ℕ) → IsSorted h → All (λ y. y ≤ x) h → IsSorted (h ++ x ∷ [])
concat-IsSorted [] x s a = (tt, tt)
concat-IsSorted (y ∷ h) x (b, s) (p, a) = (All-concat (λ z. y ≤ z) h x b p, concat-IsSorted h x s a)

All-weaken : (a b : ℕ) (h : List ℕ) → a ≤ b → All (λ y. y ≤ a) h → All (λ y. y ≤ b) h
All-weaken a b [] le p = tt
All-weaken a b (x ∷ h) le (q, p) = (omega arith, All-weaken a b h le p)

-- What lies in an interval that reaches up to `now` or further is recent.
within-le-recent :
    (lo now width : ℕ) (h : List ℕ)
    → now ≤ lo + width
    → length (within lo width h) ≤ length (recent now width h)
within-le-recent lo now width [] le = omega arith
within-le-recent lo now width (x ∷ h) le = ground (arith, within-le-recent lo now width h le)

within-append :
    (lo width : ℕ) (h k : List ℕ)
    → length (within lo width (h ++ k)) ≡ length (within lo width h) + length (within lo width k)
within-append lo width [] k = omega arith
within-append lo width (x ∷ h) k = ground (arith, within-append lo width h k)

-- A bucket with the history of all that it admitted, and the time of its last call.
pub record Ledger : Type 0 where
  pub window : List ℕ
  pub admitted : List ℕ
  pub last : ℕ

-- One more call at a time: `admit`, and the history that it makes.
unfoldable pub record_call : ℕ → ℕ → ℕ → Ledger → Ledger
record_call limit width now l =
    let (window, limited) = admit limit width now l.window in
    record {
      window = window;
      admitted = if limited then l.admitted else l.admitted ++ now ∷ [];
      last = now;
    }

pub run : ℕ → ℕ → List ℕ → Ledger → Ledger
unfolding record_call
run limit width [] l = l
run limit width (now ∷ times) l = run limit width times (record_call limit width now l)

abbrev pub fresh : Ledger
fresh = record { window = []; admitted = []; last = 0 }

pub record IsSound (limit width : ℕ) (l : Ledger) : Type 0 where
  pub same : l.window ≡ recent l.last width l.admitted
  pub sorted : IsSorted l.admitted
  pub past : All (λ ts. ts ≤ l.last) l.admitted
  pub bound : (lo : ℕ) → length (within lo width l.admitted) ≤ limit

module _ (limit width now : ℕ) (l : Ledger) (s : IsSound limit width l) (later : l.last ≤ now) where
  kept-eq : prune now width l.window ≡ recent now width l.admitted
  kept-eq = rw s.same (
      prune-recent now width (recent l.last width l.admitted)
        (recent-IsSorted l.last width l.admitted s.sorted)
      ∙ recent-recent l.last now width l.admitted later)

  refused :
      leb limit (length (recent now width l.admitted)) ≡ true
      → IsSound limit width (record_call limit width now l)
  unfolding record_call admit
  refused full =
      rw (kept-eq, full)
        (record {
          same = refl;
          sorted = s.sorted;
          past = All-weaken l.last now l.admitted later s.past;
          bound = s.bound;
        })

  passed-bound :
      leb limit (length (recent now width l.admitted)) ≡ false
      → (lo : ℕ) → length (within lo width (l.admitted ++ now ∷ [])) ≤ limit
  passed-bound room lo =
      rw (within-append lo width l.admitted (now ∷ []))
        (ground (arith, s.bound lo, within-le-recent lo now width l.admitted))

  passed-same : recent now width l.admitted ++ now ∷ [] ≡ recent now width (l.admitted ++ now ∷ [])
  passed-same = rw (recent-append now width l.admitted (now ∷ [])) (ground arith)

  passed :
      leb limit (length (recent now width l.admitted)) ≡ false
      → IsSound limit width (record_call limit width now l)
  unfolding record_call admit
  passed room =
      rw (kept-eq, room)
        (record {
          same = passed-same;
          sorted =
              concat-IsSorted l.admitted now s.sorted
                (All-weaken l.last now l.admitted later s.past);
          past =
              All-concat (λ ts. ts ≤ now) l.admitted now
                (All-weaken l.last now l.admitted later s.past) (omega arith);
          bound = passed-bound room;
        })

  pub record_call-IsSound : IsSound limit width (record_call limit width now l)
  record_call-IsSound = elim (Bool-cases (leb limit (length (recent now width l.admitted)))) [
    | inl full ↦ refused full
    | inr room ↦ passed room
  ]

-- The times of a run do not fall, and begin no earlier than the last call.
abbrev pub IsRun : ℕ → List ℕ → Type 0
IsRun last [] = Unit
IsRun last (now ∷ times) = (last ≤ now) × IsRun now times

run-IsSound :
    (limit width : ℕ) (times : List ℕ) (l : Ledger)
    → IsRun l.last times
    → IsSound limit width l
    → IsSound limit width (run limit width times l)
unfolding run
run-IsSound limit width [] l r s = s
run-IsSound limit width (now ∷ times) l (later, r) s =
    run-IsSound limit width times (record_call limit width now l) r
      (record_call-IsSound limit width now l s later)

-- From an empty bucket, whatever the calls at times that do not fall: in every interval as long as
-- the window, ends included, at most `limit` calls are admitted.
pub run-le-limit :
    (limit width lo : ℕ) (times : List ℕ)
    → IsRun 0 times
    → length (within lo width (run limit width times fresh).admitted) ≤ limit
run-le-limit limit width lo times r =
    (run-IsSound limit width times fresh r
        (record { same = refl; sorted = tt; past = tt; bound = λ _. omega arith })).bound
      lo
