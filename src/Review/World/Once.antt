-- ===== src/Review/World/Once.antt =====
-- Whatever runs beside it, the SQL of a review is committed at most once.
use sql_rpa.Base.{
  ℕ, ◌≤◌, ◌≡◌, ◌==◌, refl, sym, String, Bool, true, false, none, List, [], ◌∷◌, ◌++◌, ◌⊎◌, length,
  arith, is_some, Bool-cases, inl, inr, ==_iff, if◌then◌else◌, ◌∙◌, ap,
}
use sql_rpa.Review.{Task, Commit, Rows, Request, Settings, transition, update_status, update_saga}
use sql_rpa.Review.Approve.{Point}
use sql_rpa.Review.Approve.Quiet.{IsQuiet, armed, implies}
use sql_rpa.Review.Approve.Steps.{Effect, quiet, opened, wrote, lost, step-Effect}
use sql_rpa.Review.Manage.{Action, reject_write, state_action_write, expire_overdue, repair}
use sql_rpa.Review.World.{
  Approval, World, move, Step, approves, looks, rejects, acts, expires, repairs, Reach, here, next,
  IsFresh,
}

pub IsQuiet-reject_write :
    (logged : Bool) (req : Request) (t : Task) (r : Rows)
    → IsQuiet r (reject_write logged req t r).0
unfolding reject_write transition
IsQuiet-reject_write logged req t r = ground arith

pub IsQuiet-state_action_write :
    (req : Request) (action : Action) (assigned : String) (t : Task) (r : Rows)
    → IsQuiet r (state_action_write req action assigned t r).0
unfolding state_action_write transition
IsQuiet-state_action_write req action assigned t r = ground arith

pub IsQuiet-expire_overdue : (t : Task) (r : Rows) → IsQuiet r (expire_overdue t r)
unfolding expire_overdue transition
IsQuiet-expire_overdue t r = ground arith

pub IsQuiet-repair :
    (writes : ℕ) (tenant : String) (scope : List String) (who : String) (r : Rows)
    → IsQuiet r (repair writes tenant scope who r).0
unfolding repair update_status update_saga
IsQuiet-repair writes tenant scope who r = ground arith

-- Before the saga row nothing is committed and nobody is armed; behind it at most one approval is
-- armed, and while one is, nothing is committed.
record IsOnce (rows : Rows) (threads : ℕ → Approval) : Type 0 where
  unopened : is_some rows.saga ≡ false → (i : ℕ) → armed (threads i).point ≡ false
  unspent_saga : is_some rows.saga ≡ false → rows.commits ≡ []
  alone : (i j : ℕ) → armed (threads i).point ≡ true → armed (threads j).point ≡ true → i ≡ j
  unspent : (i : ℕ) → armed (threads i).point ≡ true → rows.commits ≡ []
  once : length rows.commits ≤ 1

quiet-IsOnce :
    {rows rows' : Rows} {threads : ℕ → Approval}
    → IsQuiet rows rows'
    → IsOnce rows threads
    → IsOnce rows' threads
quiet-IsOnce q o = record {
  unopened = λ n. o.unopened (sym q.saga ∙ n);
  unspent_saga = λ n. q.commits ∙ o.unspent_saga (sym q.saga ∙ n);
  alone = o.alone;
  unspent = λ i a. q.commits ∙ o.unspent i a;
  once = rw q.commits o.once;
}

-- Where the moved approval is armed.
moved-armed :
    (i j : ℕ) (p : Point) (threads : ℕ → Approval)
    → armed (move i p threads j).point ≡ (if i == j then armed p else armed (threads j).point)
moved-armed i j p threads = ground arith

module _ (rows rows' : Rows) (threads : ℕ → Approval) (p' : Point) (i : ℕ)
    (o : IsOnce rows threads) where
  abbrev IsArmed : ℕ → Type 0
  IsArmed j = armed (move i p' threads j).point ≡ true

  -- An armed approval behind the step was armed before, or is the one that moved.
  armed-cases :
      (j : ℕ) → IsArmed j → ((i ≡ j) × (armed p' ≡ true)) ⊎ (armed (threads j).point ≡ true)
  armed-cases j a = ground (arith, moved-armed i j p' threads)

  armed_before :
      (j : ℕ)
      → implies (armed p') (armed (threads i).point) ≡ true
      → IsArmed j
      → armed (threads j).point ≡ true
  armed_before j h a = elim (armed-cases j a) [
    | inl (e, now) ↦ rw (← e) (ground arith)
    | inr before ↦ before
  ]

  quiet-step :
      IsQuiet rows rows'
      → implies (armed p') (armed (threads i).point) ≡ true
      → IsOnce rows' (move i p' threads)
  quiet-step q h = record {
    unopened = λ n j. elim (Bool-cases (armed (move i p' threads j).point)) [
      | inl a ↦ cc (armed_before j h a, o.unopened (sym q.saga ∙ n) j)
      | inr e ↦ e
    ];
    unspent_saga = λ n. q.commits ∙ o.unspent_saga (sym q.saga ∙ n);
    alone = λ j k a b. o.alone j k (armed_before j h a) (armed_before k h b);
    unspent = λ j a. q.commits ∙ o.unspent j (armed_before j h a);
    once = rw q.commits o.once;
  }

  opened-step :
      rows'.commits ≡ rows.commits
      → rows.saga ≡ none
      → is_some rows'.saga ≡ true
      → IsOnce rows' (move i p' threads)
  opened-step q n s = record {
    unopened = λ m j. cc;
    unspent_saga = λ m. q ∙ o.unspent_saga none_before;
    alone = λ j k a b. sym (only j a) ∙ only k b;
    unspent = λ j a. q ∙ o.unspent_saga none_before;
    once = rw q o.once;
  }
    where
      none_before : is_some rows.saga ≡ false
      none_before = ap is_some n

      only : (j : ℕ) → IsArmed j → i ≡ j
      only j a = elim (armed-cases j a) [
        | inl (e, _) ↦ e
        | inr before ↦ cc (o.unopened none_before j)
      ]

  wrote-step :
      (x : Commit)
      → rows'.commits ≡ rows.commits ++ x ∷ []
      → rows'.saga ≡ rows.saga
      → armed (threads i).point ≡ true
      → armed p' ≡ false
      → IsOnce rows' (move i p' threads)
  wrote-step x q s a n = record {
    unopened = λ m j. cc (o.unopened (ap is_some (sym s) ∙ m) i);
    unspent_saga = λ m. cc (o.unopened (ap is_some (sym s) ∙ m) i);
    alone = λ j k b c. absurd (nobody j b);
    unspent = λ j b. absurd (nobody j b);
    once = rw (q, o.unspent i a) (omega arith);
  }
    where
      nobody : (j : ℕ) → IsArmed j → ⊥
      nobody j b = elim (armed-cases j b) [
        | inl (_, now) ↦ cc
        | inr before ↦ let e : i ≡ j = o.alone i j a before in cc ((==_iff i i).1 refl, e, b)
      ]

Step-IsOnce :
    {c : Settings} {u v : World}
    → Step c u v
    → IsOnce u.rows u.approvals
    → IsOnce v.rows v.approvals
Step-IsOnce {c} (approves w i inp) o =
    go (step-Effect c (w.approvals i).request inp w.rows (w.approvals i).point)
  where
    go :
        {rows' : Rows} {p' : Point}
        → Effect (w.approvals i).request inp.answer w.rows (w.approvals i).point rows' p'
        → IsOnce rows' (move i p' w.approvals)
    go (quiet q _ h) = quiet-step _ _ _ _ i o q h
    go (opened q n s _ _) = opened-step _ _ _ _ i o q n s
    go (wrote t q s _ _ _ a n) = wrote-step _ _ _ _ i o _ q s a n
    go (lost t b q s e _ f) = wrote-step _ _ _ _ i o _ q s (ap armed e) (ap armed f)
Step-IsOnce (looks w scope t e) o = o
Step-IsOnce (rejects w logged req t _ _) o =
    quiet-IsOnce (IsQuiet-reject_write logged req t w.rows) o
Step-IsOnce (acts w req action assigned t _) o =
    quiet-IsOnce (IsQuiet-state_action_write req action assigned t w.rows) o
Step-IsOnce (expires w t _) o = quiet-IsOnce (IsQuiet-expire_overdue t w.rows) o
Step-IsOnce (repairs w writes tenant scope who) o =
    quiet-IsOnce (IsQuiet-repair writes tenant scope who w.rows) o

Reach-IsOnce :
    {c : Settings} {u v : World}
    → Reach c u v
    → IsOnce u.rows u.approvals
    → IsOnce v.rows v.approvals
Reach-IsOnce here o = o
Reach-IsOnce (next r st) o = Step-IsOnce st (Reach-IsOnce r o)

IsFresh-IsOnce : (w : World) → IsFresh w → IsOnce w.rows w.approvals
IsFresh-IsOnce w f = record {
  unopened = λ _ i. rw (f.idle i) refl;
  unspent_saga = λ _. f.no_commit;
  alone = λ i j a b. absurd (cc (ap armed (f.idle i)));
  unspent = λ i a. f.no_commit;
  once = rw f.no_commit (omega arith);
}

-- From a fresh review, under any interleaving of any number of approvals, with rejections, routing
-- actions, expiry and record repair in between and with calls that raise before or after their
-- effect, the review's SQL is committed in the target database at most once.
pub Reach-commits-le-one :
    (c : Settings) (u v : World) → IsFresh u → Reach c u v → length v.rows.commits ≤ 1
Reach-commits-le-one c u v f r = (Reach-IsOnce r (IsFresh-IsOnce u f)).once
