-- ===== src/Review/World/FourEyes.antt =====
-- Who stands behind a commit, under any interleaving: never the submitter, and for a high-risk
-- review two people, neither of them the submitter.
use mathlib.Core.List.{Memᴰ}
use sql_rpa.Base.{
  ℕ, ◌≡◌, ◌≢◌, ◌==◌, refl, String, Bool, true, false, ◌&&◌, Option, none, some, List, [], ◌∷◌, All,
  arith, Bool-cases, inl, inr, eq_iff, truthy, subst, sym, ==_iff,
}
use sql_rpa.Review.{
  Task, Commit, Rows, Settings, awaiting_review, pending_second_approval, status_eq, read_task,
  requires_second_approval,
}
use sql_rpa.Review.Approve.{Point}
use sql_rpa.Review.Approve.Cleared.{
  IsGood, IsSound, IsVetted, IsClear, IsKept, has_first, lacks_second,
}
use sql_rpa.Review.Approve.Cleared.Steps.{step-Facts, in_scope-eq}
use sql_rpa.Review.Approve.Quiet.{IsQuiet}
use sql_rpa.Review.Manage.Kept.{
  IsKept-reject_write, IsKept-state_action_write, IsKept-expire_overdue, IsKept-repair,
}
use sql_rpa.Review.World.{
  World, move, Step, approves, looks, rejects, acts, expires, repairs, Reach, here, next, IsFresh,
}
use sql_rpa.Review.World.Once.{
  IsQuiet-reject_write, IsQuiet-state_action_write, IsQuiet-expire_overdue, IsQuiet-repair,
}

nothing : {t : Task} → Memᴰ t [] → ⊥
nothing m = elim m [ ]

module _ (c : Settings) (s : Option String) where
  record IsTrue (w : World) : Type 0 where
    sound : IsSound s w.rows.task
    vetted : All (IsVetted c s) w.rows.commits
    clear : (i : ℕ) → IsClear c (w.approvals i).request s (w.approvals i).point
    known :
        (t : Task)
        → Memᴰ t w.snapshots
        → status_eq t.status pending_second_approval ≡ true
        → has_first w.rows.task ≡ true

  quiet-IsTrue :
      (w : World) (rows : Rows)
      → IsKept s w.rows rows
      → IsQuiet w.rows rows
      → IsTrue w
      → IsTrue (record w { rows = rows })
  quiet-IsTrue w rows k q h = record {
    sound = k.sound h.sound;
    vetted = subst (All (IsVetted c s)) (sym q.commits) h.vetted;
    clear = h.clear;
    known = λ t m p. k.kept (h.known t m p);
  }

  approves-IsTrue :
      (w : World) (i : ℕ) (rows : Rows) (p : Point)
      → IsKept s w.rows rows
      → All (IsVetted c s) rows.commits
      → IsClear c (w.approvals i).request s p
      → IsTrue w
      → IsTrue (record w { rows = rows; approvals = move i p w.approvals })
  approves-IsTrue w i rows p k v cl h = record {
    sound = k.sound h.sound;
    vetted = v;
    clear = λ j. elim (Bool-cases (i == j)) [
      | inl e ↦ rw e (rw (← (==_iff i j).0 e) cl)
      | inr e ↦ rw e (h.clear j)
    ];
    known = λ t m q. k.kept (h.known t m q);
  }

  looks-IsTrue :
      (w : World) (scope : List String) (t : Task)
      → read_task scope w.rows ≡ some t
      → IsTrue w
      → IsTrue (record w { snapshots = t ∷ w.snapshots })
  looks-IsTrue w scope t e h = record {
    sound = h.sound;
    vetted = h.vetted;
    clear = h.clear;
    known = go;
  }
    where
      row : w.rows.task ≡ some t
      row = in_scope-eq scope w.rows.task t e

      first : status_eq t.status pending_second_approval ≡ true → has_first w.rows.task ≡ true
      first p =
          let g : IsGood s t = subst (IsSound s) row h.sound in
          subst (λ o. has_first o ≡ true) (sym row) (ground (arith, g.opened))

      go :
          (u : Task)
          → Memᴰ u (t ∷ w.snapshots)
          → status_eq u.status pending_second_approval ≡ true
          → has_first w.rows.task ≡ true
      go u (Memᴰ.head q) p = first (rw (← q) p)
      go u (Memᴰ.tail m) p = h.known u m p

  -- Authentication is on, and every user has an id.
  pub record IsSigned (w : World) : Type 0 where
    pub auth : (i : ℕ) → (w.approvals i).request.auth ≡ true
    pub named : (i : ℕ) → truthy (w.approvals i).request.user_id ≡ true

  Step-IsSigned : {u v : World} → Step c u v → IsSigned u → IsSigned v
  Step-IsSigned (approves w i inp) g = record {
    auth = λ j. ground (arith, g.auth j);
    named = λ j. ground (arith, g.named j);
  }
  Step-IsSigned (looks w scope t e) g = record { auth = g.auth; named = g.named }
  Step-IsSigned (rejects w logged req t m n) g = record { auth = g.auth; named = g.named }
  Step-IsSigned (acts w req action assigned t m) g = record { auth = g.auth; named = g.named }
  Step-IsSigned (expires w t m) g = record { auth = g.auth; named = g.named }
  Step-IsSigned (repairs w n tenant scope who) g = record { auth = g.auth; named = g.named }

  Step-IsTrue : {u v : World} → Step c u v → IsSigned u → IsTrue u → IsTrue v
  Step-IsTrue (approves w i inp) g h =
      let f =
        step-Facts c (w.approvals i).request s (g.auth i) (g.named i) w.rows h.sound h.vetted inp
          (w.approvals i).point (h.clear i) in
      approves-IsTrue w i _ _ f.kept f.vetted f.clear h
  Step-IsTrue (looks w scope t e) g h = looks-IsTrue w scope t e h
  Step-IsTrue (rejects w logged req t m n) g h =
      quiet-IsTrue w _ (IsKept-reject_write s logged req t w.rows n)
        (IsQuiet-reject_write logged req t w.rows) h
  Step-IsTrue (acts w req action assigned t m) g h =
      quiet-IsTrue w _ (IsKept-state_action_write s req action assigned t w.rows (h.known t m))
        (IsQuiet-state_action_write req action assigned t w.rows) h
  Step-IsTrue (expires w t m) g h =
      quiet-IsTrue w _ (IsKept-expire_overdue s t w.rows) (IsQuiet-expire_overdue t w.rows) h
  Step-IsTrue (repairs w n tenant scope who) g h =
      quiet-IsTrue w _ (IsKept-repair s n tenant scope who w.rows)
        (IsQuiet-repair n tenant scope who w.rows) h

  Reach-IsTrue : {u v : World} → Reach c u v → IsSigned u → IsTrue u → IsSigned v × IsTrue v
  Reach-IsTrue here g h = (g, h)
  Reach-IsTrue (next r st) g h =
      let (g', h') = Reach-IsTrue r g h in (Step-IsSigned st g', Step-IsTrue st g' h')

  -- A submitted task: it waits for review, and nobody has approved it.
  pub record IsSubmitted (w : World) : Type 0 where
    pub task : Task
    pub row : w.rows.task ≡ some task
    pub by : task.submitted_by ≡ s
    pub waits : task.status ≡ awaiting_review
    pub unapproved : task.approved_by ≡ none

  IsSubmitted-IsTrue : (w : World) → IsFresh w → IsSubmitted w → IsTrue w
  IsSubmitted-IsTrue w f b = record {
    sound = subst (IsSound s) (sym b.row) (record {
      same = b.by;
      first = ground (arith, b.unapproved);
      opened = ground (arith, b.waits);
    });
    vetted = subst (All (IsVetted c s)) (sym f.no_commit) tt;
    clear = λ i. rw (f.idle i) tt;
    known = λ t m. absurd (nothing (subst (Memᴰ t) f.no_snapshot m));
  }

-- What a commit shows: its user is not the submitter, and if the task that was read needs a second
-- approval, then it names a first approver, who is neither that user nor the submitter.
pub record IsByOthers (c : Settings) (submitter : String) (x : Commit) : Type 0 where
  pub not_self : x.executed_by ≢ submitter
  pub two :
      requires_second_approval c x.task ≡ true
      → (first : String) × (x.task.approved_by ≡ some first)
        × (first ≢ x.executed_by)
        × (first ≢ submitter)

none-lacks :
    (submitter : Option String) (who : String) (t : Task)
    → t.approved_by ≡ none
    → lacks_second submitter who t ≡ true
none-lacks submitter who t e = rw e refl

both : {a b : Bool} → a ≡ true → b ≡ true → (a && b) ≡ false → ⊥
both e f h = ground arith

IsVetted-IsByOthers :
    (c : Settings) (submitter : String) (x : Commit)
    → truthy submitter ≡ true
    → IsVetted c (some submitter) x
    → IsByOthers c submitter x
IsVetted-IsByOthers c submitter x named v = record {
  not_self = ground (arith, v.other, eq_iff submitter x.executed_by);
  two = λ high. go x.task.approved_by refl high;
}
  where
    go :
        (a : Option String)
        → x.task.approved_by ≡ a
        → requires_second_approval c x.task ≡ true
        → (first : String) × (x.task.approved_by ≡ some first)
          × (first ≢ x.executed_by)
          × (first ≢ submitter)
    go none e high =
        absurd (both high (none-lacks (some submitter) x.executed_by x.task e) v.second)
    go (some first) e high = (
      first,
      e,
      ground (arith, v.second, eq_iff first x.executed_by),
      ground (arith, v.second, eq_iff submitter first),
    )

All-map {ℓ κ η} :
    {A : Type ℓ} (P : A → Type κ) (Q : A → Type η) (xs : List A)
    → ((x : A) → P x → Q x)
    → All P xs
    → All Q xs
All-map P Q [] f h = tt
All-map P Q (x ∷ xs) f (p, h) = (f x p, All-map P Q xs f h)

-- From a fresh review that a named user submitted and that nobody has approved, if every approval is
-- made with authentication on and by a user with an id, and every rejection by a user with an id:
-- under any interleaving, every commit of the review's SQL is by a user other than the submitter, and
-- where the task that it read needs a second approval, that task names a first approver, who is
-- neither the user of the commit nor the submitter. Without authentication nothing of this is said.
pub Reach-IsByOthers :
    (c : Settings) (submitter : String) (u v : World)
    → truthy submitter ≡ true
    → IsFresh u
    → IsSigned c (some submitter) u
    → IsSubmitted c (some submitter) u
    → Reach c u v
    → All (IsByOthers c submitter) v.rows.commits
Reach-IsByOthers c submitter u v named f g b r =
    let (_, h) =
      Reach-IsTrue c (some submitter) r g (IsSubmitted-IsTrue c (some submitter) u f b) in
    All-map (IsVetted c (some submitter)) (IsByOthers c submitter) v.rows.commits
      (λ x. IsVetted-IsByOthers c submitter x named) h.vetted
