-- ===== src/Review/Approve/Steps.antt =====
-- What one step of an approval changes: the commits, the saga row, and where the handler stands.
use sql_rpa.Base.{
  ℕ, ◌≡◌, refl, String, Bool, true, false, Option, none, some, [], ◌∷◌, ◌++◌, ◌⊎◌, inl, inr, arith,
  is_some, Bool-cases, Option-cases, ltb,
}
use sql_rpa.Review.{Task, Commit, Rows, Request, Settings, create_saga, read_task}
use sql_rpa.Review.Where.{Where, extract_where}
use sql_rpa.Review.Approve.{
  Point, Answer, Input, attempt, decide, step, admit, attempt-All, decide-All, backup_point,
  read_point, raised, raised_after, run_sql, store_result, fine,
}
use sql_rpa.Review.Approve.Quiet.{
  behind, armed, implies, holds, IsQuiet, IsQuiet-update_saga, IsQuiet-update_status,
  IsQuiet-record_approval, IsQuiet-transition, IsQuiet-refl,
}

module _ (req : Request) where
  abbrev pub commit_of : Task → Commit
  commit_of t = record { executed_by = req.user_id; task = t }

  -- The four kinds of steps: `quiet` leaves the target alone, `opened` makes the saga row, `wrote`
  -- commits the task that the handler holds, and `lost` does too but raises after it.
  pub data Effect (a : Answer) (rows : Rows) (p : Point) (rows' : Rows) (p' : Point) : Type 0 where
    quiet :
        IsQuiet rows rows'
        → behind p' ≡ behind p
        → implies (armed p') (armed p) ≡ true
        → Effect a rows p rows' p'
    opened :
        rows'.commits ≡ rows.commits
        → rows.saga ≡ none
        → is_some rows'.saga ≡ true
        → behind p' ≡ behind p
        → armed p ≡ false
        → Effect a rows p rows' p'
    wrote :
        (t : Task)
        → rows'.commits ≡ rows.commits ++ commit_of t ∷ []
        → rows'.saga ≡ rows.saga
        → holds p ≡ some t
        → behind p ≡ false
        → behind p' ≡ true
        → armed p ≡ true
        → armed p' ≡ false
        → Effect a rows p rows' p'
    lost :
        (t : Task) (b : Option String)
        → rows'.commits ≡ rows.commits ++ commit_of t ∷ []
        → rows'.saga ≡ rows.saga
        → p ≡ Point.executing_sql t b
        → a ≡ raised_after
        → p' ≡ Point.undo_saga
        → Effect a rows p rows' p'

  attempt-Effect :
      (a : Answer) (w : Rows → Rows) (rows : Rows) (p n e : Point)
      → IsQuiet rows (w rows)
      → (behind n ≡ behind p) × (behind e ≡ behind p)
      → (implies (armed n) (armed p) ≡ true) × (implies (armed e) (armed p) ≡ true)
      → Effect a rows p (attempt a w rows n e).0 (attempt a w rows n e).1
  attempt-Effect a w rows p n e q (bn, be) (an, ae) =
      attempt-All (λ x. Effect a rows p x.0 x.1) a w rows n e (quiet q bn an)
        (quiet (IsQuiet-refl rows) be ae) (quiet q be ae)

  decide-Effect :
      (a : Answer) (w : Rows × Bool) (rows : Rows) (p n : Point)
      → IsQuiet rows w.0
      → behind p ≡ false
      → behind n ≡ false
      → armed n ≡ false
      → Effect a rows p (decide a w rows n).0 (decide a w rows n).1
  decide-Effect a w rows p n q bp bn an =
      decide-All (λ x. Effect a rows p x.0 x.1) a w rows n
        (λ _. quiet q (ground arith) (ground arith)) (quiet q (ground arith) refl)
        (quiet (IsQuiet-refl rows) (ground arith) refl) (quiet q (ground arith) refl)

  create_saga-Effect :
      (a : Answer) (rows : Rows) (t : Task)
      → Effect a rows
          (Point.new_saga t)
          (decide a (create_saga req.tenant_id rows) rows (Point.approval t)).0
          (decide a (create_saga req.tenant_id rows) rows (Point.approval t)).1
  unfolding create_saga
  create_saga-Effect a rows t = elim (Option-cases rows.saga) [
    | inl e ↦
        decide-All (λ x. Effect a rows (Point.new_saga t) x.0 x.1) a
          (create_saga req.tenant_id rows) rows (Point.approval t)
          (λ _. opened (ground arith) e (ground arith) refl refl)
          (opened (ground arith) e (ground arith) refl refl) (quiet (IsQuiet-refl rows) refl refl)
          (opened (ground arith) e (ground arith) refl refl)
    | inr (s, e) ↦
        let q : IsQuiet rows (create_saga req.tenant_id rows).0 = ground arith in
        decide-All (λ x. Effect a rows (Point.new_saga t) x.0 x.1) a
          (create_saga req.tenant_id rows) rows (Point.approval t)
          (λ h. absurd (let k : (create_saga req.tenant_id rows).1 ≡ false = ground arith in cc))
          (quiet q refl refl) (quiet (IsQuiet-refl rows) refl refl) (quiet q refl refl)
  ]

  admit-quiet :
      (c : Settings) (t : Task) → (behind (admit c req t) ≡ false) × (armed (admit c req t) ≡ false)
  unfolding admit
  admit-quiet c t = ground arith

  backup_point-quiet :
      (t : Task) (w : Where) (inp : Input)
      → (behind (backup_point t w inp) ≡ false)
        × (implies (armed (backup_point t w inp)) true ≡ true)
        × ((holds (backup_point t w inp) ≡ some t) ⊎ (armed (backup_point t w inp) ≡ false))
  unfolding backup_point
  backup_point-quiet t w inp = ground arith

  read_point-quiet :
      (c : Settings) (a : Answer) (found : Option Task)
      → (behind (read_point c req a found) ≡ false) × (armed (read_point c req a found) ≡ false)
  unfolding read_point
  read_point-quiet c fine none = (refl, refl)
  read_point-quiet c fine (some t) = admit-quiet c t
  read_point-quiet c raised found = (refl, refl)
  read_point-quiet c raised_after found = (refl, refl)

module _ (c : Settings) (req : Request) (inp : Input) (rows : Rows) where
  abbrev After : Point → Type 0
  After p = Effect req inp.answer rows p (step c req inp rows p).0 (step c req inp rows p).1

  reading-Effect : After Point.reading
  unfolding step
  reading-Effect =
      quiet (IsQuiet-refl rows) (read_point-quiet req c inp.answer (read_task req.scope_ids rows)).0
        (rw (read_point-quiet req c inp.answer (read_task req.scope_ids rows)).1 refl)

  backing_up-Effect : (t : Task) → After (Point.backing_up t)
  unfolding step
  backing_up-Effect t = elim (Bool-cases (ltb 0 t.affected_rows)) [
    | inl e ↦ rw e (
        quiet (IsQuiet-refl rows) (backup_point-quiet req t (extract_where t.sql) inp).0
          (backup_point-quiet req t (extract_where t.sql) inp).1)
    | inr e ↦ rw e (quiet (IsQuiet-refl rows) refl refl)
  ]

  executing_sql-Effect : (t : Task) (b : Option String) → After (Point.executing_sql t b)
  unfolding step run_sql
  executing_sql-Effect t b = go inp.answer
    where
      go :
          (a : Answer)
          → Effect req a rows
              (Point.executing_sql t b)
              (run_sql c req a t b inp.wrote rows).0
              (run_sql c req a t b inp.wrote rows).1
      go fine = wrote t refl refl refl refl refl refl refl
      go raised = quiet (IsQuiet-refl rows) refl refl
      go raised_after = lost t b refl refl refl refl refl

  storing-Effect : (t : Task) (b : Option String) (n : ℕ) → After (Point.storing t b n)
  unfolding step store_result
  storing-Effect t b n = go (read_task req.scope_ids rows)
    where
      go :
          (found : Option Task)
          → Effect req inp.answer rows
              (Point.storing t b n)
              (store_result c req inp.answer t b n found rows).0
              (store_result c req inp.answer t b n found rows).1
      go none = quiet (IsQuiet-refl rows) refl refl
      go (some s) =
          attempt-Effect req inp.answer _ rows (Point.storing t b n) (Point.logging t b n)
            (Point.pending_saga b n) (record { commits = refl; saga = refl }) (refl, refl)
            (refl, refl)

  -- Every step is quiet, opens the saga, or commits.
  pub step-Effect : (p : Point) → After p
  unfolding step
  step-Effect Point.reading = reading-Effect
  step-Effect (Point.first_claim t) =
      decide-Effect req inp.answer _ rows _ _ (IsQuiet-transition _ _ _ _ rows) refl refl refl
  step-Effect (Point.first_event t) =
      attempt-Effect req inp.answer _ rows _ _ _ (record { commits = refl; saga = refl })
        (refl, refl) (refl, refl)
  step-Effect (Point.first_record t) =
      attempt-Effect req inp.answer _ rows _ _ _ (IsQuiet-record_approval _ _ _ rows) (refl, refl)
        (refl, refl)
  step-Effect (Point.claim t) =
      decide-Effect req inp.answer _ rows _ _ (IsQuiet-transition _ _ _ _ rows) refl refl refl
  step-Effect (Point.claim_event t) =
      attempt-Effect req inp.answer _ rows _ _ _ (record { commits = refl; saga = refl })
        (refl, refl) (refl, refl)
  step-Effect (Point.connecting t) =
      attempt-Effect req inp.answer _ rows _ _ _ (record { commits = refl; saga = refl })
        (refl, refl) (refl, refl)
  step-Effect (Point.new_saga t) = create_saga-Effect req inp.answer rows t
  step-Effect (Point.approval t) =
      attempt-Effect req inp.answer _ rows _ _ _ (IsQuiet-record_approval _ _ _ rows) (refl, refl)
        (refl, refl)
  step-Effect (Point.backing_up t) = backing_up-Effect t
  step-Effect (Point.mark_backup t b) =
      attempt-Effect req inp.answer _ rows _ _ _ (IsQuiet-update_saga _ _ rows) (refl, refl)
        (refl, refl)
  step-Effect (Point.executing_sql t b) = executing_sql-Effect t b
  step-Effect (Point.capturing t b n) =
      attempt-Effect req inp.answer _ rows _ _ _ (record { commits = refl; saga = refl })
        (refl, refl) (refl, refl)
  step-Effect (Point.mark_committed t b n) =
      attempt-Effect req inp.answer _ rows _ _ _ (IsQuiet-update_saga _ _ rows) (refl, refl)
        (refl, refl)
  step-Effect (Point.completing t b n) =
      attempt-Effect req inp.answer _ rows _ _ _ (IsQuiet-update_status _ _ _ _ _ rows) (refl, refl)
        (refl, refl)
  step-Effect (Point.storing t b n) = storing-Effect t b n
  step-Effect (Point.logging t b n) =
      attempt-Effect req inp.answer _ rows _ _ _ (record { commits = refl; saga = refl })
        (refl, refl) (refl, refl)
  step-Effect (Point.mark_repaired t b n) =
      attempt-Effect req inp.answer _ rows _ _ _ (IsQuiet-update_saga _ _ rows) (refl, refl)
        (refl, refl)
  step-Effect (Point.pending_saga b n) =
      attempt-Effect req inp.answer _ rows _ _ _ (IsQuiet-update_saga _ _ rows) (refl, refl)
        (refl, refl)
  step-Effect (Point.pending_status b n) =
      attempt-Effect req inp.answer _ rows _ _ _ (IsQuiet-update_status _ _ _ _ _ rows) (refl, refl)
        (refl, refl)
  step-Effect Point.undo_saga =
      attempt-Effect req inp.answer _ rows _ _ _ (IsQuiet-update_saga _ _ rows) (refl, refl)
        (refl, refl)
  step-Effect Point.undo_status =
      attempt-Effect req inp.answer _ rows _ _ _ (IsQuiet-update_status _ _ _ _ _ rows) (refl, refl)
        (refl, refl)
  step-Effect (Point.done r) = quiet (IsQuiet-refl rows) refl refl
