-- ===== src/Review/Approve/Outcome.antt =====
-- What one approval, run alone, does to the target database, and what it answers.
use sql_rpa.Base.{
  ℕ, zero, suc, String, ◌-◌, ◌≤◌, ◌≡◌, refl, Bool, true, false, Option, none, some, [], ◌∷◌, ◌++◌,
  ◌⊎◌, inl, inr, arith, Bool-cases, ltb, ◌∙◌, ap, sym, subst,
}
use sql_rpa.Review.{Task, Rows, Request, Settings, read_task}
use sql_rpa.Review.Where.{extract_where, Where}
use sql_rpa.Review.Approve.{
  Point, Input, Answer, fine, raised, raised_after, Response, step, run, approve_review, admit,
  read_point, backup_point, run_sql, store_result, attempt-All, decide-All,
}
use sql_rpa.Review.Approve.Quiet.{
  left, behind, tells_commit, IsQuiet-update_saga, IsQuiet-update_status,
}
use sql_rpa.Review.Approve.Steps.{commit_of, Effect, quiet, opened, wrote, lost, step-Effect}

left-read_point :
    (c : Settings) (req : Request) (a : Answer) (found : Option Task)
    → left (read_point c req a found) ≤ 17
unfolding read_point admit
left-read_point c req fine none = omega arith
left-read_point c req fine (some t) = ground arith
left-read_point c req raised found = omega arith
left-read_point c req raised_after found = omega arith

left-backup_point : (t : Task) (w : Where) (inp : Input) → left (backup_point t w inp) ≤ 11
unfolding backup_point
left-backup_point t w inp = ground arith

module _ (c : Settings) (req : Request) (inp : Input) (rows : Rows) where
  abbrev Shorter : ℕ → Rows × Point → Type 0
  Shorter k x = left x.1 ≤ k

  left-backing_up : (t : Task) → left (step c req inp rows (Point.backing_up t)).1 ≤ 11
  unfolding step
  left-backing_up t = elim (Bool-cases (ltb 0 t.affected_rows)) [
    | inl e ↦ rw e (left-backup_point t (extract_where t.sql) inp)
    | inr e ↦ rw e (omega arith)
  ]

  left-run_sql :
      (a : Answer) (t : Task) (b : Option String) (w : Option ℕ)
      → left (run_sql c req a t b w rows).1 ≤ 9
  unfolding run_sql
  left-run_sql fine t b w = omega arith
  left-run_sql raised t b w = omega arith
  left-run_sql raised_after t b w = omega arith

  left-store_result :
      (t : Task) (b : Option String) (n : ℕ) (found : Option Task)
      → left (store_result c req inp.answer t b n found rows).1 ≤ 5
  unfolding store_result
  left-store_result t b n none = omega arith
  left-store_result t b n (some s) =
      attempt-All (Shorter 5) inp.answer _ rows _ _ (omega arith) (omega arith) (omega arith)

  left-step : (p : Point) → left (step c req inp rows p).1 ≤ left p - 1
  unfolding step
  left-step Point.reading = left-read_point c req inp.answer (read_task req.scope_ids rows)
  left-step (Point.first_claim t) =
      decide-All (Shorter 2) inp.answer _ rows _ (λ _. omega arith) (omega arith) (omega arith)
        (omega arith)
  left-step (Point.first_event t) =
      attempt-All (Shorter 1) inp.answer _ rows _ _ (omega arith) (omega arith) (omega arith)
  left-step (Point.first_record t) =
      attempt-All (Shorter 0) inp.answer _ rows _ _ (omega arith) (omega arith) (omega arith)
  left-step (Point.claim t) =
      decide-All (Shorter 16) inp.answer _ rows _ (λ _. omega arith) (omega arith) (omega arith)
        (omega arith)
  left-step (Point.claim_event t) =
      attempt-All (Shorter 15) inp.answer _ rows _ _ (omega arith) (omega arith) (omega arith)
  left-step (Point.connecting t) =
      attempt-All (Shorter 14) inp.answer _ rows _ _ (omega arith) (omega arith) (omega arith)
  left-step (Point.new_saga t) =
      decide-All (Shorter 13) inp.answer _ rows _ (λ _. omega arith) (omega arith) (omega arith)
        (omega arith)
  left-step (Point.approval t) =
      attempt-All (Shorter 12) inp.answer _ rows _ _ (omega arith) (omega arith) (omega arith)
  left-step (Point.backing_up t) = left-backing_up t
  left-step (Point.mark_backup t b) =
      attempt-All (Shorter 10) inp.answer _ rows _ _ (omega arith) (omega arith) (omega arith)
  left-step (Point.executing_sql t b) = left-run_sql inp.answer t b inp.wrote
  left-step (Point.capturing t b n) =
      attempt-All (Shorter 8) inp.answer _ rows _ _ (omega arith) (omega arith) (omega arith)
  left-step (Point.mark_committed t b n) =
      attempt-All (Shorter 7) inp.answer _ rows _ _ (omega arith) (omega arith) (omega arith)
  left-step (Point.completing t b n) =
      attempt-All (Shorter 6) inp.answer _ rows _ _ (omega arith) (omega arith) (omega arith)
  left-step (Point.storing t b n) = left-store_result t b n (read_task req.scope_ids rows)
  left-step (Point.logging t b n) =
      attempt-All (Shorter 4) inp.answer _ rows _ _ (omega arith) (omega arith) (omega arith)
  left-step (Point.mark_repaired t b n) =
      attempt-All (Shorter 3) inp.answer _ rows _ _ (omega arith) (omega arith) (omega arith)
  left-step (Point.pending_saga b n) =
      attempt-All (Shorter 2) inp.answer _ rows _ _ (omega arith) (omega arith) (omega arith)
  left-step (Point.pending_status b n) =
      attempt-All (Shorter 1) inp.answer _ rows _ _ (omega arith) (omega arith) (omega arith)
  left-step Point.undo_saga =
      attempt-All (Shorter 1) inp.answer _ rows _ _ (omega arith) (omega arith) (omega arith)
  left-step Point.undo_status =
      attempt-All (Shorter 0) inp.answer _ rows _ _ (omega arith) (omega arith) (omega arith)
  left-step (Point.done r) = omega arith

abbrev is_done : Point → Bool
is_done (Point.done _) = true
is_done _ = false

done-left : (p : Point) → left p ≡ 0 → (r : Response) × (p ≡ Point.done r)
done-left (Point.done r) e = (r, refl)
done-left Point.reading e = absurd (omega arith)
done-left _ e = absurd (omega arith)

abbrev answer_of : Point → Response
answer_of (Point.done r) = r
answer_of _ = Response.crashed

-- The points behind an exception of the target database.
data Undoing : Point → Type 0 where
  at_saga : Undoing Point.undo_saga
  at_status : Undoing Point.undo_status
  at_end : Undoing (Point.done (Response.http 500))

step-Undoing :
    (c : Settings) (req : Request) (inp : Input) (rows : Rows) {p : Point}
    → Undoing p
    → Undoing (step c req inp rows p).1 × ((step c req inp rows p).0.commits ≡ rows.commits)
unfolding step
step-Undoing c req inp rows at_saga =
    let q = (IsQuiet-update_saga _ _ rows).commits in
    attempt-All (λ x. Undoing x.1 × (x.0.commits ≡ rows.commits)) inp.answer _ rows _ _
      (at_status, q) (at_end, refl) (at_end, q)
step-Undoing c req inp rows at_status =
    let q = (IsQuiet-update_status _ _ _ _ _ rows).commits in
    attempt-All (λ x. Undoing x.1 × (x.0.commits ≡ rows.commits)) inp.answer _ rows _ _ (at_end, q)
      (at_end, refl) (at_end, q)
step-Undoing c req inp rows at_end = (at_end, refl)

-- The target database behind a point: untouched before the commit, one commit of the request's
-- user behind it, and also where the call raised after its commit, for which there is a reason.
data Target (Lost : Type 0) (req : Request) (old : Rows) (rows : Rows) (p : Point) : Type 0 where
  untouched : behind p ≡ false → rows.commits ≡ old.commits → Target Lost req old rows p
  committed :
      (t : Task)
      → behind p ≡ true
      → rows.commits ≡ old.commits ++ commit_of req t ∷ []
      → Target Lost req old rows p
  undone :
      (t : Task)
      → Lost
      → Undoing p
      → rows.commits ≡ old.commits ++ commit_of req t ∷ []
      → Target Lost req old rows p

module _ (c : Settings) (req : Request) (inputs : ℕ → Input) where
  -- The transaction of the target database raises after its commit, in a run of so many steps.
  pub data IsLost : ℕ → Rows → Point → Type 0 where
    at_call :
        {left : ℕ} {rows : Rows} {p : Point} (t : Task) (b : Option String)
        → p ≡ Point.executing_sql t b
        → (inputs left).answer ≡ raised_after
        → IsLost (suc left) rows p
    later :
        {left : ℕ} {rows : Rows} {p : Point}
        → IsLost left (step c req (inputs left) rows p).0 (step c req (inputs left) rows p).1
        → IsLost (suc left) rows p

module _ (c : Settings) (req : Request) (old : Rows) (Lost : Type 0) where
  step-Target :
      (inp : Input) (rows : Rows) (p : Point)
      → ((t : Task) (b : Option String)
          → p ≡ Point.executing_sql t b
          → inp.answer ≡ raised_after
          → Lost)
      → Target Lost req old rows p
      → Target Lost req old (step c req inp rows p).0 (step c req inp rows p).1
  step-Target inp rows p why (undone t l u e) =
      let (v, q) = step-Undoing c req inp rows u in undone t l v (q ∙ e)
  step-Target inp rows p why (untouched n e) = go (step-Effect c req inp rows p)
    where
      go :
          {rows' : Rows} {p' : Point}
          → Effect req inp.answer rows p rows' p'
          → Target Lost req old rows' p'
      go (quiet q b _) = untouched (b ∙ n) (q.commits ∙ e)
      go (opened q _ _ b _) = untouched (b ∙ n) (q ∙ e)
      go (wrote t q _ _ _ b _ _) = committed t b (rw (← e) q)
      go (lost t b q _ x a y) = undone t (why t b x a) (subst Undoing (sym y) at_saga) (rw (← e) q)
  step-Target inp rows p why (committed t n e) = go (step-Effect c req inp rows p)
    where
      go :
          {rows' : Rows} {p' : Point}
          → Effect req inp.answer rows p rows' p'
          → Target Lost req old rows' p'
      go (quiet q b _) = committed t (b ∙ n) (q.commits ∙ e)
      go (opened q _ _ b _) = committed t (b ∙ n) (q ∙ e)
      go (wrote s q _ _ m b _ _) = absurd (cc)
      go (lost s b q _ x a y) = absurd (cc (ap behind x))

module _ (c : Settings) (req : Request) (old : Rows) (inputs : ℕ → Input) (Lost : Type 0) where
  run-Target :
      (k : ℕ) (rows : Rows) (p : Point)
      → (IsLost c req inputs k rows p → Lost)
      → Target Lost req old rows p
      → Target Lost req old (run c req k inputs rows p).0 (run c req k inputs rows p).1
  unfolding run
  run-Target zero rows p why t = t
  run-Target (suc k) rows p why t =
      let (rows', p') = step c req (inputs k) rows p in
      run-Target k rows' p' (λ l. why (later l))
        (step-Target c req old Lost (inputs k) rows p (λ s b e a. why (at_call s b e a)) t)

module _ (c : Settings) (req : Request) where
  left-run :
      (k : ℕ) (inputs : ℕ → Input) (rows : Rows) (p : Point)
      → left p ≤ k
      → left (run c req k inputs rows p).1 ≡ 0
  unfolding run
  left-run zero inputs rows p h = omega arith
  left-run (suc k) inputs rows p h =
      let (rows', p') = step c req (inputs k) rows p in
      left-run k inputs rows' p' (omega (arith, left-step c req (inputs k) rows p))

-- What an answer says, and the commits of the target database before and after.
abbrev pub IsTold : Request → Type 0 → Response → Rows → Rows → Type 0
IsTold req Lost r old end =
    ((tells_commit r ≡ true) × ((t : Task) × (end.commits ≡ old.commits ++ commit_of req t ∷ [])))
    ⊎ (((tells_commit r ≡ false) × (end.commits ≡ old.commits))
        ⊎ ((Lost × (r ≡ Response.http 500))
            × ((t : Task) × (end.commits ≡ old.commits ++ commit_of req t ∷ []))))

-- However the calls of an approval end, before or after their effect, it comes to an answer. If the
-- answer says that the review's SQL is committed (completed, or records pending), it has committed it
-- in the target database exactly once. Otherwise the target's commits are those from before, but for
-- one case: the transaction of the target database raised after its commit; then the answer is the
-- error 500, which says that nothing was committed, though the SQL is committed once.
pub approve_review-outcome :
    (c : Settings) (req : Request) (inputs : ℕ → Input) (rows : Rows)
    → (r : Response) × ((approve_review c req inputs rows).1 ≡ Point.done r)
      × IsTold req
          (IsLost c req inputs 18 rows Point.reading)
          r
          rows
          (approve_review c req inputs rows).0
unfolding approve_review
approve_review-outcome c req inputs rows =
    let Lost = IsLost c req inputs 18 rows Point.reading in
    let (r, e) = done-left _ (left-run c req 18 inputs rows Point.reading (omega arith)) in
    (
      r,
      e,
      go r e
          (run-Target c req rows inputs Lost 18 rows Point.reading (λ l. l) (untouched refl refl)),
    )
  where
    told : {p : Point} (r : Response) → p ≡ Point.done r → Undoing p → r ≡ Response.http 500
    told r e at_saga = absurd (cc)
    told r e at_status = absurd (cc)
    told r e at_end = ap answer_of (sym e)

    go :
        {Lost : Type 0} {end : Rows} {p : Point} (r : Response)
        → p ≡ Point.done r
        → Target Lost req rows end p
        → IsTold req Lost r rows end
    go r e (untouched n q) = inr (inl (rw e at n, q))
    go r e (committed t n q) = inl (rw e at n, (t, q))
    go r e (undone t l u q) = inr (inr ((l, told r e u), (t, q)))
