-- ===== src/Review/Approve/Cleared/Steps.antt =====
-- Every step of an approval keeps the row good, its own task cleared, and the commits vetted.
use sql_rpa.Base.{
  ℕ, ◌≡◌, refl, String, Bool, true, false, Option, none, some, List, [], ◌∷◌, ◌++◌, All, arith,
  Bool-cases, Option-cases, inl, inr, subst, sym, truthy, ltb, str_in,
}
use sql_rpa.Review.{
  Task, Rows, Request, Settings, awaiting_review, pending_second_approval, escalated, executing,
  active, transition, create_saga, in_scope, read_task,
}
use sql_rpa.Review.Where.{Where, extract_where}
use sql_rpa.Review.Approve.{
  Point, Input, Answer, fine, raised, raised_after, step, read_point, backup_point, run_sql,
  store_result, attempt, decide, attempt-All, decide-All,
}
use sql_rpa.Review.Approve.Quiet.{
  IsQuiet-update_saga, IsQuiet-update_status, IsQuiet-record_approval, IsQuiet-transition,
}
use sql_rpa.Review.Approve.Cleared.{
  is_self, IsGood, IsSound, IsCleared, IsVetted, IsClear, IsKept, IsKept-refl, IsKept-same,
  IsKept-update_saga, IsKept-record_approval, IsKept-update_status, IsKept-transition,
  admit-IsClear, has_first,
}

All-concat {ℓ κ} :
    {A : Type ℓ} (P : A → Type κ) (xs : List A) {x : A} → All P xs → P x → All P (xs ++ x ∷ [])
All-concat P [] h p = (p, tt)
All-concat P (y ∷ xs) (q, h) p = (q, All-concat P xs h p)

pub in_scope-eq :
    (scope : List String) (o : Option Task) (t : Task) → in_scope scope o ≡ some t → o ≡ some t
in_scope-eq scope none t e = cc
in_scope-eq scope (some u) t e = ground arith

in_scope-IsSound :
    (s : Option String) (scope : List String) (o : Option Task)
    → IsSound s o
    → IsSound s (in_scope scope o)
in_scope-IsSound s scope none h = tt
in_scope-IsSound s scope (some t) h = elim (Bool-cases (str_in t.tenant_id scope)) [
  | inl e ↦ rw e h
  | inr e ↦ rw e tt
]

module _ (c : Settings) (req : Request) (s : Option String) (auth : req.auth ≡ true)
    (named : truthy req.user_id ≡ true) (rows : Rows) (sound : IsSound s rows.task)
    (vetted_before : All (IsVetted c s) rows.commits) where
  pub record Facts (x : Rows × Point) : Type 0 where
    pub kept : IsKept s rows x.0
    pub clear : IsClear c req s x.1
    pub vetted : All (IsVetted c s) x.0.commits

  facts :
      (r : Rows) (p : Point)
      → IsKept s rows r
      → r.commits ≡ rows.commits
      → IsClear c req s p
      → Facts (r, p)
  facts r p k q h = record {
    kept = k;
    clear = h;
    vetted = subst (All (IsVetted c s)) (sym q) vetted_before;
  }

  attempt-Facts :
      (a : Answer) (w : Rows → Rows) (n e : Point)
      → IsKept s rows (w rows)
      → (w rows).commits ≡ rows.commits
      → IsClear c req s n
      → IsClear c req s e
      → Facts (attempt a w rows n e)
  attempt-Facts a w n e k q hn he =
      attempt-All Facts a w rows n e (facts _ n k q hn) (facts rows e (IsKept-refl s rows) refl he)
        (facts _ e k q he)

  decide-Facts :
      (a : Answer) (w : Rows × Bool) (n : Point)
      → IsKept s rows w.0
      → w.0.commits ≡ rows.commits
      → IsClear c req s n
      → Facts (decide a w rows n)
  decide-Facts a w n k q h =
      decide-All Facts a w rows n (λ _. facts w.0 n k q h) (facts w.0 _ k q tt)
        (facts rows _ (IsKept-refl s rows) refl tt) (facts w.0 _ k q tt)

  -- The first approval opens the wait for the second one.
  first_claim-IsKept :
      is_self s req.user_id ≡ false
      → IsKept s rows
          (transition req.scope_ids
            (awaiting_review ∷ escalated ∷ [])
            pending_second_approval
            (λ t. record t { approved_by = some req.user_id; reviewer_note = req.reviewer_note })
            rows).0
  first_claim-IsKept other =
      IsKept-transition s _ _ _ _ rows
        (λ t _ _ g. record { same = g.same; first = other; opened = ground arith }) (λ t _. named)

  claim-IsKept : IsKept s rows (transition req.scope_ids active executing (λ t. t) rows).0
  claim-IsKept =
      IsKept-transition s _ _ _ _ rows
        (λ t _ _ g. record { same = g.same; first = refl; opened = refl }) (λ t h. h)

  create_saga-IsKept : IsKept s rows (create_saga req.tenant_id rows).0
  unfolding create_saga
  create_saga-IsKept = IsKept-same s rows _ (ground arith)

  create_saga-IsQuiet : (create_saga req.tenant_id rows).0.commits ≡ rows.commits
  unfolding create_saga
  create_saga-IsQuiet = ground arith

  backup_point-IsClear :
      (t : Task) (w : Where) (inp : Input)
      → IsCleared c s req.user_id t
      → IsClear c req s (backup_point t w inp)
  unfolding backup_point
  backup_point-IsClear t (Where.disallowed) inp h = tt
  backup_point-IsClear t (Where.clause none) inp h = h
  backup_point-IsClear t (Where.clause (some [])) inp h = h
  backup_point-IsClear t (Where.clause (some (x ∷ w))) inp h = made inp.answer
    where
      made :
          (a : Answer)
          → IsClear c req s
              (elim a [ fine ↦ Point.mark_backup t inp.backup_id | _ ↦ Point.undo_saga ])
      made fine = h
      made raised = tt
      made raised_after = tt

  read_point-IsClear :
      (a : Answer) (found : Option Task)
      → IsSound s found
      → IsClear c req s (read_point c req a found)
  unfolding read_point
  read_point-IsClear fine none h = tt
  read_point-IsClear fine (some t) h = admit-IsClear c req s t auth h
  read_point-IsClear raised found h = tt
  read_point-IsClear raised_after found h = tt

  storing-Facts :
      (inp : Input) (t : Task) (b : Option String) (n : ℕ)
      → Facts (store_result c req inp.answer t b n (read_task req.scope_ids rows) rows)
  unfolding store_result
  storing-Facts inp t b n = elim (Option-cases (read_task req.scope_ids rows)) [
    | inl e ↦ rw e (facts rows _ (IsKept-refl s rows) refl tt)
    | inr (stored, e) ↦
        let row : rows.task ≡ some stored = in_scope-eq req.scope_ids rows.task stored e in
        let g : IsGood s stored = subst (IsSound s) row sound in
        rw e (
          attempt-Facts inp.answer
            (λ r. record r { task = some (record stored { has_result = true }) }) _ _
            (record {
              sound = λ _. record { same = g.same; first = g.first; opened = g.opened };
              kept = λ h. subst (λ o. has_first o ≡ true) row h;
            })
            refl tt tt)
  ]

  backing_up-Facts :
      (inp : Input) (t : Task)
      → IsCleared c s req.user_id t
      → Facts (step c req inp rows (Point.backing_up t))
  unfolding step
  backing_up-Facts inp t h = elim (Bool-cases (ltb 0 t.affected_rows)) [
    | inl e ↦ rw e (
        facts rows _ (IsKept-refl s rows) refl (backup_point-IsClear t (extract_where t.sql) inp h))
    | inr e ↦ rw e (facts rows _ (IsKept-refl s rows) refl h)
  ]

  run_sql-Facts :
      (a : Answer) (t : Task) (b : Option String) (w : Option ℕ)
      → IsCleared c s req.user_id t
      → Facts (run_sql c req a t b w rows)
  unfolding run_sql
  run_sql-Facts fine t b w h = record {
    kept = IsKept-same s rows _ refl;
    clear = tt;
    vetted = All-concat _ rows.commits vetted_before h;
  }
  run_sql-Facts raised t b w h = facts rows _ (IsKept-refl s rows) refl tt
  run_sql-Facts raised_after t b w h = record {
    kept = IsKept-same s rows _ refl;
    clear = tt;
    vetted = All-concat _ rows.commits vetted_before h;
  }

  pub step-Facts : (inp : Input) (p : Point) → IsClear c req s p → Facts (step c req inp rows p)
  unfolding step
  step-Facts inp Point.reading h = facts rows _ (IsKept-refl s rows) refl (
      read_point-IsClear inp.answer (read_task req.scope_ids rows)
        (in_scope-IsSound s req.scope_ids rows.task sound))
  step-Facts inp (Point.first_claim t) h =
      decide-Facts inp.answer _ _ (first_claim-IsKept h) (IsQuiet-transition _ _ _ _ rows).commits
        tt
  step-Facts inp (Point.first_event t) h =
      attempt-Facts inp.answer _ _ _ (IsKept-same s rows _ refl) refl tt tt
  step-Facts inp (Point.first_record t) h =
      attempt-Facts inp.answer _ _ _ (IsKept-record_approval s _ _ _ rows)
        (IsQuiet-record_approval _ _ _ rows).commits tt tt
  step-Facts inp (Point.claim t) h =
      decide-Facts inp.answer _ _ claim-IsKept (IsQuiet-transition _ _ _ _ rows).commits h
  step-Facts inp (Point.claim_event t) h =
      attempt-Facts inp.answer _ _ _ (IsKept-same s rows _ refl) refl h tt
  step-Facts inp (Point.connecting t) h =
      attempt-Facts inp.answer _ _ _ (IsKept-same s rows _ refl) refl h tt
  step-Facts inp (Point.new_saga t) h =
      decide-Facts inp.answer _ _ create_saga-IsKept create_saga-IsQuiet h
  step-Facts inp (Point.approval t) h =
      attempt-Facts inp.answer _ _ _ (IsKept-record_approval s _ _ _ rows)
        (IsQuiet-record_approval _ _ _ rows).commits h tt
  step-Facts inp (Point.backing_up t) h = backing_up-Facts inp t h
  step-Facts inp (Point.mark_backup t b) h =
      attempt-Facts inp.answer _ _ _ (IsKept-update_saga s _ _ rows)
        (IsQuiet-update_saga _ _ rows).commits h tt
  step-Facts inp (Point.executing_sql t b) h = run_sql-Facts inp.answer t b inp.wrote h
  step-Facts inp (Point.capturing t b n) h =
      attempt-Facts inp.answer _ _ _ (IsKept-same s rows _ refl) refl tt tt
  step-Facts inp (Point.mark_committed t b n) h =
      attempt-Facts inp.answer _ _ _ (IsKept-update_saga s _ _ rows)
        (IsQuiet-update_saga _ _ rows).commits tt tt
  step-Facts inp (Point.completing t b n) h =
      attempt-Facts inp.answer _ _ _ (IsKept-update_status s _ _ _ _ _ rows refl)
        (IsQuiet-update_status _ _ _ _ _ rows).commits tt tt
  step-Facts inp (Point.storing t b n) h = storing-Facts inp t b n
  step-Facts inp (Point.logging t b n) h =
      attempt-Facts inp.answer _ _ _ (IsKept-same s rows _ refl) refl tt tt
  step-Facts inp (Point.mark_repaired t b n) h =
      attempt-Facts inp.answer _ _ _ (IsKept-update_saga s _ _ rows)
        (IsQuiet-update_saga _ _ rows).commits tt tt
  step-Facts inp (Point.pending_saga b n) h =
      attempt-Facts inp.answer _ _ _ (IsKept-update_saga s _ _ rows)
        (IsQuiet-update_saga _ _ rows).commits tt tt
  step-Facts inp (Point.pending_status b n) h =
      attempt-Facts inp.answer _ _ _ (IsKept-update_status s _ _ _ _ _ rows refl)
        (IsQuiet-update_status _ _ _ _ _ rows).commits tt tt
  step-Facts inp Point.undo_saga h =
      attempt-Facts inp.answer _ _ _ (IsKept-update_saga s _ _ rows)
        (IsQuiet-update_saga _ _ rows).commits tt tt
  step-Facts inp Point.undo_status h =
      attempt-Facts inp.answer _ _ _ (IsKept-update_status s _ _ _ _ _ rows refl)
        (IsQuiet-update_status _ _ _ _ _ rows).commits tt tt
  step-Facts inp (Point.done r) h = facts rows _ (IsKept-refl s rows) refl tt
