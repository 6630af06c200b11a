-- ===== src/Submission/Admitted.antt =====
-- What a submission that creates a review has passed.
use mathlib.Core.Option.{some_inj}
use sql_rpa.Base.{
  ℕ, ◌≤◌, ◌≡◌, refl, ap, subst, String, true, false, not, Option, none, some, List, [], ◌∷◌, ◌++◌,
  inl, inr, ltb, min, length, arith, Bool-cases, if_elim,
}
use sql_rpa.Text.{Text, text_in}
use sql_rpa.Safety.{check, first_word}
use sql_rpa.Review.Where.{Where, clause, disallowed, extract_where}
use sql_rpa.Policy.{ApprovalPolicy}
use sql_rpa.Policy.Strictest.{Applies, evaluate_policy-IsStrictest}
use sql_rpa.Submission.{
  ReviewTask, Reply, created, http, Request, Caller, Input, organization_of, scoped_key, lookup,
  is_same, replay, create_review_task, operation_of, task_of, review_operations, submit_word,
  submit_new, submit_key, submit_review, calculate_risk_score,
}

-- `created_of r` is the review that the reply says it created.
abbrev created_of : Reply → Option ReviewTask
created_of (created t) = some t
created_of _ = none

-- A review that was submitted: its SQL passed the rule engine and the check of its condition and is
-- an insertion, update or deletion; no policy that applies to it requires more approvals than it
-- has; its risk is at most 100.
pub record IsAdmitted (inp : Input) (user : Caller) (req : Request) (t : ReviewTask) : Type 0 where
  pub safe : (check inp.where_required req.sql []).blocked ≡ false
  pub first : first_word req.sql ≡ some t.operation_type
  pub write : text_in t.operation_type review_operations ≡ true
  pub condition : Option Text
  pub allowed : extract_where req.sql ≡ clause condition
  pub strict :
      (p : ApprovalPolicy)
      → Applies inp.scope_ids inp.policies
          (record {
            operation_type = t.operation_type;
            table = t.affected_table;
            affected_rows = t.affected_rows;
            sql = req.sql;
          })
          p
      → p.required_approvals ≤ t.required_approvals
  pub risk : t.risk_score ≤ 100
  pub sql : t.sql ≡ req.sql
  pub submitter : t.submitted_by ≡ user.id
  pub organization : t.organization_id ≡ organization_of user

risk-le :
    (op sql : Text) (condition : Option Text) (n : ℕ) (conflicts : List (List String))
    → calculate_risk_score op sql condition n conflicts ≤ 100
unfolding calculate_risk_score
risk-le op sql condition n conflicts = least _ 100
  where
    least : (a b : ℕ) → min a b ≤ b
    least a b = omega arith

module _ (inp : Input) (user : Caller) (req : Request) (rows : List ReviewTask) where
  -- A handler's result: if it created a review, the review is admitted, and it alone is added.
  record Added (result : List ReviewTask × Reply) (t : ReviewTask) : Type 0 where
    rows_after : result.0 ≡ rows ++ inp.meanwhile ++ t ∷ []
    admitted : IsAdmitted inp user req t

  abbrev Adds : List ReviewTask × Reply → Type 0
  Adds result = (t : ReviewTask) → created_of result.1 ≡ some t → Added result t

  task-IsAdmitted :
      (op : Text) (condition : Option Text)
      → (check inp.where_required req.sql []).blocked ≡ false
      → first_word req.sql ≡ some op
      → text_in op review_operations ≡ true
      → extract_where req.sql ≡ clause condition
      → IsAdmitted inp user req (task_of inp user req op condition)
  task-IsAdmitted op condition safe first write allowed =
      let operation = operation_of inp req.sql op condition in
      record {
        safe = safe;
        first = first;
        write = write;
        condition = condition;
        allowed = allowed;
        strict = (evaluate_policy-IsStrictest inp.scope_ids inp.policies operation).bound;
        risk = risk-le op req.sql condition operation.affected_rows _;
        sql = refl;
        submitter = refl;
        organization = refl;
      }

  replay-Adds : (s : ReviewTask) (r : List ReviewTask) → Adds (r, replay req s)
  unfolding replay
  replay-Adds s r t e = elim (Bool-cases (is_same req s)) [
    | inl h ↦ absurd (ground (arith, rw h at e))
    | inr h ↦ absurd (ground (arith, rw h at e))
  ]

  create-Adds :
      (s : ReviewTask)
      → IsAdmitted inp user req s
      → Adds (create_review_task req s (rows ++ inp.meanwhile))
  unfolding create_review_task
  create-Adds s a = keyed s.idempotency_key
    where
      fresh : Adds ((rows ++ inp.meanwhile) ++ s ∷ [], created s)
      fresh t e = record {
        rows_after = ap (λ x. rows ++ inp.meanwhile ++ x ∷ []) (some_inj.0 e);
        admitted = subst (IsAdmitted inp user req) (some_inj.0 e) a;
      }

      found :
          (o : Option ReviewTask)
          → Adds (elim o as (λ _. List ReviewTask × Reply) [
            | some existing ↦ (rows ++ inp.meanwhile, replay req existing)
            | none ↦ ((rows ++ inp.meanwhile) ++ s ∷ [], created s)
          ])
      found (some existing) = replay-Adds existing (rows ++ inp.meanwhile)
      found none = fresh

      keyed :
          (o : Option Text)
          → Adds (elim o as (λ _. List ReviewTask × Reply) [
            | none ↦ ((rows ++ inp.meanwhile) ++ s ∷ [], created s)
            | some key ↦
                elim (lookup s.organization_id key (rows ++ inp.meanwhile))
                  as (λ _. List ReviewTask × Reply) [
                    | some existing ↦ (rows ++ inp.meanwhile, replay req existing)
                    | none ↦ ((rows ++ inp.meanwhile) ++ s ∷ [], created s)
                  ]
          ])
      keyed none = fresh
      keyed (some key) = found (lookup s.organization_id key (rows ++ inp.meanwhile))

  word-Adds :
      (word : Option Text)
      → (check inp.where_required req.sql []).blocked ≡ false
      → first_word req.sql ≡ word
      → Adds (submit_word inp user req rows word)
  unfolding submit_word
  word-Adds none safe first = λ t e. absurd (ground (arith, e))
  word-Adds (some op) safe first = elim (Bool-cases (text_in op review_operations)) [
    | inr other ↦ rw other (λ t e. absurd (ground (arith, e)))
    | inl write ↦ rw write (go write (extract_where req.sql) refl)
  ]
    where
      go :
          text_in op review_operations ≡ true
          → (w : Where) → extract_where req.sql ≡ w
          → Adds (elim w as (λ _. List ReviewTask × Reply) [
            | disallowed ↦ (rows, http 400)
            | clause condition ↦
                create_review_task req (task_of inp user req op condition) (rows ++ inp.meanwhile)
          ])
      go write disallowed e = λ t e. absurd (ground (arith, e))
      go write (clause condition) e =
          create-Adds (task_of inp user req op condition)
            (task-IsAdmitted op condition safe first write e)

  new-Adds : Adds (submit_new inp user req rows)
  unfolding submit_new
  new-Adds =
      if_elim Adds (not inp.connected) (λ _ t e. absurd (ground (arith, e)))
        (λ _.
          if_elim Adds (check inp.where_required req.sql []).blocked
            (λ _ t e. absurd (ground (arith, e)))
            (λ safe. word-Adds (first_word req.sql) safe refl))

  key-Adds : (o : Option Text) → Adds (submit_key inp user req rows o)
  unfolding submit_key
  key-Adds none = new-Adds
  key-Adds (some key) = elim (Bool-cases (ltb 200 (length req.idempotency_key))) [
    | inl long ↦ rw long (λ t e. absurd (ground (arith, e)))
    | inr short ↦ rw short (go (lookup (organization_of user) key rows))
  ]
    where
      go :
          (found : Option ReviewTask)
          → Adds (elim found as (λ _. List ReviewTask × Reply) [
            | some existing ↦ (rows, replay req existing)
            | none ↦ submit_new inp user req rows
          ])
      go (some existing) = replay-Adds existing rows
      go none = new-Adds

-- A request that creates a review adds it alone to the rows that are there by then, and only if its
-- SQL is not blocked by the rule engine, begins with INSERT, UPDATE or DELETE, and has a condition
-- without a pattern of injection; the review is the caller's, requires at least as many approvals
-- as any policy that applies to it, and has a risk of at most 100.
pub submit_review-IsAdmitted :
    (inp : Input) (user : Caller) (req : Request) (rows : List ReviewTask) (t : ReviewTask)
    → (submit_review inp user req rows).1 ≡ created t
    → ((submit_review inp user req rows).0 ≡ rows ++ inp.meanwhile ++ t ∷ [])
      × IsAdmitted inp user req t
unfolding submit_review
submit_review-IsAdmitted inp user req rows t e =
    let a = key-Adds inp user req rows (scoped_key user req.idempotency_key) t (ap created_of e) in
    (a.rows_after, a.admitted)
