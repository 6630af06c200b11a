-- ===== src/Submission/Replay.antt =====
-- A request that is repeated with its key.
use mathlib.Core.Option.{some_inj}
use sql_rpa.Base.{
  ℕ, ◌≤◌, ◌≡◌, refl, sym, ap, subst, ◌∙◌, true, false, Option, none, some, List, [], ◌∷◌, ◌++◌, inl,
  inr, ltb, length, find-append, find-append-none, arith, Bool-cases, if◌then◌else◌,
}
use sql_rpa.Text.{Text, text_eq_iff, text_in}
use sql_rpa.Safety.{check, first_word}
use sql_rpa.Review.Where.{Where, clause, disallowed, extract_where}
use sql_rpa.Submission.{
  ReviewTask, Reply, created, replayed, http, Request, Caller, Input, organization_of, scoped_key,
  has_key, lookup, same_key, is_same, replay, create_review_task, task_of, review_operations,
  submit_word, submit_new, submit_key, submit_review,
}

-- The reply that carries a task.
pub data Answers (t : ReviewTask) : Reply → Type 0 where
  by_creation : Answers t (created t)
  by_replay : Answers t (replayed t)

abbrev answer_of : Reply → Option ReviewTask
answer_of (created t) = some t
answer_of (replayed t) = some t
answer_of _ = none

Answers-of : (t : ReviewTask) (r : Reply) → Answers t r → answer_of r ≡ some t
Answers-of t _ by_creation = refl
Answers-of t _ by_replay = refl

replay-of : (req : Request) (s t : ReviewTask) → answer_of (replay req s) ≡ some t → s ≡ t
unfolding replay
replay-of req s t e = elim (Bool-cases (is_same req s)) [
  | inl h ↦ some_inj.0 (rw h at e)
  | inr h ↦ absurd (ground (arith, rw h at e))
]

has_key_self :
    (key : Text) (s : ReviewTask)
    → s.idempotency_key ≡ some key
    → has_key s.organization_id key s ≡ true
has_key_self key s k =
    rw ((text_eq_iff s.organization_id s.organization_id).1 refl)
      (subst (λ o. same_key o key ≡ true) (sym k) ((text_eq_iff key key).1 refl))

-- What a reply of a handler says stands under the key afterwards.
abbrev Stands : Text → Text → List ReviewTask × Reply → Type 0
Stands organization key (rows, reply) =
    (t : ReviewTask) → answer_of reply ≡ some t → lookup organization key rows ≡ some t

found-Stands :
    (organization key : Text) (req : Request) (s : ReviewTask) (rows : List ReviewTask)
    → lookup organization key rows ≡ some s
    → Stands organization key (rows, replay req s)
found-Stands organization key req s rows e t h = e ∙ ap some (replay-of req s t h)

create-Stands :
    (key : Text) (req : Request) (s : ReviewTask) (rows : List ReviewTask)
    → s.idempotency_key ≡ some key
    → Stands s.organization_id key (create_review_task req s rows)
unfolding create_review_task
create-Stands key req s rows k =
    subst
      (λ o. Stands s.organization_id key (elim o as (λ _. List ReviewTask × Reply) [
        | none ↦ (rows ++ s ∷ [], created s)
        | some key ↦ elim (lookup s.organization_id key rows) as (λ _. List ReviewTask × Reply) [
          | some existing ↦ (rows, replay req existing)
          | none ↦ (rows ++ s ∷ [], created s)
        ]
      ]))
      (sym k) (go (lookup s.organization_id key rows) refl)
  where
    go :
        (found : Option ReviewTask)
        → lookup s.organization_id key rows ≡ found
        → Stands s.organization_id key (elim found as (λ _. List ReviewTask × Reply) [
          | some existing ↦ (rows, replay req existing)
          | none ↦ (rows ++ s ∷ [], created s)
        ])
    go (some existing) e = found-Stands s.organization_id key req existing rows e
    go none e = λ t h.
        find-append-none (has_key s.organization_id key) rows (s ∷ []) e
        ∙ subst (λ b. (if b then some s else none) ≡ some t) (sym (has_key_self key s k)) h

module _ (inp : Input) (user : Caller) (req : Request) (rows : List ReviewTask) (key : Text)
    (k : scoped_key user req.idempotency_key ≡ some key) where
  word-Stands :
      (word : Option Text) → Stands (organization_of user) key (submit_word inp user req rows word)
  unfolding submit_word
  word-Stands none = λ t h. absurd (ground (arith, h))
  word-Stands (some op) = elim (Bool-cases (text_in op review_operations)) [
    | inr other ↦ rw other (λ t h. absurd (ground (arith, h)))
    | inl write ↦ rw write (go (extract_where req.sql))
  ]
    where
      go :
          (w : Where)
          → Stands (organization_of user) key (elim w as (λ _. List ReviewTask × Reply) [
            | disallowed ↦ (rows, http 400)
            | clause condition ↦
                create_review_task req (task_of inp user req op condition) (rows ++ inp.meanwhile)
          ])
      go disallowed = λ t h. absurd (ground (arith, h))
      go (clause condition) =
          create-Stands key req (task_of inp user req op condition) (rows ++ inp.meanwhile) k

  new-Stands : Stands (organization_of user) key (submit_new inp user req rows)
  unfolding submit_new
  new-Stands = elim (Bool-cases inp.connected) [
    | inr away ↦ rw away (λ t h. absurd (ground (arith, h)))
    | inl on ↦ elim (Bool-cases (check inp.where_required req.sql []).blocked) [
      | inl b ↦ rw (on, b) (λ t h. absurd (ground (arith, h)))
      | inr b ↦ rw (on, b) (word-Stands (first_word req.sql))
    ]
  ]

  key-Stands : Stands (organization_of user) key (submit_key inp user req rows (some key))
  unfolding submit_key
  key-Stands = elim (Bool-cases (ltb 200 (length req.idempotency_key))) [
    | inl long ↦ rw long (λ t h. absurd (ground (arith, h)))
    | inr short ↦ rw short (go (lookup (organization_of user) key rows) refl)
  ]
    where
      go :
          (found : Option ReviewTask)
          → lookup (organization_of user) key rows ≡ found
          → Stands (organization_of user) key (elim found as (λ _. List ReviewTask × Reply) [
            | some existing ↦ (rows, replay req existing)
            | none ↦ submit_new inp user req rows
          ])
      go (some existing) e = found-Stands (organization_of user) key req existing rows e
      go none e = new-Stands

submit_key-found :
    (inp : Input) (user : Caller) (req : Request) (rows : List ReviewTask) (key : Text)
    (t : ReviewTask)
    → length req.idempotency_key ≤ 200
    → lookup (organization_of user) key rows ≡ some t
    → submit_key inp user req rows (some key) ≡ (rows, replay req t)
unfolding submit_key
submit_key-found inp user req rows key t short e = rw (fits short) (rw e refl)
  where
    fits : {n : ℕ} → n ≤ 200 → ltb 200 n ≡ false
    fits h = ground (arith, h)

-- A request with a key that was answered with a review: whenever the same caller sends a request
-- with that key again, whatever rows were added since and whatever the database answers then,
-- nothing is added, and the reply is that review for the same SQL and reason, and the error 409
-- for others. A key has at most 200 characters.
pub submit_review-again :
    (inp inp' : Input) (user : Caller) (req req' : Request) (rows later : List ReviewTask)
    (key : Text) (t : ReviewTask)
    → scoped_key user req.idempotency_key ≡ some key
    → length req.idempotency_key ≤ 200
    → Answers t (submit_review inp user req rows).1
    → req'.idempotency_key ≡ req.idempotency_key
    → submit_review inp' user req' ((submit_review inp user req rows).0 ++ later) ≡ (
      (submit_review inp user req rows).0 ++ later,
      if is_same req' t then replayed t else http 409,
    )
unfolding submit_review replay
submit_review-again inp inp' user req req' rows later key t k short a same =
    let after = (submit_key inp user req rows (scoped_key user req.idempotency_key)).0 in
    let stands =
      subst (λ o. Stands (organization_of user) key (submit_key inp user req rows o)) (sym k)
        (key-Stands inp user req rows key k) in
    ap (submit_key inp' user req' (after ++ later)) (ap (scoped_key user) same ∙ k)
    ∙ submit_key-found inp' user req' (after ++ later) key t
        (subst (λ s. length s ≤ 200) (sym same) short)
        (find-append (has_key (organization_of user) key) after later t
          (stands t (Answers-of t _ a)))
