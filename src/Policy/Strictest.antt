-- ===== src/Policy/Strictest.antt =====
-- `evaluate_policy` takes the strictest of the policies that apply.
use mathlib.Core.List.{Memᴰ}
use mathlib.Core.Option.{some_inj}
use sql_rpa.Base.{
  ℕ, ◌≤◌, ◌≡◌, ◌≢◌, refl, sym, ap, subst, ◌∙◌, String, Bool, true, ◌&&◌, none, some, List, [], ◌∷◌,
  ◌==◌, all, find, keep, has-keep, keep-has, find-none, leb, arith, Bool-cases, inl, inr, ==_iff,
}
use sql_rpa.Policy.{
  ApprovalPolicy, Operation, PolicyResult, comes_first, insert, ordered, is_visible, is_match, most,
  conflict_of, combine, evaluate_policy,
}

insert-has :
    (p q : ApprovalPolicy) (ps : List ApprovalPolicy) → Memᴰ q (p ∷ ps) → Memᴰ q (insert p ps)
unfolding insert
insert-has p q [] m = m
insert-has p q (r ∷ rs) m = elim (Bool-cases (comes_first p r)) [
  | inl first ↦ rw first m
  | inr later ↦ rw later (placed (insert-has p q rs) m)
]
  where
    placed :
        (Memᴰ q (p ∷ rs) → Memᴰ q (insert p rs)) → Memᴰ q (p ∷ r ∷ rs) → Memᴰ q (r ∷ insert p rs)
    placed again (Memᴰ.head e) = Memᴰ.tail (again (Memᴰ.head e))
    placed again (Memᴰ.tail (Memᴰ.head e)) = Memᴰ.head e
    placed again (Memᴰ.tail (Memᴰ.tail n)) = Memᴰ.tail (again (Memᴰ.tail n))

has-insert :
    (p q : ApprovalPolicy) (ps : List ApprovalPolicy) → Memᴰ q (insert p ps) → Memᴰ q (p ∷ ps)
unfolding insert
has-insert p q [] m = m
has-insert p q (r ∷ rs) m = elim (Bool-cases (comes_first p r)) [
  | inl first ↦ rw first at m
  | inr later ↦ taken (has-insert p q rs) (rw later at m)
]
  where
    behind : Memᴰ q (p ∷ rs) → Memᴰ q (p ∷ r ∷ rs)
    behind (Memᴰ.head e) = Memᴰ.head e
    behind (Memᴰ.tail n) = Memᴰ.tail (Memᴰ.tail n)

    taken :
        (Memᴰ q (insert p rs) → Memᴰ q (p ∷ rs)) → Memᴰ q (r ∷ insert p rs) → Memᴰ q (p ∷ r ∷ rs)
    taken again (Memᴰ.head e) = Memᴰ.tail (Memᴰ.head e)
    taken again (Memᴰ.tail n) = behind (again n)

ordered-has : (q : ApprovalPolicy) (ps : List ApprovalPolicy) → Memᴰ q ps → Memᴰ q (ordered ps)
unfolding ordered
ordered-has q [] m = elim m [ ]
ordered-has q (p ∷ ps) (Memᴰ.head e) = insert-has p q (ordered ps) (Memᴰ.head e)
ordered-has q (p ∷ ps) (Memᴰ.tail m) = insert-has p q (ordered ps) (Memᴰ.tail (ordered-has q ps m))

has-ordered : (q : ApprovalPolicy) (ps : List ApprovalPolicy) → Memᴰ q (ordered ps) → Memᴰ q ps
unfolding ordered
has-ordered q [] m = elim m [ ]
has-ordered q (p ∷ ps) m = go (has-ordered q ps) (has-insert p q (ordered ps) m)
  where
    go : (Memᴰ q (ordered ps) → Memᴰ q ps) → Memᴰ q (p ∷ ordered ps) → Memᴰ q (p ∷ ps)
    go again (Memᴰ.head e) = Memᴰ.head e
    go again (Memᴰ.tail n) = Memᴰ.tail (again n)

most-le :
    (q : ApprovalPolicy) (ps : List ApprovalPolicy) → Memᴰ q ps → q.required_approvals ≤ most ps
unfolding most
most-le q [] m = elim m [ ]
most-le q (p ∷ ps) (Memᴰ.head e) = rw e (omega arith)
most-le q (p ∷ ps) (Memᴰ.tail m) = omega (arith, most-le q ps m)

-- A policy that is found by its count, and that there is one with the greatest count.
find-count :
    (n : ℕ) (ps : List ApprovalPolicy) (q : ApprovalPolicy)
    → find (λ p. p.required_approvals == n) ps ≡ some q
    → Memᴰ q ps × (q.required_approvals ≡ n)
find-count n [] q e = absurd (ground (arith, e))
find-count n (p ∷ ps) q e = elim (Bool-cases (p.required_approvals == n)) [
  | inl hit ↦
      let same = some_inj.0 (rw hit at e) in
      (
        Memᴰ.head (sym same),
        subst (λ r. r.required_approvals ≡ n) same ((==_iff p.required_approvals n).0 hit),
      )
  | inr miss ↦ let (m, h) = find-count n ps q (rw miss at e) in (Memᴰ.tail m, h)
]

most-attained :
    (p : ApprovalPolicy) (ps : List ApprovalPolicy)
    → (q : ApprovalPolicy) × Memᴰ q (p ∷ ps) × (q.required_approvals ≡ most (p ∷ ps))
unfolding most
most-attained p [] = (p, Memᴰ.head refl, omega arith)
most-attained p (r ∷ rs) =
    let (q, m, e) = most-attained r rs in
    elim (Bool-cases (leb (most (r ∷ rs)) p.required_approvals)) [
      | inl h ↦ (p, Memᴰ.head refl, ground (arith, h))
      | inr h ↦ (q, Memᴰ.tail m, ground (arith, e, h))
    ]

find-most :
    (p : ApprovalPolicy) (ps : List ApprovalPolicy)
    → find (λ q. q.required_approvals == most (p ∷ ps)) (p ∷ ps) ≢ none
find-most p ps e =
    let (q, m, h) = most-attained p ps in
    let miss = find-none (λ q. q.required_approvals == most (p ∷ ps)) (p ∷ ps) q e m in
    ground (arith, h, miss)

-- A policy that applies: it is visible, and its conditions hold.
pub record Applies (scope_ids : List String) (policies : List ApprovalPolicy) (op : Operation)
    (p : ApprovalPolicy) : Type 0 where
  pub row : Memᴰ p policies
  pub visible : is_visible scope_ids p ≡ true
  pub matched : is_match op p ≡ true

-- The strictest of some policies, whatever their order.
pub record IsStrictest (P : ApprovalPolicy → Type 0) (r : PolicyResult) : Type 0 where
  pub bound : (p : ApprovalPolicy) → P p → p.required_approvals ≤ r.required_approvals
  pub chosen :
      (q : ApprovalPolicy) → r.policy ≡ some q → P q × (q.required_approvals ≡ r.required_approvals)
  pub default : r.policy ≡ none → (r.required_approvals ≡ 1) × ((p : ApprovalPolicy) → P p → ⊥)
  pub agreed :
      r.conflicts ≡ []
      → (p q : ApprovalPolicy) → P p
      → P q
      → p.required_approvals ≡ q.required_approvals

agree :
    (n : ℕ) (ps : List ApprovalPolicy) (q : ApprovalPolicy)
    → all (λ p. p.required_approvals == n) ps ≡ true
    → Memᴰ q ps
    → q.required_approvals ≡ n
agree n [] q a m = elim m [ ]
agree n (p ∷ ps) q a (Memᴰ.head e) = rw e (ground (arith, a))
agree n (p ∷ ps) q a (Memᴰ.tail m) = agree n ps q (rest _ _ a) m
  where
    rest : (x y : Bool) → (x && y) ≡ true → y ≡ true
    rest x y e = ground (arith, e)

agree-all :
    (ps : List ApprovalPolicy) (p q : ApprovalPolicy)
    → conflict_of ps ≡ []
    → Memᴰ p ps
    → Memᴰ q ps
    → p.required_approvals ≡ q.required_approvals
agree-all [] p q e m n = elim m [ ]
agree-all (r ∷ rs) p q e m n =
    elim (Bool-cases (all (λ x. x.required_approvals == r.required_approvals) rs)) [
      | inl a ↦ same a m ∙ sym (same a n)
      | inr a ↦ absurd (ground (arith, rw a at e))
    ]
  where
    same :
        all (λ x. x.required_approvals == r.required_approvals) rs ≡ true
        → {x : ApprovalPolicy} → Memᴰ x (r ∷ rs)
        → x.required_approvals ≡ r.required_approvals
    same a (Memᴰ.head h) = ap ApprovalPolicy.required_approvals h
    same a (Memᴰ.tail m) = agree r.required_approvals rs _ a m

combine-IsStrictest : (ps : List ApprovalPolicy) → IsStrictest (λ p. Memᴰ p ps) (combine ps)
unfolding combine
combine-IsStrictest [] = record {
  bound = λ p m. elim m [ ];
  chosen = λ q e. absurd (ground (arith, e));
  default = λ e. (refl, λ p m. elim m [ ]);
  agreed = λ e p q m n. elim m [ ];
}
combine-IsStrictest (p ∷ ps) = record {
  bound = λ q m. most-le q (p ∷ ps) m;
  chosen = λ q e. find-count (most (p ∷ ps)) (p ∷ ps) q e;
  default = λ e. absurd (find-most p ps e);
  agreed = λ e q r m n. agree-all (p ∷ ps) q r e m n;
}

-- Of the enabled policies of the visible organizations whose conditions a write meets, none
-- requires more approvals than the result, and the policy of the result is one of them and
-- requires as many. There is no policy in the result only if none applies, and one approval is
-- required then. Without a reported conflict, all that apply require the same.
pub evaluate_policy-IsStrictest :
    (scope_ids : List String) (policies : List ApprovalPolicy) (op : Operation)
    → IsStrictest (Applies scope_ids policies op) (evaluate_policy scope_ids policies op)
unfolding evaluate_policy
evaluate_policy-IsStrictest scope_ids policies op =
    let s =
      combine-IsStrictest (keep (is_match op) (ordered (keep (is_visible scope_ids) policies))) in
    record {
      bound = λ p a. s.bound p (to p a);
      chosen = λ q e. let (m, h) = s.chosen q e in (from q m, h);
      default = λ e. let (h, no_one) = s.default e in (h, λ p a. no_one p (to p a));
      agreed = λ e p q a b. s.agreed e p q (to p a) (to q b);
    }
  where
    to :
        (p : ApprovalPolicy)
        → Applies scope_ids policies op p
        → Memᴰ p (keep (is_match op) (ordered (keep (is_visible scope_ids) policies)))
    to p a =
        keep-has (is_match op) _ p
          (ordered-has p _ (keep-has (is_visible scope_ids) policies p a.row a.visible)) a.matched

    from :
        (p : ApprovalPolicy)
        → Memᴰ p (keep (is_match op) (ordered (keep (is_visible scope_ids) policies)))
        → Applies scope_ids policies op p
    from p m =
        let (n, matched) = has-keep (is_match op) _ p m in
        let (row, visible) = has-keep (is_visible scope_ids) policies p (has-ordered p _ n) in
        record { row = row; visible = visible; matched = matched }
