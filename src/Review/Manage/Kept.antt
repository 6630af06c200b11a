-- ===== src/Review/Manage/Kept.antt =====
-- The other handlers leave a good row good, and its first approver in place.
use sql_rpa.Base.{
  ℕ, zero, suc, ◌≡◌, refl, String, Bool, true, false, Option, some, List, [], ◌∷◌, ◌⊎◌, arith,
  Option-cases, inl, inr, truthy, Bool-cases,
}
use sql_rpa.Review.{
  Task, Saga, Rows, Request, Status, pending_second_approval, status_eq, status_in, active,
  rejected, expired, revoked, completed, transition, update_saga,
}
use sql_rpa.Review.Approve.Cleared.{
  IsKept, IsKept-refl, IsKept-same, IsKept-update_status, IsKept-transition, has_first,
}
use sql_rpa.Review.Manage.{
  Action, expire, revoke, escalate, transfer, unsupported, rejectable, reject_write,
  state_action_write, action_write, event_of, expire_overdue, repair, repair_found, repair_writes,
  repair_status, repair_entry, has_log,
}

module _ (s : Option String) where
  -- Only the task row counts.
  IsKept-task : (r a b : Rows) → IsKept s r a → b.task ≡ a.task → IsKept s r b
  IsKept-task r a b k e = record { sound = λ h. rw e (k.sound h); kept = λ h. rw e (k.kept h) }

  -- A guarded write to a status that ends the wait, which keeps the first approver.
  ended-IsKept :
      (scope : List String) (from : List Status) (to : Status) (r : Rows)
      → status_in to active ≡ false
      → IsKept s r (transition scope from to (λ t. t) r).0
  ended-IsKept scope from to r n =
      IsKept-transition s scope from to _ r
        (λ t _ _ g. record { same = g.same; first = rw n refl; opened = ground arith }) (λ t h. h)

  pub IsKept-reject_write :
      (logged : Bool) (req : Request) (t : Task) (r : Rows)
      → truthy req.user_id ≡ true
      → IsKept s r (reject_write logged req t r).0
  unfolding reject_write
  IsKept-reject_write logged req t r named =
      IsKept-task r _ _
        (IsKept-transition s req.scope_ids rejectable rejected
          (λ u. record u { approved_by = some req.user_id; reviewer_note = req.reviewer_note }) r
          (λ u _ _ g. record { same = g.same; first = refl; opened = refl }) (λ u _. named))
        (ground arith)

  IsKept-action_write :
      (req : Request) (action : Action) (assigned : String) (t : Task) (r : Rows)
      → (status_eq t.status pending_second_approval ≡ true → has_first r.task ≡ true)
      → IsKept s r (action_write req action assigned t r).0
  unfolding action_write
  IsKept-action_write req expire assigned t r k = ended-IsKept req.scope_ids active expired r refl
  IsKept-action_write req revoke assigned t r k = ended-IsKept req.scope_ids active revoked r refl
  IsKept-action_write req escalate assigned t r k =
      IsKept-transition s _ _ _ _ r
        (λ u w _ g. record { same = g.same; first = ground (arith, g.first, w); opened = refl })
        (λ u h. h)
  IsKept-action_write req transfer assigned t r k =
      IsKept-transition s _ _ _ _ r
        (λ u w e g. record {
          same = g.same;
          first = ground (arith, g.first, w);
          opened = elim (Bool-cases (status_eq t.status pending_second_approval)) [
            | inl p ↦ ground (arith, k p, e)
            | inr p ↦ ground arith
          ];
        })
        (λ u h. h)
  IsKept-action_write req unsupported assigned t r k = IsKept-refl s r

  pub IsKept-state_action_write :
      (req : Request) (action : Action) (assigned : String) (t : Task) (r : Rows)
      → (status_eq t.status pending_second_approval ≡ true → has_first r.task ≡ true)
      → IsKept s r (state_action_write req action assigned t r).0
  unfolding state_action_write event_of
  IsKept-state_action_write req action assigned t r k =
      IsKept-task r _ _ (IsKept-action_write req action assigned t r k) (ground arith)

  pub IsKept-expire_overdue : (t : Task) (r : Rows) → IsKept s r (expire_overdue t r)
  unfolding expire_overdue
  IsKept-expire_overdue t r =
      IsKept-task r _ _ (ended-IsKept (t.tenant_id ∷ []) active expired r refl) (ground arith)

  repair_writes-IsKept :
      (writes : ℕ) (scope : List String) (who : String) (t : Task) (g : Saga) (b : Bool) (r : Rows)
      → IsKept s r (repair_writes writes scope who t g b r)
  unfolding repair_writes repair_status repair_entry update_saga
  repair_writes-IsKept zero scope who t g b r = IsKept-refl s r
  repair_writes-IsKept (suc zero) scope who t g b r =
      IsKept-update_status s scope completed _ _ _ r refl
  repair_writes-IsKept (suc (suc zero)) scope who t g b r =
      IsKept-task r (repair_status scope t g r) _
        (IsKept-update_status s scope completed _ _ _ r refl) (ground arith)
  repair_writes-IsKept (suc (suc (suc n))) scope who t g b r =
      IsKept-task r (repair_status scope t g r) _
        (IsKept-update_status s scope completed _ _ _ r refl) (ground arith)

  repair_found-cases :
      (writes : ℕ) (tenant : String) (scope : List String) (who : String) (t : Task) (g : Saga)
      (r : Rows)
      → ((repair_found writes tenant scope who t g r).0 ≡ r)
        ⊎ ((repair_found writes tenant scope who t g r).0
            ≡ repair_writes writes scope who t g (has_log r) r)
  unfolding repair_found
  repair_found-cases writes tenant scope who t g r = ground arith

  pub IsKept-repair :
      (writes : ℕ) (tenant : String) (scope : List String) (who : String) (r : Rows)
      → IsKept s r (repair writes tenant scope who r).0
  unfolding repair
  IsKept-repair writes tenant scope who r = elim (Option-cases r.saga) [
    | inl e ↦ IsKept-same s r _ (ground arith)
    | inr (g, e) ↦ elim (Option-cases r.task) [
      | inl n ↦ IsKept-same s r _ (ground arith)
      | inr (t, f) ↦ elim (repair_found-cases writes tenant scope who t g r) [
        | inl same ↦ IsKept-same s r _ (ground arith)
        | inr new ↦
            IsKept-task r _ _ (repair_writes-IsKept writes scope who t g (has_log r) r)
              (ground arith)
      ]
    ]
  ]
