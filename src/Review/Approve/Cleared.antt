-- ===== src/Review/Approve/Cleared.antt =====
-- What the guards of an approval establish about the task that it goes on to run.
pub mod Steps
use sql_rpa.Base.{
  ℕ, ◌≡◌, ◌≢◌, ◌==◌, refl, String, Bool, true, false, ◌&&◌, ◌||◌, not, Option, none, some, List, [],
  ◌∷◌, ◌++◌, ◌⊎◌, All, arith, Bool-cases, Option-cases, subst, sym, ap, inl, inr, if◌then◌else◌,
  str_eq, eq_iff, truthy, or_empty, ltb, str_in,
}
use sql_rpa.Review.{
  Task, Commit, Rows, Request, Settings, Saga, SagaState, Status, status_eq, awaiting_review,
  pending_second_approval, escalated, active, status_in, transition, set_status, update_status,
  update_saga, record_approval, create_saga, requires_second_approval, read_task, emit,
}
use sql_rpa.Review.Where.{Where, extract_where}
use sql_rpa.Review.Approve.{
  Point, Response, Input, Answer, fine, raised, raised_after, step, admit, read_point, backup_point,
  run_sql, store_result, attempt, decide, attempt-All, decide-All,
}
use sql_rpa.Review.Approve.Quiet.{
  IsQuiet, IsQuiet-update_saga, IsQuiet-update_status, IsQuiet-record_approval, IsQuiet-transition,
  IsQuiet-refl,
}
use sql_rpa.Review.Approve.Steps.{commit_of}

-- `who` is the submitter.
abbrev pub is_self : Option String → String → Bool
is_self submitter who = truthy (or_empty submitter) && str_eq (or_empty submitter) who

-- Of a task that waits, the first approver is not its submitter; one that waits for its second
-- approval has a first approver.
pub record IsGood (submitter : Option String) (t : Task) : Type 0 where
  pub same : t.submitted_by ≡ submitter
  pub first : (status_in t.status active && is_self submitter (or_empty t.approved_by)) ≡ false
  pub opened :
      (status_eq t.status pending_second_approval && not (truthy (or_empty t.approved_by))) ≡ false

abbrev pub IsSound : Option String → Option Task → Type 0
IsSound submitter none = Unit
IsSound submitter (some t) = IsGood submitter t

-- No first approver, or the user again, or the submitter.
abbrev pub lacks_second : Option String → String → Task → Bool
lacks_second submitter who t =
    not (truthy (or_empty t.approved_by))
    || str_eq (or_empty t.approved_by) who
    || is_self submitter (or_empty t.approved_by)

-- What the guards have established about a task that a user goes on to run.
pub record IsCleared (c : Settings) (submitter : Option String) (who : String) (t : Task)
    : Type 0 where
  pub same : t.submitted_by ≡ submitter
  pub other : is_self submitter who ≡ false
  pub second : (requires_second_approval c t && lacks_second submitter who t) ≡ false

abbrev pub IsVetted : Settings → Option String → Commit → Type 0
IsVetted c submitter x = IsCleared c submitter x.executed_by x.task

module _ (c : Settings) (req : Request) (submitter : Option String) where
  abbrev pub IsClear : Point → Type 0
  IsClear (Point.first_claim t) = is_self submitter req.user_id ≡ false
  IsClear (Point.claim t) = IsCleared c submitter req.user_id t
  IsClear (Point.claim_event t) = IsCleared c submitter req.user_id t
  IsClear (Point.connecting t) = IsCleared c submitter req.user_id t
  IsClear (Point.new_saga t) = IsCleared c submitter req.user_id t
  IsClear (Point.approval t) = IsCleared c submitter req.user_id t
  IsClear (Point.backing_up t) = IsCleared c submitter req.user_id t
  IsClear (Point.mark_backup t _) = IsCleared c submitter req.user_id t
  IsClear (Point.executing_sql t _) = IsCleared c submitter req.user_id t
  IsClear _ = Unit

  -- The ways through the guards, with what each has tested.
  module _ (t : Task) where
    abbrev own : Bool
    own = truthy (or_empty t.submitted_by) && str_eq (or_empty t.submitted_by) req.user_id

    abbrev blocked : Bool
    blocked =
        truthy (or_empty t.assigned_to)
        && not (str_eq (or_empty t.assigned_to) req.user_id)
        && not (str_eq req.role "admin")

    abbrev opens : Bool
    opens =
        status_in t.status (awaiting_review ∷ escalated ∷ [])
        && not (truthy (or_empty t.approved_by))

    admit-All :
        (P : Point → Type 0)
        → ((r : Response) → P (Point.done r))
        → (not req.auth ≡ true → P (Point.claim t))
        → (own ≡ false → not (requires_second_approval c t) ≡ true → P (Point.claim t))
        → (own ≡ false → P (Point.first_claim t))
        → (not (status_in t.status active) ≡ false
            → own ≡ false
            → opens ≡ false
            → str_eq (or_empty t.approved_by) req.user_id ≡ false
            → P (Point.claim t))
        → P (admit c req t)
    unfolding admit
    admit-All P out dev low first_one second_one =
        elim (Bool-cases (not (status_in t.status active))) [
          | inl e ↦ rw e (out _)
          | inr waits ↦ rw waits (elim (Bool-cases (blocked)) [
            | inl e ↦ rw e (out _)
            | inr free ↦ rw free (elim (Bool-cases (not req.auth)) [
              | inl e ↦ rw e (dev e)
              | inr on ↦ rw on (elim (Bool-cases (own)) [
                | inl e ↦ rw e (out _)
                | inr other ↦ rw other (elim (Bool-cases (not (requires_second_approval c t))) [
                  | inl e ↦ rw e (low other e)
                  | inr high ↦ rw high (elim (Bool-cases (opens)) [
                    | inl e ↦ rw e (first_one other)
                    | inr again ↦
                        rw again (elim (Bool-cases (str_eq (or_empty t.approved_by) req.user_id)) [
                          | inl e ↦ rw e (out _)
                          | inr differs ↦ rw differs (second_one waits other again differs)
                        ])
                  ])
                ])
              ])
            ])
          ])
        ]

  -- The guards clear what they let through.
  admit-IsClear : (t : Task) → req.auth ≡ true → IsGood submitter t → IsClear (admit c req t)
  admit-IsClear t auth g =
      admit-All t IsClear (λ _. tt) (λ off. absurd (not_off off)) single foreign seconded
    where
      not_off : not req.auth ≡ true → ⊥
      not_off off = cc

      foreign : own t ≡ false → is_self submitter req.user_id ≡ false
      foreign other = rw (← g.same) other

      single :
          own t ≡ false
          → not (requires_second_approval c t) ≡ true
          → IsCleared c submitter req.user_id t
      single other low = record { same = g.same; other = foreign other; second = ground arith }

      seconded :
          not (status_in t.status active) ≡ false
          → own t ≡ false
          → opens t ≡ false
          → str_eq (or_empty t.approved_by) req.user_id ≡ false
          → IsCleared c submitter req.user_id t
      seconded waits other again differs = record {
        same = g.same;
        other = foreign other;
        second = ground arith;
      }

-- The row has a first approver.
abbrev pub has_first : Option Task → Bool
has_first none = false
has_first (some t) = truthy (or_empty t.approved_by)

-- A write keeps the row good, and a first approver in it.
pub record IsKept (s : Option String) (rows rows' : Rows) : Type 0 where
  pub sound : IsSound s rows.task → IsSound s rows'.task
  pub kept : has_first rows.task ≡ true → has_first rows'.task ≡ true

pub IsKept-refl : (s : Option String) (r : Rows) → IsKept s r r
IsKept-refl s r = record { sound = λ h. h; kept = λ h. h }

pub IsKept-same : (s : Option String) (r r' : Rows) → r'.task ≡ r.task → IsKept s r r'
IsKept-same s r r' e = record { sound = λ h. rw e h; kept = λ h. rw e h }

pub IsKept-update_saga :
    (s : Option String) (state : SagaState) (f : Saga → Saga) (r : Rows)
    → IsKept s r (update_saga state f r)
unfolding update_saga
IsKept-update_saga s state f r = record { sound = λ h. ground arith; kept = λ h. ground arith }

pub IsKept-record_approval :
    (s : Option String) (tenant who : String) (b : Bool) (r : Rows)
    → IsKept s r (record_approval tenant who b r)
unfolding record_approval
IsKept-record_approval s tenant who b r = record {
  sound = λ h. ground arith;
  kept = λ h. ground arith;
}

-- The two ways in which a write of the task goes: it leaves the row, or maps it.
Written : (Task → Task) → Option Task → Option Task → Type 0
Written f old new = (new ≡ old) ⊎ ((t : Task) × (old ≡ some t) × (new ≡ some (f t)))

IsKept-Written :
    (s : Option String) (f : Task → Task) (r r' : Rows)
    → ((t : Task) → IsGood s t → IsGood s (f t))
    → ((t : Task)
        → truthy (or_empty t.approved_by) ≡ true
        → truthy (or_empty (f t).approved_by) ≡ true)
    → Written f r.task r'.task
    → IsKept s r r'
unfolding Written
IsKept-Written s f r r' good kept (inl e) = record { sound = λ h. rw e h; kept = λ h. rw e h }
IsKept-Written s f r r' good kept (inr (t, old, new)) = record {
  sound = λ h. subst (IsSound s) (sym new) (good t (subst (IsSound s) old h));
  kept = λ h.
      subst (λ o. has_first o ≡ true) (sym new) (kept t (subst (λ o. has_first o ≡ true) old h));
}

-- Statuses that end the wait, written with or without an approver.
set_status-IsGood :
    (s : Option String) (to : Status) (b : Option String) (approved note : String) (t : Task)
    → status_in to active ≡ false
    → IsGood s t
    → IsGood s (set_status to b approved note t)
unfolding set_status
set_status-IsGood s to b approved note t n g = record {
  same = g.same;
  first = rw n refl;
  opened = ground arith;
}

set_status-Written :
    (scope : List String) (to : Status) (b : Option String) (approved note : String) (r : Rows)
    → Written (set_status to b approved note) r.task (update_status scope to b approved note r).task
unfolding update_status set_status Written
set_status-Written scope to b approved note r = elim (Option-cases r.task) [
  | inl e ↦ inl (ground arith)
  | inr (t, e) ↦ elim (Bool-cases (str_in t.tenant_id scope)) [
    | inl visible ↦ inr (t, e, ground arith)
    | inr hidden ↦ inl (ground arith)
  ]
]

pub IsKept-update_status :
    (s : Option String) (scope : List String) (to : Status) (b : Option String)
    (approved note : String) (r : Rows)
    → status_in to active ≡ false
    → IsKept s r (update_status scope to b approved note r)
IsKept-update_status s scope to b approved note r n =
    IsKept-Written s (set_status to b approved note) r _
      (λ t. set_status-IsGood s to b approved note t n) (λ t h. unfold set_status in ground arith)
      (set_status-Written scope to b approved note r)

-- A guarded write, from what its guard has seen.
pub IsKept-transition :
    (s : Option String) (scope : List String) (from : List Status) (to : Status) (f : Task → Task)
    (r : Rows)
    → ((t : Task)
        → status_in t.status from ≡ true
        → has_first r.task ≡ truthy (or_empty t.approved_by)
        → IsGood s t
        → IsGood s (f (record t { status = to })))
    → ((t : Task)
        → truthy (or_empty t.approved_by) ≡ true
        → truthy (or_empty (f (record t { status = to })).approved_by) ≡ true)
    → IsKept s r (transition scope from to f r).0
unfolding transition
IsKept-transition s scope from to f r good kept = elim (Option-cases r.task) [
  | inl e ↦ IsKept-same s r _ (ground arith)
  | inr (t, e) ↦ elim (Bool-cases (str_in t.tenant_id scope && status_in t.status from)) [
    | inr no_row ↦ IsKept-same s r _ (ground arith)
    | inl row ↦
        let new : (transition scope from to f r).0.task ≡ some (f (record t { status = to })) =
          ground arith in
        record {
          sound = λ h.
              subst (IsSound s) (sym new)
                (good t (ground arith) (ap has_first e) (subst (IsSound s) e h));
          kept = λ h.
              subst (λ o. has_first o ≡ true) (sym new)
                (kept t (subst (λ o. has_first o ≡ true) e h));
        }
  ]
]
