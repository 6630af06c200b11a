-- ===== src/Review/Approve/Quiet.antt =====
-- Where the points of an approval lie, and the writes that leave the target database alone.
use sql_rpa.Base.{
  ℕ, ◌≡◌, refl, String, Bool, true, false, ◌||◌, not, Option, none, some, List, arith, is_some,
}
use sql_rpa.Review.{
  Task, Rows, Status, Saga, SagaState, update_saga, update_status, transition, record_approval,
}
use sql_rpa.Review.Approve.{Point, Response}

-- An upper bound of the steps that are left.
abbrev pub left : Point → ℕ
left Point.reading = 18
left (Point.first_claim _) = 3
left (Point.first_event _) = 2
left (Point.first_record _) = 1
left (Point.claim _) = 17
left (Point.claim_event _) = 16
left (Point.connecting _) = 15
left (Point.new_saga _) = 14
left (Point.approval _) = 13
left (Point.backing_up _) = 12
left (Point.mark_backup _ _) = 11
left (Point.executing_sql _ _) = 10
left (Point.capturing _ _ _) = 9
left (Point.mark_committed _ _ _) = 8
left (Point.completing _ _ _) = 7
left (Point.storing _ _ _) = 6
left (Point.logging _ _ _) = 5
left (Point.mark_repaired _ _ _) = 4
left (Point.pending_saga _ _) = 3
left (Point.pending_status _ _) = 2
left Point.undo_saga = 2
left Point.undo_status = 1
left (Point.done _) = 0

-- The answers that say that the SQL has been committed.
abbrev pub tells_commit : Response → Bool
tells_commit (Response.completed_with _ _) = true
tells_commit (Response.record_pending _ _) = true
tells_commit _ = false

-- The points behind the commit.
abbrev pub behind : Point → Bool
behind (Point.capturing _ _ _) = true
behind (Point.mark_committed _ _ _) = true
behind (Point.completing _ _ _) = true
behind (Point.storing _ _ _) = true
behind (Point.logging _ _ _) = true
behind (Point.mark_repaired _ _ _) = true
behind (Point.pending_saga _ _) = true
behind (Point.pending_status _ _) = true
behind (Point.done r) = tells_commit r
behind _ = false

-- The points between the saga row and the commit.
abbrev pub armed : Point → Bool
armed (Point.approval _) = true
armed (Point.backing_up _) = true
armed (Point.mark_backup _ _) = true
armed (Point.executing_sql _ _) = true
armed _ = false

abbrev pub implies : Bool → Bool → Bool
implies a b = not a || b

-- The task that an armed handler will run.
abbrev pub holds : Point → Option Task
holds (Point.approval t) = some t
holds (Point.backing_up t) = some t
holds (Point.mark_backup t _) = some t
holds (Point.executing_sql t _) = some t
holds _ = none

-- A write of the program's own tables.
pub record IsQuiet (rows rows' : Rows) : Type 0 where
  pub commits : rows'.commits ≡ rows.commits
  pub saga : is_some rows'.saga ≡ is_some rows.saga

pub IsQuiet-update_saga :
    (state : SagaState) (f : Saga → Saga) (r : Rows) → IsQuiet r (update_saga state f r)
unfolding update_saga
IsQuiet-update_saga state f r = ground arith

pub IsQuiet-update_status :
    (scope : List String) (s : Status) (b : Option String) (approved note : String) (r : Rows)
    → IsQuiet r (update_status scope s b approved note r)
unfolding update_status
IsQuiet-update_status scope s b approved note r = ground arith

pub IsQuiet-record_approval :
    (tenant approver : String) (first : Bool) (r : Rows)
    → IsQuiet r (record_approval tenant approver first r)
unfolding record_approval
IsQuiet-record_approval tenant approver first r = ground arith

pub IsQuiet-transition :
    (scope : List String) (from : List Status) (to : Status) (f : Task → Task) (r : Rows)
    → IsQuiet r (transition scope from to f r).0
unfolding transition
IsQuiet-transition scope from to f r = ground arith

pub IsQuiet-refl : (r : Rows) → IsQuiet r r
IsQuiet-refl r = record { commits = refl; saga = refl }
