-- ===== src/Review/World.antt =====
-- One review under any interleaving of requests: the rows, the approvals that are under way, and
-- the steps that they and the other handlers make.
pub mod Once
pub mod FourEyes
use mathlib.Core.List.{Memᴰ}
use sql_rpa.Base.{
  ℕ, ◌==◌, ◌≡◌, Bool, true, String, none, some, List, [], ◌∷◌, truthy, if◌then◌else◌,
}
use sql_rpa.Review.{Task, Rows, Request, Settings, read_task}
use sql_rpa.Review.Approve.{Point, Input, step}
use sql_rpa.Review.Manage.{Action, reject_write, state_action_write, expire_overdue, repair}

-- A run of `approve_review`.
pub record Approval : Type 0 where
  pub request : Request
  pub point : Point

pub record World : Type 0 where
  pub rows : Rows
  pub approvals : ℕ → Approval
  pub snapshots : List Task

abbrev pub move : ℕ → Point → (ℕ → Approval) → ℕ → Approval
move i p threads j =
    if i == j then record { request = (threads j).request; point = p } else threads j

-- A step of an approval meets any input. The other handlers write with a task that they have read
-- at some time before: `looks` is such a read.
pub data Step (c : Settings) : World → World → Type 0 where
  approves :
      (w : World) (i : ℕ) (inp : Input)
      → Step c w (record w {
        rows = (step c (w.approvals i).request inp w.rows (w.approvals i).point).0;
        approvals =
            move i (step c (w.approvals i).request inp w.rows (w.approvals i).point).1 w.approvals;
      })
  looks :
      (w : World) (scope : List String) (t : Task)
      → read_task scope w.rows ≡ some t
      → Step c w (record w { snapshots = t ∷ w.snapshots })
  rejects :
      (w : World) (logged : Bool) (req : Request) (t : Task)
      → Memᴰ t w.snapshots
      → truthy req.user_id ≡ true
      → Step c w (record w { rows = (reject_write logged req t w.rows).0 })
  acts :
      (w : World) (req : Request) (action : Action) (assigned : String) (t : Task)
      → Memᴰ t w.snapshots
      → Step c w (record w { rows = (state_action_write req action assigned t w.rows).0 })
  expires :
      (w : World) (t : Task)
      → Memᴰ t w.snapshots
      → Step c w (record w { rows = expire_overdue t w.rows })
  repairs :
      (w : World) (writes : ℕ) (tenant : String) (scope : List String) (who : String)
      → Step c w (record w { rows = (repair writes tenant scope who w.rows).0 })

pub data Reach (c : Settings) (w : World) : World → Type 0 where
  here : Reach c w w
  next : {u v : World} → Reach c w u → Step c u v → Reach c w v

-- A review that has been submitted: no saga, no commit, and every approval yet to begin.
pub record IsFresh (w : World) : Type 0 where
  pub no_saga : w.rows.saga ≡ none
  pub no_commit : w.rows.commits ≡ []
  pub no_snapshot : w.snapshots ≡ []
  pub idle : (i : ℕ) → (w.approvals i).point ≡ Point.reading
