-- ===== src/Login.antt =====
-- The login lock of backend/auth.py, which the handler `login` of backend/api/auth.py asks. Times are
-- clock ticks; `ts >= now - LOGIN_LOCK_SECONDS` is written `now <= ts + lock_time`.
pub mod History
mod Tests
use sql_rpa.Base.{
  ℕ, ◌+◌, ◌-◌, String, Bool, true, false, ◌&&◌, ◌||◌, not, Option, none, some, List, [], ◌∷◌, ◌++◌,
  length, keep, find, ltb, leb, str_eq, if◌then◌else◌,
}

abbrev pub login_max_attempts : ℕ
login_max_attempts = 5

-- `LOGIN_LOCK_SECONDS`, in ticks.
abbrev pub lock_time : ℕ
lock_time = 300

-- `_login_failures`, a default dictionary of lists.
abbrev pub Failures : Type 0
Failures = String → List ℕ

abbrev pub put : String → List ℕ → Failures → Failures
put username failures store other = if str_eq username other then failures else store other

-- `_prune_login_failures`
abbrev pub recent : ℕ → List ℕ → List ℕ
recent now failures = keep (λ ts. leb now (ts + lock_time)) failures

pub prune_login_failures : String → ℕ → Failures → Failures
prune_login_failures username now store = put username (recent now (store username)) store

-- `LOGIN_LOCK_SECONDS - (now - failures[0])` of a list that is long enough.
abbrev pub remaining : ℕ → List ℕ → ℕ
remaining now [] = 0
remaining now (first ∷ failures) = lock_time - (now - first)

-- `_local_login_lock_remaining`
pub local_lock_remaining : ℕ → String → ℕ → Failures → Failures × ℕ
unfolding prune_login_failures
local_lock_remaining now username max_attempts store =
    let pruned = prune_login_failures username now store in
    (
      pruned,
      if leb max_attempts (length (pruned username)) then remaining now (pruned username) else 0,
    )

-- `_local_record_login_failure`
pub local_record_failure : ℕ → String → Failures → Failures
unfolding prune_login_failures
local_record_failure now username store =
    let pruned = prune_login_failures username now store in
    put username (pruned username ++ now ∷ []) pruned

-- `_local_reset_login_failures`
pub local_reset : String → Failures → Failures
local_reset username store = put username [] store

-- What Redis answers to the scripts: nothing if the call raises, or the number of failures with the
-- time to live of the key.
pub data Redis : Type 0 where
  no_url : Redis
  unavailable : Redis
  replied : ℕ → ℕ → Redis

-- `login_lock_remaining`; `none` is the error 503.
unfoldable pub login_lock_remaining : Bool → Redis → ℕ → String → Failures → Failures × Option ℕ
login_lock_remaining production no_url now username store =
    if production
    then (store, none)
    else (let (store', left) = local_lock_remaining now username login_max_attempts store in
        (store', some left))
login_lock_remaining production (replied value ttl) now username store =
    (store, some (if leb login_max_attempts value then ttl else 0))
login_lock_remaining production unavailable now username store =
    let (store', left) = local_lock_remaining now username 2 store in (store', some left)

-- `record_login_failure`
pub record_login_failure : Redis → ℕ → String → Failures → Failures
record_login_failure (replied value ttl) now username store = store
record_login_failure _ now username store = local_record_failure now username store

-- `reset_login_failures`
pub reset_login_failures : String → Failures → Failures
reset_login_failures username store = local_reset username store
