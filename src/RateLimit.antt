-- ===== src/RateLimit.antt =====
-- backend/middleware/ratelimit.py: the sliding-window limiter in front of the application.
-- Times are numbers of clock ticks; a window of seconds is given in the same ticks, so
-- `ts < now - window` is written `ts + window < now`.
pub mod Window
pub mod Calls
mod Tests
use Prim.Native.String.{◌++◌ as join}
use sql_rpa.Base.{
  ℕ, ◌+◌, String, Bool, true, false, Option, none, some, List, [], ◌∷◌, ◌++◌, length, ltb, leb,
  str_eq, str_in, ◌||◌, if◌then◌else◌,
}

-- The constants that the module reads from the environment.
pub record Limits : Type 0 where
  pub rate_limit : ℕ
  pub rate_window : ℕ
  pub user_create_limit : ℕ
  pub password_change_limit : ℕ

abbrev skip_paths : List String
skip_paths = "/api/health" ∷ []

-- `SENSITIVE_LIMITS.get(path)`: the limit and its window.
sensitive_limits : Limits → String → Option (ℕ × ℕ)
sensitive_limits c path =
    if str_eq path "/api/auth/users"
    then some (c.user_create_limit, 60)
    else if str_eq path "/api/auth/change-password"
    then some (c.password_change_limit, 300)
    else none

-- `while window and window[0] < cutoff: window.pop(0)`
pub prune : ℕ → ℕ → List ℕ → List ℕ
prune now width [] = []
prune now width (ts ∷ window) =
    let rest = prune now width window in if ltb (ts + width) now then rest else ts ∷ window

-- The local decision for one bucket: the new window, and whether the call is limited.
pub admit : ℕ → ℕ → ℕ → List ℕ → List ℕ × Bool
admit limit width now window =
    let kept = prune now width window in
    if leb limit (length kept) then (kept, true) else (kept ++ now ∷ [], false)

-- `self._windows` and `self._sensitive_windows`, default dictionaries of lists.
pub record Middleware : Type 0 where
  pub windows : String → List ℕ
  pub sensitive_windows : String → List ℕ

abbrev pub put : (String → List ℕ) → String → List ℕ → String → List ℕ
put windows key window other = if str_eq key other then window else windows other

pub record Scope : Type 0 where
  pub is_http : Bool
  pub path : String
  pub method : String
  pub client_ip : String
  pub authorization : String

-- What the Redis pipeline answers: the size of the bucket, or nothing if no URL is set or the
-- call raises.
abbrev pub Answer : Type 0
Answer = Option ℕ

-- `_redis_limited`: `None` where Redis gives no answer.
abbrev redis_limited : Answer → ℕ → Option Bool
redis_limited none limit = none
redis_limited (some count) limit = some (ltb limit count)

pub data Outcome : Type 0 where
  served sensitive_limited rate_limited : Outcome

-- The calls that pass with no count: no HTTP, a skipped path, or the method OPTIONS.
pub is_exempt : Scope → Bool
is_exempt s = if s.is_http then str_in s.path skip_paths || str_eq s.method "OPTIONS" else true

module _ (c : Limits) (digest : String → String) where
  bucket_of : Scope → String
  bucket_of sc =
      join "sensitive:"
        (join sc.path (join ":" (join sc.client_ip (join ":" (digest sc.authorization)))))

  -- The part of `__call__` after the sensitive check.
  global_check : Answer → ℕ → Scope → Middleware → Middleware × Outcome
  global_check answer now sc m = elim (redis_limited answer c.rate_limit) [
    | some true ↦ (m, rate_limited)
    | some false ↦ (m, served)
    | none ↦
        let (window, limited) = admit c.rate_limit c.rate_window now (m.windows sc.client_ip) in
        let m' = record m { windows = put m.windows sc.client_ip window } in
        if limited then (m', rate_limited) else (m', served)
  ]

  -- The sensitive check, for the limit and window of the path: the state, and whether it limits.
  sensitive_check : ℕ → ℕ → Answer → ℕ → Scope → Middleware → Middleware × Bool
  sensitive_check limit width answer now sc m = elim (redis_limited answer limit) [
    | some limited ↦ (m, limited)
    | none ↦
        let bucket = bucket_of sc in
        let (window, limited) = admit limit width now (m.sensitive_windows bucket) in
        (record m { sensitive_windows = put m.sensitive_windows bucket window }, limited)
  ]

  limits_of : Scope → Option (ℕ × ℕ)
  limits_of s = if str_eq s.method "POST" then sensitive_limits c s.path else none

  -- `__call__`: the first answer is Redis's for the sensitive bucket, the second for the global one.
  pub call : Answer → Answer → ℕ → Scope → Middleware → Middleware × Outcome
  call first second now sc m = if is_exempt sc then (m, served) else elim (limits_of sc) [
    | none ↦ global_check second now sc m
    | some (limit, width) ↦
        let (m', limited) = sensitive_check limit width first now sc m in
        if limited then (m', sensitive_limited) else global_check second now sc m'
  ]
