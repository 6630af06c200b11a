-- ===== src/Accounts/SignIn.antt =====
-- The handler `login` of backend/api/auth.py, on the lock of backend/auth.py. The rows of a table come
-- in the order of their creation. The normal form of a user name, the check of a password, the
-- signature and the JSON are parameters; of the answer and of the audit, names that are only shown and
-- the mark of the first login of the default administrator are left out.
pub mod Entitled
pub mod Granted
mod Tests
use sql_rpa.Base.{
  ℕ, String, Bool, true, false, ◌&&◌, ◌||◌, not, Option, none, some, List, [], ◌∷◌, ◌++◌, ◌==◌,
  find, keep, ltb, str_eq, any, if◌then◌else◌,
}
use sql_rpa.Text.{Text, text_eq}
use sql_rpa.Organization.{OrganizationUnit, get_unit}
use sql_rpa.Organization.Members.{Members, OrganizationMembership, is_effective}
use sql_rpa.Accounts.{User}
use sql_rpa.Accounts.Tokens.{Payload, create_access_token}
use sql_rpa.Accounts.Session.{Membership, Tables}
use sql_rpa.Login.{
  Failures, Redis, login_lock_remaining, record_login_failure, reset_login_failures,
}

pub record Tenant : Type 0 where
  pub id : Text
  pub active : Bool

pub record Settings : Type 0 where
  pub production : Bool
  pub multi_tenant_enabled : Bool
  pub default_tenant_id : Text

pub record LoginRequest : Type 0 where
  pub username : String
  pub password : Text

-- The events of `_write_login_audit`, with the id of the user if there is one.
pub data LoginEvent : Type 0 where
  locked : LoginEvent
  invalid_credentials : Option String → LoginEvent
  inactive_account : String → LoginEvent
  succeeded : String → LoginEvent

pub record State : Type 0 where
  pub failures : Failures
  pub events : List LoginEvent

-- A membership with its unit.
abbrev pub Place : Type 0
Place = OrganizationMembership × OrganizationUnit

pub record LoginResponse : Type 0 where
  pub access_token : Text
  pub tenant_id : Text
  pub role : String
  pub tenants : List Membership
  pub organization : Option Place
  pub organization_memberships : List Place

-- The answer, or the error 429 with the seconds that are left, 401, 403 or 503.
pub data Reply : Type 0 where
  entered : LoginResponse → Reply
  too_many : ℕ → Reply
  unauthorized no_membership unavailable : Reply

abbrev head {ℓ} : {A : Type ℓ} → List A → Option A
head [] = none
head (x ∷ _) = some x

-- `first or second`
abbrev either {ℓ} : {A : Type ℓ} → Option A → Option A → Option A
either none other = other
either (some x) other = some x

abbrev is_none {ℓ} : {A : Type ℓ} → List A → Bool
is_none [] = true
is_none (_ ∷ _) = false

module _ (tables : Tables) (tenants : List Tenant) (user : User) where
  -- The first query: the active memberships of the user in active tenants.
  abbrev pub is_membership : Membership → Bool
  is_membership m =
      str_eq m.user_id user.id
      && m.active
      && any (λ t. text_eq t.id m.tenant_id && t.active) tenants

  abbrev pub memberships : List Membership
  memberships = keep is_membership tables.memberships

  -- The second query, before it is put in order.
  abbrev is_place : Place → Bool
  is_place (m, unit) = str_eq m.user_id user.id && m.active && unit.active

  pub joined : Members → List Place
  joined [] = []
  joined (m ∷ ms) =
      let rest = joined ms in
      elim (get_unit m.organization_id tables.units) [
        | none ↦ rest
        | some unit ↦ if is_place (m, unit) then (m, unit) ∷ rest else rest
      ]

-- Primary memberships come first, then those of deeper units, then the older ones.
abbrev precedes : Place → Place → Bool
precedes (m, unit) (n, other) =
    (m.is_primary && not n.is_primary)
    || (not (m.is_primary && not n.is_primary)
        && not (n.is_primary && not m.is_primary)
        && ltb other.depth unit.depth)

pub insert : Place → List Place → List Place
insert p [] = p ∷ []
insert p (q ∷ qs) = let rest = insert p qs in if precedes q p then q ∷ rest else p ∷ q ∷ qs

pub in_order : List Place → List Place
unfolding insert
in_order [] = []
in_order (p ∷ ps) = insert p (in_order ps)

pub places : Tables → User → ℕ → List Place
unfolding joined in_order
places tables user now =
    keep (λ (m, unit). is_effective now m) (in_order (joined tables [] user tables.members))

-- The tenant and the role of an answer.
pub selected_membership : Settings → List Membership → Option Membership
selected_membership settings ms =
    either (find (λ m. text_eq m.tenant_id settings.default_tenant_id) ms) (head ms)

pub selected_place : List Place → Option Place
selected_place ps = either (find (λ (m, unit). m.is_primary) ps) (head ps)

pub entry : Settings → User → Option Membership → Option Place → Text × String
entry settings user membership (some (m, unit)) = (unit.id, m.role)
entry settings user (some membership) none = (membership.tenant_id, membership.role)
entry settings user none none =
    (settings.default_tenant_id, if user.is_platform_admin then "admin" else "unassigned")

module _ (normalize : String → String) (verify_password : Text → Text → Bool) (sign : Text → Text)
    (render : Payload → Text) (parse : Text → Option Payload) where
  refuse : String → Redis → ℕ → LoginEvent → State → State × Reply
  refuse name noted now event s = (
    record {
      failures = record_login_failure noted now name s.failures;
      events = s.events ++ event ∷ [];
    },
    unauthorized,
  )

  -- The handler after the password has been checked.
  enter : Settings → Tables → List Tenant → String → ℕ → ℕ → User → State → State × Reply
  unfolding entry selected_membership selected_place
  enter settings tables tenants name now expires_in user s =
      let ms = memberships tables tenants user in
      let ps = places tables user now in
      let chosen = entry settings user (selected_membership settings ms) (selected_place ps) in
      if settings.multi_tenant_enabled && not user.is_platform_admin && is_none ms && is_none ps
      then (s, no_membership)
      else (
        record {
          failures = reset_login_failures name s.failures;
          events = s.events ++ succeeded user.id ∷ [];
        },
        entered (record {
          access_token = create_access_token sign render parse now expires_in user;
          tenant_id = chosen.0;
          role = chosen.1;
          tenants = ms;
          organization = selected_place ps;
          organization_memberships = ps;
        }),
      )

  admit : Settings → Tables → List Tenant → LoginRequest → Redis → ℕ → ℕ → State → State × Reply
  unfolding refuse enter
  admit settings tables tenants body noted now expires_in s =
      let name = normalize body.username in
      elim (find (λ u. str_eq (normalize u.username) name) tables.users) [
        | none ↦ refuse name noted now (invalid_credentials none) s
        | some user ↦
            if not user.is_active
            then refuse name noted now (inactive_account user.id) s
            else if not (verify_password body.password user.password_hash)
            then refuse name noted now (invalid_credentials (some user.id)) s
            else enter settings tables tenants name now expires_in user s
      ]

  -- `login`; what Redis answers to the check of the lock and to the record of a failure is given.
  unfoldable pub login :
      Settings → Tables → List Tenant → LoginRequest → Redis → Redis → ℕ → ℕ → State → State × Reply
  unfolding admit
  login settings tables tenants body asked noted now expires_in s =
      let (failures, left) =
        login_lock_remaining settings.production asked now (normalize body.username) s.failures in
      let checked : State = record s { failures = failures } in
      elim left [
        | none ↦ (checked, unavailable)
        | some seconds ↦
            if ltb 0 seconds
            then (record checked { events = s.events ++ locked ∷ [] }, too_many seconds)
            else admit settings tables tenants body noted now expires_in checked
      ]
