-- ===== src/Accounts/Session.antt =====
-- `get_current_user`, `_enforce_assigned_access` and `require_roles` of backend/auth.py. Headers are
-- given stripped of white space; an absent one is empty.
pub mod Granted
pub mod InContext
use sql_rpa.Base.{
  ℕ, String, Bool, true, false, ◌&&◌, ◌||◌, not, Option, none, some, List, [], ◌∷◌, ◌++◌, ◌==◌,
  drop, find, any, codes, str_eq, str_in, truthy, if◌then◌else◌,
}
use sql_rpa.Text.{Text, strip, starts_with, text_eq, text_in}
use sql_rpa.Organization.{OrganizationUnit}
use sql_rpa.Organization.Members.{Members}
use sql_rpa.Organization.Scope.{OrganizationContext, resolve_organization_context}
use sql_rpa.Accounts.{User, get_user}
use sql_rpa.Accounts.Tokens.{Payload, decode_access_token}

pub data AuthType : Type 0 where
  dev api_key jwt : AuthType

-- `AuthUser`
pub record AuthUser : Type 0 where
  pub id : String
  pub username : String
  pub role : String
  pub tenant_id : Text
  pub auth_type : AuthType
  pub organization : Option OrganizationContext
  pub is_platform_admin : Bool
  pub must_change_password : Bool

-- `tenant_mismatch` is the error 403 after the event of the mismatch was written.
pub data Answer : Type 0 where
  granted : AuthUser → Answer
  http : ℕ → Answer
  tenant_mismatch : Text → Answer

pub record Request : Type 0 where
  pub auth_enabled : Bool
  pub path : Text
  pub authorization : Text
  pub tenant : Text
  pub organization_id : Text
  pub membership_id : String

pub record Settings : Type 0 where
  pub api_key : Text
  pub multi_tenant_enabled : Bool
  pub default_tenant_id : Text

-- A row of the older memberships.
pub record Membership : Type 0 where
  pub user_id : String
  pub tenant_id : Text
  pub role : String
  pub active : Bool

-- The tables that the function reads.
pub record Tables : Type 0 where
  pub users : List User
  pub units : List OrganizationUnit
  pub members : Members
  pub memberships : List Membership

abbrev pub is_blank : Text → Bool
is_blank [] = true
is_blank (_ ∷ _) = false

abbrev pub or_else : Text → Text → Text
or_else s t = if is_blank s then t else s

abbrev pub unassigned_allowed_paths : List Text
unassigned_allowed_paths =
    codes "/api/auth/me"
    ∷ codes "/api/auth/change-password"
    ∷ codes "/api/departments/memberships/me"
    ∷ codes "/api/departments/context/switch"
    ∷ []

abbrev pub platform_without_org_allowed_prefixes : List Text
platform_without_org_allowed_prefixes =
    codes "/api/auth"
    ∷ codes "/api/tenants"
    ∷ codes "/api/settings"
    ∷ codes "/api/metrics"
    ∷ codes "/api/departments/memberships/me"
    ∷ codes "/api/departments/context/switch"
    ∷ []

abbrev pub password_paths : List Text
password_paths = codes "/api/auth/me" ∷ codes "/api/auth/change-password" ∷ []

abbrev is_jwt : AuthType → Bool
is_jwt jwt = true
is_jwt _ = false

-- `_enforce_assigned_access`
pub enforce_assigned_access : Text → AuthUser → Answer
enforce_assigned_access path u =
    if is_jwt u.auth_type
      && not u.is_platform_admin
      && str_eq u.role "unassigned"
      && not (text_in path unassigned_allowed_paths)
    then http 403
    else granted u

abbrev base_user : User → AuthUser
base_user user = record {
  id = user.id;
  username = user.username;
  role = "";
  tenant_id = [];
  auth_type = jwt;
  organization = none;
  is_platform_admin = user.is_platform_admin;
  must_change_password = user.must_change_password;
}

-- The membership of a user in a tenant.
abbrev find_membership : String → Text → List Membership → Option Membership
find_membership user_id tenant ms =
    find (λ m. str_eq m.user_id user_id && text_eq m.tenant_id tenant && m.active) ms

abbrev with_role : User → Text → String → AuthUser
with_role user tenant role = record (base_user user) { role = role; tenant_id = tenant }

abbrev pub default_role : User → String
default_role user = if user.is_platform_admin then "admin" else "unassigned"

abbrev pub in_context : User → OrganizationContext → AuthUser
in_context user context = record (base_user user) {
  role = context.role;
  tenant_id = context.organization_id;
  organization = some context;
}

-- In a tenant, without a context of an organization.
in_tenant : Settings → Request → Text → User → Option Membership → Answer
unfolding enforce_assigned_access
in_tenant c req tenant user (some m) =
    enforce_assigned_access req.path (with_role user tenant m.role)
in_tenant c req tenant user none =
    if c.multi_tenant_enabled
    then http 403
    else enforce_assigned_access req.path (with_role user tenant (default_role user))

without_organization : Settings → Tables → Request → User → Answer
unfolding in_tenant
without_organization c t req user =
    if user.is_platform_admin && is_blank req.tenant
    then if any (λ p. starts_with p req.path) platform_without_org_allowed_prefixes
      then granted (with_role user [] "admin")
      else http 403
    else if c.multi_tenant_enabled && is_blank req.tenant
    then http 400
    else let tenant = or_else req.tenant c.default_tenant_id in
      in_tenant c req tenant user (find_membership user.id tenant t.memberships)

-- In the context of an organization, `none` if it was refused.
abbrev is_stale : Payload → OrganizationContext → Bool
is_stale p context = elim p.context_version [
  | none ↦ false
  | some v ↦ not (v == context.context_version)
]

in_organization : Request → Payload → User → Option OrganizationContext → Answer
unfolding enforce_assigned_access
in_organization req p user none = http 403
in_organization req p user (some context) =
    if is_stale p context
    then http 401
    else if not (is_blank req.tenant) && not (text_eq req.tenant context.organization_id)
    then tenant_mismatch context.organization_id
    else enforce_assigned_access req.path (in_context user context)

abbrev pub organization_of : Request → Payload → Text
organization_of req p = or_else req.organization_id p.organization_id

abbrev pub membership_of : Request → Payload → String
membership_of req p = if truthy req.membership_id then req.membership_id else p.membership_id

-- The request names another context than the token.
abbrev is_mismatch : Request → Payload → Bool
is_mismatch req p =
    (not (is_blank p.organization_id) && not (text_eq (organization_of req p) p.organization_id))
    || (truthy p.membership_id && not (str_eq (membership_of req p) p.membership_id))

-- The part of `get_current_user` behind the checks of the user.
with_user : Settings → Tables → ℕ → Request → Payload → User → Answer
unfolding in_organization without_organization
with_user c t now req p user =
    if is_mismatch req p
    then http 403
    else if is_blank (organization_of req p)
    then if truthy (membership_of req p) then http 400 else without_organization c t req user
    else if not (truthy (membership_of req p))
    then http 400
    else in_organization req p user (
        resolve_organization_context now user.id (organization_of req p) (membership_of req p)
          t.members t.units)

with_payload : Settings → Tables → ℕ → Request → Payload → Option User → Answer
unfolding with_user
with_payload c t now req p none = http 401
with_payload c t now req p (some user) =
    if not user.is_active
    then http 401
    else if not (p.token_version == user.token_version)
    then http 401
    else if user.must_change_password && not (text_in req.path password_paths)
    then http 403
    else with_user c t now req p user

abbrev pub service : Settings → AuthUser
service c = record {
  id = "legacy-api";
  username = "legacy";
  role = "admin";
  tenant_id = c.default_tenant_id;
  auth_type = api_key;
  organization = none;
  is_platform_admin = false;
  must_change_password = false;
}

without_auth : Settings → Request → Answer
without_auth c req =
    if c.multi_tenant_enabled && is_blank req.tenant
    then http 400
    else granted (record (service c) {
      id = "dev-user";
      username = "dev";
      tenant_id = or_else req.tenant c.default_tenant_id;
      auth_type = dev;
    })

module _ (sign : Text → Text) (render : Payload → Text) (parse : Text → Option Payload) where
  with_decoded : Settings → Tables → ℕ → Request → Option Payload → Answer
  unfolding with_payload
  with_decoded c t now req none = http 401
  with_decoded c t now req (some p) = with_payload c t now req p (get_user p.sub t.users)

  -- `get_current_user`
  pub get_current_user : Settings → Tables → ℕ → Request → Answer
  unfolding without_auth with_decoded
  get_current_user c t now req =
      if not req.auth_enabled
      then without_auth c req
      else if not (starts_with (codes "Bearer ") req.authorization)
      then http 401
      else if text_eq (strip (drop 7 req.authorization)) c.api_key
      then if c.multi_tenant_enabled then http 401 else granted (service c)
      else with_decoded c t now req
          (decode_access_token sign render parse now (strip (drop 7 req.authorization)))

-- `require_roles(*roles)`, behind `get_current_user`.
unfoldable pub require_roles : List String → Bool → AuthUser → Answer
require_roles roles auth_enabled u =
    if auth_enabled && not (str_in u.role roles) && not (str_eq u.role "admin")
    then http 403
    else granted u
