-- ===== src/Accounts/Session/Granted.antt =====
-- What stands behind an identity that `get_current_user` grants.
use mathlib.Core.List.{Memᴰ}
use sql_rpa.Base.{
  ℕ, ◌≡◌, refl, String, Bool, true, false, ◌&&◌, not, Option, none, some, [], ◌∷◌, ◌==◌, drop, any,
  codes, str_eq, truthy, arith, ==_iff, if◌then◌else◌, find-has, find-some,
}
use sql_rpa.Text.{Text, strip, starts_with, text_eq, text_in}
use sql_rpa.Organization.Scope.{OrganizationContext, resolve_organization_context}
use sql_rpa.Accounts.{User, get_user}
use sql_rpa.Accounts.Tokens.{Payload, decode_access_token}
use sql_rpa.Accounts.Tokens.Signed.{IsSigned, decode-IsSigned}
use sql_rpa.Accounts.Session.{
  AuthUser, Answer, granted, http, tenant_mismatch, Request, Settings, Membership, Tables, dev,
  api_key, jwt, is_blank, or_else, unassigned_allowed_paths, password_paths, is_jwt,
  enforce_assigned_access, with_role, default_role, in_context, find_membership, in_tenant,
  without_organization, is_stale, in_organization, organization_of, membership_of, is_mismatch,
  with_user, with_payload, without_auth, with_decoded, get_current_user,
  platform_without_org_allowed_prefixes,
}

-- A property of the identity, if one is granted.
abbrev pub Gives : (AuthUser → Type 0) → Answer → Type 0
Gives P (granted u) = P u
Gives P _ = Unit

Gives-if :
    (P : AuthUser → Type 0) (b : Bool) (x y : Answer)
    → (b ≡ true → Gives P x)
    → (b ≡ false → Gives P y)
    → Gives P (if b then x else y)
Gives-if P true x y h k = h refl
Gives-if P false x y h k = k refl

Gives-map :
    (P Q : AuthUser → Type 0) (a : Answer) → ((u : AuthUser) → P u → Q u) → Gives P a → Gives Q a
Gives-map P Q (granted u) f h = f u h
Gives-map P Q (http n) f h = tt
Gives-map P Q (tenant_mismatch o) f h = tt

-- An organization's context was resolved for the user, and it alone gives the tenant and the role.
pub record InContext (t : Tables) (now : ℕ) (req : Request) (p : Payload) (u : AuthUser)
    (context : OrganizationContext) : Type 0 where
  pub resolved :
      resolve_organization_context now u.id
        (organization_of req p)
        (membership_of req p)
        t.members
        t.units
      ≡ some context
  pub tenant : u.tenant_id ≡ context.organization_id
  pub role : u.role ≡ context.role

-- The tenant and the role without an organization: a platform administrator's without a tenant, on
-- the paths for that; those of an active membership of the user's in the tenant that the request
-- names or, if it names none, the default one; or, without one, outside multi-tenant mode, those of a
-- user without a role.
pub data Placed (c : Settings) (t : Tables) (req : Request) (user : User) (u : AuthUser)
    : Type 0 where
  platform :
      user.is_platform_admin ≡ true
      → req.tenant ≡ []
      → any (λ x. starts_with x req.path) platform_without_org_allowed_prefixes ≡ true
      → u.tenant_id ≡ []
      → u.role ≡ "admin"
      → Placed c t req user u
  member :
      (m : Membership)
      → Memᴰ m t.memberships
      → (str_eq m.user_id user.id && text_eq m.tenant_id u.tenant_id && m.active) ≡ true
      → u.role ≡ m.role
      → u.tenant_id ≡ or_else req.tenant c.default_tenant_id
      → (c.multi_tenant_enabled && is_blank req.tenant) ≡ false
      → Placed c t req user u
  unplaced :
      c.multi_tenant_enabled ≡ false
      → find_membership user.id u.tenant_id t.memberships ≡ none
      → u.role ≡ (if user.is_platform_admin then "admin" else "unassigned")
      → u.tenant_id ≡ or_else req.tenant c.default_tenant_id
      → Placed c t req user u

abbrev pub Scoped :
    Settings
    → Tables
    → ℕ
    → Request
    → Payload
    → User
    → AuthUser
    → Option OrganizationContext
    → Type 0
Scoped c t now req p user u o = elim o [
  | none ↦ Placed c t req user u
  | some context ↦ InContext t now req p u context
]

-- The identity of an active user, with a token of the user's present version.
pub record IsOfUser (c : Settings) (t : Tables) (now : ℕ) (req : Request) (p : Payload)
    (u : AuthUser) : Type 0 where
  pub user : User
  pub found : get_user p.sub t.users ≡ some user
  pub active : user.is_active ≡ true
  pub version : p.token_version ≡ user.token_version
  pub same : u.id ≡ user.id
  pub named : u.username ≡ user.username
  pub administers : u.is_platform_admin ≡ user.is_platform_admin
  pub by : u.auth_type ≡ jwt
  pub scoped : Scoped c t now req p user u u.organization
  pub password : (user.must_change_password && not (text_in req.path password_paths)) ≡ false

module _ (c : Settings) (t : Tables) (now : ℕ) (req : Request) (p : Payload) (user : User)
    (found : get_user p.sub t.users ≡ some user) (active : user.is_active ≡ true)
    (version : p.token_version ≡ user.token_version)
    (password : (user.must_change_password && not (text_in req.path password_paths)) ≡ false) where
  free :
      (tenant : Text) (role : String)
      → Placed c t req user (with_role user tenant role)
      → IsOfUser c t now req p (with_role user tenant role)
  free tenant role h = record {
    user = user;
    found = found;
    active = active;
    version = version;
    same = refl;
    named = refl;
    administers = refl;
    by = refl;
    scoped = h;
    password = password;
  }

  enforced :
      (u : AuthUser)
      → IsOfUser c t now req p u
      → Gives (IsOfUser c t now req p) (enforce_assigned_access req.path u)
  unfolding enforce_assigned_access
  enforced u h =
      Gives-if (IsOfUser c t now req p)
        (is_jwt u.auth_type
          && not u.is_platform_admin
          && str_eq u.role "unassigned"
          && not (text_in req.path unassigned_allowed_paths))
        (http 403) (granted u) (λ _. tt) (λ _. h)

  tenant-Gives :
      (tenant : Text) (m : Option Membership)
      → tenant ≡ or_else req.tenant c.default_tenant_id
      → (c.multi_tenant_enabled && is_blank req.tenant) ≡ false
      → find_membership user.id tenant t.memberships ≡ m
      → Gives (IsOfUser c t now req p) (in_tenant c req tenant user m)
  unfolding in_tenant
  tenant-Gives tenant (some m) e b f =
      let is_own =
        λ (m : Membership). str_eq m.user_id user.id && text_eq m.tenant_id tenant && m.active in
      enforced (with_role user tenant m.role) (
        free tenant m.role (
          member m (find-has is_own t.memberships m f) (find-some is_own t.memberships m f) refl e
            b))
  tenant-Gives tenant none e b f =
      Gives-if (IsOfUser c t now req p) c.multi_tenant_enabled (http 403) _ (λ _. tt)
        (λ single.
          enforced (with_role user tenant (default_role user))
            (free tenant (default_role user) (unplaced single f refl e)))

  without-Gives : Gives (IsOfUser c t now req p) (without_organization c t req user)
  unfolding without_organization
  without-Gives =
      Gives-if (IsOfUser c t now req p) (user.is_platform_admin && is_blank req.tenant) _ _
        (λ a.
          let (admin, empty) = both _ _ a in
          Gives-if (IsOfUser c t now req p)
            (any (λ x. starts_with x req.path) platform_without_org_allowed_prefixes) _ _
            (λ h. free [] "admin" (platform admin (blank req.tenant empty) h refl refl)) (λ _. tt))
        (λ _.
          Gives-if (IsOfUser c t now req p) (c.multi_tenant_enabled && is_blank req.tenant) _ _
            (λ _. tt)
            (λ b.
              tenant-Gives (or_else req.tenant c.default_tenant_id)
                (find_membership user.id (or_else req.tenant c.default_tenant_id) t.memberships)
                refl b refl))
    where
      both : (a b : Bool) → (a && b) ≡ true → (a ≡ true) × (b ≡ true)
      both a b e = ground (arith, e)

      blank : (s : Text) → is_blank s ≡ true → s ≡ []
      blank [] e = refl
      blank (x ∷ s) e = absurd (ground (arith, e))

  organization-Gives :
      (o : Option OrganizationContext)
      → resolve_organization_context now user.id
          (organization_of req p)
          (membership_of req p)
          t.members
          t.units
        ≡ o
      → Gives (IsOfUser c t now req p) (in_organization req p user o)
  unfolding in_organization
  organization-Gives none e = tt
  organization-Gives (some context) e =
      Gives-if (IsOfUser c t now req p) (is_stale p context) _ _ (λ _. tt)
        (λ _.
          Gives-if (IsOfUser c t now req p)
            (not (is_blank req.tenant) && not (text_eq req.tenant context.organization_id)) _ _
            (λ _. tt)
            (λ _. enforced (in_context user context) (record {
              user = user;
              found = found;
              active = active;
              version = version;
              same = refl;
              named = refl;
              administers = refl;
              by = refl;
              scoped = record { resolved = e; tenant = refl; role = refl };
              password = password;
            })))

  user-Gives : Gives (IsOfUser c t now req p) (with_user c t now req p user)
  unfolding with_user
  user-Gives =
      Gives-if (IsOfUser c t now req p) (is_mismatch req p) _ _ (λ _. tt)
        (λ _.
          Gives-if (IsOfUser c t now req p) (is_blank (organization_of req p)) _ _
            (λ _.
              Gives-if (IsOfUser c t now req p) (truthy (membership_of req p)) _ _ (λ _. tt)
                (λ _. without-Gives))
            (λ _.
              Gives-if (IsOfUser c t now req p) (not (truthy (membership_of req p))) _ _ (λ _. tt)
                (λ _. organization-Gives _ refl)))

positive : (b : Bool) → not b ≡ false → b ≡ true
positive b e = ground (arith, e)

payload-Gives :
    (c : Settings) (t : Tables) (now : ℕ) (req : Request) (p : Payload) (found : Option User)
    → get_user p.sub t.users ≡ found
    → Gives (IsOfUser c t now req p) (with_payload c t now req p found)
unfolding with_payload
payload-Gives c t now req p none e = tt
payload-Gives c t now req p (some user) e =
    Gives-if (IsOfUser c t now req p) (not user.is_active) _ _ (λ _. tt)
      (λ a.
        Gives-if (IsOfUser c t now req p) (not (p.token_version == user.token_version)) _ _
          (λ _. tt)
          (λ v.
            Gives-if (IsOfUser c t now req p)
              (user.must_change_password && not (text_in req.path password_paths)) _ _ (λ _. tt)
              (λ w.
                user-Gives c t now req p user e (positive _ a)
                  ((==_iff p.token_version user.token_version).0 (positive _ v)) w)))

abbrev pub token_in : Request → Text
token_in req = strip (drop 7 req.authorization)

module _ (sign : Text → Text) (render : Payload → Text) (parse : Text → Option Payload) where
  -- Why an identity is granted, and which: the one of development without authentication, in the
  -- tenant of the request; the one of the service key; or the one of the user of a token.
  pub data Grant (c : Settings) (t : Tables) (now : ℕ) (req : Request) (u : AuthUser) : Type 0 where
    by_dev :
        req.auth_enabled ≡ false
        → (c.multi_tenant_enabled && is_blank req.tenant) ≡ false
        → u ≡ record {
          id = "dev-user";
          username = "dev";
          role = "admin";
          tenant_id = or_else req.tenant c.default_tenant_id;
          auth_type = dev;
          organization = none;
          is_platform_admin = false;
          must_change_password = false;
        }
        → Grant c t now req u
    by_key :
        text_eq (token_in req) c.api_key ≡ true
        → c.multi_tenant_enabled ≡ false
        → u ≡ record {
          id = "legacy-api";
          username = "legacy";
          role = "admin";
          tenant_id = c.default_tenant_id;
          auth_type = api_key;
          organization = none;
          is_platform_admin = false;
          must_change_password = false;
        }
        → Grant c t now req u
    by_token :
        (p : Payload)
        → IsSigned sign render parse now (token_in req) p
        → IsOfUser c t now req p u
        → Grant c t now req u

  -- Every identity that is granted is one of three. Without authentication it is the fixed one of
  -- development, which is of role admin in the tenant of the request, or the default one if the
  -- request names none, which it may only outside multi-tenant mode. With the service key, outside
  -- multi-tenant mode, it is the fixed one of the service, of role admin in the default tenant.
  -- Otherwise it is an active user's whose token is signed, has not expired and has the user's present
  -- version, with the user's name and mark of a platform administrator. Then, in an organization, the
  -- context was resolved for that user, and the tenant and the role are those of the context, whatever
  -- the headers say; without one, they are those of an active membership of the user's in the
  -- requested or default tenant, or, outside multi-tenant mode and without such a membership, the
  -- role unassigned there, admin for a platform administrator, or a platform administrator's without
  -- any tenant, on the paths for that; and a user who must change the password gets no further than
  -- the paths for that.
  pub get_current_user-Grant :
      (c : Settings) (t : Tables) (now : ℕ) (req : Request)
      → Gives (Grant c t now req) (get_current_user sign render parse c t now req)
  unfolding get_current_user without_auth with_decoded
  get_current_user-Grant c t now req =
      Gives-if (Grant c t now req) (not req.auth_enabled) _ _ (λ e. dev_grant (ground (arith, e)))
        (λ _.
          Gives-if (Grant c t now req) (not (starts_with (codes "Bearer ") req.authorization)) _ _
            (λ _. tt)
            (λ _.
              Gives-if (Grant c t now req) (text_eq (token_in req) c.api_key) _ _
                (λ k.
                  Gives-if (Grant c t now req) c.multi_tenant_enabled _ _ (λ _. tt)
                    (λ m. by_key k m refl))
                (λ _. decoded (decode_access_token sign render parse now (token_in req)) refl)))
    where
      dev_grant : req.auth_enabled ≡ false → Gives (Grant c t now req) (without_auth c req)
      dev_grant e =
          Gives-if (Grant c t now req) (c.multi_tenant_enabled && is_blank req.tenant) _ _ (λ _. tt)
            (λ b. by_dev e b refl)

      decoded :
          (o : Option Payload)
          → decode_access_token sign render parse now (token_in req) ≡ o
          → Gives (Grant c t now req) (with_decoded sign render parse c t now req o)
      decoded none e = tt
      decoded (some p) e =
          Gives-map (IsOfUser c t now req p) (Grant c t now req) _
            (λ u h. by_token p (decode-IsSigned sign render parse now (token_in req) p e) h)
            (payload-Gives c t now req p (get_user p.sub t.users) refl)
