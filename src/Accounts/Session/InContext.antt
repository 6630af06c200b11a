-- ===== src/Accounts/Session/InContext.antt =====
-- A request that carries nothing but a token of an organization (`get_current_user` of backend/auth.py).
use sql_rpa.Base.{
  ℕ, ◌+◌, ◌≤◌, ◌≡◌, refl, ◌∙◌, true, false, ◌&&◌, not, Option, some, [], ◌++◌, ◌==◌, arith, codes,
  eq_iff, Bool, if◌then◌else◌, str_eq, truthy, ==_iff,
}
use sql_rpa.Text.{Text, strip, text_eq, text_eq_iff, text_in}
use sql_rpa.Organization.Scope.{OrganizationContext, resolve_organization_context}
use sql_rpa.Accounts.{User, get_user}
use sql_rpa.Accounts.Tokens.{Payload, context_payload, create_organization_context_token}
use sql_rpa.Accounts.Tokens.Signed.{decode-create_organization_context_token, has_dot}
use sql_rpa.Accounts.Session.{
  Answer, Request, Settings, password_paths, Tables, enforce_assigned_access, get_current_user,
  granted, http, in_context, in_organization, is_blank, unassigned_allowed_paths, with_decoded,
  with_payload, with_user,
}

abbrev pub request_with : Text → Text → Request
request_with path token = record {
  auth_enabled = true;
  path = path;
  authorization = codes "Bearer " ++ token;
  tenant = [];
  organization_id = [];
  membership_id = "";
}

passes :
    (a v m x : Bool) (r : Answer)
    → a ≡ true
    → v ≡ true
    → m ≡ false
    → (if not a then http 401 else if not v then http 401 else if m && x then http 403 else r) ≡ r
passes true true false x r h k l = refl
passes false v m x r h k l = absurd (ground (arith, h))
passes true false m x r h k l = absurd (ground (arith, k))
passes true true true x r h k l = absurd (ground (arith, l))

module _ (c : Settings) (t : Tables) (now later : ℕ) (path : Text) (user : User)
    (context : OrganizationContext) (organized : is_blank context.organization_id ≡ false)
    (named : truthy context.membership_id ≡ true)
    (assigned : str_eq context.role "unassigned" ≡ false) where
  in_organization-granted :
      (token : Text)
      → in_organization
          (request_with path token)
          (context_payload now 900 user context)
          user
          (some context)
        ≡ granted (in_context user context)
  unfolding in_organization enforce_assigned_access
  in_organization-granted token =
      rw ((==_iff context.context_version context.context_version).1 refl) (
        rw assigned
          (open_way (not user.is_platform_admin) (not (text_in path unassigned_allowed_paths))))
    where
      open_way :
          (a b : Bool)
          → (if a && false && b then http 403 else granted (in_context user context))
            ≡ granted (in_context user context)
      open_way a b = ground arith

  with_user-granted :
      (token : Text)
      → resolve_organization_context later user.id context.organization_id context.membership_id
          t.members t.units
        ≡ some context
      → with_user c t later (request_with path token) (context_payload now 900 user context) user
        ≡ granted (in_context user context)
  unfolding with_user
  with_user-granted token e =
      rw
        (
          organized,
          (text_eq_iff context.organization_id context.organization_id).1 refl,
          (eq_iff context.membership_id context.membership_id).1 refl,
          named,
          e,
        )
        (in_organization-granted token)

  module _ (sign : Text → Text) (render : Payload → Text) (parse : Text → Option Payload)
      (users : get_user user.id t.users ≡ some user) (active : user.is_active ≡ true)
      (changed : user.must_change_password ≡ false) where
    -- The token is read back and is not the key of the service.
    abbrev pub context_token : Text
    context_token = create_organization_context_token sign render parse now 900 user context

    pub context_token-granted :
        has_dot (sign (render (context_payload now 900 user context))) ≡ false
        → parse (render (context_payload now 900 user context))
          ≡ some (context_payload now 900 user context)
        → strip context_token ≡ context_token
        → text_eq context_token c.api_key ≡ false
        → later ≤ now + 900
        → resolve_organization_context later user.id context.organization_id context.membership_id
            t.members t.units
          ≡ some context
        → get_current_user sign render parse c t later (request_with path context_token)
          ≡ granted (in_context user context)
    unfolding get_current_user with_decoded with_payload
    context_token-granted dot read bare other in_time e =
        rw
          (
            bare,
            other,
            decode-create_organization_context_token sign render parse later now user context dot
                read in_time,
            users,
          )
          (passes user.is_active (user.token_version == user.token_version)
              user.must_change_password (not (text_in path password_paths))
              (with_user c t later (request_with path context_token)
                (context_payload now 900 user context) user)
              active ((==_iff user.token_version user.token_version).1 refl) changed
            ∙ with_user-granted context_token e)
