-- ===== src/Departments/Switch.antt =====
-- `switch_context` of backend/api/departments.py, and a later request with the token that it answers.
use sql_rpa.Base.{
  ℕ, ◌+◌, ◌≤◌, ◌≡◌, refl, sym, subst, ◌∙◌, String, true, false, Option, some, List, [], ◌∷◌, ◌++◌,
  All, eq_iff, find-some, str_eq, truthy,
}
use sql_rpa.Text.{Text, strip, text_eq}
use sql_rpa.Organization.Members.{OrganizationMembership, get_member, is_effective}
use sql_rpa.Organization.Scope.{OrganizationContext, resolve_organization_context}
use sql_rpa.Organization.Scope.Resolved.{resolve-later, resolve-names}
use sql_rpa.Accounts.{User, get_user}
use sql_rpa.Accounts.Session.{
  AuthUser, Membership, Settings, Tables, get_current_user, granted, in_context, is_blank,
}
use sql_rpa.Accounts.Session.InContext.{context_token-granted, request_with}
use sql_rpa.Accounts.Tokens.{Payload, context_payload, create_organization_context_token}
use sql_rpa.Accounts.Tokens.Signed.{has_dot}
use sql_rpa.Departments.{State, context_switched, switch_context, token}

abbrev pub tables_of : List User → List Membership → State → Tables
tables_of users memberships s = record {
  users = users;
  units = s.units;
  members = s.members;
  memberships = memberships;
}

module _ (sign : Text → Text) (render : Payload → Text) (parse : Text → Option Payload) where
  -- A user who switches to a membership that resolves to a context is answered a token. Sent within its
  -- 900 seconds with a request that names nothing else, the token alone makes the request one of that
  -- user in that membership and its organization, whatever the path, while the tables stay as they are
  -- and the membership is effective. The account is active with no change of its password due, the ids
  -- are not empty, the membership has a role, and the token is read back, without white space around
  -- it, and is not the key of the service.
  pub switch_context-granted :
      (settings : Settings) (users : List User) (memberships : List Membership) (now later : ℕ)
      (actor : AuthUser) (id : String) (s : State) (m : OrganizationMembership)
      (context : OrganizationContext) (account : User) (path : Text)
      → get_member id s.members ≡ some m
      → resolve_organization_context now actor.id m.organization_id m.id s.members s.units
        ≡ some context
      → get_user actor.id users ≡ some account
      → account.is_active ≡ true
      → account.must_change_password ≡ false
      → is_blank m.organization_id ≡ false
      → truthy id ≡ true
      → str_eq context.role "unassigned" ≡ false
      → All (λ n. str_eq n.id m.id ≡ true → is_effective later n ≡ true) s.members
      → later ≤ now + 900
      → has_dot (sign (render (context_payload now 900 account context))) ≡ false
      → parse (render (context_payload now 900 account context))
        ≡ some (context_payload now 900 account context)
      → strip (create_organization_context_token sign render parse now 900 account context)
        ≡ create_organization_context_token sign render parse now 900 account context
      → text_eq
          (create_organization_context_token sign render parse now 900 account context)
          settings.api_key
        ≡ false
      → (context.organization_id ≡ m.organization_id)
        × (context.membership_id ≡ id)
        × (switch_context sign render parse users now actor id s ≡ (
          record s { events = s.events ++ context_switched context.organization_id ∷ [] },
          token (create_organization_context_token sign render parse now 900 account context),
        ))
        × (get_current_user sign render parse settings (tables_of users memberships s) later (
              request_with path
                (create_organization_context_token sign render parse now 900 account context))
            ≡ granted (in_context account context))
  unfolding switch_context
  switch_context-granted settings users memberships now later actor id s m context account path
        found resolved known active changed organized named assigned effective in_time dot read bare
        other =
      let (organization, membership) =
        resolve-names actor.id m.organization_id m.id now s.members s.units context resolved in
      let its_id = (eq_iff m.id id).0 (find-some (λ n. str_eq n.id id) s.members m found) in
      let own_id =
        (eq_iff account.id actor.id).0
          (find-some (λ u. str_eq u.id actor.id) users account known) in
      let t = tables_of users memberships s in
      (
        organization,
        membership ∙ its_id,
        rw (found, switch_context) (rw resolved (rw known refl)),
        context_token-granted settings t now later path account context (rw organization organized)
            (rw membership (rw its_id named)) assigned sign render parse
            (subst (λ i. get_user i users ≡ some account) (sym own_id) known) active changed dot
            read bare other in_time
            (subst (λ u. resolves u context.organization_id context.membership_id) (sym own_id)
              (subst (λ o. resolves actor.id o context.membership_id) (sym organization)
                (subst (resolves actor.id m.organization_id) (sym membership) (
                  resolve-later actor.id m.organization_id m.id now later s.members s.units context
                    effective resolved)))),
      )
    where
      resolves : String → Text → String → Type 0
      resolves u o i = resolve_organization_context later u o i s.members s.units ≡ some context
