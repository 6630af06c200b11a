-- ===== src/Departments/Tests.antt =====
-- Runs on two departments and a membership in each.
use sql_rpa.Base.{
  Option, arith, ◌≡◌, refl, ◌⊎◌, ◌&&◌, not, true, false, none, some, [], ◌∷◌, codes, str_eq,
}
use sql_rpa.Organization.{OrganizationUnit, company, department}
use sql_rpa.Organization.Members.{OrganizationMembership}
use sql_rpa.Organization.Scope.{OrganizationContext, resolve_organization_context}
use sql_rpa.Text.{Text, split, strip}
use sql_rpa.Accounts.{User}
use sql_rpa.Accounts.Tokens.{Payload, context_payload, create_organization_context_token}
use sql_rpa.Accounts.Session.InContext.{request_with}
use sql_rpa.Departments.Switch.{switch_context-granted, tables_of}
use sql_rpa.Accounts.Session.{AuthUser, Settings, get_current_user, granted, in_context, jwt}
use sql_rpa.Departments.{
  context_switched, switch_context, token, Change, State, disables_member, handle, refused,
}
use sql_rpa.Departments.Within.{IsWithin, handle-IsWithin}

abbrev acme : OrganizationUnit
acme = record {
  id = codes "c";
  name = codes "Acme";
  level = company;
  parent_id = none;
  company_id = codes "c";
  path = codes "c";
  depth = 1;
  active = true;
  context_version = 1;
}

abbrev sales : OrganizationUnit
sales = record {
  id = codes "d";
  name = codes "Sales";
  level = department;
  parent_id = some (codes "c");
  company_id = codes "c";
  path = codes "c/d";
  depth = 2;
  active = true;
  context_version = 1;
}

abbrev law : OrganizationUnit
law = record sales { id = codes "e"; name = codes "Law"; path = codes "c/e" }

abbrev member : OrganizationMembership
member = record {
  id = "m";
  user_id = "bob";
  organization_id = codes "d";
  organization_level = department;
  role = "employee";
  is_primary = true;
  active = true;
  valid_from = none;
  valid_to = none;
  version = 1;
}

abbrev other : OrganizationMembership
other = record member { id = "n"; organization_id = codes "e"; is_primary = false }

abbrev state : State
state = record { units = acme ∷ sales ∷ law ∷ []; members = member ∷ other ∷ []; events = [] }

abbrev context : OrganizationContext
context = record {
  user_id = "ann";
  company_id = codes "c";
  organization_id = codes "d";
  membership_id = "a";
  organization_level = department;
  role = "admin";
  path = codes "c/d";
  context_version = 1;
  is_primary = true;
}

abbrev ann : AuthUser
ann = record {
  id = "ann";
  username = "ann";
  role = "admin";
  tenant_id = codes "d";
  auth_type = jwt;
  organization = some context;
  is_platform_admin = true;
  must_change_password = true;
}

-- Ann is in Sales, and disables the membership there in favour of the one in Law.
abbrev disables : Change
disables = disables_member "m" (some "n")

handle-IsWithin_example :
    IsWithin state (some context) (handle [] 0 true ann disables state)
    × ((true && not (str_eq "admin" "admin") ≡ false)
        ⊎ (handle [] 0 true ann disables state ≡ (state, refused 403)))
handle-IsWithin_example = handle-IsWithin state [] 0 ((refl, tt), (tt, tt)) true ann disables

-- Bob switches to his membership in Sales.
abbrev bob : User
bob = record {
  id = "bob";
  username = "bob";
  display_name = codes "Bob";
  phone = none;
  password_hash = codes "secret";
  is_active = true;
  is_platform_admin = false;
  can_view_full_phone = false;
  must_change_password = false;
  token_version = 3;
  version = 1;
}

abbrev bob_actor : AuthUser
bob_actor = record ann { id = "bob"; username = "bob"; role = "unassigned"; organization = none }

abbrev in_sales : OrganizationContext
in_sales = record context { user_id = "bob"; membership_id = "m"; role = "employee" }

abbrev sign : Text → Text
sign s = codes "sig"

abbrev render : Payload → Text
render p = codes "a.b"

abbrev parse : Text → Option Payload
parse s = some (context_payload 100 900 bob in_sales)

abbrev settings : Settings
settings = record {
  api_key = codes "k";
  multi_tenant_enabled = true;
  default_tenant_id = codes "t";
}

switch_context-granted_example :
    (in_sales.organization_id ≡ codes "d")
    × (in_sales.membership_id ≡ "m")
    × (switch_context sign render parse (bob ∷ []) 100 bob_actor "m" state ≡ (
      record state { events = context_switched (codes "d") ∷ [] },
      token (create_organization_context_token sign render parse 100 900 bob in_sales),
    ))
    × (get_current_user sign render parse settings (tables_of (bob ∷ []) [] state) 1000 (
          request_with
            (codes "/api/chat")
            (create_organization_context_token sign render parse 100 900 bob in_sales))
        ≡ granted (in_context bob in_sales))
unfolding resolve_organization_context strip split create_organization_context_token
switch_context-granted_example =
    switch_context-granted sign render parse settings (bob ∷ []) [] 100 1000 bob_actor "m" state
      member in_sales bob (codes "/api/chat") refl refl refl refl refl refl refl refl
      ((λ _. refl), ((λ _. refl), tt)) (omega arith) refl refl refl refl
