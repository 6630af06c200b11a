-- ===== src/Accounts/NewUser/Tests.antt =====
-- A user that is created twice (`create_user` of backend/api/auth.py).
use sql_rpa.Base.{refl, true, false, none, some, [], ◌∷◌, codes}
use sql_rpa.Text.{strip}
use sql_rpa.Organization.{OrganizationUnit, company}
use sql_rpa.Organization.Members.{flush}
use sql_rpa.Accounts.Session.{AuthUser, jwt}
use sql_rpa.Accounts.NewUser.{CreateUserRequest, Outside, Rows, State, create_user, response_for}
use sql_rpa.Accounts.NewUser.Replayed.{MayPlace, Replays, create_user-Replays}

abbrev unit : OrganizationUnit
unit = record {
  id = codes "u1";
  name = codes "Unit";
  level = company;
  parent_id = none;
  company_id = codes "u1";
  path = codes "u1";
  depth = 0;
  active = true;
  context_version = 1;
}

abbrev outside : Outside
outside = record {
  normalize = λ s. s;
  hash_password = λ s. s;
  digest = λ body. body.phone;
  encrypt_phone = some;
  weak_values = codes "password";
  units = unit ∷ [];
  context = none;
  user_id = "bob";
  membership_id = "m1";
}

abbrev actor : AuthUser
actor = record {
  id = "ann";
  username = "ann";
  role = "admin";
  tenant_id = codes "u1";
  auth_type = jwt;
  organization = none;
  is_platform_admin = true;
  must_change_password = false;
}

abbrev body : CreateUserRequest
body = record {
  username = "bob";
  display_name = codes "Bob";
  organization_id = codes "u1";
  job_title = codes "Clerk";
  phone = codes "+49 123456";
  password = [];
  role = none;
}

abbrev no_rows : Rows
no_rows = record { users = []; members = []; keys = [] }

abbrev start : State
start = record { rows = no_rows; events = [] }

create_user-Replays_example :
    MayPlace outside actor "k" body (codes "u1")
    × Replays outside actor "k" body
        (create_user outside actor "k" body no_rows no_rows start).0
        (response_for outside actor "k" body unit)
unfolding create_user response_for strip flush
create_user-Replays_example =
    create_user-Replays outside actor "k" body no_rows no_rows start
      (response_for outside actor "k" body unit) refl
