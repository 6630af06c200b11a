-- ===== src/Accounts/Tests.antt =====
-- Runs on two accounts, with a constant signature.
use sql_rpa.Base.{
  ◌<◌, ◌≡◌, refl, Bool, true, false, Option, none, some, List, [], ◌∷◌, codes, arith,
}
use sql_rpa.Text.{Text}
use sql_rpa.Accounts.{
  User, UpdateUserRequest, ChangePasswordRequest, count_admins, put_user, update_found, update_user,
  change_found, change_password,
}
use sql_rpa.Accounts.Admins.{Request, updates, creates, handle_all, handle_all-count}
use sql_rpa.Accounts.Tokens.{Payload, access_payload, create_access_token, decode_access_token}
use sql_rpa.Accounts.Tokens.Signed.{decode-create_access_token}
use sql_rpa.Accounts.Session.{Settings, Tables, get_current_user}
use sql_rpa.Accounts.Session.Granted.{Grant, Gives, get_current_user-Grant}

abbrev ann : User
ann = record {
  id = "ann";
  username = "ann";
  display_name = codes "Ann";
  phone = none;
  password_hash = codes "first-pass-1";
  is_active = true;
  is_platform_admin = true;
  can_view_full_phone = true;
  must_change_password = false;
  token_version = 3;
  version = 1;
}

abbrev bob : User
bob = record ann { id = "bob"; username = "bob" }

abbrev disable : UpdateUserRequest
disable = record {
  display_name = none;
  phone = none;
  is_active = some false;
  can_view_full_phone = none;
  version = 1;
}

-- Bob disables Ann and is then the last administrator, whom Ann's request does not disable.
abbrev requests : List Request
requests =
    updates "bob" "ann" disable
    ∷ updates "ann" "bob" disable
    ∷ creates (record ann { id = "eve" })
    ∷ []

abbrev hashed : Text → Text
hashed s = s

abbrev matches : Text → Text → Bool
matches s t = false

handle_all-count_example :
    0 < count_admins (handle_all some hashed matches (codes "admin") requests (ann ∷ bob ∷ []))
handle_all-count_example =
    handle_all-count some hashed matches (codes "admin") requests (ann ∷ bob ∷ []) (omega arith)

abbrev sign : Text → Text
sign s = codes "sig"

abbrev render : Payload → Text
render p = codes "a.b"

abbrev parse : Text → Option Payload
parse s = some (access_payload 100 60 ann)

abbrev token : Text
token = codes "a.b.sig"

decode-create_access_token_example :
    decode_access_token sign render parse 160 (create_access_token sign render parse 100 60 ann)
    ≡ some (access_payload 100 60 ann)
decode-create_access_token_example =
    decode-create_access_token sign render parse 160 100 60 ann refl refl (omega arith)

abbrev settings : Settings
settings = record {
  api_key = codes "key";
  multi_tenant_enabled = true;
  default_tenant_id = codes "default";
}

abbrev tables : Tables
tables = record { users = ann ∷ []; units = []; members = []; memberships = [] }

abbrev request : sql_rpa.Accounts.Session.Request
request = record {
  auth_enabled = true;
  path = codes "/api/auth/me";
  authorization = codes "Bearer a.b.sig";
  tenant = [];
  organization_id = [];
  membership_id = "";
}

get_current_user-Grant_example :
    Gives
      (Grant sign render parse settings tables 160 request)
      (get_current_user sign render parse settings tables 160 request)
get_current_user-Grant_example =
    get_current_user-Grant sign render parse settings tables 160 request
