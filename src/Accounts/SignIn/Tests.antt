-- ===== src/Accounts/SignIn/Tests.antt =====
-- Logins (`login` of backend/api/auth.py) of one user.
use sql_rpa.Base.{◌≡◌, refl, String, true, false, Option, none, List, [], ◌∷◌, codes}
use sql_rpa.Text.{Text, text_eq}
use sql_rpa.Accounts.{User}
use sql_rpa.Accounts.Tokens.{Payload}
use sql_rpa.Accounts.Session.{Tables}
use sql_rpa.Login.{Failures, login_lock_remaining, replied}
use sql_rpa.Accounts.SignIn.{LoginRequest, Settings, State, Tenant, login, too_many, unauthorized}
use sql_rpa.Accounts.SignIn.Granted.{IsDue, login-IsDue}

abbrev ann : User
ann = record {
  id = "ann";
  username = "ann";
  display_name = codes "Ann";
  phone = none;
  password_hash = codes "first-pass-1";
  is_active = true;
  is_platform_admin = false;
  can_view_full_phone = false;
  must_change_password = false;
  token_version = 1;
  version = 1;
}

abbrev tables : Tables
tables = record {
  users = ann ∷ [];
  units = [];
  members = [];
  memberships =
      record { user_id = "ann"; tenant_id = codes "t1"; role = "operator"; active = true } ∷ [];
}

abbrev tenants : List Tenant
tenants = record { id = codes "t1"; active = true } ∷ []

abbrev settings : Settings
settings = record {
  production = true;
  multi_tenant_enabled = true;
  default_tenant_id = codes "default";
}

abbrev same : String → String
same s = s

abbrev sign : Text → Text
sign s = codes "sig"

abbrev render : Payload → Text
render p = codes "a.b"

abbrev parse : Text → Option Payload
parse s = none

abbrev body : LoginRequest
body = record { username = "ann"; password = codes "first-pass-1" }

abbrev no_failures : Failures
no_failures who = []

abbrev start : State
start = record { failures = no_failures; events = [] }

login-IsDue_example :
    IsDue same text_eq sign render parse settings tables tenants body
      (replied 0 0)
      (replied 1 300)
      100
      60
      no_failures
      (login same text_eq sign render parse settings tables tenants body
        (replied 0 0)
        (replied 1 300)
        100
        60
        start)
login-IsDue_example =
    login-IsDue same text_eq sign render parse settings tables tenants body (replied 0 0)
      (replied 1 300) 100 60 no_failures []

-- The right password does not help while the name is locked.
locked_out :
    (login same text_eq sign render parse settings tables tenants body
      (replied 5 200)
      (replied 6 300)
      100
      60
      start).1
    ≡ too_many 200
unfolding login login_lock_remaining
locked_out = refl

wrong_password :
    (login same text_eq sign render parse settings tables tenants
      (record body { password = codes "guess" })
      (replied 0 0)
      (replied 1 300)
      100
      60
      start).1
    ≡ unauthorized
unfolding login login_lock_remaining
wrong_password = refl
