-- ===== src/Accounts/NewUser.antt =====
-- The handler `create_user` of backend/api/auth.py. The user name has passed the pattern of the body
-- and has no white space around it. Other requests may add rows before the flush and again before the
-- commit; the new ids are not taken. The hash of a password and of the body, the normal form of a name
-- and the encryption of a phone number are parameters.
pub mod Replayed
mod Tests
use sql_rpa.Base.{
  ℕ, String, Bool, true, false, ◌&&◌, ◌||◌, not, Option, none, some, List, [], ◌∷◌, ◌++◌, ◌==◌, all,
  any, codes, find, leb, length, str_eq, if◌then◌else◌,
}
use sql_rpa.Text.{Text, strip, text_eq, text_in}
use sql_rpa.Organization.{OrganizationUnit, failed, get_unit, ok}
use sql_rpa.Organization.Members.{Members, OrganizationMembership, flush}
use sql_rpa.Organization.Scope.{OrganizationContext, resolve_scope_node_ids}
use sql_rpa.Accounts.{User, is_digit, is_valid_password}
use sql_rpa.Accounts.Session.{AuthType, AuthUser, api_key, dev, jwt}

-- `CreateUserRequest`; an absent password is empty.
pub record CreateUserRequest : Type 0 where
  pub username : String
  pub display_name : Text
  pub organization_id : Text
  pub job_title : Text
  pub phone : Text
  pub password : Text
  pub role : Option String

-- The parts of the answer.
pub record CreateUserResponse : Type 0 where
  pub user : User
  pub primary_membership : OrganizationMembership
  pub used_default_password : Bool

-- `UserCreateIdempotency`
pub record UserCreateIdempotency : Type 0 where
  pub actor_id : String
  pub idempotency_key : String
  pub request_hash : Text
  pub response : CreateUserResponse

pub record Rows : Type 0 where
  pub users : List User
  pub members : Members
  pub keys : List UserCreateIdempotency

-- The events of the audit: the code of a failure, or the id of the new user.
pub data UserEvent : Type 0 where
  create_failed : String → UserEvent
  user_created : String → UserEvent

pub record State : Type 0 where
  pub rows : Rows
  pub events : List UserEvent

-- `raised` is an exception that the handler does not catch.
pub data Reply : Type 0 where
  created replayed : CreateUserResponse → Reply
  http : ℕ → Reply
  raised : Reply

abbrev pub is_empty : Text → Bool
is_empty [] = true
is_empty (_ ∷ _) = false

-- `\+?[0-9 -]{6,32}`
abbrev without_plus : Text → Text
without_plus [] = []
without_plus (c ∷ s) = if c == b'+' then s else c ∷ s

pub is_phone : Text → Bool
is_phone phone =
    let s = without_plus phone in
    leb 6 (length s) && leb (length s) 32 && all (λ c. is_digit c || c == b' ' || c == b'-') s

pub is_profile : CreateUserRequest → Bool
unfolding is_phone
is_profile body =
    not (is_empty (strip body.display_name))
    && not (is_empty (strip body.job_title))
    && is_phone (strip body.phone)

abbrev pub is_accepted_password : Text → Text → Bool
is_accepted_password weak password = is_empty password || is_valid_password weak password

abbrev is_dev : AuthType → Bool
is_dev dev = true
is_dev api_key = false
is_dev jwt = false

abbrev pub is_free : AuthUser → Bool
is_free actor = actor.is_platform_admin || is_dev actor.auth_type

abbrev pub joined : Rows → Rows → Rows
joined r added = record {
  users = r.users ++ added.users;
  members = r.members ++ added.members;
  keys = r.keys ++ added.keys;
}

abbrev pub is_key : AuthUser → String → UserCreateIdempotency → Bool
is_key actor key row = str_eq row.actor_id actor.id && str_eq row.idempotency_key key

abbrev pub fails : String → ℕ → State → State × Reply
fails code status s = (record s { events = s.events ++ create_failed code ∷ [] }, http status)

-- What is outside: the parameters, the units, the context of the request, and the new ids.
pub record Outside : Type 0 where
  pub normalize : String → String
  pub hash_password : Text → Text
  pub digest : CreateUserRequest → Text
  pub encrypt_phone : Text → Option Text
  pub weak_values : Text
  pub units : List OrganizationUnit
  pub context : Option OrganizationContext
  pub user_id : String
  pub membership_id : String

module _ (o : Outside) (actor : AuthUser) (key : String) (body : CreateUserRequest) where
  unfoldable pub response_for : OrganizationUnit → CreateUserResponse
  response_for unit =
      let default_password = is_empty body.password in
      record {
        user = record {
          id = o.user_id;
          username = body.username;
          display_name = strip body.display_name;
          phone = o.encrypt_phone (strip body.phone);
          password_hash =
              o.hash_password (if default_password then codes "111111" else body.password);
          is_active = true;
          is_platform_admin = false;
          can_view_full_phone = false;
          must_change_password = default_password;
          token_version = 1;
          version = 1;
        };
        primary_membership = record {
          id = o.membership_id;
          user_id = o.user_id;
          organization_id = unit.id;
          organization_level = unit.level;
          role = elim body.role [ none ↦ "unassigned" | some r ↦ r ];
          is_primary = true;
          active = true;
          valid_from = none;
          valid_to = none;
          version = 1;
        };
        used_default_password = default_password;
      }

  abbrev pub key_row : CreateUserResponse → UserCreateIdempotency
  key_row r = record {
    actor_id = actor.id;
    idempotency_key = key;
    request_hash = o.digest body;
    response = r;
  }

  pub is_taken : List User → Bool
  is_taken users = any (λ u. str_eq (o.normalize u.username) (o.normalize body.username)) users

  -- Whether the rows of the user and of the membership break a unique index.
  pub is_refused : CreateUserResponse → Rows → Bool
  unfolding is_taken
  is_refused r rows =
      is_taken rows.users || elim (flush (rows.members ++ r.primary_membership ∷ [])) [
        | ok ms ↦ false
        | failed e ↦ true
      ]

  -- The commit; its unique index is that of the keys.
  commit : CreateUserResponse → Rows → State → State × Reply
  commit r later s =
      let rows = joined s.rows later in
      elim (find (is_key actor key) rows.keys) [
        | none ↦ (
          record {
            rows = record {
              users = rows.users ++ r.user ∷ [];
              members = rows.members ++ r.primary_membership ∷ [];
              keys = rows.keys ++ key_row r ∷ [];
            };
            events = s.events ++ user_created r.user.id ∷ [];
          },
          created r,
        )
        | some row ↦
            if text_eq row.request_hash (o.digest body)
            then (record s { rows = rows }, replayed row.response)
            else fails "DATABASE_CONFLICT" 409 (record s { rows = rows })
      ]

  -- The flush, whose errors nothing catches, and the commit.
  write : OrganizationUnit → Rows → Rows → State → State × Reply
  unfolding is_taken is_refused response_for commit
  write unit added later s =
      let flushed : State = record s { rows = joined s.rows added } in
      if is_taken s.rows.users
      then fails "USERNAME_CONFLICT" 409 s
      else if is_refused (response_for unit) flushed.rows
      then (flushed, raised)
      else commit (response_for unit) later flushed

  abbrev pub is_allowed : OrganizationUnit → OrganizationContext → Bool
  is_allowed unit c = text_in unit.id (resolve_scope_node_ids c o.units)

  -- The guards on an actor who is not free.
  scoped : Option OrganizationContext → OrganizationUnit → Rows → Rows → State → State × Reply
  unfolding write
  scoped none unit added later s = fails "PERMISSION_DENIED" 403 s
  scoped (some c) unit added later s =
      let go_on = write unit added later s in
      if not (str_eq c.role "admin")
      then fails "PERMISSION_DENIED" 403 s
      else if not (is_allowed unit c)
      then fails "SCOPE_DENIED" 403 s
      else go_on

  guarded : OrganizationUnit → Rows → Rows → State → State × Reply
  unfolding write scoped
  guarded unit added later s =
      if is_free actor then write unit added later s else scoped o.context unit added later s

  in_unit : Rows → Rows → State → State × Reply
  unfolding guarded
  in_unit added later s = elim (get_unit body.organization_id o.units) [
    | none ↦ fails "ORGANIZATION_UNAVAILABLE" 422 s
    | some unit ↦
        if not unit.active
        then fails "ORGANIZATION_UNAVAILABLE" 422 s
        else guarded unit added later s
  ]

  -- `create_user`
  unfoldable pub create_user : Rows → Rows → State → State × Reply
  unfolding is_profile in_unit
  create_user added later s =
      if not (is_profile body)
      then fails "PROFILE_VALIDATION" 422 s
      else if not (is_accepted_password o.weak_values body.password)
      then (s, http 422)
      else elim (find (is_key actor key) s.rows.keys) [
        | none ↦ in_unit added later s
        | some row ↦
            if not (text_eq row.request_hash (o.digest body))
            then fails "IDEMPOTENCY_CONFLICT" 409 s
            else (s, replayed row.response)
      ]
