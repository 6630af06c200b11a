-- ===== src/Accounts.antt =====
-- The accounts of backend/api/auth.py: `update_user`, `change_password` and the password policy.
-- Each handler writes in one transaction; `_lock_platform_admin_mutation` makes those that change
-- `is_active` run one after the other. The encryption of a phone number and the hash of a password
-- are parameters.
pub mod Admins
pub mod Tokens
pub mod Session
pub mod SignIn
pub mod NewUser
mod Tests
use sql_rpa.Base.{
  ℕ, ◌+◌, String, Bool, true, false, ◌&&◌, ◌||◌, not, Option, none, some, List, [], ◌∷◌, ◌==◌, leb,
  ltb, any, find, length, keep, map, str_eq, given, if◌then◌else◌,
}
use sql_rpa.Text.{Text, strip, lower, split, text_eq, text_in}

-- `User`
pub record User : Type 0 where
  pub id : String
  pub username : String
  pub display_name : Text
  pub phone : Option Text
  pub password_hash : Text
  pub is_active : Bool
  pub is_platform_admin : Bool
  pub can_view_full_phone : Bool
  pub must_change_password : Bool
  pub token_version : ℕ
  pub version : ℕ

pub data Reply : Type 0 where
  done : Reply
  http : ℕ → Reply

-- `UpdateUserRequest`; a field that the body leaves out is `none`.
pub record UpdateUserRequest : Type 0 where
  pub display_name : Option Text
  pub phone : Option Text
  pub is_active : Option Bool
  pub can_view_full_phone : Option Bool
  pub version : ℕ

abbrev pub get_user : String → List User → Option User
get_user id users = find (λ u. str_eq u.id id) users

-- The row with an id is written: ids are the primary key.
pub put_user : String → User → List User → List User
put_user id user [] = []
put_user id user (u ∷ users) =
    let rest = put_user id user users in if str_eq u.id id then user ∷ users else u ∷ rest

-- A platform administrator who is active.
abbrev pub is_admin : User → Bool
is_admin u = u.is_platform_admin && u.is_active

abbrev pub count_admins : List User → ℕ
count_admins users = length (keep is_admin users)

-- `body.is_active is False`
abbrev pub removes_admin : UpdateUserRequest → Bool
removes_admin body = elim body.is_active [ none ↦ false | some b ↦ not b ]

abbrev bump : Bool → ℕ → ℕ
bump b n = if b then n + 1 else n

module _ (encrypt_phone : Text → Option Text) where
  -- The row after the writes of `update_user`.
  abbrev pub updated : UpdateUserRequest → User → User
  updated body u = record u {
    display_name = elim body.display_name [ none ↦ u.display_name | some name ↦ strip name ];
    phone = elim body.phone [ none ↦ u.phone | some phone ↦ encrypt_phone phone ];
    is_active = given body.is_active u.is_active;
    token_version = bump (removes_admin body) u.token_version;
    can_view_full_phone = given body.can_view_full_phone u.can_view_full_phone;
    version = u.version + 1;
  }

  -- The guards on the row that was found, and the write.
  update_found : String → UpdateUserRequest → User → List User → List User × Reply
  update_found actor body target users =
      if str_eq target.id actor && removes_admin body
      then (users, http 400)
      else if removes_admin body && is_admin target && leb (count_admins users) 1
      then (users, http 400)
      else if not (target.version == body.version)
      then (users, http 409)
      else (put_user target.id (updated body target) users, done)

  -- `update_user`, behind `require_platform_user_admin`.
  pub update_user : String → String → UpdateUserRequest → List User → List User × Reply
  unfolding update_found
  update_user actor user_id body users = elim (get_user user_id users) [
    | none ↦ (users, http 404)
    | some target ↦ update_found actor body target users
  ]

-- `_validate_new_password`: `weak` is the setting `password_weak_values`.
abbrev is_letter : ℕ → Bool
is_letter c = (leb b'a' c && leb c b'z') || (leb b'A' c && leb c b'Z')

abbrev pub is_digit : ℕ → Bool
is_digit c = leb b'0' c && leb c b'9'

abbrev not_blank : Text → Bool
not_blank [] = false
not_blank (_ ∷ _) = true

pub weak_values : Text → List Text
weak_values weak = keep not_blank (map (λ s. lower (strip s)) (split b',' weak))

pub is_valid_password : Text → Text → Bool
is_valid_password weak password =
    not (ltb (length password) 10)
    && not (text_in (lower password) (weak_values weak))
    && any is_letter password
    && any is_digit password

-- `ChangePasswordRequest`
pub record ChangePasswordRequest : Type 0 where
  pub current_password : Text
  pub new_password : Text
  pub confirm_password : Text

module _ (hash_password : Text → Text) (verify_password : Text → Text → Bool) where
  abbrev pub with_password : Text → User → User
  with_password password u = record u {
    password_hash = hash_password password;
    must_change_password = false;
    token_version = u.token_version + 1;
    version = u.version + 1;
  }

  change_found : ChangePasswordRequest → User → List User → List User × Reply
  change_found body target users =
      if not (verify_password body.current_password target.password_hash)
      then (users, http 400)
      else if verify_password body.new_password target.password_hash
      then (users, http 422)
      else (put_user target.id (with_password body.new_password target) users, done)

  -- `change_password`
  pub change_password : Text → String → ChangePasswordRequest → List User → List User × Reply
  unfolding change_found
  change_password weak user_id body users =
      if not (text_eq body.new_password body.confirm_password)
      then (users, http 422)
      else if not (is_valid_password weak body.new_password)
      then (users, http 422)
      else elim (get_user user_id users) [
        | none ↦ (users, http 400)
        | some target ↦ change_found body target users
      ]
