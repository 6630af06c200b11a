-- ===== src/Accounts/Admins.antt =====
-- At least one active platform administrator remains, whatever the handlers of accounts do.
use mathlib.Core.Option.{some_inj}
use sql_rpa.Base.{
  ◌+◌, ◌≤◌, ◌<◌, ◌≡◌, refl, String, Bool, true, false, ◌&&◌, not, Option, none, some, List, [], ◌∷◌,
  ◌==◌, leb, str_eq, eq_iff, arith, subst, sym, ap, ◌∙◌, ◌++◌, Bool-cases, given, inl, inr,
}
use sql_rpa.Text.{Text, text_eq}
use sql_rpa.Accounts.{
  User, Reply, http, UpdateUserRequest, get_user, put_user, is_admin, count_admins, removes_admin,
  updated, update_found, update_user, ChangePasswordRequest, with_password, change_found,
  change_password, is_valid_password,
}

-- One row counts for at most one administrator.
put_user-count :
    (id : String) (new : User) (users : List User)
    → count_admins users ≤ count_admins (put_user id new users) + 1
unfolding put_user
put_user-count id new [] = omega arith
put_user-count id new (u ∷ users) = ground (arith, put_user-count id new users)

-- A row that stays an administrator if it was one.
put_user-keeps :
    (id : String) (old new : User) (users : List User)
    → get_user id users ≡ some old
    → (is_admin old ≡ true → is_admin new ≡ true)
    → count_admins users ≤ count_admins (put_user id new users)
unfolding put_user
put_user-keeps id old new [] e k = omega arith
put_user-keeps id old new (u ∷ users) e k = elim (Bool-cases (str_eq u.id id)) [
  | inl hit ↦ rw hit (
      same
        (subst (λ x. is_admin x ≡ true → is_admin new ≡ true) (sym (some_inj.0 (rw hit at e))) k))
  | inr miss ↦ rw miss (ground (arith, put_user-keeps id old new users (rw miss at e) k))
]
  where
    same :
        (is_admin u ≡ true → is_admin new ≡ true)
        → count_admins (u ∷ users) ≤ count_admins (new ∷ users)
    same h = elim (Bool-cases (is_admin u)) [
      | inl a ↦ rw (a, h a) (omega arith)
      | inr n ↦ elim (Bool-cases (is_admin new)) [
        | inl b ↦ rw (n, b) (omega arith)
        | inr b ↦ rw (n, b) (omega arith)
      ]
    ]

get_user-id : (id : String) (users : List User) (u : User) → get_user id users ≡ some u → u.id ≡ id
get_user-id id [] u e = absurd (ground (arith, e))
get_user-id id (v ∷ users) u e = elim (Bool-cases (str_eq v.id id)) [
  | inl hit ↦ sym (ap User.id (some_inj.0 (rw hit at e))) ∙ (eq_iff v.id id).0 hit
  | inr miss ↦ get_user-id id users u (rw miss at e)
]

module _ (encrypt_phone : Text → Option Text) where
  -- Unless the request takes the rights of an active administrator, the row stays one.
  updated-is_admin :
      (body : UpdateUserRequest) (u : User)
      → removes_admin body ≡ false
      → is_admin u ≡ true
      → is_admin (updated encrypt_phone body u) ≡ true
  updated-is_admin body u r a = go body.is_active r
    where
      go :
          (active : Option Bool)
          → (elim active as (λ _. Bool) [ none ↦ false | some b ↦ not b ]) ≡ false
          → (u.is_platform_admin && given active u.is_active) ≡ true
      go none r = a
      go (some true) r = ground (arith, a)
      go (some false) r = absurd (ground (arith, r))

  -- The write, once the guards are passed.
  written-count :
      (id : String) (body : UpdateUserRequest) (target : User) (users : List User)
      → get_user id users ≡ some target
      → (removes_admin body && is_admin target && leb (count_admins users) 1) ≡ false
      → 0 < count_admins users
      → 0 < count_admins (put_user id (updated encrypt_phone body target) users)
  written-count id body target users e g h = elim (Bool-cases (removes_admin body)) [
    | inr keeps ↦ omega (
      arith,
      h,
      put_user-keeps id target (updated encrypt_phone body target) users e
          (updated-is_admin body target keeps),
    )
    | inl removes ↦ elim (Bool-cases (is_admin target)) [
      | inr plain ↦ omega (
        arith,
        h,
        put_user-keeps id target (updated encrypt_phone body target) users e
            (λ a. absurd (ground (arith, a, plain))),
      )
      | inl admin ↦
          let more : leb (count_admins users) 1 ≡ false = last _ _ _ removes admin g in
          ground (arith, more, put_user-count id (updated encrypt_phone body target) users)
    ]
  ]
    where
      last : (a b c : Bool) → a ≡ true → b ≡ true → (a && b && c) ≡ false → c ≡ false
      last a b c e f g = ground (arith, e, f, g)

  found-count :
      (actor id : String) (body : UpdateUserRequest) (target : User) (users : List User)
      → get_user id users ≡ some target
      → 0 < count_admins users
      → 0 < count_admins (update_found encrypt_phone actor body target users).0
  unfolding update_found
  found-count actor id body target users e h =
      elim (Bool-cases (str_eq target.id actor && removes_admin body)) [
        | inl own ↦ rw own h
        | inr other ↦
            elim (Bool-cases
              (removes_admin body && is_admin target && leb (count_admins users) 1)) [
                | inl last ↦ rw (other, last) h
                | inr more ↦ elim (Bool-cases (target.version == body.version)) [
                  | inr stale ↦ rw (other, more, stale) h
                  | inl fresh ↦
                      rw (other, more, fresh)
                        (subst
                          (λ k.
                            0 < count_admins (put_user k (updated encrypt_phone body target) users))
                          (sym (get_user-id id users target e))
                          (written-count id body target users e more h))
                ]
              ]
      ]

  update_user-count :
      (actor id : String) (body : UpdateUserRequest) (users : List User)
      → 0 < count_admins users
      → 0 < count_admins (update_user encrypt_phone actor id body users).0
  unfolding update_user
  update_user-count actor id body users h = go (get_user id users) refl
    where
      go :
          (found : Option User)
          → get_user id users ≡ found
          → 0
            < count_admins
                (elim found as (λ _. List User × Reply) [
                  | none ↦ (users, http 404)
                  | some target ↦ update_found encrypt_phone actor body target users
                ]).0
      go none e = h
      go (some target) e = found-count actor id body target users e h

module _ (hash_password : Text → Text) (verify_password : Text → Text → Bool) where
  change_found-count :
      (id : String) (body : ChangePasswordRequest) (target : User) (users : List User)
      → get_user id users ≡ some target
      → 0 < count_admins users
      → 0 < count_admins (change_found hash_password verify_password body target users).0
  unfolding change_found
  change_found-count id body target users e h =
      elim (Bool-cases (verify_password body.current_password target.password_hash)) [
        | inr wrong ↦ rw wrong h
        | inl right ↦ elim (Bool-cases (verify_password body.new_password target.password_hash)) [
          | inl reused ↦ rw (right, reused) h
          | inr new ↦
              let row = with_password hash_password verify_password body.new_password target in
              rw (right, new)
                (subst (λ k. 0 < count_admins (put_user k row users))
                  (sym (get_user-id id users target e))
                  (omega (arith, h, put_user-keeps id target row users e (λ a. a))))
        ]
      ]

  change_password-count :
      (weak : Text) (id : String) (body : ChangePasswordRequest) (users : List User)
      → 0 < count_admins users
      → 0 < count_admins (change_password hash_password verify_password weak id body users).0
  unfolding change_password
  change_password-count weak id body users h =
      elim (Bool-cases (text_eq body.new_password body.confirm_password)) [
        | inr differ ↦ rw differ h
        | inl same ↦ elim (Bool-cases (is_valid_password weak body.new_password)) [
          | inr invalid ↦ rw (same, invalid) h
          | inl valid ↦ rw (same, valid) (go (get_user id users) refl)
        ]
      ]
    where
      go :
          (found : Option User)
          → get_user id users ≡ found
          → 0
            < count_admins
                (elim found as (λ _. List User × Reply) [
                  | none ↦ (users, http 400)
                  | some target ↦ change_found hash_password verify_password body target users
                ]).0
      go none e = h
      go (some target) e = change_found-count id body target users e h

-- The requests that write accounts: those of `update_user` and `change_password`, and the row that
-- `create_user` adds.
pub data Request : Type 0 where
  updates : String → String → UpdateUserRequest → Request
  changes : String → ChangePasswordRequest → Request
  creates : User → Request

module _ (encrypt_phone : Text → Option Text) (hash_password : Text → Text)
    (verify_password : Text → Text → Bool) (weak : Text) where
  pub handle : Request → List User → List User
  handle (updates actor id body) users = (update_user encrypt_phone actor id body users).0
  handle (changes id body) users =
      (change_password hash_password verify_password weak id body users).0
  handle (creates user) users = users ++ user ∷ []

  pub handle_all : List Request → List User → List User
  handle_all [] users = users
  handle_all (r ∷ rs) users = handle_all rs (handle r users)

  handle-count :
      (r : Request) (users : List User) → 0 < count_admins users → 0 < count_admins (handle r users)
  unfolding handle
  handle-count (updates actor id body) users h =
      update_user-count encrypt_phone actor id body users h
  handle-count (changes id body) users h =
      change_password-count hash_password verify_password weak id body users h
  handle-count (creates user) users h = more users h
    where
      more : (users : List User) → 0 < count_admins users → 0 < count_admins (users ++ user ∷ [])
      more [] h = absurd (omega arith)
      more (u ∷ users) h = elim (Bool-cases (is_admin u)) [
        | inl e ↦ rw e (omega arith)
        | inr e ↦ rw e (more users (rw e at h))
      ]

  -- From accounts with an active platform administrator, after any updates of users, changes of
  -- passwords and creations, by whomever and refused or not, there is still one.
  pub handle_all-count :
      (rs : List Request) (users : List User)
      → 0 < count_admins users
      → 0 < count_admins (handle_all rs users)
  unfolding handle_all
  handle_all-count [] users h = h
  handle_all-count (r ∷ rs) users h = handle_all-count rs (handle r users) (handle-count r users h)
