-- ===== src/Accounts/SignIn/Granted.antt =====
-- What a login grants (`login` of backend/api/auth.py).
use mathlib.Core.List.{Memᴰ}
use sql_rpa.Base.{
  find-has, ℕ, ◌≡◌, ◌<◌, refl, String, Bool, true, false, ◌&&◌, not, Option, none, some, List, ap,
  ◌∙◌, find, ltb, ltb→lt, str_eq, arith, inl, inr, if_elim, Option-cases, find-some,
}
use sql_rpa.Text.{Text}
use sql_rpa.Accounts.{User}
use sql_rpa.Accounts.Tokens.{Payload, create_access_token}
use sql_rpa.Accounts.Session.{Tables}
use sql_rpa.Login.{
  Failures, Redis, login_lock_remaining, record_login_failure, reset_login_failures,
}
use sql_rpa.Accounts.SignIn.{
  LoginEvent, LoginRequest, LoginResponse, Reply, Settings, State, Tenant, admit, enter, entered,
  is_none, login, memberships, no_membership, places, refuse, too_many, unauthorized, unavailable,
}
use sql_rpa.Accounts.SignIn.Entitled.{IsEntitled, entry-IsEntitled}

module _ (normalize : String → String) (verify_password : Text → Text → Bool) (sign : Text → Text)
    (render : Payload → Text) (parse : Text → Option Payload) (settings : Settings)
    (tables : Tables) (tenants : List Tenant) (body : LoginRequest) (asked noted : Redis)
    (now expires_in : ℕ) (failures : Failures) where
  abbrev pub lock : Failures × Option ℕ
  lock = login_lock_remaining settings.production asked now (normalize body.username) failures

  -- A user with the name and the password of the request, who may enter with the answer.
  abbrev pub IsUser : LoginResponse → User → Type 0
  IsUser r user =
      Memᴰ user tables.users
      × ((str_eq (normalize user.username) (normalize body.username) ≡ true)
          × ((user.is_active ≡ true)
              × ((verify_password body.password user.password_hash ≡ true)
                  × ((r.access_token ≡ create_access_token sign render parse now expires_in user)
                      × IsEntitled tables tenants user settings now r.tenant_id r.role))))

  -- An active user with the name and the password of the request.
  abbrev pub IsKnown : User → Type 0
  IsKnown user =
      Memᴰ user tables.users
      × ((str_eq (normalize user.username) (normalize body.username) ≡ true)
          × ((user.is_active ≡ true) × (verify_password body.password user.password_hash ≡ true)))

  -- The failures after an answer, and what made it.
  abbrev pub IsDue : State × Reply → Type 0
  IsDue (s, entered r) =
      ((user : User) × IsUser r user)
      × ((lock.1 ≡ some 0) × (s.failures ≡ reset_login_failures (normalize body.username) lock.0))
  IsDue (s, unauthorized) =
      (lock.1 ≡ some 0)
      × (s.failures ≡ record_login_failure noted now (normalize body.username) lock.0)
  IsDue (s, too_many seconds) = ((lock.1 ≡ some seconds) × (0 < seconds)) × (s.failures ≡ lock.0)
  IsDue (s, no_membership) =
      ((user : User) × (IsKnown user × (user.is_platform_admin ≡ false)))
      × (((settings.multi_tenant_enabled ≡ true) × (lock.1 ≡ some 0)) × (s.failures ≡ lock.0))
  IsDue (s, unavailable) = (lock.1 ≡ none) × (s.failures ≡ lock.0)

  enter-IsDue :
      (user : User) (s : State)
      → s.failures ≡ lock.0
      → lock.1 ≡ some 0
      → Memᴰ user tables.users
      → str_eq (normalize user.username) (normalize body.username) ≡ true
      → user.is_active ≡ true
      → verify_password body.password user.password_hash ≡ true
      → IsDue (
          enter normalize verify_password sign render parse settings tables tenants
            (normalize body.username)
            now
            expires_in
            user
            s)
  unfolding enter
  enter-IsDue user s f free m n a v =
      if_elim IsDue
        (settings.multi_tenant_enabled
          && not user.is_platform_admin
          && is_none (memberships tables tenants user)
          && is_none (places tables user now))
        (λ e. ((user, ((m, (n, (a, v))), unplatformed _ _ _ _ e)), ((ground (arith, e), free), f)))
        (λ e. (
          (user, (m, (n, (a, (v, (refl, entry-IsEntitled tables tenants user settings now e)))))),
          (free, rw f refl),
        ))
    where
      unplatformed : (a b c d : Bool) → (a && not b && c && d) ≡ true → b ≡ false
      unplatformed a b c d e = ground (arith, e)

  admit-IsDue :
      (s : State)
      → s.failures ≡ lock.0
      → lock.1 ≡ some 0
      → IsDue (
          admit normalize verify_password sign render parse settings tables tenants body noted now
            expires_in s)
  unfolding admit refuse
  admit-IsDue s f free =
      let named = λ (u : User). str_eq (normalize u.username) (normalize body.username) in
      elim (Option-cases (find named tables.users)) [
        | inl e ↦ rw (e, admit) (free, rw f refl)
        | inr (user, e) ↦
            rw (e, admit)
              (if_elim IsDue (not user.is_active) (λ _. (free, rw f refl))
                (λ a.
                  if_elim IsDue (not (verify_password body.password user.password_hash))
                    (λ _. (free, rw f refl))
                    (λ v.
                      enter-IsDue user s f free (find-has named tables.users user e)
                        (find-some named tables.users user e) (ground (arith, a))
                        (ground (arith, v)))))
      ]

  -- What a login answers. While the name is locked, or the lock cannot be asked, nobody enters and the
  -- failures stay. Otherwise a wrong name or password, or an account that is not active, is noted as a
  -- failure; and whoever enters is an active user with that name and that password, whose token the
  -- answer holds, and the failures of the name are forgotten. The tenant and the role of the answer are
  -- those of an active and effective membership of the user's own in an active unit, or of an active
  -- membership in an active tenant, or else those of a user without any, whom a service with several
  -- tenants lets in only if she is a platform administrator. Who is refused for want of a membership
  -- is also an active user with that name and that password, and no platform administrator.
  pub login-IsDue :
      (events : List LoginEvent)
      → IsDue (
          login normalize verify_password sign render parse settings tables tenants body asked noted
            now expires_in
            (record { failures = failures; events = events }))
  unfolding login
  login-IsDue events = elim (Option-cases lock.1) [
    | inl e ↦ rw (e, login) (e, refl)
    | inr (seconds, e) ↦
        rw (e, login)
          (if_elim IsDue (ltb 0 seconds) (λ l. ((e, ltb→lt 0 seconds l), refl))
            (λ l.
              admit-IsDue (record { failures = lock.0; events = events }) refl
                (e ∙ ap some (ground (arith, l)))))
  ]
