-- ===== src/Accounts/NewUser/Replayed.antt =====
-- What a created user shows (`create_user` of backend/api/auth.py).
use sql_rpa.Base.{
  ◌≡◌, refl, String, true, not, Option, none, some, List, [], ◌∷◌, ◌++◌, ◌⊎◌, ◌∙◌, arith, inl, inr,
  if_elim, Option-cases, eq_iff, find, find-append-none, str_eq,
}
use sql_rpa.Text.{Text, text_eq, text_eq_iff, text_in}
use sql_rpa.Organization.{OrganizationUnit, get_unit}
use sql_rpa.Organization.Scope.{OrganizationContext, resolve_scope_node_ids}
use sql_rpa.Accounts.Session.{AuthUser}
use sql_rpa.Accounts.NewUser.{
  CreateUserRequest, CreateUserResponse, Outside, Reply, Rows, State, commit, create_user, created,
  guarded, http, in_unit, is_accepted_password, is_allowed, is_free, is_key, is_profile, is_refused,
  is_taken, joined, key_row, raised, replayed, response_for, scoped, write,
}

module _ (o : Outside) (actor : AuthUser) (key : String) (body : CreateUserRequest) where
  -- The actor may give users to a unit: a platform administrator or the user of the development, or an
  -- administrator whose scope has the unit.
  abbrev pub MayPlace : Text → Type 0
  MayPlace unit_id =
      (is_free actor ≡ true)
      ⊎ ((c : OrganizationContext) × ((o.context ≡ some c)
            × ((str_eq c.role "admin" ≡ true)
                × (text_in unit_id (resolve_scope_node_ids c o.units) ≡ true))))

  abbrev IsKept : State × Reply → Type 0
  IsKept (s, created r) =
      (find (is_key actor key) s.rows.keys ≡ some (key_row o actor key body r))
      × MayPlace r.primary_membership.organization_id
  IsKept (s, replayed r) = Unit
  IsKept (s, http n) = Unit
  IsKept (s, raised) = Unit

  is_key-row :
      (r : CreateUserResponse)
      → find (is_key actor key) (key_row o actor key body r ∷ [])
        ≡ some (key_row o actor key body r)
  is_key-row r = rw ((eq_iff actor.id actor.id).1 refl, (eq_iff key key).1 refl) refl

  commit-IsKept :
      (r : CreateUserResponse) (later : Rows) (s : State)
      → MayPlace r.primary_membership.organization_id
      → IsKept (commit o actor key body r later s)
  unfolding commit
  commit-IsKept r later s may =
      elim (Option-cases (find (is_key actor key) (s.rows.keys ++ later.keys))) [
        | inl e ↦
            rw (e, commit)
              (
                find-append-none (is_key actor key) (s.rows.keys ++ later.keys)
                      (key_row o actor key body r ∷ []) e
                    ∙ is_key-row r,
                may,
              )
        | inr (row, e) ↦
            rw (e, commit)
              (if_elim IsKept (text_eq row.request_hash (o.digest body)) (λ _. tt) (λ _. tt))
      ]

  write-IsKept :
      (unit : OrganizationUnit) (added later : Rows) (s : State)
      → MayPlace unit.id
      → IsKept (write o actor key body unit added later s)
  unfolding write response_for
  write-IsKept unit added later s may =
      let flushed : State = record s { rows = joined s.rows added } in
      if_elim IsKept (is_taken o actor key body s.rows.users) (λ _. tt)
        (λ _.
          if_elim IsKept
            (is_refused o actor key body (response_for o actor key body unit) flushed.rows)
            (λ _. tt) (λ _. commit-IsKept (response_for o actor key body unit) later flushed may))

  scoped-IsKept :
      (context : Option OrganizationContext) (unit : OrganizationUnit) (added later : Rows)
      (s : State)
      → o.context ≡ context
      → IsKept (scoped o actor key body context unit added later s)
  unfolding scoped
  scoped-IsKept none unit added later s e = tt
  scoped-IsKept (some c) unit added later s e =
      if_elim IsKept (not (str_eq c.role "admin")) (λ _. tt)
        (λ a.
          if_elim IsKept (not (is_allowed o actor key body unit c)) (λ _. tt)
            (λ b.
              write-IsKept unit added later s
                (inr (c, (e, (ground (arith, a), ground (arith, b)))))))

  guarded-IsKept :
      (unit : OrganizationUnit) (added later : Rows) (s : State)
      → IsKept (guarded o actor key body unit added later s)
  unfolding guarded
  guarded-IsKept unit added later s =
      if_elim IsKept (is_free actor) (λ e. write-IsKept unit added later s (inl e))
        (λ _. scoped-IsKept o.context unit added later s refl)

  in_unit-IsKept :
      (added later : Rows) (s : State) → IsKept (in_unit o actor key body added later s)
  unfolding in_unit
  in_unit-IsKept added later s = elim (Option-cases (get_unit body.organization_id o.units)) [
    | inl e ↦ rw (e, in_unit) tt
    | inr (unit, e) ↦
        rw (e, in_unit)
          (if_elim IsKept (not unit.active) (λ _. tt) (λ _. guarded-IsKept unit added later s))
  ]

  abbrev pub again : String → String → Option OrganizationContext → List OrganizationUnit → Outside
  again user_id membership_id context units = record o {
    user_id = user_id;
    membership_id = membership_id;
    context = context;
    units = units;
  }

  -- The same request to a state gives the answer of a first one.
  abbrev pub Replays : State → CreateUserResponse → Type 0
  Replays s r =
      (user_id membership_id : String) (context : Option OrganizationContext)
      (units : List OrganizationUnit) (added later : Rows)
      → create_user (again user_id membership_id context units) actor key body added later s
        ≡ (s, replayed r)

  abbrev IsDue : State × Reply → Type 0
  IsDue (s, created r) = MayPlace r.primary_membership.organization_id × Replays s r
  IsDue (s, replayed r) = Unit
  IsDue (s, http n) = Unit
  IsDue (s, raised) = Unit

  row-Replays :
      (s : State) (r : CreateUserResponse)
      → is_profile body ≡ true
      → is_accepted_password o.weak_values body.password ≡ true
      → find (is_key actor key) s.rows.keys ≡ some (key_row o actor key body r)
      → Replays s r
  unfolding create_user
  row-Replays s r fit accepted e user_id membership_id context units added later =
      rw (fit, accepted, e, (text_eq_iff (o.digest body) (o.digest body)).1 refl) refl

  IsKept-IsDue :
      (x : State × Reply)
      → is_profile body ≡ true
      → is_accepted_password o.weak_values body.password ≡ true
      → IsKept x
      → IsDue x
  IsKept-IsDue (s, created r) fit accepted (e, may) = (may, row-Replays s r fit accepted e)
  IsKept-IsDue (s, replayed r) fit accepted k = tt
  IsKept-IsDue (s, http n) fit accepted k = tt
  IsKept-IsDue (s, raised) fit accepted k = tt

  create_user-IsDue :
      (added later : Rows) (s : State) → IsDue (create_user o actor key body added later s)
  unfolding create_user
  create_user-IsDue added later s =
      if_elim IsDue (not (is_profile body)) (λ _. tt)
        (λ p.
          if_elim IsDue (not (is_accepted_password o.weak_values body.password)) (λ _. tt)
            (λ a. elim (Option-cases (find (is_key actor key) s.rows.keys)) [
              | inl f ↦ rw f (
                  IsKept-IsDue (in_unit o actor key body added later s) (ground (arith, p))
                    (ground (arith, a)) (in_unit-IsKept added later s))
              | inr (row, f) ↦ rw f (
                  if_elim IsDue (not (text_eq row.request_hash (o.digest body))) (λ _. tt)
                    (λ _. tt))
            ]))

  created-IsDue :
      (x : State × Reply) (r : CreateUserResponse)
      → IsDue x
      → x.1 ≡ created r
      → MayPlace r.primary_membership.organization_id × Replays x.0 r
  created-IsDue (s, reply) r due e = rw e at due

  -- A user is created by a platform administrator, the user of the development, or an administrator in
  -- whose scope the unit is. Afterwards the same request with the same key is answered with the same
  -- user and changes nothing, whatever the context and the units are then.
  pub create_user-Replays :
      (added later : Rows) (s : State) (r : CreateUserResponse)
      → (create_user o actor key body added later s).1 ≡ created r
      → MayPlace r.primary_membership.organization_id
        × Replays (create_user o actor key body added later s).0 r
  create_user-Replays added later s r e =
      created-IsDue (create_user o actor key body added later s) r (create_user-IsDue added later s)
        e
