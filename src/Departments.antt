-- ===== src/Departments.antt =====
-- The handlers of backend/api/departments.py, over backend/organization_service.py and the scope of
-- backend/organization_context.py. Ids of new rows are drawn outside; job titles, the order among
-- siblings and the contents of the answers are left out, but for the token of a switched context.
-- The signature and the JSON of a token are parameters.
pub mod Units
pub mod Rights
pub mod Within
pub mod Switch
mod Tests
use sql_rpa.Base.{
  ℕ, ◌+◌, String, Bool, true, false, ◌&&◌, ◌||◌, not, Option, none, some, List, [], ◌∷◌, ◌++◌, ◌==◌,
  any, find, leb, map, or_empty, str_eq, truthy, given, if◌then◌else◌,
}
use sql_rpa.Text.{Text, strip, text_eq, text_in}
use sql_rpa.Organization.{
  Error, Level, OrganizationUnit, Result, company, create_organization_unit, failed, get_unit,
  integrity_error, is_nonempty, level_eq, move_organization_unit, name_clash, ok, opt_eq,
  org_membership_exists, org_version_conflict,
}
use sql_rpa.Organization.Members.{
  Members, OrganizationMembership, create_organization_membership, disable_membership, get_member,
  set_primary_membership, update,
}
use sql_rpa.Organization.Scope.{
  OrganizationContext, resolve_organization_context, resolve_scope_node_ids,
}
use sql_rpa.Accounts.{User, get_user}
use sql_rpa.Accounts.Session.{Answer, AuthUser, granted, http, require_roles, tenant_mismatch}
use sql_rpa.Accounts.Tokens.{Payload, create_organization_context_token}

-- The types of the events of `_audit`, with the id that each is about.
pub data Event : Type 0 where
  created updated moved disabled context_switched : Text → Event
  membership_created membership_updated primary_changed membership_disabled : String → Event

pub record State : Type 0 where
  pub units : List OrganizationUnit
  pub members : Members
  pub events : List Event

-- The answer; `raised` is an exception that the handler does not catch.
pub data Reply : Type 0 where
  done : Reply
  token : Text → Reply
  refused : ℕ → Reply
  raised : Reply

-- The requests of administrators, with their bodies and the ids that are drawn.
pub data Change : Type 0 where
  creates_unit : Text → Text → Level → Option Text → Change
  updates_unit moves_unit : Text → Text → ℕ → Change
  disables_unit : Text → Change
  adds_membership : Text → String → String → Option String → Option ℕ → Option ℕ → Change
  updates_membership : String → Option String → Option ℕ → Option ℕ → ℕ → Change
  sets_primary : String → Change
  disables_member : String → Option String → Change

abbrev pub visible : State → OrganizationContext → List Text
visible s c = resolve_scope_node_ids c s.units

abbrev is_visible : Option Text → List Text → Bool
is_visible none ids = false
is_visible (some id) ids = text_in id ids

-- `_organization_error`, and an error of the flush that is not caught.
pub organization_error : Error → Reply
organization_error org_version_conflict = refused 409
organization_error org_membership_exists = refused 409
organization_error integrity_error = raised
organization_error _ = refused 422

abbrev create_error : Error → Reply
create_error e = elim e [ integrity_error ↦ refused 409 | other ↦ organization_error other ]

abbrev with_units : State → Event → (Error → Reply) → Result (List OrganizationUnit) → State × Reply
with_units s e error (ok units) = (record s { units = units; events = s.events ++ e ∷ [] }, done)
with_units s e error (failed code) = (s, error code)

abbrev with_members : State → Event → Result Members → State × Reply
with_members s e (ok ms) = (record s { members = ms; events = s.events ++ e ∷ [] }, done)
with_members s e (failed code) = (s, organization_error code)

-- `_context_or_400`
abbrev with_context :
    Option OrganizationContext → State → (OrganizationContext → State × Reply) → State × Reply
with_context none s k = (s, refused 400)
with_context (some c) s k = k c

-- `create_unit`
pub create_unit :
    Option OrganizationContext → Text → Text → Level → Option Text → State → State × Reply
create_unit context id name level parent_id s =
    let result =
      with_units s (created id) create_error
        (create_organization_unit id name level parent_id s.units) in
    if level_eq level company
    then elim context [ some c ↦ (s, refused 403) | none ↦ result ]
    else with_context context s
        (λ c. if not (is_visible parent_id (visible s c)) then (s, refused 403) else result)

abbrev pub renamed : Text → OrganizationUnit → OrganizationUnit
renamed name u = record u { name = strip name; context_version = u.context_version + 1 }

-- `update_unit` on the row that was found; the commit may break a unique index.
rename_found : Text → ℕ → Option OrganizationUnit → State → State × Reply
rename_found name version none s = (s, refused 409)
rename_found name version (some u) s =
    if not (u.context_version == version)
    then (s, refused 409)
    else if not (is_nonempty (strip name))
    then (s, refused 422)
    else if any (λ v. not (text_eq v.id u.id) && name_clash (renamed name u) v) s.units
    then (s, refused 409)
    else with_units s (updated u.id) organization_error
        (ok (map (λ v. if text_eq v.id u.id then renamed name u else v) s.units))

pub update_unit : OrganizationContext → Text → Text → ℕ → State → State × Reply
unfolding rename_found
update_unit c unit_id name version s =
    if not (text_in unit_id (visible s c))
    then (s, refused 403)
    else rename_found name version (get_unit unit_id s.units) s

-- `move_unit`
pub move_unit : OrganizationContext → Text → Text → ℕ → State → State × Reply
move_unit c unit_id parent_id version s =
    if not (text_in unit_id (visible s c)) || not (text_in parent_id (visible s c))
    then (s, refused 403)
    else with_units s (moved unit_id) organization_error
        (move_organization_unit unit_id parent_id version s.units)

abbrev pub closed : OrganizationUnit → OrganizationUnit
closed u = record u { active = false; context_version = u.context_version + 1 }

-- `disable_unit`
pub disable_unit : OrganizationContext → Text → State → State × Reply
disable_unit c unit_id s =
    if not (text_in unit_id (visible s c)) || text_eq unit_id c.organization_id
    then (s, refused 403)
    else if any (λ u. opt_eq u.parent_id (some unit_id) && u.active) s.units
        || any (λ m. text_eq m.organization_id unit_id && m.active) s.members
    then (s, refused 409)
    else elim (get_unit unit_id s.units) [
      | none ↦ (s, refused 403)
      | some u ↦
          with_units s (disabled unit_id) organization_error
            (ok (map (λ v. if text_eq v.id unit_id then closed v else v) s.units))
    ]

-- `body.role or "unassigned"`
abbrev assigned : Option String → String
assigned role = if truthy (or_empty role) then or_empty role else "unassigned"

-- `add_membership`; `users` says which users are active.
pub add_membership :
    (String → Bool)
    → ℕ
    → OrganizationContext
    → Text
    → String
    → String
    → Option String
    → Option ℕ
    → Option ℕ
    → State
    → State × Reply
add_membership users now c unit_id id user_id role valid_from valid_to s =
    if not (text_in unit_id (visible s c))
    then (s, refused 403)
    else with_members s (membership_created id) (
        create_organization_membership users s.units now id user_id unit_id (assigned role)
          valid_from valid_to s.members)

-- `body.valid_from and body.valid_to and body.valid_to <= body.valid_from`
abbrev is_empty_period : Option ℕ → Option ℕ → Bool
is_empty_period (some from) (some to) = leb to from
is_empty_period _ _ = false

abbrev pub rewritten :
    Option String → Option ℕ → Option ℕ → OrganizationMembership → OrganizationMembership
rewritten role valid_from valid_to m = record m {
  role = given role m.role;
  valid_from = valid_from;
  valid_to = valid_to;
  version = m.version + 1;
}

-- The guard on the membership that three handlers start from.
abbrev with_member :
    OrganizationContext → String → State → (OrganizationMembership → State × Reply) → State × Reply
with_member c id s k = elim (get_member id s.members) [
  | none ↦ (s, refused 403)
  | some m ↦ if not (text_in m.organization_id (visible s c)) then (s, refused 403) else k m
]

-- `update_membership`
pub update_membership :
    OrganizationContext → String → Option String → Option ℕ → Option ℕ → ℕ → State → State × Reply
update_membership c id role valid_from valid_to version s = with_member c id s (λ m.
    if not (m.version == version)
    then (s, refused 409)
    else if is_empty_period valid_from valid_to
    then (s, refused 422)
    else with_members s (membership_updated id)
        (ok (update id (rewritten role valid_from valid_to) s.members)))

-- `set_primary`
pub set_primary : ℕ → OrganizationContext → String → State → State × Reply
set_primary now c id s =
    with_member c id s
      (λ m. with_members s (primary_changed id) (set_primary_membership now id s.members))

-- `disable_member`
pub disable_member : ℕ → OrganizationContext → String → Option String → State → State × Reply
disable_member now c id replacement s =
    with_member c id s (λ m.
      with_members s (membership_disabled id) (disable_membership now id replacement s.members))

module _ (sign : Text → Text) (render : Payload → Text) (parse : Text → Option Payload)
    (users : List User) (now : ℕ) where
  -- `switch_context`; the token holds for 900 seconds.
  pub switch_context : AuthUser → String → State → State × Reply
  switch_context actor id s = elim (get_member id s.members) [
    | none ↦ (s, refused 403)
    | some m ↦
        elim (resolve_organization_context now actor.id m.organization_id m.id s.members s.units) [
          | none ↦ (s, refused 403)
          | some c ↦ elim (get_user actor.id users) [
            | none ↦ (s, raised)
            | some user ↦ (
              record s { events = s.events ++ context_switched c.organization_id ∷ [] },
              token (create_organization_context_token sign render parse now 900 user c),
            )
          ]
        ]
  ]

module _ (users : List User) (now : ℕ) where
  abbrev is_active : String → Bool
  is_active id = elim (get_user id users) [ none ↦ false | some u ↦ u.is_active ]

  change : Option OrganizationContext → Change → State → State × Reply
  unfolding create_unit update_unit move_unit disable_unit add_membership update_membership
      set_primary disable_member
  change context (creates_unit id name level parent_id) s =
      create_unit context id name level parent_id s
  change context (updates_unit id name version) s =
      with_context context s (λ c. update_unit c id name version s)
  change context (moves_unit id parent_id version) s =
      with_context context s (λ c. move_unit c id parent_id version s)
  change context (disables_unit id) s = with_context context s (λ c. disable_unit c id s)
  change context (adds_membership unit_id id user_id role from to) s =
      with_context context s (λ c. add_membership is_active now c unit_id id user_id role from to s)
  change context (updates_membership id role from to version) s =
      with_context context s (λ c. update_membership c id role from to version s)
  change context (sets_primary id) s = with_context context s (λ c. set_primary now c id s)
  change context (disables_member id replacement) s =
      with_context context s (λ c. disable_member now c id replacement s)

  -- The handlers that change rows, behind `require_roles("admin")`.
  pub handle : Bool → AuthUser → Change → State → State × Reply
  unfolding change
  handle auth_enabled actor call s = elim (require_roles ("admin" ∷ []) auth_enabled actor) [
    | granted u ↦ change u.organization call s
    | http n ↦ (s, refused n)
    | tenant_mismatch id ↦ (s, refused 403)
  ]
