-- ===== src/Departments/Within.antt =====
-- The handlers of backend/api/departments.py and the scope of the administrator.
use sql_rpa.Base.{
  ℕ, ◌≡◌, refl, sym, subst, ◌⊎◌, String, Bool, false, ◌&&◌, not, Option, none, some, List, [], ◌∷◌,
  arith, Bool-cases, inl, inr, str_eq, str_in, eq_iff,
}
use sql_rpa.Text.{Text}
use sql_rpa.Organization.{Level}
use sql_rpa.Organization.Scope.{OrganizationContext}
use sql_rpa.Accounts.{User}
use sql_rpa.Accounts.Session.{AuthUser, require_roles}
use sql_rpa.Departments.{
  Change, Reply, State, add_membership, adds_membership, change, create_unit, creates_unit,
  disable_member, disable_unit, disables_member, disables_unit, handle, is_active, move_unit,
  moves_unit, refused, rename_found, set_primary, sets_primary, update_membership, update_unit,
  updates_membership, updates_unit,
}
use sql_rpa.Departments.Rights.{IsKeyed}
use sql_rpa.Departments.Rights
use sql_rpa.Departments.Units.{ids_of}
use sql_rpa.Departments.Units

name_sym : (x y : String) → str_eq x y ≡ str_eq y x
name_sym x y = grind (arith, (eq_iff x y).0, (eq_iff x y).1, (eq_iff y x).0, (eq_iff y x).1)

module _ (s : State) where
  abbrev SameUnits : State × Reply → Type 0
  SameUnits x = x.0.units ≡ s.units

  abbrev SameMembers : State × Reply → Type 0
  SameMembers x = x.0.members ≡ s.members

  -- The units and the memberships after a handler, for the scope of a request.
  abbrev pub IsWithin : Option OrganizationContext → State × Reply → Type 0
  IsWithin context x =
      Units.AreChanged s.units (ids_of context s) context s.units x.0.units
      × Rights.AreChanged (ids_of context s) s.members x.0.members

  units-IsWithin :
      (context : Option OrganizationContext) (x : State × Reply)
      → Units.IsKept s context x
      → SameMembers x
      → IsWithin context x
  units-IsWithin context x h e = (
    h,
    subst (Rights.AreChanged (ids_of context s) s.members) (sym e)
        (Rights.same-AreChanged (ids_of context s) s.members),
  )

  members-IsWithin :
      (c : OrganizationContext) (x : State × Reply)
      → Rights.IsKept s c x
      → SameUnits x
      → IsWithin (some c) x
  members-IsWithin c x h e = (
    subst (Units.AreChanged s.units (ids_of (some c) s) (some c) s.units) (sym e)
        (Units.same-AreChanged s.units (ids_of (some c) s) (some c) s.units),
    h,
  )

  same-IsWithin :
      (context : Option OrganizationContext) (reply : Reply) → IsWithin context (s, reply)
  same-IsWithin context reply = (
    Units.same-AreChanged s.units (ids_of context s) context s.units,
    Rights.same-AreChanged (ids_of context s) s.members,
  )

  create_unit-SameMembers :
      (context : Option OrganizationContext) (id name : Text) (level : Level)
      (parent_id : Option Text)
      → SameMembers (create_unit context id name level parent_id s)
  unfolding create_unit
  create_unit-SameMembers none id name level parent_id = ground arith
  create_unit-SameMembers (some c) id name level parent_id = ground arith

  module _ (users : List User) (now : ℕ) (keyed : IsKeyed s.members) where
    -- In a request with an organization, by the kind of the change.
    context-IsWithin :
        (c : OrganizationContext) (call : Change)
        → IsWithin (some c) (change users now (some c) call s)
    unfolding change update_unit rename_found move_unit disable_unit add_membership
        update_membership set_primary disable_member
    context-IsWithin c (creates_unit id name level parent_id) =
        units-IsWithin (some c) (create_unit (some c) id name level parent_id s)
          (Units.create_unit-IsKept s (some c) id name level parent_id)
          (create_unit-SameMembers (some c) id name level parent_id)
    context-IsWithin c (updates_unit id name version) =
        units-IsWithin (some c) (update_unit c id name version s)
          (Units.update_unit-IsKept s c id name version) (ground arith)
    context-IsWithin c (moves_unit id parent_id version) =
        units-IsWithin (some c) (move_unit c id parent_id version s)
          (Units.move_unit-IsKept s c id parent_id version) (ground arith)
    context-IsWithin c (disables_unit id) =
        units-IsWithin (some c) (disable_unit c id s) (Units.disable_unit-IsKept s c id)
          (ground arith)
    context-IsWithin c (adds_membership unit_id id user_id role from to) =
        members-IsWithin c
          (add_membership (is_active users now) now c unit_id id user_id role from to s)
          (Rights.add_membership-IsKept s c (is_active users now) now unit_id id user_id role from
            to)
          (ground arith)
    context-IsWithin c (updates_membership id role from to version) =
        members-IsWithin c (update_membership c id role from to version s)
          (Rights.update_membership-IsKept s c keyed id role from to version) (ground arith)
    context-IsWithin c (sets_primary id) =
        members-IsWithin c (set_primary now c id s) (Rights.set_primary-IsKept s c keyed now id)
          (ground arith)
    context-IsWithin c (disables_member id replacement) =
        members-IsWithin c (disable_member now c id replacement s)
          (Rights.disable_member-IsKept s c keyed now id replacement) (ground arith)

    change-IsWithin :
        (context : Option OrganizationContext) (call : Change)
        → IsWithin context (change users now context call s)
    unfolding change
    change-IsWithin (some c) call = context-IsWithin c call
    change-IsWithin none (creates_unit id name level parent_id) =
        units-IsWithin none (create_unit none id name level parent_id s)
          (Units.create_unit-IsKept s none id name level parent_id)
          (create_unit-SameMembers none id name level parent_id)
    change-IsWithin none (updates_unit id name version) = same-IsWithin none (refused 400)
    change-IsWithin none (moves_unit id parent_id version) = same-IsWithin none (refused 400)
    change-IsWithin none (disables_unit id) = same-IsWithin none (refused 400)
    change-IsWithin none (adds_membership unit_id id user_id role from to) =
        same-IsWithin none (refused 400)
    change-IsWithin none (updates_membership id role from to version) =
        same-IsWithin none (refused 400)
    change-IsWithin none (sets_primary id) = same-IsWithin none (refused 400)
    change-IsWithin none (disables_member id replacement) = same-IsWithin none (refused 400)

    -- What a request that changes the organization does, whether it goes through or fails. No unit and
    -- no membership is deleted. A unit outside the scope of the administrator stays as it is, but that
    -- it may be carried along, in its path, depth and version, with a unit of the scope that it is
    -- below; a new unit is below one of the scope, or a company, which only a request without an
    -- organization makes. A membership outside the scope keeps its user, unit, role, period and
    -- activity: only its mark as the primary one and its version may change. New memberships are in
    -- the scope, and none leaves it. A user without the role, where roles are
    -- checked, is refused and changes nothing. The memberships before have different ids.
    pub handle-IsWithin :
        (auth_enabled : Bool) (actor : AuthUser) (call : Change)
        → IsWithin actor.organization (handle users now auth_enabled actor call s)
          × ((auth_enabled && not (str_eq actor.role "admin") ≡ false)
              ⊎ (handle users now auth_enabled actor call s ≡ (s, refused 403)))
    unfolding handle require_roles
    handle-IsWithin auth_enabled actor call =
        let role-same = name_sym "admin" actor.role in
        elim (Bool-cases (
          auth_enabled
          && not (str_in actor.role ("admin" ∷ []))
          && not (str_eq actor.role "admin"))) [
            | inl e ↦ rw (e, handle) (same-IsWithin actor.organization (refused 403), inr refl)
            | inr e ↦
                rw (e, handle)
                  (change-IsWithin actor.organization call, inl (ground (arith, e, role-same)))
          ]
