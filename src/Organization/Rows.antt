-- ===== src/Organization/Rows.antt =====
-- The rows that the operations on the tree add and write.
use sql_rpa.Base.{
  ℕ, ◌≡◌, refl, ap, true, false, ◌&&◌, ◌||◌, not, Option, none, some, List, [], ◌∷◌, ◌++◌, ◌==◌,
  Option-cases, any, find-some, if_elim, inl, inr, arith, map, if◌then◌else◌,
}
use sql_rpa.Text.{Text, strip, text_eq, text_eq_iff}
use sql_rpa.Organization.{
  Level, OrganizationUnit, Result, add_unit, company, create_child, create_company,
  create_organization_unit, create_under, failed, get_active, get_unit, is_below, is_child_level,
  is_nonempty, level_eq, move_found, move_from, move_organization_unit, move_to, moved, moved_unit,
  name_clash, new_child, new_company, ok, org_name_required,
}

abbrev pub Yields : (List OrganizationUnit → Type 0) → Result (List OrganizationUnit) → Type 0
Yields P (ok units) = P units
Yields P (failed e) = Unit

-- A unit is added behind the others, below a parent.
abbrev pub IsAdded : Option Text → List OrganizationUnit → List OrganizationUnit → Type 0
IsAdded parent_id units vs =
    (v : OrganizationUnit) × ((v.parent_id ≡ parent_id) × (vs ≡ units ++ v ∷ []))

add_unit-Yields :
    (v : OrganizationUnit) (parent_id : Option Text) (units : List OrganizationUnit)
    → v.parent_id ≡ parent_id
    → Yields (IsAdded parent_id units) (add_unit v units)
unfolding add_unit
add_unit-Yields v parent_id units e =
    if_elim (Yields (IsAdded parent_id units)) (any (λ w. name_clash v w) units) (λ _. tt)
      (λ _. (v, (e, refl)))

create_company-Yields :
    (id name : Text) (level : Level) (parent_id : Option Text) (units : List OrganizationUnit)
    → Yields (IsAdded none units) (create_company id name level parent_id units)
unfolding create_company
create_company-Yields id name level none units =
    add_unit-Yields (new_company id name level) none units refl
create_company-Yields id name level (some p) units = tt

create_child-Yields :
    (id name : Text) (level : Level) (parent_id : Option Text) (units : List OrganizationUnit)
    → Yields (IsAdded parent_id units) (create_child id name level parent_id units)
unfolding create_child create_under
create_child-Yields id name level none units = tt
create_child-Yields id name level (some p) units =
    if_elim (Yields (IsAdded (some p) units)) (is_nonempty p)
      (λ _. elim (Option-cases (get_active p units)) [
        | inl e ↦ rw e tt
        | inr (parent, e) ↦
            let found = find-some (λ u. text_eq u.id p && u.active) units parent e in
            rw e (
              if_elim (Yields (IsAdded (some p) units)) (is_child_level parent.level level)
                (λ _.
                  add_unit-Yields (new_child id name level parent) (some p) units
                    (ap some ((text_eq_iff parent.id p).0 (ground (arith, found)))))
                (λ _. tt))
      ])
      (λ _. tt)

-- A company is added below nothing, and another unit below the parent of the call.
pub create_organization_unit-Yields :
    (id name : Text) (level : Level) (parent_id : Option Text) (units : List OrganizationUnit)
    → Yields
        (IsAdded (if level_eq level company then none else parent_id) units)
        (create_organization_unit id name level parent_id units)
unfolding create_organization_unit
create_organization_unit-Yields id name level parent_id units =
    elim (level_eq level company)
      as (λ b. Yields (IsAdded (if b then none else parent_id) units) (
        if not (is_nonempty (strip name))
        then failed org_name_required
        else if b
        then create_company id (strip name) level parent_id units
        else create_child id (strip name) level parent_id units)) [
          | true ↦
              if_elim (Yields (IsAdded none units)) (not (is_nonempty (strip name))) (λ _. tt)
                (λ _. create_company-Yields id (strip name) level parent_id units)
          | false ↦
              if_elim (Yields (IsAdded parent_id units)) (not (is_nonempty (strip name))) (λ _. tt)
                (λ _. create_child-Yields id (strip name) level parent_id units)
        ]

-- The unit of the call is moved below another, and those below it with it.
abbrev pub IsMoved : Text → List OrganizationUnit → List OrganizationUnit → Type 0
IsMoved unit_id units vs =
    (unit parent : OrganizationUnit) × ((get_unit unit_id units ≡ some unit)
      × (vs ≡ map (moved parent unit) units))

pub move_organization_unit-Yields :
    (unit_id parent_id : Text) (version : ℕ) (units : List OrganizationUnit)
    → Yields (IsMoved unit_id units) (move_organization_unit unit_id parent_id version units)
unfolding move_organization_unit move_from move_to move_found
move_organization_unit-Yields unit_id parent_id version units =
    go (get_unit unit_id units) (get_active parent_id units) refl
  where
    go :
        (o p : Option OrganizationUnit)
        → get_unit unit_id units ≡ o
        → Yields (IsMoved unit_id units) (move_from o p version units)
    go none p e = tt
    go (some unit) none e = tt
    go (some unit) (some parent) e =
        let P = Yields (IsMoved unit_id units) in
        if_elim P (not (unit.context_version == version)) (λ _. tt)
          (λ _.
            if_elim P (level_eq unit.level company || not (is_child_level parent.level unit.level))
              (λ _. tt)
              (λ _.
                if_elim P (not (text_eq parent.company_id unit.company_id)) (λ _. tt)
                  (λ _.
                    if_elim P (text_eq parent.path unit.path || is_below unit parent) (λ _. tt)
                      (λ _.
                        if_elim P
                          (any
                            (λ v.
                              not (text_eq v.id unit.id) && name_clash (moved_unit parent unit) v)
                            units)
                          (λ _. tt) (λ _. (unit, parent, (e, refl)))))))
