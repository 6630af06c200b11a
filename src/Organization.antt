-- ===== src/Organization.antt =====
-- backend/organization_service.py: the tree of organization units; Members has the memberships.
-- Ids are texts without "/".
pub mod Members
pub mod Rows
pub mod Moves
pub mod Scope
pub mod Depth
mod Tests
use sql_rpa.Base.{
  ℕ, ◌+◌, String, Bool, true, false, ◌&&◌, ◌||◌, not, Option, none, some, List, [], ◌∷◌, ◌++◌, ◌==◌,
  map, keep, find, length, drop, leb, ltb, str_eq, is_some, any, if◌then◌else◌,
}
use sql_rpa.Text.{Text, strip, text_eq, starts_with}

pub data Level : Type 0 where
  company department unit_group individual : Level

-- `LEVEL_DEPTH`
abbrev pub level_depth : Level → ℕ
level_depth company = 1
level_depth department = 2
level_depth unit_group = 3
level_depth individual = 4

abbrev pub level_eq : Level → Level → Bool
level_eq a b = level_depth a == level_depth b

-- `CHILD_LEVEL.get(parent) == level`
abbrev pub is_child_level : Level → Level → Bool
is_child_level parent level = level_depth parent + 1 == level_depth level

-- `OrganizationUnit`
pub record OrganizationUnit : Type 0 where
  pub id : Text
  pub name : Text
  pub level : Level
  pub parent_id : Option Text
  pub company_id : Text
  pub path : Text
  pub depth : ℕ
  pub active : Bool
  pub context_version : ℕ

-- The codes of `OrganizationError`.
pub data Error : Type 0 where
  org_name_required org_invalid_parent org_parent_required org_invalid_hierarchy org_user_not_found
        org_not_found org_membership_exists org_membership_not_found org_membership_inactive
        org_primary_replacement_required org_invalid_primary_replacement org_version_conflict
        org_cross_company_move org_cycle integrity_error :
      Error

pub data Result (A : Type 0) : Type 0 where
  ok : A → Result A
  failed : Error → Result A

-- `session.get`, and the query for an active unit.
abbrev pub get_unit : Text → List OrganizationUnit → Option OrganizationUnit
get_unit id units = find (λ u. text_eq u.id id) units

abbrev pub get_active : Text → List OrganizationUnit → Option OrganizationUnit
get_active id units = find (λ u. text_eq u.id id && u.active) units

abbrev pub opt_eq : Option Text → Option Text → Bool
opt_eq none none = true
opt_eq (some a) (some b) = text_eq a b
opt_eq _ _ = false

-- The unique indexes on the names of siblings and of companies.
pub name_clash : OrganizationUnit → OrganizationUnit → Bool
name_clash u v =
    text_eq u.name v.name
    && (level_eq u.level company && level_eq v.level company
        || (is_some u.parent_id
            && text_eq u.company_id v.company_id
            && opt_eq u.parent_id v.parent_id))

add_unit : OrganizationUnit → List OrganizationUnit → Result (List OrganizationUnit)
unfolding name_clash
add_unit u units =
    if any (λ v. name_clash u v) units then failed integrity_error else ok (units ++ u ∷ [])

-- `f"{path}/{id}"`
abbrev pub child_path : Text → Text → Text
child_path path id = path ++ b'/' ∷ id

-- The row of a new unit below a parent, and of a new company.
abbrev pub new_child : Text → Text → Level → OrganizationUnit → OrganizationUnit
new_child id name level parent = record {
  id = id;
  name = name;
  level = level;
  parent_id = some parent.id;
  company_id = parent.company_id;
  path = child_path parent.path id;
  depth = level_depth level;
  active = true;
  context_version = 1;
}

abbrev pub new_company : Text → Text → Level → OrganizationUnit
new_company id name level = record {
  id = id;
  name = name;
  level = level;
  parent_id = none;
  company_id = id;
  path = id;
  depth = level_depth level;
  active = true;
  context_version = 1;
}

abbrev pub is_nonempty : Text → Bool
is_nonempty [] = false
is_nonempty (_ ∷ _) = true

create_company :
    Text → Text → Level → Option Text → List OrganizationUnit → Result (List OrganizationUnit)
create_company id name level none units = add_unit (new_company id name level) units
create_company id name level (some p) units = failed org_invalid_parent

create_under :
    Text
    → Text
    → Level
    → Option OrganizationUnit
    → List OrganizationUnit
    → Result (List OrganizationUnit)
create_under id name level none units = failed org_invalid_hierarchy
create_under id name level (some parent) units =
    if is_child_level parent.level level
    then add_unit (new_child id name level parent) units
    else failed org_invalid_hierarchy

create_child :
    Text → Text → Level → Option Text → List OrganizationUnit → Result (List OrganizationUnit)
create_child id name level none units = failed org_parent_required
create_child id name level (some p) units =
    if is_nonempty p
    then create_under id name level (get_active p units) units
    else failed org_parent_required

-- `create_organization_unit`, with the id that it draws.
pub create_organization_unit :
    Text → Text → Level → Option Text → List OrganizationUnit → Result (List OrganizationUnit)
unfolding create_company create_child create_under add_unit
create_organization_unit id name level parent_id units =
    if not (is_nonempty (strip name))
    then failed org_name_required
    else if level_eq level company
    then create_company id (strip name) level parent_id units
    else create_child id (strip name) level parent_id units

-- `suffix.count("/")`
abbrev pub slashes : Text → ℕ
slashes [] = 0
slashes (c ∷ s) = if c == b'/' then slashes s + 1 else slashes s

-- The row of the unit that moves, and of a unit below it.
abbrev pub moved_unit : OrganizationUnit → OrganizationUnit → OrganizationUnit
moved_unit parent unit = record unit {
  parent_id = some parent.id;
  path = child_path parent.path unit.id;
  depth = parent.depth + 1;
  context_version = unit.context_version + 1;
}

abbrev pub moved_descendant :
    OrganizationUnit → OrganizationUnit → OrganizationUnit → OrganizationUnit
moved_descendant parent unit d = record d {
  path = child_path parent.path unit.id ++ drop (length unit.path) d.path;
  depth = parent.depth + 1 + slashes (drop (length unit.path) d.path);
  context_version = d.context_version + 1;
}

abbrev pub is_below : OrganizationUnit → OrganizationUnit → Bool
is_below unit u = starts_with (unit.path ++ b'/' ∷ []) u.path

abbrev pub moved : OrganizationUnit → OrganizationUnit → OrganizationUnit → OrganizationUnit
moved parent unit u =
    if text_eq u.id unit.id
    then moved_unit parent unit
    else if text_eq u.company_id unit.company_id && is_below unit u
    then moved_descendant parent unit u
    else u

-- The guards of a move on the rows that were found, and the writes.
move_found :
    OrganizationUnit → OrganizationUnit → ℕ → List OrganizationUnit → Result (List OrganizationUnit)
unfolding name_clash
move_found unit parent expected_version units =
    if not (unit.context_version == expected_version)
    then failed org_version_conflict
    else if level_eq unit.level company || not (is_child_level parent.level unit.level)
    then failed org_invalid_hierarchy
    else if not (text_eq parent.company_id unit.company_id)
    then failed org_cross_company_move
    else if text_eq parent.path unit.path || is_below unit parent
    then failed org_cycle
    else if any (λ v. not (text_eq v.id unit.id) && name_clash (moved_unit parent unit) v) units
    then failed integrity_error
    else ok (map (moved parent unit) units)

move_to :
    OrganizationUnit
    → Option OrganizationUnit
    → ℕ
    → List OrganizationUnit
    → Result (List OrganizationUnit)
move_to unit none expected_version units = failed org_not_found
move_to unit (some parent) expected_version units = move_found unit parent expected_version units

move_from :
    Option OrganizationUnit
    → Option OrganizationUnit
    → ℕ
    → List OrganizationUnit
    → Result (List OrganizationUnit)
move_from none parent expected_version units = failed org_not_found
move_from (some unit) parent expected_version units = move_to unit parent expected_version units

-- `move_organization_unit`
pub move_organization_unit :
    Text → Text → ℕ → List OrganizationUnit → Result (List OrganizationUnit)
unfolding move_from move_to move_found
move_organization_unit unit_id new_parent_id expected_version units =
    move_from (get_unit unit_id units) (get_active new_parent_id units) expected_version units
