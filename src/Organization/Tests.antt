-- ===== src/Organization/Tests.antt =====
-- Runs on a small organization.
use sql_rpa.Base.{ℕ, ◌≡◌, refl, true, Option, none, some, List, [], ◌∷◌, codes, map}
use sql_rpa.Text.{Text, strip}
use sql_rpa.Organization.{
  Level, company, department, individual, unit_group, OrganizationUnit, create_organization_unit,
  create_company, create_child, create_under, add_unit, name_clash, move_organization_unit,
  move_from, move_to, move_found,
}
use sql_rpa.Organization.Depth.{Change, creates, moves, apply_all}
use sql_rpa.Organization.Rows.{Yields}
use sql_rpa.Organization.Scope.{OrganizationContext}

-- A company with two departments and a group, which moves.
abbrev changes : List Change
changes =
    creates (codes "c") (codes "Acme") company none
    ∷ creates (codes "d") (codes "Sales") department (some (codes "c"))
    ∷ creates (codes "e") (codes "Law") department (some (codes "c"))
    ∷ creates (codes "g") (codes "North") unit_group (some (codes "d"))
    ∷ moves (codes "g") (codes "e") 1
    ∷ []

paths :
    map (λ u. u.path) (apply_all changes [])
    ≡ codes "c" ∷ codes "c/d" ∷ codes "c/e" ∷ codes "c/e/g" ∷ []
unfolding apply_all create_organization_unit create_company create_child create_under add_unit
    name_clash move_organization_unit move_from move_to move_found strip
paths = refl

-- Departments, a group and an individual in it.
abbrev unit_at : Text → Level → Option Text → Text → ℕ → OrganizationUnit
unit_at id level parent_id path depth = record {
  id = id;
  name = id;
  level = level;
  parent_id = parent_id;
  company_id = codes "c";
  path = path;
  depth = depth;
  active = true;
  context_version = 1;
}

abbrev tree : List OrganizationUnit
tree =
    unit_at (codes "c") company none (codes "c") 1
    ∷ unit_at (codes "d") department (some (codes "c")) (codes "c/d") 2
    ∷ unit_at (codes "e") department (some (codes "c")) (codes "c/e") 2
    ∷ unit_at (codes "g") unit_group (some (codes "d")) (codes "c/d/g") 3
    ∷ unit_at (codes "i") individual (some (codes "g")) (codes "c/d/g/i") 4
    ∷ []

new_paths :
    Yields
      (λ vs.
        map (λ u. u.path) vs
        ≡ codes "c" ∷ codes "c/d" ∷ codes "c/e" ∷ codes "c/e/g" ∷ codes "c/e/g/i" ∷ [])
      (move_organization_unit (codes "g") (codes "e") 1 tree)
unfolding move_organization_unit move_from move_to move_found name_clash
new_paths = refl

abbrev sales : OrganizationUnit
sales = record {
  id = codes "d";
  name = codes "Sales";
  level = department;
  parent_id = some (codes "c");
  company_id = codes "c";
  path = codes "c/d";
  depth = 2;
  active = true;
  context_version = 1;
}

abbrev context : OrganizationContext
context = record {
  user_id = "ann";
  company_id = codes "c";
  organization_id = codes "d";
  membership_id = "m";
  organization_level = department;
  role = "admin";
  path = codes "c/d";
  context_version = 1;
  is_primary = true;
}
