-- ===== src/Organization/Scope/Bounds.antt =====
-- What a resource that the scope lets through has to do with the context.
use mathlib.Core.List.{Memᴰ}
use sql_rpa.Base.{
  ◌≡◌, String, Bool, true, false, ◌&&◌, ◌||◌, ◌⊎◌, Option, none, some, List, [], ◌∷◌, ◌++◌, str_eq,
  if◌then◌else◌,
}
use sql_rpa.Text.{Text, text_eq, starts_with}
use sql_rpa.Organization.{OrganizationUnit}
use sql_rpa.Organization.Scope.{OrganizationContext, is_individual}

-- An active unit of the context's company that has an id, at the context's path or below it.
pub record IsUnder (context : OrganizationContext) (id : Text) (units : List OrganizationUnit)
    : Type 0 where
  pub unit : OrganizationUnit
  pub found : Memᴰ unit units
  pub same : unit.id ≡ id
  pub company : unit.company_id ≡ context.company_id
  pub active : unit.active ≡ true
  pub place :
      (unit.path ≡ context.path) ⊎ ((rest : Text) × (unit.path ≡ context.path ++ b'/' ∷ rest))

-- A resource of the context's company: for an individual, the user's own in the unit of the context;
-- for the others, one of a unit under the context.
pub IsInScope : OrganizationContext → Text → Text → Option String → List OrganizationUnit → Type 0
IsInScope context company_id organization_id owner units =
    (company_id ≡ context.company_id)
    × (if is_individual context
        then (organization_id ≡ context.organization_id) × (owner ≡ some context.user_id)
        else IsUnder context organization_id units)

-- The test of a unit, in one shape.
abbrev is_under : OrganizationContext → OrganizationUnit → Bool
is_under context u =
    text_eq u.company_id context.company_id
    && u.active
    && (text_eq u.path context.path || starts_with (context.path ++ b'/' ∷ []) u.path)

-- The test of the owner, in one shape.
abbrev owns : OrganizationContext → Option String → Bool
owns context none = false
owns context (some owner) = str_eq owner context.user_id
