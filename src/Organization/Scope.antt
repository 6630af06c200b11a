-- ===== src/Organization/Scope.antt =====
-- backend/organization_context.py: the context that a request names, and the units in its scope.
pub mod Bounds
pub mod Resolved
use sql_rpa.Base.{
  ℕ, String, Bool, true, false, ◌&&◌, ◌||◌, not, Option, none, some, List, [], ◌∷◌, ◌++◌, ◌==◌, map,
  keep, find, length, str_eq, if◌then◌else◌,
}
use sql_rpa.Text.{Text, split, text_eq, text_in, starts_with}
use sql_rpa.Organization.{Level, individual, level_eq, OrganizationUnit, get_active}
use sql_rpa.Organization.Members.{Members, is_effective}

pub record OrganizationContext : Type 0 where
  pub user_id : String
  pub company_id : Text
  pub organization_id : Text
  pub membership_id : String
  pub organization_level : Level
  pub role : String
  pub path : Text
  pub context_version : ℕ
  pub is_primary : Bool

-- The units whose ids lie on a path; the query returns a row for each unit, not for each id.
ancestors : List Text → OrganizationUnit → List OrganizationUnit → List OrganizationUnit
ancestors ids unit units =
    keep (λ u. text_in u.id ids && u.active && text_eq u.company_id unit.company_id) units

abbrev ends_in : Text → List Text → Bool
ends_in id [] = false
ends_in id (x ∷ []) = text_eq x id
ends_in id (x ∷ xs) = ends_in id xs

-- `resolve_organization_context`; `none` is the error 403. Ids are keys, so that the set of the
-- ancestors' ids is as large as their list.
unfoldable pub resolve_organization_context :
    ℕ → String → Text → String → Members → List OrganizationUnit → Option OrganizationContext
unfolding ancestors
resolve_organization_context now user_id organization_id membership_id ms units =
    elim (find
      (λ m.
        str_eq m.id membership_id
        && str_eq m.user_id user_id
        && text_eq m.organization_id organization_id
        && m.active)
      ms) [
        | none ↦ none
        | some m ↦ elim (get_active m.organization_id units) [
          | none ↦ none
          | some unit ↦
              if not (is_effective now m)
              then none
              else if not (level_eq m.organization_level unit.level)
              then none
              else if not (
                    length (ancestors (split b'/' unit.path) unit units)
                    == length (split b'/' unit.path))
                  || not (ends_in unit.id (split b'/' unit.path))
              then none
              else some (record {
                user_id = user_id;
                company_id = unit.company_id;
                organization_id = unit.id;
                membership_id = m.id;
                organization_level = unit.level;
                role = m.role;
                path = unit.path;
                context_version = unit.context_version;
                is_primary = m.is_primary;
              })
        ]
      ]

abbrev is_individual : OrganizationContext → Bool
is_individual context = level_eq context.organization_level individual

-- `resolve_scope_node_ids`
unfoldable pub resolve_scope_node_ids : OrganizationContext → List OrganizationUnit → List Text
resolve_scope_node_ids context units =
    if is_individual context
    then context.organization_id ∷ []
    else map (λ u. u.id)
        (keep
          (λ u.
            text_eq u.company_id context.company_id
            && u.active
            && (text_eq u.path context.path || starts_with (context.path ++ b'/' ∷ []) u.path))
          units)

-- `require_resource_scope`: whether it lets the resource through.
unfoldable pub require_resource_scope :
    OrganizationContext → Text → Text → List Text → Option String → Bool
require_resource_scope context company_id organization_id allowed_ids owner_id =
    if not (text_eq company_id context.company_id) || not (text_in organization_id allowed_ids)
    then false
    else if is_individual context
    then elim owner_id [ none ↦ false | some owner ↦ str_eq owner context.user_id ]
    else true

-- `get_visible_organization_ids`
pub get_visible_organization_ids :
    Option OrganizationContext → Text → List OrganizationUnit → List Text
unfolding resolve_scope_node_ids
get_visible_organization_ids none legacy_tenant_id units = legacy_tenant_id ∷ []
get_visible_organization_ids (some context) legacy_tenant_id units =
    resolve_scope_node_ids context units

-- `get_resource_scope`; `has_user` says if the call names a user.
pub get_resource_scope :
    Option OrganizationContext → Text → Bool → Bool → List OrganizationUnit → List Text × Bool
get_resource_scope context legacy_tenant_id has_user legacy_owner_required units = (
  get_visible_organization_ids context legacy_tenant_id units,
  has_user && elim context [ none ↦ legacy_owner_required | some c ↦ is_individual c ],
)

-- `current_write_scope`
pub current_write_scope : Option OrganizationContext → Text → Text × (Option Text × Option String)
current_write_scope none legacy_tenant_id = (legacy_tenant_id, (none, none))
current_write_scope (some c) legacy_tenant_id =
    (c.organization_id, (some c.company_id, some c.membership_id))
