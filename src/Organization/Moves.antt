-- ===== src/Organization/Moves.antt =====
-- What a move (`move_organization_unit` of backend/organization_service.py) makes of the tree.
use sql_rpa.Base.{
  ℕ, ◌+◌, ◌≡◌, true, false, ◌&&◌, ◌||◌, not, none, some, List, [], ◌∷◌, ◌++◌, ◌==◌, any, All,
}
use sql_rpa.Text.{Text, text_eq}
use sql_rpa.Organization.{
  OrganizationUnit, Result, ok, failed, company, level_eq, is_child_level, get_unit, get_active,
  is_below, moved_unit, name_clash,
}
use sql_rpa.Organization.Depth.{IsDeep}

-- Where a unit stands after a move of another one below a parent: the moved unit directly below the
-- parent, one below the moved unit at the same place below it, and any other as it was.
pub data Placed (unit parent u v : OrganizationUnit) : Type 0 where
  itself :
      u.id ≡ unit.id
      → v.id ≡ unit.id
      → v.parent_id ≡ some parent.id
      → v.path ≡ parent.path ++ b'/' ∷ unit.id
      → v.context_version ≡ unit.context_version + 1
      → Placed unit parent u v
  below :
      (rest : Text)
      → u.company_id ≡ unit.company_id
      → u.path ≡ unit.path ++ b'/' ∷ rest
      → v.path ≡ (parent.path ++ b'/' ∷ unit.id) ++ b'/' ∷ rest
      → v.id ≡ u.id
      → v.parent_id ≡ u.parent_id
      → v.context_version ≡ u.context_version + 1
      → Placed unit parent u v
  elsewhere :
      text_eq u.id unit.id ≡ false
      → (text_eq u.company_id unit.company_id && is_below unit u) ≡ false
      → v ≡ u
      → Placed unit parent u v

-- Each row after the move, beside the row before it.
abbrev pub AllPlaced :
    OrganizationUnit → OrganizationUnit → List OrganizationUnit → List OrganizationUnit → Type 0
AllPlaced unit parent [] [] = Unit
AllPlaced unit parent (u ∷ us) (v ∷ vs) = Placed unit parent u v × AllPlaced unit parent us vs
AllPlaced unit parent _ _ = ⊥

-- What was found and checked for a move, and the rows after it.
pub record IsMove (unit_id new_parent_id : Text) (version : ℕ) (units vs : List OrganizationUnit)
    : Type 0 where
  pub unit : OrganizationUnit
  pub parent : OrganizationUnit
  pub found : get_unit unit_id units ≡ some unit
  pub target : get_active new_parent_id units ≡ some parent
  pub current : unit.context_version ≡ version
  pub same_company : parent.company_id ≡ unit.company_id
  pub no_cycle : (text_eq parent.path unit.path || is_below unit parent) ≡ false
  pub child : is_child_level parent.level unit.level ≡ true
  pub placed : AllPlaced unit parent units vs

-- Why a move is refused.
pub data Refusal (unit_id new_parent_id : Text) (version : ℕ) (units : List OrganizationUnit)
    : Type 0 where
  no_unit : get_unit unit_id units ≡ none → Refusal unit_id new_parent_id version units
  no_parent : get_active new_parent_id units ≡ none → Refusal unit_id new_parent_id version units
  other_version :
      (unit : OrganizationUnit)
      → get_unit unit_id units ≡ some unit
      → (unit.context_version == version) ≡ false
      → Refusal unit_id new_parent_id version units
  no_place :
      (unit parent : OrganizationUnit)
      → get_unit unit_id units ≡ some unit
      → get_active new_parent_id units ≡ some parent
      → ((level_eq unit.level company || not (is_child_level parent.level unit.level))
          || not (text_eq parent.company_id unit.company_id)
          || (text_eq parent.path unit.path || is_below unit parent)
          || any (λ v. not (text_eq v.id unit.id) && name_clash (moved_unit parent unit) v) units)
        ≡ true
      → Refusal unit_id new_parent_id version units

-- A move with what is shown of its rows, or with the reason of its refusal.
abbrev pub Comes : Text → Text → ℕ → List OrganizationUnit → Result (List OrganizationUnit) → Type 0
Comes unit_id new_parent_id version units (ok vs) = IsMove unit_id new_parent_id version units vs
Comes unit_id new_parent_id version units (failed e) = Refusal unit_id new_parent_id version units

-- The rows after a move, or the reason of its refusal.
abbrev pub IsMoveResult :
    Text → Text → ℕ → List OrganizationUnit → Result (List OrganizationUnit) → Type 0
IsMoveResult unit_id new_parent_id version units (ok vs) =
    IsMove unit_id new_parent_id version units vs × All IsDeep vs
IsMoveResult unit_id new_parent_id version units (failed e) =
    Refusal unit_id new_parent_id version units
