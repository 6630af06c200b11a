-- ===== src/Organization/Members.antt =====
-- The memberships of backend/organization_service.py. Times are clock ticks. A flush that breaks a
-- unique index, on the active primary membership of a user and a level or on the active membership of
-- an individual node, is an error.
pub mod Remarked
use sql_rpa.Base.{
  ℕ, ◌+◌, String, Bool, true, false, ◌&&◌, not, Option, none, some, List, [], ◌∷◌, ◌++◌, map, find,
  leb, str_eq, any, or_empty, truthy, if◌then◌else◌,
}
use sql_rpa.Text.{Text, text_eq}
use sql_rpa.Organization.{
  Level, individual, level_eq, OrganizationUnit, get_unit, Error, org_user_not_found, org_not_found,
  org_membership_exists, org_membership_not_found, org_membership_inactive,
  org_primary_replacement_required, org_invalid_primary_replacement, integrity_error, Result, ok,
  failed,
}

-- `OrganizationMembership`
pub record OrganizationMembership : Type 0 where
  pub id : String
  pub user_id : String
  pub organization_id : Text
  pub organization_level : Level
  pub role : String
  pub is_primary : Bool
  pub active : Bool
  pub valid_from : Option ℕ
  pub valid_to : Option ℕ
  pub version : ℕ

abbrev pub Members : Type 0
Members = List OrganizationMembership

-- `valid_from` and `valid_to` around a time.
abbrev pub has_begun : ℕ → OrganizationMembership → Bool
has_begun now m = elim m.valid_from [ none ↦ true | some t ↦ leb t now ]

abbrev pub has_ended : ℕ → OrganizationMembership → Bool
has_ended now m = elim m.valid_to [ none ↦ false | some t ↦ leb t now ]

abbrev pub is_effective : ℕ → OrganizationMembership → Bool
is_effective now m = has_begun now m && not (has_ended now m)

-- Memberships of the same user at the same level.
abbrev pub is_rival : OrganizationMembership → OrganizationMembership → Bool
is_rival m n = str_eq n.user_id m.user_id && level_eq n.organization_level m.organization_level

abbrev pub is_main : OrganizationMembership → Bool
is_main m = m.active && m.is_primary

-- The index `uq_membership_active_primary_level`.
pub has_unique_primary : Members → Bool
has_unique_primary [] = true
has_unique_primary (m ∷ ms) =
    not (is_main m && any (λ n. is_rival m n && is_main n) ms) && has_unique_primary ms

-- The index `uq_membership_active_individual_node`.
abbrev is_node : OrganizationMembership → Bool
is_node m = m.active && level_eq m.organization_level individual

pub has_unique_node : Members → Bool
has_unique_node [] = true
has_unique_node (m ∷ ms) =
    not (is_node m && any (λ n. text_eq n.organization_id m.organization_id && is_node n) ms)
    && has_unique_node ms

-- `session.flush()`
unfoldable pub flush : Members → Result Members
unfolding has_unique_primary has_unique_node
flush ms = if has_unique_primary ms && has_unique_node ms then ok ms else failed integrity_error

abbrev pub update : String → (OrganizationMembership → OrganizationMembership) → Members → Members
update id write ms = map (λ m. if str_eq m.id id then write m else m) ms

abbrev pub and_then {ℓ} : {B : Type ℓ} → Result Members → (Members → B) → (Error → B) → B
and_then (ok ms) next fail = next ms
and_then (failed e) next fail = fail e

-- The row of a new membership: the primary one, unless there is an effective one at its level.
abbrev new_member :
    ℕ
    → String
    → String
    → OrganizationUnit
    → String
    → Option ℕ
    → Option ℕ
    → Members
    → OrganizationMembership
new_member now id user_id unit role valid_from valid_to ms = record {
  id = id;
  user_id = user_id;
  organization_id = unit.id;
  organization_level = unit.level;
  role = role;
  is_primary = not (
      any
        (λ m.
          str_eq m.user_id user_id
          && level_eq m.organization_level unit.level
          && m.active
          && is_effective now m)
        ms);
  active = true;
  valid_from = valid_from;
  valid_to = valid_to;
  version = 1;
}

-- `create_organization_membership`: `users` says which users are active; the id is the one drawn.
pub create_organization_membership :
    (String → Bool)
    → List OrganizationUnit
    → ℕ
    → String
    → String
    → Text
    → String
    → Option ℕ
    → Option ℕ
    → Members
    → Result Members
unfolding flush
create_organization_membership users units now id user_id organization_id role valid_from valid_to
      ms =
    if not (users user_id)
    then failed org_user_not_found
    else elim (get_unit organization_id units) [
      | none ↦ failed org_not_found
      | some unit ↦
          if not unit.active
          then failed org_not_found
          else if any (λ m. str_eq m.user_id user_id && text_eq m.organization_id organization_id)
              ms
          then failed org_membership_exists
          else flush (ms ++ new_member now id user_id unit role valid_from valid_to ms ∷ [])
    ]

abbrev demote : OrganizationMembership → OrganizationMembership
demote m = record m { is_primary = false; version = m.version + 1 }

abbrev promote : OrganizationMembership → OrganizationMembership
promote m = record m { is_primary = true; version = m.version + 1 }

abbrev pub get_member : String → Members → Option OrganizationMembership
get_member id ms = find (λ m. str_eq m.id id) ms

abbrev get_active_member : String → Members → Option OrganizationMembership
get_active_member id ms = find (λ m. str_eq m.id id && m.active) ms

-- The primary membership that there is already.
abbrev current_of : OrganizationMembership → Members → Option OrganizationMembership
current_of membership ms = find (λ m. is_rival membership m && is_main m) ms

demote_current : OrganizationMembership → Members → Result Members
unfolding flush
demote_current membership ms = elim (current_of membership ms) [
  | none ↦ ok ms
  | some current ↦
      if str_eq current.id membership.id then ok ms else flush (update current.id demote ms)
]

-- `set_primary_membership`, up to the ids that it returns.
pub set_primary_membership : ℕ → String → Members → Result Members
unfolding demote_current flush
set_primary_membership now membership_id ms = elim (get_active_member membership_id ms) [
  | none ↦ failed org_membership_not_found
  | some membership ↦
      if not (has_begun now membership)
      then failed org_membership_inactive
      else if has_ended now membership
      then failed org_membership_inactive
      else and_then (demote_current membership ms) (λ ms'. flush (update membership_id promote ms'))
          failed
]

-- The replacement must be an active and effective rival.
is_replacement : ℕ → OrganizationMembership → Option OrganizationMembership → Bool
is_replacement now membership none = false
is_replacement now membership (some r) = is_rival membership r && r.active && is_effective now r

-- What comes before the last writes of `disable_membership`.
hand_over : ℕ → OrganizationMembership → Option String → Members → Result Members
unfolding is_replacement flush
hand_over now membership none ms =
    if any
      (λ m.
        is_rival membership m && m.active && is_effective now m && not (str_eq m.id membership.id))
      ms
    then failed org_primary_replacement_required
    else ok ms
hand_over now membership (some replacement) ms =
    if is_replacement now membership (get_member replacement ms)
    then and_then (flush (update membership.id (λ m. record m { is_primary = false }) ms))
        (λ ms'. set_primary_membership now replacement ms') failed
    else failed org_invalid_primary_replacement

abbrev pub switch_off : OrganizationMembership → OrganizationMembership
switch_off m = record m { active = false; is_primary = false; version = m.version + 1 }

-- `replacement_primary_id` as a condition: an empty one is none.
abbrev replacement_of : Option String → Option String
replacement_of id = if truthy (or_empty id) then id else none

-- `disable_membership`
pub disable_membership : ℕ → String → Option String → Members → Result Members
unfolding hand_over flush
disable_membership now membership_id replacement ms = elim (get_active_member membership_id ms) [
  | none ↦ failed org_membership_not_found
  | some membership ↦
      and_then
        (if membership.is_primary
          then hand_over now membership (replacement_of replacement) ms
          else ok ms)
        (λ ms'. flush (update membership_id switch_off ms')) failed
]
