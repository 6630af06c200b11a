-- ===== src/Organization/Depth.antt =====
-- The shape of the tree: the depth of every unit is the length of its path and that of its level.
use mathlib.Core.Option.{some_inj}
use sql_rpa.Base.{
  if_elim, any, ℕ, ◌+◌, ◌≡◌, refl, Bool, true, false, ◌&&◌, ◌||◌, not, Option, none, some, List, [],
  ◌∷◌, ◌++◌, ◌==◌, map, find, any, length, drop, All, arith, Bool-cases, inl, inr, subst, ==_iff,
}
use sql_rpa.Text.{Text, strip, text_eq, starts_with}
use sql_rpa.Organization.{
  Result, moved_unit, Level, company, level_depth, level_eq, is_child_level, OrganizationUnit,
  Result, ok, failed, get_unit, get_active, child_path, slashes, moved_unit, moved_descendant,
  is_below, moved, add_unit, name_clash, new_child, new_company, create_company, create_under,
  create_child, is_nonempty, create_organization_unit, move_found, move_to, move_from,
  move_organization_unit,
}

-- A unit whose id is one segment of a path, as deep as its path is long, and as its level is.
pub record IsDeep (u : OrganizationUnit) : Type 0 where
  pub segment : slashes u.id ≡ 0
  pub long : u.depth ≡ slashes u.path + 1
  pub level : u.depth ≡ level_depth u.level

slashes-append : (s t : Text) → slashes (s ++ t) ≡ slashes s + slashes t
slashes-append [] t = omega arith
slashes-append (c ∷ s) t = ground (arith, slashes-append s t)

slashes-child_path :
    (path id : Text) → slashes id ≡ 0 → slashes (child_path path id) ≡ slashes path + 1
slashes-child_path path id h = ground (arith, slashes-append path (b'/' ∷ id), h)

-- Behind a prefix of a path lie the rest of its slashes.
slashes-drop :
    (p q s : Text)
    → starts_with (p ++ q) s ≡ true
    → slashes s ≡ slashes p + slashes (drop (length p) s)
slashes-drop [] q s h = omega arith
slashes-drop (c ∷ p) q [] h = absurd (ground (arith, h))
slashes-drop (c ∷ p) q (d ∷ s) h = ground (arith, h, slashes-drop p q s)

find-IsDeep :
    (test : OrganizationUnit → Bool) (units : List OrganizationUnit) (u : OrganizationUnit)
    → All IsDeep units
    → find test units ≡ some u
    → IsDeep u
find-IsDeep test [] u a e = absurd (ground (arith, e))
find-IsDeep test (v ∷ units) u (d, a) e = elim (Bool-cases (test v)) [
  | inl hit ↦ subst IsDeep (some_inj.0 (rw hit at e)) d
  | inr miss ↦ find-IsDeep test units u a (rw miss at e)
]

module _ (parent unit : OrganizationUnit) (p : IsDeep parent) (d : IsDeep unit)
    (child : is_child_level parent.level unit.level ≡ true) where
  moved_unit-IsDeep : IsDeep (moved_unit parent unit)
  moved_unit-IsDeep = record {
    segment = d.segment;
    long = omega (arith, p.long, slashes-child_path parent.path unit.id d.segment);
    level = ground (arith, p.level, child);
  }

  moved_descendant-IsDeep :
      (u : OrganizationUnit)
      → IsDeep u
      → is_below unit u ≡ true
      → IsDeep (moved_descendant parent unit u)
  moved_descendant-IsDeep u h b =
      let suffix = drop (length unit.path) u.path in
      record {
        segment = h.segment;
        long = omega (
          arith,
          p.long,
          slashes-append (child_path parent.path unit.id) suffix,
          slashes-child_path parent.path unit.id d.segment,
        );
        level = omega (
          arith,
          p.level,
          (==_iff (level_depth parent.level + 1) (level_depth unit.level)).0 child,
          d.level,
          d.long,
          h.level,
          h.long,
          slashes-drop unit.path (b'/' ∷ []) u.path b,
        );
      }

  moved-IsDeep : (u : OrganizationUnit) → IsDeep u → IsDeep (moved parent unit u)
  moved-IsDeep u h = elim (Bool-cases (text_eq u.id unit.id)) [
    | inl e ↦ rw e moved_unit-IsDeep
    | inr e ↦ elim (Bool-cases (text_eq u.company_id unit.company_id && is_below unit u)) [
      | inl b ↦ rw (e, b) (moved_descendant-IsDeep u h (ground (arith, b)))
      | inr b ↦ rw (e, b) h
    ]
  ]

  map-moved-IsDeep :
      (units : List OrganizationUnit)
      → All IsDeep units
      → All IsDeep (map (moved parent unit) units)
  map-moved-IsDeep [] a = tt
  map-moved-IsDeep (u ∷ units) (h, a) = (moved-IsDeep u h, map-moved-IsDeep units a)

-- The units after an operation; a failed one leaves them as they are.
abbrev pub after : Result (List OrganizationUnit) → List OrganizationUnit → List OrganizationUnit
after (ok units) old = units
after (failed e) old = old

add-IsDeep :
    (units : List OrganizationUnit) (u : OrganizationUnit)
    → All IsDeep units
    → IsDeep u
    → All IsDeep (units ++ u ∷ [])
add-IsDeep [] u a h = (h, tt)
add-IsDeep (v ∷ units) u (d, a) h = (d, add-IsDeep units u a h)

add_unit-IsDeep :
    (u : OrganizationUnit) (units : List OrganizationUnit)
    → All IsDeep units
    → IsDeep u
    → All IsDeep (after (add_unit u units) units)
unfolding add_unit
add_unit-IsDeep u units a h = elim (Bool-cases (any (λ v. name_clash u v) units)) [
  | inl e ↦ rw e a
  | inr e ↦ rw e (add-IsDeep units u a h)
]

under-IsDeep :
    (id name : Text) (level : Level) (parent : Option OrganizationUnit)
    (units : List OrganizationUnit)
    → All IsDeep units
    → ((u : OrganizationUnit) → parent ≡ some u → IsDeep u)
    → slashes id ≡ 0
    → All IsDeep (after (create_under id name level parent units) units)
unfolding create_under
under-IsDeep id name level none units a p h = a
under-IsDeep id name level (some u) units a p h = elim (Bool-cases (is_child_level u.level level)) [
  | inr e ↦ rw e a
  | inl e ↦ rw e (add_unit-IsDeep (new_child id name level u) units a (child (p u refl) e))
]
  where
    child : IsDeep u → is_child_level u.level level ≡ true → IsDeep (new_child id name level u)
    child d e = record {
      segment = h;
      long = omega (
        arith,
        d.long,
        d.level,
        (==_iff (level_depth u.level + 1) (level_depth level)).0 e,
        slashes-child_path u.path id h,
      );
      level = refl;
    }

child-IsDeep :
    (id name : Text) (level : Level) (parent_id : Option Text) (units : List OrganizationUnit)
    → All IsDeep units
    → slashes id ≡ 0
    → All IsDeep (after (create_child id name level parent_id units) units)
unfolding create_child
child-IsDeep id name level none units a h = a
child-IsDeep id name level (some p) units a h = elim (Bool-cases (is_nonempty p)) [
  | inr e ↦ rw e a
  | inl e ↦ rw e (
      under-IsDeep id name level (get_active p units) units a
        (λ u f. find-IsDeep (λ v. text_eq v.id p && v.active) units u a f) h)
]

company-IsDeep :
    (id name : Text) (level : Level) (parent_id : Option Text) (units : List OrganizationUnit)
    → All IsDeep units
    → slashes id ≡ 0
    → level_eq level company ≡ true
    → All IsDeep (after (create_company id name level parent_id units) units)
unfolding create_company
company-IsDeep id name level (some p) units a h top = a
company-IsDeep id name level none units a h top =
    add_unit-IsDeep (new_company id name level) units a (record {
      segment = h;
      long = omega (arith, h, (==_iff (level_depth level) 1).0 top);
      level = refl;
    })

create-IsDeep :
    (id name : Text) (level : Level) (parent_id : Option Text) (units : List OrganizationUnit)
    → All IsDeep units
    → slashes id ≡ 0
    → All IsDeep (after (create_organization_unit id name level parent_id units) units)
unfolding create_organization_unit
create-IsDeep id name level parent_id units a h = elim (Bool-cases (is_nonempty (strip name))) [
  | inr e ↦ rw e a
  | inl e ↦ elim (Bool-cases (level_eq level company)) [
    | inl top ↦ rw (e, top) (company-IsDeep id (strip name) level parent_id units a h top)
    | inr low ↦ rw (e, low) (child-IsDeep id (strip name) level parent_id units a h)
  ]
]

not_right : (a b : Bool) → (a || not b) ≡ false → b ≡ true
not_right a b f = ground (arith, f)

found-IsDeep :
    (unit parent : OrganizationUnit) (version : ℕ) (units : List OrganizationUnit)
    → All IsDeep units
    → IsDeep unit
    → IsDeep parent
    → All IsDeep (after (move_found unit parent version units) units)
unfolding move_found
found-IsDeep unit parent version units a d p =
    let P = λ (r : Result (List OrganizationUnit)). All IsDeep (after r units) in
    if_elim P (not (unit.context_version == version)) (λ _. a)
      (λ _.
        if_elim P (level_eq unit.level company || not (is_child_level parent.level unit.level))
          (λ _. a)
          (λ f.
            if_elim P (not (text_eq parent.company_id unit.company_id)) (λ _. a)
              (λ _.
                if_elim P (text_eq parent.path unit.path || is_below unit parent) (λ _. a)
                  (λ _.
                    if_elim P
                      (any
                        (λ v. not (text_eq v.id unit.id) && name_clash (moved_unit parent unit) v)
                        units)
                      (λ _. a)
                      (λ _.
                        map-moved-IsDeep parent unit p d
                          (not_right (level_eq unit.level company)
                            (is_child_level parent.level unit.level) f)
                          units a)))))

pub move-IsDeep :
    (unit_id new_parent_id : Text) (version : ℕ) (units : List OrganizationUnit)
    → All IsDeep units
    → All IsDeep (after (move_organization_unit unit_id new_parent_id version units) units)
unfolding move_organization_unit move_from move_to
move-IsDeep unit_id new_parent_id version units a =
    go (get_unit unit_id units) (get_active new_parent_id units)
      (λ u e. find-IsDeep (λ v. text_eq v.id unit_id) units u a e)
      (λ u e. find-IsDeep (λ v. text_eq v.id new_parent_id && v.active) units u a e)
  where
    go :
        (unit parent : Option OrganizationUnit)
        → ((u : OrganizationUnit) → unit ≡ some u → IsDeep u)
        → ((u : OrganizationUnit) → parent ≡ some u → IsDeep u)
        → All IsDeep (after (move_from unit parent version units) units)
    go none parent d p = a
    go (some u) none d p = a
    go (some u) (some v) d p = found-IsDeep u v version units a (d u refl) (p v refl)

-- The operations on the tree.
pub data Change : Type 0 where
  creates : Text → Text → Level → Option Text → Change
  moves : Text → Text → ℕ → Change

unfoldable pub apply_all : List Change → List OrganizationUnit → List OrganizationUnit
apply_all [] units = units
apply_all (creates id name level parent_id ∷ changes) units =
    apply_all changes (after (create_organization_unit id name level parent_id units) units)
apply_all (moves unit_id new_parent_id version ∷ changes) units =
    apply_all changes (after (move_organization_unit unit_id new_parent_id version units) units)

-- The ids that the changes draw have no slash.
abbrev pub HasSegments : List Change → Type 0
HasSegments [] = Unit
HasSegments (creates id name level parent_id ∷ changes) = (slashes id ≡ 0) × HasSegments changes
HasSegments (moves unit_id new_parent_id version ∷ changes) = HasSegments changes

-- From an organization in which it holds, after any operations, those that fail included, every
-- unit is as deep as its path is long and as its level is. The ids that are drawn have no slash.
pub apply_all-IsDeep :
    (changes : List Change) (units : List OrganizationUnit)
    → HasSegments changes
    → All IsDeep units
    → All IsDeep (apply_all changes units)
unfolding apply_all
apply_all-IsDeep [] units s a = a
apply_all-IsDeep (creates id name level parent_id ∷ changes) units (h, s) a =
    apply_all-IsDeep changes _ s (create-IsDeep id name level parent_id units a h)
apply_all-IsDeep (moves unit_id new_parent_id version ∷ changes) units s a =
    apply_all-IsDeep changes _ s (move-IsDeep unit_id new_parent_id version units a)
