-- ===== src/Departments/Units.antt =====
-- What the handlers of backend/api/departments.py do to units outside the scope.
use mathlib.Core.List.{Memᴰ}
use sql_rpa.Base.{
  ℕ, ◌≡◌, refl, sym, subst, ◌⊎◌, inl, inr, true, false, ◌&&◌, ◌||◌, not, Option, none, some, List,
  [], ◌∷◌, ◌++◌, ◌==◌, All, Option-cases, any, arith, find-has, find-some, if_elim, map,
  if◌then◌else◌,
}
use sql_rpa.Text.{Text, strip, text_eq, text_eq_iff, text_in}
use sql_rpa.Organization.{
  Error, Level, OrganizationUnit, Result, company, create_organization_unit, failed, get_unit,
  is_below, is_nonempty, level_eq, move_organization_unit, moved as moved_row, name_clash, ok,
  opt_eq,
}
use sql_rpa.Organization.Rows.{
  IsAdded, IsMoved, Yields, create_organization_unit-Yields, move_organization_unit-Yields,
}
use sql_rpa.Organization.Scope.{OrganizationContext}
use sql_rpa.Departments.{
  Event, Reply, State, closed, create_error, create_unit, created, disable_unit, is_visible,
  move_unit, moved, refused, organization_error, rename_found, renamed, update_unit, visible,
  with_units,
}

-- The ids that a request may see.
abbrev pub ids_of : Option OrganizationContext → State → List Text
ids_of none s = []
ids_of (some c) s = visible s c

module _ (units : List OrganizationUnit) (ids : List Text) where
  -- A unit outside the scope has moved with one of the scope that it is below.
  abbrev pub IsCarried : OrganizationUnit → OrganizationUnit → Type 0
  IsCarried u v =
      ((w : OrganizationUnit) × (Memᴰ w units
          × ((text_in w.id ids ≡ true) × (is_below w u ≡ true))))
      × (v ≡ record u { path = v.path; depth = v.depth; context_version = v.context_version })

  abbrev pub IsChanged : OrganizationUnit → OrganizationUnit → Type 0
  IsChanged u v = (v ≡ u) ⊎ ((text_in u.id ids ≡ true) ⊎ IsCarried u v)

  -- A new unit is below one of the scope, or a company that a request without an organization makes.
  abbrev pub IsPlaced : Option OrganizationContext → Option Text → Type 0
  IsPlaced none parent_id = parent_id ≡ none
  IsPlaced (some c) parent_id = is_visible parent_id ids ≡ true

  -- The units after a change: those before, each changed so, and new ones.
  abbrev pub AreChanged :
      Option OrganizationContext → List OrganizationUnit → List OrganizationUnit → Type 0
  AreChanged context [] vs = All (λ v. IsPlaced context v.parent_id) vs
  AreChanged context (u ∷ us) [] = ⊥
  AreChanged context (u ∷ us) (v ∷ vs) = IsChanged u v × AreChanged context us vs

  append-AreChanged :
      (context : Option OrganizationContext) (us vs : List OrganizationUnit)
      → AreChanged context [] vs
      → AreChanged context us (us ++ vs)
  append-AreChanged context [] vs h = h
  append-AreChanged context (u ∷ us) vs h = (inl refl, append-AreChanged context us vs h)

  map-AreChanged :
      (context : Option OrganizationContext) (write : OrganizationUnit → OrganizationUnit)
      → ((u : OrganizationUnit) → IsChanged u (write u))
      → (us : List OrganizationUnit) → AreChanged context us (map write us)
  map-AreChanged context write h [] = tt
  map-AreChanged context write h (u ∷ us) = (h u, map-AreChanged context write h us)

  pub same-AreChanged :
      (context : Option OrganizationContext) (us : List OrganizationUnit) → AreChanged context us us
  same-AreChanged context [] = tt
  same-AreChanged context (u ∷ us) = (inl refl, same-AreChanged context us)

  written-IsChanged :
      (id : Text) (write : OrganizationUnit → OrganizationUnit)
      → text_in id ids ≡ true
      → (u : OrganizationUnit) → IsChanged u (if text_eq u.id id then write u else u)
  written-IsChanged id write h u =
      if_elim (IsChanged u) (text_eq u.id id)
        (λ e. inr (inl (subst (λ i. text_in i ids ≡ true) (sym ((text_eq_iff u.id id).0 e)) h)))
        (λ _. inl refl)

  moved-IsChanged :
      (unit parent u : OrganizationUnit)
      → Memᴰ unit units
      → text_in unit.id ids ≡ true
      → IsChanged u (moved_row parent unit u)
  moved-IsChanged unit parent u m h =
      if_elim (IsChanged u) (text_eq u.id unit.id)
        (λ e.
          inr (inl (subst (λ i. text_in i ids ≡ true) (sym ((text_eq_iff u.id unit.id).0 e)) h)))
        (λ _.
          if_elim (IsChanged u) (text_eq u.company_id unit.company_id && is_below unit u)
            (λ b. inr (inr ((unit, (m, (h, ground (arith, b)))), refl))) (λ _. inl refl))

module _ (s : State) where
  abbrev pub IsKept : Option OrganizationContext → State × Reply → Type 0
  IsKept context x = AreChanged s.units (ids_of context s) context s.units x.0.units

  unchanged :
      (context : Option OrganizationContext)
      → AreChanged s.units (ids_of context s) context s.units s.units
  unchanged context = same-AreChanged s.units (ids_of context s) context s.units

  with_units-IsKept :
      (context : Option OrganizationContext) (e : Event) (error : Error → Reply)
      (r : Result (List OrganizationUnit))
      → Yields (AreChanged s.units (ids_of context s) context s.units) r
      → IsKept context (with_units s e error r)
  with_units-IsKept context e error (ok units) h = h
  with_units-IsKept context e error (failed code) h = unchanged context

  added-Yields :
      (context : Option OrganizationContext) (parent_id : Option Text)
      (r : Result (List OrganizationUnit))
      → IsPlaced s.units (ids_of context s) context parent_id
      → Yields (IsAdded parent_id s.units) r
      → Yields (AreChanged s.units (ids_of context s) context s.units) r
  added-Yields context parent_id (failed e) h y = tt
  added-Yields context parent_id (ok vs) h (v, (p, e)) =
      let ids = ids_of context s in
      subst (AreChanged s.units ids context s.units) (sym e) (
        append-AreChanged s.units ids context s.units (v ∷ [])
          (subst (IsPlaced s.units ids context) (sym p) h, tt))

  moved-Yields :
      (c : OrganizationContext) (unit_id : Text) (r : Result (List OrganizationUnit))
      → text_in unit_id (visible s c) ≡ true
      → Yields (IsMoved unit_id s.units) r
      → Yields (AreChanged s.units (visible s c) (some c) s.units) r
  moved-Yields c unit_id (failed e) h y = tt
  moved-Yields c unit_id (ok vs) h (unit, parent, (f, e)) =
      let named = λ (u : OrganizationUnit). text_eq u.id unit_id in
      let same = (text_eq_iff unit.id unit_id).0 (find-some named s.units unit f) in
      subst (AreChanged s.units (visible s c) (some c) s.units) (sym e) (
        map-AreChanged s.units (visible s c) (some c) (moved_row parent unit)
          (λ u.
            moved-IsChanged s.units (visible s c) unit parent u (find-has named s.units unit f)
              (subst (λ i. text_in i (visible s c) ≡ true) (sym same) h))
          s.units)

  pub create_unit-IsKept :
      (context : Option OrganizationContext) (id name : Text) (level : Level)
      (parent_id : Option Text)
      → IsKept context (create_unit context id name level parent_id s)
  unfolding create_unit
  create_unit-IsKept none id name level parent_id =
      let r = create_organization_unit id name level parent_id s.units in
      elim (level_eq level company)
          as (λ b.
            Yields (IsAdded (if b then none else parent_id) s.units) r
            → IsKept none
                (if b then with_units s (created id) create_error r else (s, refused 400))) [
                  | true ↦ λ y.
                      with_units-IsKept none (created id) create_error r
                        (added-Yields none none r refl y)
                  | false ↦ λ y. unchanged none
                ]
        (create_organization_unit-Yields id name level parent_id s.units)
  create_unit-IsKept (some c) id name level parent_id =
      let r = create_organization_unit id name level parent_id s.units in
      elim (level_eq level company)
          as (λ b.
            Yields (IsAdded (if b then none else parent_id) s.units) r
            → IsKept (some c) (
                if b
                then (s, refused 403)
                else if not (is_visible parent_id (visible s c))
                then (s, refused 403)
                else with_units s (created id) create_error r)) [
                  | true ↦ λ y. unchanged (some c)
                  | false ↦ λ y.
                      if_elim (IsKept (some c)) (not (is_visible parent_id (visible s c)))
                        (λ _. unchanged (some c))
                        (λ e.
                          with_units-IsKept (some c) (created id) create_error r
                            (added-Yields (some c) parent_id r (ground (arith, e)) y))
                ]
        (create_organization_unit-Yields id name level parent_id s.units)

  module _ (c : OrganizationContext) where
    rename_found-IsKept :
        (unit_id name : Text) (version : ℕ) (o : Option OrganizationUnit)
        → get_unit unit_id s.units ≡ o
        → text_in unit_id (visible s c) ≡ true
        → IsKept (some c) (rename_found name version o s)
    unfolding rename_found
    rename_found-IsKept unit_id name version none e h = unchanged (some c)
    rename_found-IsKept unit_id name version (some u) e h =
        let same =
          (text_eq_iff u.id unit_id).0 (find-some (λ v. text_eq v.id unit_id) s.units u e) in
        if_elim (IsKept (some c)) (not (u.context_version == version)) (λ _. unchanged (some c))
          (λ _.
            if_elim (IsKept (some c)) (not (is_nonempty (strip name))) (λ _. unchanged (some c))
              (λ _.
                if_elim (IsKept (some c))
                  (any (λ v. not (text_eq v.id u.id) && name_clash (renamed name u) v) s.units)
                  (λ _. unchanged (some c))
                  (λ _.
                    map-AreChanged s.units (visible s c) (some c) _
                      (written-IsChanged s.units (visible s c) u.id (λ _. renamed name u)
                        (subst (λ i. text_in i (visible s c) ≡ true) (sym same) h))
                      s.units)))

    pub update_unit-IsKept :
        (unit_id name : Text) (version : ℕ) → IsKept (some c) (update_unit c unit_id name version s)
    unfolding update_unit
    update_unit-IsKept unit_id name version =
        if_elim (IsKept (some c)) (not (text_in unit_id (visible s c))) (λ _. unchanged (some c))
          (λ e.
            rename_found-IsKept unit_id name version (get_unit unit_id s.units) refl
              (ground (arith, e)))

    pub move_unit-IsKept :
        (unit_id parent_id : Text) (version : ℕ)
        → IsKept (some c) (move_unit c unit_id parent_id version s)
    unfolding move_unit
    move_unit-IsKept unit_id parent_id version =
        if_elim (IsKept (some c))
          (not (text_in unit_id (visible s c)) || not (text_in parent_id (visible s c)))
          (λ _. unchanged (some c))
          (λ e.
            with_units-IsKept (some c) (moved unit_id) organization_error
              (move_organization_unit unit_id parent_id version s.units)
              (moved-Yields c unit_id (move_organization_unit unit_id parent_id version s.units)
                (ground (arith, e))
                (move_organization_unit-Yields unit_id parent_id version s.units)))

    pub disable_unit-IsKept : (unit_id : Text) → IsKept (some c) (disable_unit c unit_id s)
    unfolding disable_unit
    disable_unit-IsKept unit_id =
        if_elim (IsKept (some c))
          (not (text_in unit_id (visible s c)) || text_eq unit_id c.organization_id)
          (λ _. unchanged (some c))
          (λ e.
            if_elim (IsKept (some c))
              (any (λ u. opt_eq u.parent_id (some unit_id) && u.active) s.units
                || any (λ m. text_eq m.organization_id unit_id && m.active) s.members)
              (λ _. unchanged (some c))
              (λ _. elim (Option-cases (get_unit unit_id s.units)) [
                | inl f ↦ rw f (unchanged (some c))
                | inr (u, f) ↦ rw f (
                    map-AreChanged s.units (visible s c) (some c) _
                      (written-IsChanged s.units (visible s c) unit_id closed (ground (arith, e)))
                      s.units)
              ]))
