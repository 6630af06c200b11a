-- ===== src/Departments/Rights.antt =====
-- What the handlers of backend/api/departments.py do to memberships outside the scope.
use sql_rpa.Base.{
  ℕ, ◌≡◌, refl, sym, ap, subst, ◌∙◌, ◌⊎◌, inl, inr, String, Bool, true, false, not, Option, some,
  List, [], ◌∷◌, ◌++◌, ◌==◌, All, Bool-cases, Option-cases, some_eq, if_elim, arith, eq_iff, str_eq,
}
use sql_rpa.Text.{Text, text_in}
use sql_rpa.Organization.{Result, ok, failed}
use sql_rpa.Organization.Scope.{OrganizationContext}
use sql_rpa.Departments.{
  State, Event, Reply, with_members, with_member, visible, add_membership, update_membership,
  set_primary, disable_member, assigned, is_empty_period, rewritten, membership_created,
  membership_disabled, primary_changed,
}
use sql_rpa.Organization.Members.{
  Members, OrganizationMembership, create_organization_membership, disable_membership, get_member,
  set_primary_membership, switch_off, update,
}
use sql_rpa.Organization.Members.Remarked.{
  AreRemarked, AreRemarked-refl, IsAdded, create_organization_membership-Yields, map-Yields,
  IsRemarked, IsSwitchedOff, Yields, disable_membership-Yields, set_primary_membership-Yields,
}

-- Rows with different ids.
abbrev pub IsKeyed : Members → Type 0
IsKeyed [] = Unit
IsKeyed (m ∷ ms) = All (λ n. str_eq n.id m.id ≡ false) ms × IsKeyed ms

module _ (ids : List Text) where
  -- A row after a change: one in the scope stays there, and one outside keeps all but the mark of
  -- the primary membership and its version.
  abbrev pub IsChanged : OrganizationMembership → OrganizationMembership → Type 0
  IsChanged m n =
      ((text_in m.organization_id ids ≡ true) × (text_in n.organization_id ids ≡ true))
      ⊎ IsRemarked m n

  -- The rows after a change: those before, each changed so, and new ones in the scope.
  abbrev pub AreChanged : Members → Members → Type 0
  AreChanged [] ns = All (λ n. text_in n.organization_id ids ≡ true) ns
  AreChanged (m ∷ ms) [] = ⊥
  AreChanged (m ∷ ms) (n ∷ ns) = IsChanged m n × AreChanged ms ns

  -- The rows with an id are in the scope.
  abbrev IsInside : String → Members → Type 0
  IsInside id ms = All (λ m. str_eq m.id id ≡ true → text_in m.organization_id ids ≡ true) ms

  append-AreChanged :
      (ms ns : Members)
      → All (λ n. text_in n.organization_id ids ≡ true) ns
      → AreChanged ms (ms ++ ns)
  append-AreChanged [] ns h = h
  append-AreChanged (m ∷ ms) ns h = (inr refl, append-AreChanged ms ns h)

  remarked-AreChanged : (ms ns : Members) → AreRemarked ms ns → AreChanged ms ns
  remarked-AreChanged [] [] h = tt
  remarked-AreChanged [] (n ∷ ns) h = elim h [ ]
  remarked-AreChanged (m ∷ ms) [] h = elim h [ ]
  remarked-AreChanged (m ∷ ms) (n ∷ ns) (h, hs) = (inr h, remarked-AreChanged ms ns hs)

  -- Marks are changed first, and then a row in the scope is written.
  written-AreChanged :
      (id : String) (write : OrganizationMembership → OrganizationMembership)
      → ((m : OrganizationMembership) → (write m).organization_id ≡ m.organization_id)
      → (ms ns : Members) → AreRemarked ms ns
      → IsInside id ms
      → AreChanged ms (update id write ns)
  written-AreChanged id write w [] [] h i = tt
  written-AreChanged id write w [] (n ∷ ns) h i = elim h [ ]
  written-AreChanged id write w (m ∷ ms) [] h i = elim h [ ]
  written-AreChanged id write w (m ∷ ms) (n ∷ ns) (h, hs) (i, is) = (
    if_elim (IsChanged m) (str_eq n.id id)
        (λ e. go (i (rw (← ap (λ (x : OrganizationMembership). x.id) h) e))) (λ _. inr h),
    written-AreChanged id write w ms ns hs is,
  )
    where
      go : text_in m.organization_id ids ≡ true → IsChanged m (write n)
      go inside = inl (
        inside,
        subst (λ o. text_in o ids ≡ true)
            (sym (w n ∙ ap (λ (x : OrganizationMembership). x.organization_id) h)) inside,
      )

  apart-IsInside :
      (id : String) (ms : Members) → All (λ n. str_eq n.id id ≡ false) ms → IsInside id ms
  apart-IsInside id [] h = tt
  apart-IsInside id (m ∷ ms) (h, hs) =
      ((λ g. absurd (ground (arith, g, h))), apart-IsInside id ms hs)

  -- With different ids, a row that was found is the only one with its id.
  found-IsInside :
      (id : String) (ms : Members) (m : OrganizationMembership)
      → IsKeyed ms
      → get_member id ms ≡ some m
      → text_in m.organization_id ids ≡ true
      → IsInside id ms
  found-IsInside id [] m k e h = tt
  found-IsInside id (n ∷ ms) m (k, ks) e h = elim (Bool-cases (str_eq n.id id)) [
    | inl f ↦ (
      (λ _.
          subst (λ (x : OrganizationMembership). text_in x.organization_id ids ≡ true)
            (sym (some_eq (rw f at e))) h),
      apart-IsInside id ms (
          subst (λ i. All (λ (x : OrganizationMembership). str_eq x.id i ≡ false) ms)
            ((eq_iff n.id id).0 f) k),
    )
    | inr f ↦ ((λ g. absurd (ground (arith, f, g))), found-IsInside id ms m ks (rw f at e) h)
  ]

  pub same-AreChanged : (ms : Members) → AreChanged ms ms
  same-AreChanged ms = remarked-AreChanged ms ms (AreRemarked-refl ms)

  with_members-AreChanged :
      (s : State) (e : Event) (r : Result Members)
      → Yields (AreChanged s.members) r
      → AreChanged s.members (with_members s e r).0.members
  with_members-AreChanged s e (ok ms) h = h
  with_members-AreChanged s e (failed code) h = same-AreChanged s.members

module _ (s : State) (c : OrganizationContext) where
  abbrev ids : List Text
  ids = visible s c

  abbrev pub IsKept : State × Reply → Type 0
  IsKept x = AreChanged ids s.members x.0.members

  unchanged : AreChanged ids s.members s.members
  unchanged = same-AreChanged ids s.members

  pub add_membership-IsKept :
      (users : String → Bool) (now : ℕ) (unit_id : Text) (id user_id : String)
      (role : Option String) (valid_from valid_to : Option ℕ)
      → IsKept (add_membership users now c unit_id id user_id role valid_from valid_to s)
  unfolding add_membership
  add_membership-IsKept users now unit_id id user_id role valid_from valid_to =
      let result =
        create_organization_membership users s.units now id user_id unit_id (assigned role)
          valid_from valid_to s.members in
      if_elim IsKept (not (text_in unit_id ids)) (λ _. unchanged)
        (λ e. with_members-AreChanged ids s (membership_created id) result (
          map-Yields (IsAdded unit_id s.members) (AreChanged ids s.members) result
            (λ ns (n, (o, f)). subst (AreChanged ids s.members) (sym f) (
              append-AreChanged ids s.members (n ∷ [])
                (subst (λ u. text_in u ids ≡ true) (sym o) (ground (arith, e)), tt)))
            (create_organization_membership-Yields users s.units now id user_id unit_id
              (assigned role) valid_from valid_to s.members)))

  module _ (keyed : IsKeyed s.members) where
    with_member-IsKept :
        (id : String) (k : OrganizationMembership → State × Reply)
        → ((m : OrganizationMembership) → IsInside ids id s.members → IsKept (k m))
        → IsKept (with_member c id s k)
    with_member-IsKept id k h = elim (Option-cases (get_member id s.members)) [
      | inl e ↦ rw (e, with_member) unchanged
      | inr (m, e) ↦
          rw (e, with_member)
            (if_elim IsKept (not (text_in m.organization_id ids)) (λ _. unchanged)
              (λ v. h m (found-IsInside ids id s.members m keyed e (ground (arith, v)))))
    ]

    pub update_membership-IsKept :
        (id : String) (role : Option String) (valid_from valid_to : Option ℕ) (version : ℕ)
        → IsKept (update_membership c id role valid_from valid_to version s)
    unfolding update_membership
    update_membership-IsKept id role valid_from valid_to version =
        with_member-IsKept id _ (λ m inside.
          if_elim IsKept (not (m.version == version)) (λ _. unchanged)
            (λ _.
              if_elim IsKept (is_empty_period valid_from valid_to) (λ _. unchanged)
                (λ _.
                  written-AreChanged ids id (rewritten role valid_from valid_to) (λ _. refl)
                    s.members s.members (AreRemarked-refl s.members) inside)))

    pub set_primary-IsKept : (now : ℕ) (id : String) → IsKept (set_primary now c id s)
    unfolding set_primary
    set_primary-IsKept now id =
        let result = set_primary_membership now id s.members in
        with_member-IsKept id _ (λ m inside.
          with_members-AreChanged ids s (primary_changed id) result (
            map-Yields (AreRemarked s.members) (AreChanged ids s.members) result
              (remarked-AreChanged ids s.members) (set_primary_membership-Yields now id s.members)))

    pub disable_member-IsKept :
        (now : ℕ) (id : String) (replacement : Option String)
        → IsKept (disable_member now c id replacement s)
    unfolding disable_member
    disable_member-IsKept now id replacement =
        let result = disable_membership now id replacement s.members in
        with_member-IsKept id _ (λ m inside.
          with_members-AreChanged ids s (membership_disabled id) result (
            map-Yields (IsSwitchedOff id s.members) (AreChanged ids s.members) result
              (λ ns (before, (a, e)).
                subst (AreChanged ids s.members) (sym e)
                  (written-AreChanged ids id switch_off (λ _. refl) s.members before a inside))
              (disable_membership-Yields now id replacement s.members)))
