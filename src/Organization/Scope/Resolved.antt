-- ===== src/Organization/Scope/Resolved.antt =====
-- What the context that is resolved is (`resolve_organization_context`), and when it still holds.
use sql_rpa.Base.{
  ℕ, ◌≡◌, sym, ◌∙◌, String, Bool, true, ◌&&◌, some, List, All, All-mem, arith, eq_iff, find,
  find-has, find-some, Option-cases, Bool-cases, inl, inr, str_eq,
}
use sql_rpa.Text.{Text, text_eq, text_eq_iff}
use sql_rpa.Organization.{OrganizationUnit, get_active}
use sql_rpa.Organization.Members.{Members, OrganizationMembership, is_effective}
use sql_rpa.Organization.Scope.{OrganizationContext, resolve_organization_context}

module _ (user_id : String) (organization_id : Text) (id : String) where
  abbrev is_named : OrganizationMembership → Bool
  is_named m =
      str_eq m.id id
      && str_eq m.user_id user_id
      && text_eq m.organization_id organization_id
      && m.active

  -- The time matters only for the period of the membership.
  pub resolve-later :
      (now later : ℕ) (ms : Members) (units : List OrganizationUnit) (context : OrganizationContext)
      → All (λ m. str_eq m.id id ≡ true → is_effective later m ≡ true) ms
      → resolve_organization_context now user_id organization_id id ms units ≡ some context
      → resolve_organization_context later user_id organization_id id ms units ≡ some context
  unfolding resolve_organization_context
  resolve-later now later ms units context h e = elim (Option-cases (find is_named ms)) [
    | inl f ↦ absurd (ground (arith, rw (resolve_organization_context, f) at e))
    | inr (m, f) ↦
        let named = find-some is_named ms m f in
        let stays : is_effective later m ≡ true =
          All-mem (λ n. str_eq n.id id ≡ true → is_effective later n ≡ true) ms m h
            (find-has is_named ms m f) (ground (arith, named)) in
        elim (Option-cases (get_active m.organization_id units)) [
          | inl g ↦ absurd (ground (arith, rw (resolve_organization_context, f, g) at e))
          | inr (unit, g) ↦ elim (Bool-cases (is_effective now m)) [
            | inl t ↦
                rw (resolve_organization_context, f, g, stays)
                  (rw (resolve_organization_context, f, g, t) at e)
            | inr t ↦ absurd (ground (arith, rw (resolve_organization_context, f, g, t) at e))
          ]
        ]
  ]

  -- The context is that of the unit and the membership that were named.
  pub resolve-names :
      (now : ℕ) (ms : Members) (units : List OrganizationUnit) (context : OrganizationContext)
      → resolve_organization_context now user_id organization_id id ms units ≡ some context
      → (context.organization_id ≡ organization_id) × (context.membership_id ≡ id)
  unfolding resolve_organization_context
  resolve-names now ms units context e = elim (Option-cases (find is_named ms)) [
    | inl f ↦ absurd (ground (arith, rw (resolve_organization_context, f) at e))
    | inr (m, f) ↦ elim (Option-cases (get_active m.organization_id units)) [
      | inl g ↦ absurd (ground (arith, rw (resolve_organization_context, f, g) at e))
      | inr (unit, g) ↦
          let named = find-some is_named ms m f in
          let active = find-some (λ u. text_eq u.id m.organization_id && u.active) units unit g in
          let (same, same') : (unit.id ≡ context.organization_id) × (m.id ≡ context.membership_id) =
            ground (arith, rw (resolve_organization_context, f, g) at e) in
          (
            sym same
                ∙ (text_eq_iff unit.id m.organization_id).0 (ground (arith, active))
                ∙ (text_eq_iff m.organization_id organization_id).0 (ground (arith, named)),
            sym same' ∙ (eq_iff m.id id).0 (ground (arith, named)),
          )
    ]
  ]
