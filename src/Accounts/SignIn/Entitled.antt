-- ===== src/Accounts/SignIn/Entitled.antt =====
-- The tenant and the role that `login` of backend/api/auth.py chooses.
use mathlib.Core.List.{Memᴰ}
use sql_rpa.Base.{
  find-has, some_eq, ℕ, ◌≡◌, refl, String, Bool, true, false, ◌&&◌, not, Option, none, some, List,
  [], ◌∷◌, ◌⊎◌, subst, sym, All, find, keep, str_eq, arith, inl, inr, if_elim, Option-cases,
  if◌then◌else◌, has-keep,
}
use sql_rpa.Text.{Text, text_eq}
use sql_rpa.Organization.{get_unit}
use sql_rpa.Organization.Members.{Members, OrganizationMembership, is_effective}
use sql_rpa.Accounts.{User}
use sql_rpa.Accounts.Session.{Membership, Tables}
use sql_rpa.Accounts.SignIn.{
  Place, Settings, Tenant, entry, either, head, in_order, insert, is_membership, is_none, is_place,
  joined, memberships, places, precedes, selected_membership, selected_place,
}

module _ (P : Place → Type 0) where
  insert-All : (p : Place) (ps : List Place) → P p → All P ps → All P (insert p ps)
  unfolding insert
  insert-All p [] h hs = (h, tt)
  insert-All p (q ∷ qs) h (k, ks) =
      if_elim (All P) (precedes q p) (λ _. (k, insert-All p qs h ks)) (λ _. (h, (k, ks)))

  in_order-All : (ps : List Place) → All P ps → All P (in_order ps)
  unfolding in_order
  in_order-All [] hs = tt
  in_order-All (p ∷ ps) (h, hs) = insert-All p (in_order ps) h (in_order-All ps hs)

  keep-All :
      (p : Place → Bool) (ps : List Place) → All P ps → All (λ r. P r × (p r ≡ true)) (keep p ps)
  keep-All p [] hs = tt
  keep-All p (r ∷ rs) (h, hs) =
      if_elim (All (λ r. P r × (p r ≡ true))) (p r) (λ e. ((h, e), keep-All p rs hs))
        (λ _. keep-All p rs hs)

  All-has : (ps : List Place) (r : Place) → All P ps → Memᴰ r ps → P r
  All-has [] r hs m = elim m [ ]
  All-has (p ∷ ps) r (h, hs) (Memᴰ.head e) = subst P (sym e) h
  All-has (p ∷ ps) r (h, hs) (Memᴰ.tail m) = All-has ps r hs m

module _ {ℓ} {A : Type ℓ} where
  either-some :
      (o other : Option A) (a : A) → either o other ≡ some a → (o ≡ some a) ⊎ (other ≡ some a)
  either-some none other a e = inr e
  either-some (some x) other a e = inl e

  either≢none : (o : Option A) (x : A) → ¬ (either o (some x) ≡ none)
  either≢none none x e = absurd (ground (arith, e))
  either≢none (some y) x e = absurd (ground (arith, e))

module _ {ℓ} {A : Type ℓ} (p : A → Bool) where
  -- The first that passes the test, or else the first.
  chosen-has : (xs : List A) (a : A) → either (find p xs) (head xs) ≡ some a → Memᴰ a xs
  chosen-has [] a e = absurd (ground (arith, e))
  chosen-has (x ∷ xs) a e = elim (either-some (find p (x ∷ xs)) (some x) a e) [
    | inl f ↦ find-has p (x ∷ xs) a f
    | inr f ↦ Memᴰ.head (sym (some_eq f))
  ]

  chosen-none : (xs : List A) → either (find p xs) (head xs) ≡ none → is_none xs ≡ true
  chosen-none [] e = refl
  chosen-none (x ∷ xs) e = absurd (either≢none (find p (x ∷ xs)) x e)

module _ (tables : Tables) (tenants : List Tenant) (user : User) where
  -- A place is one of the user's own: an active membership in an active unit.
  abbrev pub IsOwn : Place → Type 0
  IsOwn (m, unit) =
      Memᴰ m tables.members
      × ((get_unit m.organization_id tables.units ≡ some unit)
          × ((str_eq m.user_id user.id && m.active && unit.active) ≡ true))

  joined-IsOwn :
      (ms : Members)
      → ((m : OrganizationMembership) → Memᴰ m ms → Memᴰ m tables.members)
      → All IsOwn (joined tables tenants user ms)
  unfolding joined
  joined-IsOwn [] h = tt
  joined-IsOwn (m ∷ ms) h =
      let again = joined-IsOwn ms (λ n k. h n (Memᴰ.tail k)) in
      elim (Option-cases (get_unit m.organization_id tables.units)) [
        | inl e ↦ rw (e, joined) again
        | inr (unit, e) ↦
            rw (e, joined)
              (if_elim (All IsOwn) (is_place tables tenants user (m, unit))
                (λ t. ((h m (Memᴰ.head refl), (e, t)), again)) (λ _. again))
      ]

  places-IsOwn :
      (now : ℕ) (p : Place)
      → Memᴰ p (places tables user now)
      → IsOwn p × (is_effective now p.0 ≡ true)
  unfolding places
  places-IsOwn now p m =
      let ps = in_order (joined tables tenants user tables.members) in
      let test = λ (q : Place). is_effective now q.0 in
      All-has (λ r. IsOwn r × (test r ≡ true)) (keep test ps) p
        (keep-All IsOwn test ps (
          in_order-All IsOwn (joined tables tenants user tables.members)
            (joined-IsOwn tables.members (λ n k. k))))
        m

  abbrev pub IsEntitled : Settings → ℕ → Text → String → Type 0
  IsEntitled settings now tenant role =
      ((p : Place) × ((IsOwn p × (is_effective now p.0 ≡ true))
          × ((tenant ≡ p.1.id) × (role ≡ p.0.role))))
      ⊎ (((m : Membership) × ((Memᴰ m tables.memberships
                × (is_membership tables tenants user m ≡ true))
              × ((tenant ≡ m.tenant_id) × (role ≡ m.role))))
          ⊎ ((tenant ≡ settings.default_tenant_id)
              × ((role ≡ (if user.is_platform_admin then "admin" else "unassigned"))
                  × (((settings.multi_tenant_enabled && not user.is_platform_admin) ≡ false)
                      × ((is_none (memberships tables tenants user) ≡ true)
                          × (is_none (places tables user now) ≡ true))))))

  pub entry-IsEntitled :
      (settings : Settings) (now : ℕ)
      → (settings.multi_tenant_enabled
          && not user.is_platform_admin
          && is_none (memberships tables tenants user)
          && is_none (places tables user now))
        ≡ false
      → (let chosen =
            entry settings user
              (selected_membership settings (memberships tables tenants user))
              (selected_place (places tables user now)) in
          IsEntitled settings now chosen.0 chosen.1)
  unfolding entry selected_membership selected_place
  entry-IsEntitled settings now guard =
      let ms = memberships tables tenants user in
      let ps = places tables user now in
      let of_place = chosen-has (λ (p : Place). p.0.is_primary) ps in
      let of_tenant = λ (m : Membership). text_eq m.tenant_id settings.default_tenant_id in
      elim (Option-cases (selected_place ps)) [
        | inr (p, e) ↦ rw (e, entry) (inl (p, (places-IsOwn now p (of_place p e), (refl, refl))))
        | inl e ↦ elim (Option-cases (selected_membership settings ms)) [
          | inr (m, f) ↦
              let held =
                has-keep (is_membership tables tenants user) tables.memberships m
                  (chosen-has of_tenant ms m f) in
              rw (e, f, entry) (inr (inl (m, (held, (refl, refl)))))
          | inl f ↦
              let no_ms = chosen-none of_tenant ms f in
              let no_ps = chosen-none (λ (p : Place). p.0.is_primary) ps e in
              rw (e, f, entry)
                (inr (inr (refl, (refl, (ground (arith, guard, no_ms, no_ps), (no_ms, no_ps))))))
        ]
      ]
