-- ===== src/Organization/Members/Remarked.antt =====
-- What the operations on memberships leave of the rows.
use sql_rpa.Base.{
  ℕ, ◌≡◌, refl, ap, ◌∙◌, String, Bool, false, ◌&&◌, not, Option, none, some, List, [], ◌∷◌, ◌++◌,
  find-some, Option-cases, inl, inr, if_elim, any, str_eq, if◌then◌else◌,
}
use sql_rpa.Text.{Text, text_eq, text_eq_iff}
use sql_rpa.Organization.{OrganizationUnit, get_unit, Result, ok, failed}
use sql_rpa.Organization.Members.{
  create_organization_membership, new_member, Members, OrganizationMembership, and_then, current_of,
  demote, demote_current, disable_membership, flush, get_active_member, get_member, replacement_of,
  hand_over, has_begun, has_ended, has_unique_primary, has_unique_node, is_effective,
  is_replacement, is_rival, promote, set_primary_membership, switch_off, update,
}

-- A row with another mark of the primary membership and another version.
abbrev pub IsRemarked : OrganizationMembership → OrganizationMembership → Type 0
IsRemarked m n = n ≡ record m { is_primary = n.is_primary; version = n.version }

abbrev pub AreRemarked : Members → Members → Type 0
AreRemarked [] [] = Unit
AreRemarked [] (n ∷ ns) = ⊥
AreRemarked (m ∷ ms) [] = ⊥
AreRemarked (m ∷ ms) (n ∷ ns) = IsRemarked m n × AreRemarked ms ns

pub IsRemarked-trans :
    (m n k : OrganizationMembership) → IsRemarked m n → IsRemarked n k → IsRemarked m k
IsRemarked-trans m n k e f =
    f
    ∙ ap
        (λ (x : OrganizationMembership). record x {
          is_primary = k.is_primary;
          version = k.version;
        })
        e

pub AreRemarked-refl : (ms : Members) → AreRemarked ms ms
AreRemarked-refl [] = tt
AreRemarked-refl (m ∷ ms) = (refl, AreRemarked-refl ms)

AreRemarked-trans : (ms ns ks : Members) → AreRemarked ms ns → AreRemarked ns ks → AreRemarked ms ks
AreRemarked-trans [] [] [] a b = tt
AreRemarked-trans [] [] (k ∷ ks) a b = elim b [ ]
AreRemarked-trans [] (n ∷ ns) ks a b = elim a [ ]
AreRemarked-trans (m ∷ ms) [] ks a b = elim a [ ]
AreRemarked-trans (m ∷ ms) (n ∷ ns) [] a b = elim b [ ]
AreRemarked-trans (m ∷ ms) (n ∷ ns) (k ∷ ks) (a, ha) (b, hb) =
    (IsRemarked-trans m n k a b, AreRemarked-trans ms ns ks ha hb)

update-AreRemarked :
    (id : String) (write : OrganizationMembership → OrganizationMembership)
    → ((m : OrganizationMembership) → IsRemarked m (write m))
    → (ms : Members) → AreRemarked ms (update id write ms)
update-AreRemarked id write h [] = tt
update-AreRemarked id write h (m ∷ ms) = (
  if_elim (IsRemarked m) (str_eq m.id id) (λ _. h m) (λ _. refl),
  update-AreRemarked id write h ms,
)

-- What holds of the rows of a result, if there are any.
abbrev pub Yields : (Members → Type 0) → Result Members → Type 0
Yields P (ok ms) = P ms
Yields P (failed e) = Unit

flush-Yields : (P : Members → Type 0) (ms : Members) → P ms → Yields P (flush ms)
unfolding flush
flush-Yields P ms h =
    if_elim (Yields P) (has_unique_primary ms && has_unique_node ms) (λ _. h) (λ _. tt)

and_then-Yields :
    (P Q : Members → Type 0) (r : Result Members) (next : Members → Result Members)
    → Yields P r
    → ((ms : Members) → P ms → Yields Q (next ms))
    → Yields Q (and_then r next failed)
and_then-Yields P Q (ok ms) next h k = k ms h
and_then-Yields P Q (failed e) next h k = tt

pub map-Yields :
    (P Q : Members → Type 0) (r : Result Members)
    → ((ms : Members) → P ms → Q ms)
    → Yields P r
    → Yields Q r
map-Yields P Q (ok ms) k h = k ms h
map-Yields P Q (failed e) k h = tt

demote_current-Yields :
    (m : OrganizationMembership) (ms : Members) → Yields (AreRemarked ms) (demote_current m ms)
unfolding demote_current
demote_current-Yields m ms = elim (Option-cases (current_of m ms)) [
  | inl e ↦ rw (e, demote_current) (AreRemarked-refl ms)
  | inr (c, e) ↦
      rw (e, demote_current)
        (if_elim (Yields (AreRemarked ms)) (str_eq c.id m.id) (λ _. AreRemarked-refl ms)
          (λ _.
            flush-Yields (AreRemarked ms) (update c.id demote ms)
              (update-AreRemarked c.id demote (λ _. refl) ms)))
]

-- A new primary membership changes marks and versions alone.
pub set_primary_membership-Yields :
    (now : ℕ) (id : String) (ms : Members)
    → Yields (AreRemarked ms) (set_primary_membership now id ms)
unfolding set_primary_membership
set_primary_membership-Yields now id ms = elim (Option-cases (get_active_member id ms)) [
  | inl e ↦ rw (e, set_primary_membership) tt
  | inr (m, e) ↦
      rw (e, set_primary_membership)
        (if_elim (Yields (AreRemarked ms)) (not (has_begun now m)) (λ _. tt)
          (λ _.
            if_elim (Yields (AreRemarked ms)) (has_ended now m) (λ _. tt)
              (λ _.
                and_then-Yields (AreRemarked ms) (AreRemarked ms) (demote_current m ms)
                  (λ ns. flush (update id promote ns)) (demote_current-Yields m ms)
                  (λ ns a. flush-Yields (AreRemarked ms) (update id promote ns) (
                    AreRemarked-trans ms ns (update id promote ns) a
                      (update-AreRemarked id promote (λ _. refl) ns))))))
]

hand_over-Yields :
    (now : ℕ) (m : OrganizationMembership) (replacement : Option String) (ms : Members)
    → Yields (AreRemarked ms) (hand_over now m replacement ms)
unfolding hand_over
hand_over-Yields now m none ms =
    if_elim (Yields (AreRemarked ms))
      (any (λ n. is_rival m n && n.active && is_effective now n && not (str_eq n.id m.id)) ms)
      (λ _. tt) (λ _. AreRemarked-refl ms)
hand_over-Yields now m (some r) ms =
    let unmark = λ (n : OrganizationMembership). record n { is_primary = false } in
    if_elim (Yields (AreRemarked ms)) (is_replacement now m (get_member r ms))
      (λ _.
        and_then-Yields (AreRemarked ms) (AreRemarked ms) (flush (update m.id unmark ms))
          (λ ns. set_primary_membership now r ns)
          (flush-Yields (AreRemarked ms) (update m.id unmark ms)
            (update-AreRemarked m.id unmark (λ _. refl) ms))
          (λ ns a.
            map-Yields (AreRemarked ns) (AreRemarked ms) (set_primary_membership now r ns)
              (λ ks b. AreRemarked-trans ms ns ks a b) (set_primary_membership-Yields now r ns)))
      (λ _. tt)

-- Disabling a membership changes marks and versions alone, before it is switched off.
abbrev pub IsSwitchedOff : String → Members → Members → Type 0
IsSwitchedOff id ms ns =
    (before : Members) × (AreRemarked ms before × (ns ≡ update id switch_off before))

pub disable_membership-Yields :
    (now : ℕ) (id : String) (replacement : Option String) (ms : Members)
    → Yields (IsSwitchedOff id ms) (disable_membership now id replacement ms)
unfolding disable_membership
disable_membership-Yields now id replacement ms = elim (Option-cases (get_active_member id ms)) [
  | inl e ↦ rw (e, disable_membership) tt
  | inr (m, e) ↦
      rw (e, disable_membership)
        (and_then-Yields (AreRemarked ms) (IsSwitchedOff id ms)
          (if m.is_primary then hand_over now m (replacement_of replacement) ms else ok ms)
          (λ ns. flush (update id switch_off ns))
          (if_elim (Yields (AreRemarked ms)) m.is_primary
            (λ _. hand_over-Yields now m (replacement_of replacement) ms)
            (λ _. AreRemarked-refl ms))
          (λ ns a. flush-Yields (IsSwitchedOff id ms) (update id switch_off ns) (ns, (a, refl))))
]

-- A new membership is added behind the rows, in the unit that the call names.
abbrev pub IsAdded : Text → Members → Members → Type 0
IsAdded organization_id ms ns =
    (n : OrganizationMembership) × ((n.organization_id ≡ organization_id) × (ns ≡ ms ++ n ∷ []))

pub create_organization_membership-Yields :
    (users : String → Bool) (units : List OrganizationUnit) (now : ℕ) (id user_id : String)
    (organization_id : Text) (role : String) (valid_from valid_to : Option ℕ) (ms : Members)
    → Yields (IsAdded organization_id ms) (
        create_organization_membership users units now id user_id organization_id role valid_from
          valid_to ms)
unfolding create_organization_membership
create_organization_membership-Yields users units now id user_id organization_id role valid_from
      valid_to ms =
    let P = IsAdded organization_id ms in
    if_elim (Yields P) (not (users user_id)) (λ _. tt)
      (λ _. elim (Option-cases (get_unit organization_id units)) [
        | inl e ↦ rw e tt
        | inr (unit, e) ↦
            let n = new_member now id user_id unit role valid_from valid_to ms in
            let same =
              (text_eq_iff unit.id organization_id).0
                (find-some (λ u. text_eq u.id organization_id) units unit e) in
            rw e (
              if_elim (Yields P) (not unit.active) (λ _. tt)
                (λ _.
                  if_elim (Yields P)
                    (any
                      (λ m. str_eq m.user_id user_id && text_eq m.organization_id organization_id)
                      ms)
                    (λ _. tt) (λ _. flush-Yields P (ms ++ n ∷ []) (n, (same, refl)))))
      ])
