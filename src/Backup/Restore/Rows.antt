-- ===== src/Backup/Restore/Rows.antt =====
-- Rows with keys: what a test keeps and what it drops make up the whole.
use mathlib.Core.List.{Memᴰ, Perm, perm_middle}
use mathlib.Core.List.Perm
use sql_rpa.Base.{
  ◌≡◌, ◌⊎◌, refl, sym, ap, ◌∙◌, Bool, true, false, ◌&&◌, ◌||◌, not, List, [], ◌∷◌, ◌++◌, any, arith,
  keep, keep-has, has-keep, Bool-cases, inl, inr,
}

module _ {Row : Type 0} where
  pub keep-same :
      (p q : Row → Bool) (xs : List Row)
      → ((x : Row) → Memᴰ x xs → p x ≡ q x)
      → keep p xs ≡ keep q xs
  keep-same p q [] h = refl
  keep-same p q (x ∷ xs) h =
      rw (h x (Memᴰ.head refl), keep-same p q xs (λ y m. h y (Memᴰ.tail m))) refl

  pub keep-keep :
      (p q : Row → Bool) (xs : List Row) → keep p (keep q xs) ≡ keep (λ x. q x && p x) xs
  keep-keep p q [] = refl
  keep-keep p q (x ∷ xs) = elim (Bool-cases (q x)) [
    | inl t ↦ rw t (rw (keep-keep p q xs) refl)
    | inr f ↦ rw f (keep-keep p q xs)
  ]

  split-perm : (p : Row → Bool) (xs : List Row) → Perm (keep (λ x. not (p x)) xs ++ keep p xs) xs
  split-perm p [] = Perm.refl []
  split-perm p (x ∷ xs) = elim (Bool-cases (p x)) [
    | inl t ↦ rw t (
        Perm.trans (perm_middle (keep (λ y. not (p y)) xs) (keep p xs))
          (Perm.cons x (split-perm p xs)))
    | inr f ↦ rw f (Perm.cons x (split-perm p xs))
  ]

-- Rows whose keys are distinct under a symmetric test that holds of each key with itself.
module _ {Row : Type 0} (same : Row → Row → Bool) where
  abbrev pub Apart : Row → List Row → Type 0
  Apart x [] = Unit
  Apart x (y ∷ ys) = (same x y ≡ false) × Apart x ys

  abbrev pub Distinct : List Row → Type 0
  Distinct [] = Unit
  Distinct (x ∷ xs) = Apart x xs × Distinct xs

  abbrev pub has_key : List Row → Row → Bool
  has_key ks x = any (λ k. same k x) ks

  Apart-mem : (x : Row) (xs : List Row) (y : Row) → Apart x xs → Memᴰ y xs → same x y ≡ false
  Apart-mem x [] y a m = elim m [ ]
  Apart-mem x (z ∷ zs) y (a, as') (Memᴰ.head e) = rw e a
  Apart-mem x (z ∷ zs) y (a, as') (Memᴰ.tail m) = Apart-mem x zs y as' m

  module _ (comm : (x y : Row) → same x y ≡ same y x) where
    Distinct-unique :
        (xs : List Row) (x y : Row) → Distinct xs → Memᴰ x xs → Memᴰ y xs → same x y ≡ true → x ≡ y
    Distinct-unique [] x y d m n h = elim m [ ]
    Distinct-unique (z ∷ zs) x y (a, d) (Memᴰ.head e) (Memᴰ.head f) h = e ∙ sym f
    Distinct-unique (z ∷ zs) x y (a, d) (Memᴰ.head e) (Memᴰ.tail n) h =
        absurd (ground (arith, h, ap (λ r. same r y) e, Apart-mem z zs y a n))
    Distinct-unique (z ∷ zs) x y (a, d) (Memᴰ.tail m) (Memᴰ.head f) h =
        absurd (ground (arith, h, comm x y, ap (λ r. same r x) f, Apart-mem z zs x a m))
    Distinct-unique (z ∷ zs) x y (a, d) (Memᴰ.tail m) (Memᴰ.tail n) h =
        Distinct-unique zs x y d m n h

    any-mem :
        (ks : List Row) (x : Row) → has_key ks x ≡ true → (k : Row) × Memᴰ k ks × (same k x ≡ true)
    any-mem [] x h = absurd (ground arith)
    any-mem (k ∷ ks) x h = elim (Bool-cases (same k x)) [
      | inl t ↦ (k, Memᴰ.head refl, t)
      | inr f ↦ let (l, m, e) = any-mem ks x (rw f at h) in (l, Memᴰ.tail m, e)
    ]

    mem-any : (ks : List Row) (x k : Row) → Memᴰ k ks → same k x ≡ true → has_key ks x ≡ true
    mem-any [] x k m h = elim m [ ]
    mem-any (l ∷ ks) x k (Memᴰ.head e) h = rw (ap (λ r. same r x) (sym e) ∙ h) refl
    mem-any (l ∷ ks) x k (Memᴰ.tail m) h = ground (arith, mem-any ks x k m h)

    -- Of distinct rows, those with a key of the chosen ones are the chosen ones.
    has_key-keep :
        (p : Row → Bool) (xs : List Row) (x : Row)
        → Distinct xs
        → (same x x ≡ true)
        → Memᴰ x xs
        → has_key (keep p xs) x ≡ p x
    has_key-keep p xs x d own m = elim (Bool-cases (p x)) [
      | inl t ↦ mem-any (keep p xs) x x (keep-has p xs x m t) own ∙ sym t
      | inr f ↦ none_of (Bool-cases (has_key (keep p xs) x)) f
    ]
      where
        none_of :
            (has_key (keep p xs) x ≡ true) ⊎ (has_key (keep p xs) x ≡ false)
            → p x ≡ false
            → has_key (keep p xs) x ≡ p x
        none_of (inr h) f = h ∙ sym f
        none_of (inl h) f =
            let (k, m', e) = any-mem (keep p xs) x h in
            let (n, t) = has-keep p xs k m' in
            absurd (ground (arith, f, t, ap p (Distinct-unique xs k x d n m e)))

    -- What has no key of the chosen rows, and the chosen rows, are the whole.
    pub restored-perm :
        (p : Row → Bool) (xs : List Row)
        → Distinct xs
        → ((x : Row) → Memᴰ x xs → same x x ≡ true)
        → Perm (keep (λ x. not (has_key (keep p xs) x)) xs ++ keep p xs) xs
    restored-perm p xs d own =
        rw
          (keep-same (λ x. not (has_key (keep p xs) x)) (λ x. not (p x)) xs
            (λ x m. ap not (has_key-keep p xs x d (own x m) m)))
          (split-perm p xs)

    Apart-keep : (x : Row) (p : Row → Bool) (xs : List Row) → Apart x xs → Apart x (keep p xs)
    Apart-keep x p [] a = tt
    Apart-keep x p (y ∷ ys) (a, as') = elim (Bool-cases (p y)) [
      | inl t ↦ rw t (a, Apart-keep x p ys as')
      | inr f ↦ rw f (Apart-keep x p ys as')
    ]

    pub Distinct-keep : (p : Row → Bool) (xs : List Row) → Distinct xs → Distinct (keep p xs)
    Distinct-keep p [] d = tt
    Distinct-keep p (x ∷ xs) (a, d) = elim (Bool-cases (p x)) [
      | inl t ↦ rw t (Apart-keep x p xs a, Distinct-keep p xs d)
      | inr f ↦ rw f (Distinct-keep p xs d)
    ]

    Apart-append : (x : Row) (xs ys : List Row) → Apart x xs → Apart x ys → Apart x (xs ++ ys)
    Apart-append x [] ys a b = b
    Apart-append x (z ∷ zs) ys (a, as') b = (a, Apart-append x zs ys as' b)

    Apart-has_key : (ks : List Row) (x : Row) → has_key ks x ≡ false → Apart x ks
    Apart-has_key [] x h = tt
    Apart-has_key (k ∷ ks) x h =
        let (f, g) = or_false (same k x) (has_key ks x) h in (comm x k ∙ f, Apart-has_key ks x g)
      where
        or_false : (a b : Bool) → (a || b) ≡ false → (a ≡ false) × (b ≡ false)
        or_false a b h = ground arith

    pub Distinct-dropped :
        (ks xs : List Row)
        → Distinct ks
        → Distinct xs
        → Distinct (keep (λ x. not (has_key ks x)) xs ++ ks)
    Distinct-dropped ks [] d e = d
    Distinct-dropped ks (x ∷ xs) d (a, e) = elim (Bool-cases (has_key ks x)) [
      | inl t ↦ rw t (Distinct-dropped ks xs d e)
      | inr f ↦ rw f (
        Apart-append x (keep (λ y. not (has_key ks y)) xs) ks
            (Apart-keep x (λ y. not (has_key ks y)) xs a) (Apart-has_key ks x f),
        Distinct-dropped ks xs d e,
      )
    ]
