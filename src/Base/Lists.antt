-- ===== src/Base/Lists.antt =====
-- Lists measured and searched by Boolean tests, under the libraries' names.
use Prim.Native.Nat.{ℕ, zero, suc, ◌+◌, ◌≤◌}
use Prim.Native.Char.{code}
use Prim.Native.String.{String}
use mathlib.Core.Path.{◌≡◌, refl, subst, sym, ap}
use mathlib.Core.Bool.{Bool, true, false, ◌&&◌, ◌||◌}
use mathlib.Core.List.{List, [], ◌∷◌, ◌++◌, Memᴰ, map}
use mathlib.Core.Option.{Option, none, some}
use native.Mathlib.Omega.{arith}
use sql_rpa.Base.Tests.{if◌then◌else◌, Bool-cases, some_eq}
use mathlib.Core.Logic.{inl, inr}
use text.Mathlib.Text.{◌==◌ as str_eq}

-- The code points of a text. `String` has its own `[]` and `∷`.
abbrev pub codes : String → List ℕ
codes String.[] = []
codes (String.◌∷◌ c s) = code c ∷ codes s

module _ {ℓ} {A : Type ℓ} where
  abbrev pub length : List A → ℕ
  length [] = 0
  length (x ∷ xs) = suc (length xs)

  abbrev pub any : (A → Bool) → List A → Bool
  any p [] = false
  any p (x ∷ xs) = p x || any p xs

  abbrev pub all : (A → Bool) → List A → Bool
  all p [] = true
  all p (x ∷ xs) = p x && all p xs

  -- `[x for x in xs if p(x)]`
  abbrev pub keep : (A → Bool) → List A → List A
  keep p [] = []
  keep p (x ∷ xs) = if p x then x ∷ keep p xs else keep p xs

  -- `next((x for x in xs if p(x)), None)`
  abbrev pub find : (A → Bool) → List A → Option A
  find p [] = none
  find p (x ∷ xs) = if p x then some x else find p xs

  abbrev pub take : ℕ → List A → List A
  take zero xs = []
  take (suc n) [] = []
  take (suc n) (x ∷ xs) = x ∷ take n xs

  abbrev pub drop : ℕ → List A → List A
  drop zero xs = xs
  drop (suc n) [] = []
  drop (suc n) (x ∷ xs) = drop n xs

  pub length-append : (xs ys : List A) → length (xs ++ ys) ≡ length xs + length ys
  length-append [] ys = omega arith
  length-append (x ∷ xs) ys = omega (arith, length-append xs ys)

  pub length-keep : (p : A → Bool) (xs : List A) → length (keep p xs) ≤ length xs
  length-keep p [] = omega arith
  length-keep p (x ∷ xs) = ground (arith, length-keep p xs)

pub length-map {ℓ κ} :
    {A : Type ℓ} {B : Type κ} (f : A → B) (xs : List A) → length (map f xs) ≡ length xs
length-map f [] = refl
length-map f (x ∷ xs) = omega (arith, length-map f xs)

-- Membership in what a test keeps.
module _ {ℓ} {A : Type ℓ} (p : A → Bool) where
  pub keep-has : (xs : List A) (a : A) → Memᴰ a xs → p a ≡ true → Memᴰ a (keep p xs)
  keep-has [] a m h = elim m [ ]
  keep-has (x ∷ xs) a (Memᴰ.head e) h = rw (sym e) (rw h (Memᴰ.head refl))
  keep-has (x ∷ xs) a (Memᴰ.tail m) h = elim (Bool-cases (p x)) [
    | inl t ↦ rw t (Memᴰ.tail (keep-has xs a m h))
    | inr f ↦ rw f (keep-has xs a m h)
  ]

  pub has-keep : (xs : List A) (a : A) → Memᴰ a (keep p xs) → Memᴰ a xs × (p a ≡ true)
  has-keep [] a m = elim m [ ]
  has-keep (x ∷ xs) a m = elim (Bool-cases (p x)) [
    | inr f ↦ let (n, h) = has-keep xs a (rw f at m) in (Memᴰ.tail n, h)
    | inl t ↦ kept t (has-keep xs a) (rw t at m)
  ]
    where
      kept :
          p x ≡ true
          → (Memᴰ a (keep p xs) → Memᴰ a xs × (p a ≡ true))
          → Memᴰ a (x ∷ keep p xs)
          → Memᴰ a (x ∷ xs) × (p a ≡ true)
      kept t again (Memᴰ.head e) = (Memᴰ.head e, subst (λ y. p y ≡ true) (sym e) t)
      kept t again (Memᴰ.tail n) = let (m, h) = again n in (Memᴰ.tail m, h)

  pub keep-append : (xs ys : List A) → keep p (xs ++ ys) ≡ keep p xs ++ keep p ys
  keep-append [] ys = refl
  keep-append (x ∷ xs) ys = elim (Bool-cases (p x)) [
    | inl t ↦ rw t (ap (λ zs. x ∷ zs) (keep-append xs ys))
    | inr f ↦ rw f (keep-append xs ys)
  ]

  pub keep-skip : (x : A) (xs : List A) → p x ≡ false → keep p (x ∷ xs) ≡ keep p xs
  keep-skip x xs f = rw f refl

  pub keep-cons :
      (x : A) (xs ys : List A) → keep p xs ≡ keep p ys → keep p (x ∷ xs) ≡ keep p (x ∷ ys)
  keep-cons x xs ys e = elim (Bool-cases (p x)) [
    | inl t ↦ rw t (ap (λ zs. x ∷ zs) e)
    | inr f ↦ rw f e
  ]

  pub find-none : (xs : List A) (a : A) → find p xs ≡ none → Memᴰ a xs → p a ≡ false
  find-none [] a e m = elim m [ ]
  find-none (x ∷ xs) a e (Memᴰ.head h) = elim (Bool-cases (p x)) [
    | inl t ↦ absurd (ground (arith, rw t at e))
    | inr f ↦ rw h f
  ]
  find-none (x ∷ xs) a e (Memᴰ.tail m) = elim (Bool-cases (p x)) [
    | inl t ↦ absurd (ground (arith, rw t at e))
    | inr f ↦ find-none xs a (rw f at e) m
  ]

  pub find-some : (xs : List A) (a : A) → find p xs ≡ some a → p a ≡ true
  find-some [] a e = absurd (ground (arith, e))
  find-some (x ∷ xs) a e = elim (Bool-cases (p x)) [
    | inl t ↦ subst (λ y. p y ≡ true) (some_eq (rw t at e)) t
    | inr f ↦ find-some xs a (rw f at e)
  ]

  pub find-has : (xs : List A) (a : A) → find p xs ≡ some a → Memᴰ a xs
  find-has [] a e = absurd (ground (arith, e))
  find-has (x ∷ xs) a e = elim (Bool-cases (p x)) [
    | inl t ↦ Memᴰ.head (sym (some_eq (rw t at e)))
    | inr f ↦ Memᴰ.tail (find-has xs a (rw f at e))
  ]

  pub find-append : (xs ys : List A) (a : A) → find p xs ≡ some a → find p (xs ++ ys) ≡ some a
  find-append [] ys a e = absurd (ground (arith, e))
  find-append (x ∷ xs) ys a e = elim (Bool-cases (p x)) [
    | inl t ↦ rw t (rw t at e)
    | inr f ↦ rw f (find-append xs ys a (rw f at e))
  ]

  pub find-append-none : (xs ys : List A) → find p xs ≡ none → find p (xs ++ ys) ≡ find p ys
  find-append-none [] ys e = refl
  find-append-none (x ∷ xs) ys e = elim (Bool-cases (p x)) [
    | inl t ↦ absurd (ground (arith, rw t at e))
    | inr f ↦ rw f (find-append-none xs ys (rw f at e))
  ]

module _ {ℓ κ} {A : Type ℓ} (P : A → Type κ) where
  abbrev pub All : List A → Type κ
  All [] = Unit
  All (x ∷ xs) = P x × All xs

-- Membership in a list of strings, `s in xs`.
abbrev pub str_in : String → List String → Bool
str_in s xs = any (λ x. str_eq x s) xs

pub All-mem : {A : Type 0} (P : A → Type 0) (xs : List A) (x : A) → All P xs → Memᴰ x xs → P x
All-mem P [] x h m = elim m [ ]
All-mem P (y ∷ ys) x (h, hs) (Memᴰ.head e) = subst P (sym e) h
All-mem P (y ∷ ys) x (h, hs) (Memᴰ.tail m) = All-mem P ys x hs m
