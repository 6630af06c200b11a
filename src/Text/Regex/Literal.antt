-- ===== src/Text/Regex/Literal.antt =====
-- What a match of a literal between boundaries says of the text.
use mathlib.Core.List.{append-nil, flat_map}
use sql_rpa.Base.{
  ℕ, ◌≡◌, refl, ap, ◌∙◌, Bool, true, false, ◌&&◌, Option, none, some, List, [], ◌∷◌, ◌++◌, ◌==◌,
  ==_iff, arith, Bool-cases, inl, inr,
}
use sql_rpa.Text.{Text, starts_with, starts_with-rest}
use sql_rpa.Text.Regex.{
  Regex, Place, seq, boundary, literal, chain, ends, read_char, when, search_from, search, matches,
  found?, first, word_at, differ, head,
}

abbrev at : Option ℕ → Text → Place
at before s = record { before = before; rest = s; found = none }

swapped : (c d : ℕ) → (c == d) ≡ (d == c)
swapped c d = ground (arith, ==_iff c d, ==_iff d c)

-- Where the literal does not stand, it and what follows it have no match.
literal-none :
    (t : Text) (c : ℕ) (r : Regex) (before : Option ℕ) (s : Text)
    → starts_with (c ∷ t) s ≡ false
    → ends (seq (literal (c ∷ t)) r) (at before s) ≡ []
unfolding ends read_char when flat_map
literal-none [] c r before [] h = refl
literal-none [] c r before (d ∷ s) h = rw (swapped d c, only (c == d) h) refl
  where
    only : (a : Bool) → (a && true) ≡ false → a ≡ false
    only a h = ground (arith, h)
literal-none (e ∷ t) c r before [] h = refl
literal-none (e ∷ t) c r before (d ∷ s) h = elim (Bool-cases (c == d)) [
  | inr n ↦ rw (swapped d c, n) refl
  | inl y ↦
      rw (swapped d c, y, append-nil (ends (literal (e ∷ t)) (at (some d) s)))
        (literal-none t e r (some d) s (later (c == d) _ y h))
]
  where
    later : (a b : Bool) → a ≡ true → (a && b) ≡ false → b ≡ false
    later a b y h = ground (arith, y, h)

-- The literal between boundaries.
bounded-none :
    (t : Text) (c : ℕ) (before : Option ℕ) (s : Text)
    → starts_with (c ∷ t) s ≡ false
    → ends (chain (boundary ∷ literal (c ∷ t) ∷ boundary ∷ [])) (at before s) ≡ []
unfolding ends when flat_map
bounded-none t c before s h = elim (Bool-cases (differ (word_at before) (word_at (head s)))) [
  | inr n ↦ rw n refl
  | inl y ↦ rw y (
      append-nil (ends (seq (literal (c ∷ t)) boundary) (at before s))
      ∙ literal-none t c boundary before s h)
]

-- The text holds another one.
abbrev pub Holds : Text → Text → Type 0
Holds t s = (before after : Text) × (s ≡ before ++ (t ++ after))

found-later :
    (here : List Place) (later : Option Place)
    → here ≡ []
    → found? (elim here as (λ _. Option Place) [ [] ↦ later | q ∷ _ ↦ some q ]) ≡ true
    → found? later ≡ true
found-later [] later e h = h
found-later (q ∷ qs) later e h = absurd (cc)

search-Holds :
    (t : Text) (c : ℕ) (before : Option ℕ) (s : Text)
    → found? (search_from (chain (boundary ∷ literal (c ∷ t) ∷ boundary ∷ [])) before s) ≡ true
    → Holds (c ∷ t) s
unfolding search_from first
search-Holds t c before [] h = absurd (ground (arith, rw (bounded-none t c before [] refl) at h))
search-Holds t c before (d ∷ s) h = elim (Bool-cases (starts_with (c ∷ t) (d ∷ s))) [
  | inl y ↦ let (rest, e) = starts_with-rest (c ∷ t) (d ∷ s) y in ([], rest, e)
  | inr n ↦
      let (xs, ys, e) =
        search-Holds t c (some d) s (found-later _ _ (bounded-none t c before (d ∷ s) n) h) in
      (d ∷ xs, ys, ap (λ zs. d ∷ zs) e)
]

-- A text in which a literal between boundaries is found holds the literal.
pub matches-Holds :
    (t : Text) (c : ℕ) (s : Text)
    → matches (chain (boundary ∷ literal (c ∷ t) ∷ boundary ∷ [])) s ≡ true
    → Holds (c ∷ t) s
unfolding matches search
matches-Holds t c s h = search-Holds t c none s h
