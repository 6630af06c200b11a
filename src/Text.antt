-- ===== src/Text.antt =====
-- Texts that the program walks, as lists of code points, with Python's string methods on them.
-- Letters are those of ASCII: `upper` and `lower` leave other code points alone.
pub mod Regex
mod Tests
use mathlib.Core.List.{reverse}
use sql_rpa.Base.{
  ℕ, zero, suc, ◌+◌, ◌-◌, ◌≡◌, refl, ◌↔◌, Bool, true, false, ◌&&◌, ◌||◌, List, [], ◌∷◌, ◌++◌, map,
  leb, ◌==◌, if◌then◌else◌, arith, ap, sym, ◌∙◌, ==_iff,
}

abbrev pub Text : Type 0
Text = List ℕ

-- `str.isspace` of one character.
unfoldable pub is_space : ℕ → Bool
is_space c =
    (leb 9 c && leb c 13)
    || (leb 28 c && leb c 32)
    || c == 133
    || c == 160
    || c == 5760
    || (leb 8192 c && leb c 8202)
    || c == 8232
    || c == 8233
    || c == 8239
    || c == 8287
    || c == 12288

unfoldable pub upper_char : ℕ → ℕ
upper_char c = if leb b'a' c && leb c b'z' then c - 32 else c

unfoldable pub lower_char : ℕ → ℕ
lower_char c = if leb b'A' c && leb c b'Z' then c + 32 else c

unfoldable pub upper : Text → Text
unfolding upper_char
upper s = map upper_char s

unfoldable pub lower : Text → Text
unfolding lower_char
lower s = map lower_char s

pub drop_while : (ℕ → Bool) → Text → Text
drop_while p [] = []
drop_while p (c ∷ s) = let rest = drop_while p s in if p c then rest else c ∷ s

-- `s.strip()`, and `s.rstrip(c)` for one character.
unfoldable pub strip : Text → Text
unfolding drop_while is_space
strip s = reverse (drop_while is_space (reverse (drop_while is_space s)))

unfoldable pub strip_end : ℕ → Text → Text
unfolding drop_while
strip_end d s = reverse (drop_while (λ c. c == d) (reverse s))

-- Equality and prefixes of texts.
abbrev pub text_eq : Text → Text → Bool
text_eq [] [] = true
text_eq (c ∷ s) (d ∷ t) = c == d && text_eq s t
text_eq _ _ = false

abbrev pub starts_with : Text → Text → Bool
starts_with [] s = true
starts_with (c ∷ p) [] = false
starts_with (c ∷ p) (d ∷ s) = c == d && starts_with p s

-- `p in s`
unfoldable pub contains : Text → Text → Bool
contains p [] = starts_with p []
contains p (c ∷ s) = starts_with p (c ∷ s) || contains p s

abbrev pub text_in : Text → List Text → Bool
text_in s [] = false
text_in s (t ∷ ts) = text_eq t s || text_in s ts

-- `s.split(d)` for one character: the loop over the part that is being read.
split_from : ℕ → Text → Text → List Text
split_from d part [] = reverse part ∷ []
split_from d part (c ∷ s) =
    let cut = reverse part ∷ split_from d [] s in
    let longer = split_from d (c ∷ part) s in if c == d then cut else longer

unfoldable pub split : ℕ → Text → List Text
unfolding split_from
split d s = split_from d [] s

-- `s.split()`: the words between runs of white space.
close_word : Text → List Text → List Text
close_word [] ws = ws
close_word (c ∷ w) ws = reverse (c ∷ w) ∷ ws

words_from : Text → Text → List Text
words_from part [] = close_word part []
words_from part (c ∷ s) =
    let cut = close_word part (words_from [] s) in
    let longer = words_from (c ∷ part) s in if is_space c then cut else longer

unfoldable pub words : Text → List Text
unfolding words_from close_word is_space
words s = words_from [] s

pub text_eq_iff : (s t : Text) → (text_eq s t ≡ true) ↔ (s ≡ t)
text_eq_iff [] [] = ground arith
text_eq_iff [] (d ∷ t) = ground arith
text_eq_iff (c ∷ s) [] = ground arith
text_eq_iff (c ∷ s) (d ∷ t) = ground (arith, text_eq_iff s t)

-- What stands behind a prefix.
pub starts_with-rest : (p s : Text) → starts_with p s ≡ true → (rest : Text) × (s ≡ p ++ rest)
starts_with-rest [] s h = (s, refl)
starts_with-rest (c ∷ p) [] h = absurd (ground (arith, h))
starts_with-rest (c ∷ p) (d ∷ s) h =
    let (rest, e) = starts_with-rest p s (second _ _ h) in
    (rest, ap (λ xs. d ∷ xs) e ∙ ap (λ x. x ∷ p ++ rest) (sym ((==_iff c d).0 (first _ _ h))))
  where
    first : (a b : Bool) → (a && b) ≡ true → a ≡ true
    first a b h = ground (arith, h)

    second : (a b : Bool) → (a && b) ≡ true → b ≡ true
    second a b h = ground (arith, h)
