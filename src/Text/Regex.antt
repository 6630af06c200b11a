-- ===== src/Text/Regex.antt =====
-- The part of Python's `re` that the program uses: a backtracking matcher that lists the ends of
-- all matches in the order in which `re` tries them, so that the first one is the match.
pub mod Literal
use mathlib.Core.List.{flat_map}
use sql_rpa.Base.{
  ℕ, zero, suc, ◌-◌, Bool, true, false, ◌&&◌, ◌||◌, not, Option, none, some, List, [], ◌∷◌, ◌++◌,
  map, length, take, ltb, leb, ◌==◌,
}
use sql_rpa.Text.{Text, is_space, lower_char}

pub data Regex : Type 0 where
  -- one character of a set
  set : (ℕ → Bool) → Regex
  seq : Regex → Regex → Regex
  alt : Regex → Regex → Regex
  -- `r*` and `r*?`
  many : Regex → Regex
  few : Regex → Regex
  -- `\b`, `^`, `$`
  boundary : Regex
  start : Regex
  end : Regex
  -- `(r)`, the one group of a pattern
  group : Regex → Regex
  -- the empty pattern
  nothing : Regex

-- A place in the text: the character before it, what follows, and what the group has matched.
pub record Place : Type 0 where
  pub before : Option ℕ
  pub rest : Text
  pub found : Option Text

abbrev pub is_word : ℕ → Bool
is_word c =
    (leb b'a' c && leb c b'z')
    || (leb b'A' c && leb c b'Z')
    || (leb b'0' c && leb c b'9')
    || c == b'_'

abbrev word_at : Option ℕ → Bool
word_at none = false
word_at (some c) = is_word c

abbrev head : Text → Option ℕ
head [] = none
head (c ∷ s) = some c

differ : Bool → Bool → Bool
differ true b = not b
differ false b = b

when : Bool → Place → List Place
when true p = p ∷ []
when false p = []

is_end : Text → Bool
is_end [] = true
is_end (c ∷ []) = c == 10
is_end _ = false

read_char : (ℕ → Bool) → Option Text → Text → List Place
unfolding when
read_char test found [] = []
read_char test found (c ∷ s) = when (test c) (record { before = some c; rest = s; found = found })

-- The rounds of `r*`: an end that does not move on is dropped.
module _ (step : Place → List Place) where
  moved : Place → List Place
  unfolding when
  moved p = flat_map (λ q. when (ltb (length q.rest) (length p.rest)) q) (step p)

  many_ends : ℕ → Place → List Place
  many_ends zero p = p ∷ []
  many_ends (suc fuel) p = flat_map (λ q. many_ends fuel q) (moved p) ++ p ∷ []

  few_ends : ℕ → Place → List Place
  few_ends zero p = p ∷ []
  few_ends (suc fuel) p = p ∷ flat_map (λ q. few_ends fuel q) (moved p)

-- What lies between two places of one text.
between : Place → Place → Text
between p q = take (length p.rest - length q.rest) p.rest

captured : Place → Place → Place
unfolding between
captured p q = record q { found = some (between p q) }

ends : Regex → Place → List Place
ends (set test) p = read_char test p.found p.rest
ends (seq r s) p = flat_map (λ q. ends s q) (ends r p)
ends (alt r s) p = ends r p ++ ends s p
ends (many r) p = many_ends (λ q. ends r q) (length p.rest) p
ends (few r) p = few_ends (λ q. ends r q) (length p.rest) p
ends boundary p = when (differ (word_at p.before) (word_at (head p.rest))) p
ends start p = elim p.before [ none ↦ p ∷ [] | some c ↦ [] ]
ends end p = when (is_end p.rest) p
ends (group r) p = map (captured p) (ends r p)
ends nothing p = p ∷ []

first {ℓ} : {A : Type ℓ} → List A → Option A
first [] = none
first (x ∷ xs) = some x

-- `re.search`: the match at the leftmost place where there is one.
search_from : Regex → Option ℕ → Text → Option Place
search_from r before [] = first (ends r (record { before = before; rest = []; found = none }))
search_from r before (c ∷ s) =
    let later = search_from r (some c) s in
    elim (ends r (record { before = before; rest = c ∷ s; found = none })) [
      | [] ↦ later
      | q ∷ _ ↦ some q
    ]

unfoldable pub search : Regex → Text → Option Place
unfolding flat_map search_from first ends captured is_end differ read_char when many_ends few_ends
    moved is_space lower_char
search r s = search_from r none s

abbrev pub found? : Option Place → Bool
found? none = false
found? (some _) = true

-- `bool(re.search(r, s))`
unfoldable pub matches : Regex → Text → Bool
unfolding search
matches r s = found? (search r s)

-- `re.match`: at the start of the text only.
unfoldable pub matches_at_start : Regex → Text → Bool
unfolding search
matches_at_start r s = found? (first (ends r (record { before = none; rest = s; found = none })))

-- Shorthands. `word s` is the literal `s` under `re.IGNORECASE`, for `s` in lower case.
abbrev pub any_char : Regex
any_char = set (λ _. true)

abbrev pub space : Regex
space = set is_space

abbrev pub is_digit : ℕ → Bool
is_digit c = leb b'0' c && leb c b'9'

abbrev pub one : ℕ → Regex
one c = set (λ d. d == c)

abbrev pub word : Text → Regex
word [] = nothing
word (c ∷ []) = set (λ d. lower_char d == c)
word (c ∷ s) = seq (set (λ d. lower_char d == c)) (word s)

abbrev pub chain : List Regex → Regex
chain [] = nothing
chain (r ∷ []) = r
chain (r ∷ rs) = seq r (chain rs)

abbrev pub one_of : List Regex → Regex
one_of [] = nothing
one_of (r ∷ []) = r
one_of (r ∷ rs) = alt r (one_of rs)

-- `r+`, `r+?`, `r?`
abbrev pub some_of : Regex → Regex
some_of r = seq r (many r)

abbrev pub least_of : Regex → Regex
least_of r = seq r (few r)

abbrev pub maybe : Regex → Regex
maybe r = alt r nothing

-- A literal without `re.IGNORECASE`.
abbrev pub literal : Text → Regex
literal [] = chain []
literal (c ∷ []) = one c
literal (c ∷ s) = chain (one c ∷ literal s ∷ [])
