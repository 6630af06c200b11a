-- ===== src/Splitter/Cover.antt =====
-- The windows end, and no character is lost between them.
use sql_rpa.Base.{
  ℕ, zero, suc, ◌+◌, ◌-◌, ◌<◌, ◌≤◌, ◌≡◌, refl, Bool, true, false, ◌&&◌, Option, none, some, List,
  any, min, ltb, leb, arith, Bool-cases, inl, inr,
}
use sql_rpa.Splitter.{windows, cons_all}

-- A window that holds a position.
abbrev pub holds : ℕ → ℕ × ℕ → Bool
holds i (start, end) = leb start i && ltb i end

-- The windows were found, and one of them holds the position.
abbrev pub covered : ℕ → Option (List (ℕ × ℕ)) → Bool
covered i none = false
covered i (some ws) = any (holds i) ws

covered-cons_all :
    (i : ℕ) (w : ℕ × ℕ) (ws : Option (List (ℕ × ℕ)))
    → covered i ws ≡ true
    → covered i (cons_all w ws) ≡ true
unfolding cons_all
covered-cons_all i w none h = absurd (ground (arith, h))
covered-cons_all i w (some ws) h = ground (arith, h)

finds : Option (List (ℕ × ℕ)) → Bool
finds none = false
finds (some ws) = true

finds-cons_all : (w : ℕ × ℕ) (ws : Option (List (ℕ × ℕ))) → finds (cons_all w ws) ≡ finds ws
unfolding finds cons_all
finds-cons_all w none = refl
finds-cons_all w (some ws) = refl

windows-finds :
    (fuel size overlap start len : ℕ)
    → overlap < size
    → len ≤ start + fuel
    → finds (windows fuel size overlap start len) ≡ true
unfolding windows finds
windows-finds zero size overlap start len lt enough = ground (arith, enough)
windows-finds (suc fuel) size overlap start len lt enough = elim (Bool-cases (ltb start len)) [
  | inr e ↦ rw e refl
  | inl e ↦
      rw
        (
          e,
          finds-cons_all (start, min (start + size) len)
              (windows fuel size overlap (start + (size - overlap)) len),
        )
        (windows-finds fuel size overlap (start + (size - overlap)) len lt (omega (arith, enough)))
]

head-holds :
    (i start size len : ℕ) (ws : Option (List (ℕ × ℕ)))
    → finds ws ≡ true
    → start ≤ i
    → i < len
    → i < start + size
    → covered i (cons_all (start, min (start + size) len) ws) ≡ true
unfolding finds cons_all
head-holds i start size len none f a b c = absurd (ground (arith, f))
head-holds i start size len (some ws) f a b c = ground (arith, a, b, c)

-- With windows that are longer than their overlap, as many rounds as there are characters left are
-- enough for the loop, and every position from the start on lies in a window.
pub windows-covered :
    (fuel size overlap start len i : ℕ)
    → overlap < size
    → len ≤ start + fuel
    → start ≤ i
    → i < len
    → covered i (windows fuel size overlap start len) ≡ true
unfolding windows
windows-covered zero size overlap start len i lt enough a b = absurd (omega arith)
windows-covered (suc fuel) size overlap start len i lt enough a b =
    let inside : ltb start len ≡ true = ground arith in
    rw inside (elim (Bool-cases (ltb i (start + size))) [
      | inl e ↦
          head-holds i start size len _
            (windows-finds fuel size overlap (start + (size - overlap)) len lt
              (omega (arith, enough)))
            a b (ground (arith, e))
      | inr e ↦ covered-cons_all i _ _ (
          windows-covered fuel size overlap (start + (size - overlap)) len i lt
            (omega (arith, enough)) (ground (arith, e)) b)
    ])
