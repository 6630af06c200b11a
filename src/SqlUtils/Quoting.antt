-- ===== src/SqlUtils/Quoting.antt =====
-- A quoted identifier stays one identifier: a database that reads it gets the name back, and goes
-- on with the text behind it.
use mathlib.Core.List.{append_assoc, append-nil}
use sql_rpa.Base.{
  ℕ, ◌≡◌, ◌≢◌, refl, false, Option, none, some, [], ◌∷◌, ◌++◌, ◌==◌, if◌then◌else◌, arith,
  Bool-cases, inl, inr, ==_iff,
}
use sql_rpa.Text.{Text}
use sql_rpa.SqlUtils.{accepted, Dialect, quote_of, double, quote_identifier}

-- How a database reads behind an opening quote: a doubled quote is one quote of the name, and a
-- single one ends it. `none` is a name that does not end.
pub read_quoted : ℕ → Text → Text → Option (Text × Text)
read_quoted q name [] = none
read_quoted q name (c ∷ []) = if c == q then some (name, []) else none
read_quoted q name (c ∷ d ∷ s) =
    let doubled = read_quoted q (name ++ q ∷ []) s in
    let plain = read_quoted q (name ++ c ∷ []) (d ∷ s) in
    if c == q then (if d == q then doubled else some (name, d ∷ s)) else plain

-- The text behind the closing quote does not begin with another one.
abbrev pub NoQuoteFirst : ℕ → Text → Type 0
NoQuoteFirst q [] = Unit
NoQuoteFirst q (c ∷ s) = c ≢ q

read_quoted-end :
    (q : ℕ) (name s : Text) → NoQuoteFirst q s → read_quoted q name (q ∷ s) ≡ some (name, s)
unfolding read_quoted
read_quoted-end q name [] n = ground arith
read_quoted-end q name (c ∷ s) n = ground arith

read_quoted-plain :
    (q c : ℕ) (name s : Text)
    → (c == q) ≡ false
    → s ≢ []
    → read_quoted q name (c ∷ s) ≡ read_quoted q (name ++ c ∷ []) s
unfolding read_quoted
read_quoted-plain q c name [] e n = absurd (n refl)
read_quoted-plain q c name (d ∷ s) e n = ground arith

read_quoted-doubled :
    (q : ℕ) (name s : Text) → read_quoted q name (q ∷ q ∷ s) ≡ read_quoted q (name ++ q ∷ []) s
unfolding read_quoted
read_quoted-doubled q name s = ground arith

append-ne-nil : (s : Text) (q : ℕ) (rest : Text) → s ++ q ∷ rest ≢ []
append-ne-nil [] q rest = cc
append-ne-nil (c ∷ s) q rest = cc

pub read_quoted-double :
    (q : ℕ) (name s rest : Text)
    → NoQuoteFirst q rest
    → read_quoted q name (double q s ++ q ∷ rest) ≡ some (name ++ s, rest)
unfolding double
read_quoted-double q name [] rest n = rw append-nil (read_quoted-end q name rest n)
read_quoted-double q name (c ∷ s) rest n = elim (Bool-cases (c == q)) [
  | inl same ↦ rw same (
      rw ((==_iff c q).0 same) (
        rw (read_quoted-doubled q name (double q s ++ q ∷ rest))
          (rw (read_quoted-double q (name ++ q ∷ []) s rest n, append_assoc))))
  | inr differs ↦ rw differs (
      rw (read_quoted-plain q c name (double q s ++ q ∷ rest) differs (append-ne-nil _ q rest))
        (rw (read_quoted-double q (name ++ c ∷ []) s rest n, append_assoc)))
]

-- What a database finds behind the opening quote of a quoted identifier, up to its end.
abbrev pub read_identifier : Dialect → Text → Option (Text × Text)
read_identifier dialect [] = none
read_identifier dialect (c ∷ s) =
    if c == quote_of dialect then read_quoted (quote_of dialect) [] s else none

-- For every dialect, an identifier that is accepted is read back whole, with nothing of it outside
-- the quotes, whatever text follows that does not begin with the quote.
pub read_identifier-quote_identifier :
    (identifier quoted rest : Text) (dialect : Dialect)
    → quote_identifier identifier dialect ≡ accepted quoted
    → NoQuoteFirst (quote_of dialect) rest
    → read_identifier dialect (quoted ++ rest) ≡ some (identifier, rest)
unfolding quote_identifier
read_identifier-quote_identifier identifier quoted rest dialect e n =
    let q = quote_of dialect in
    let shape : quoted ≡ q ∷ double q identifier ++ q ∷ [] = ground arith in
    rw (shape, (==_iff q q).1 refl, append_assoc) (read_quoted-double q [] identifier rest n)
