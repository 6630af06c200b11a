-- ===== src/SqlUtils.antt =====
-- backend/db_connector/sql_utils.py: identifiers and conditions that users supply.
pub mod Quoting
mod Tests
use sql_rpa.Base.{
  ℕ, Bool, true, false, ◌||◌, List, [], ◌∷◌, ◌++◌, not, codes, leb, ◌&&◌, ◌==◌, if◌then◌else◌,
}
use sql_rpa.Text.{Text, strip}
use sql_rpa.Text.Regex.{
  Regex, set, start, end, many, boundary, is_word, one, word, chain, one_of, matches,
  matches_at_start,
}

pub data Checked : Type 0 where
  accepted : Text → Checked
  value_error : Checked

-- `[A-Za-z_]` and `[A-Za-z0-9_]`
abbrev pub is_letter : ℕ → Bool
is_letter c = (leb b'a' c && leb c b'z') || (leb b'A' c && leb c b'Z') || c == b'_'

abbrev pub user_identifier_re : Regex
user_identifier_re = chain (start ∷ set is_letter ∷ many (set is_word) ∷ end ∷ [])

abbrev keyword : Text → Regex
keyword w = chain (boundary ∷ word w ∷ boundary ∷ [])

abbrev pub dangerous_condition_re : Regex
dangerous_condition_re = one_of (
    word (codes "--")
    ∷ word (codes "/*")
    ∷ word (codes "*/")
    ∷ one b';'
    ∷ keyword (codes "union")
    ∷ keyword (codes "select")
    ∷ keyword (codes "insert")
    ∷ keyword (codes "update")
    ∷ keyword (codes "delete")
    ∷ keyword (codes "drop")
    ∷ keyword (codes "alter")
    ∷ keyword (codes "truncate")
    ∷ keyword (codes "exec")
    ∷ [])

unfoldable pub is_valid_user_identifier : Text → Bool
unfolding matches_at_start
is_valid_user_identifier value = matches_at_start user_identifier_re value

unfoldable pub validate_user_identifier : Text → Checked
unfolding matches_at_start
validate_user_identifier value =
    if matches_at_start user_identifier_re value then accepted value else value_error

abbrev pub is_blank : Text → Bool
is_blank [] = true
is_blank (_ ∷ _) = false

unfoldable pub validate_where_condition : Text → Checked
unfolding matches strip
validate_where_condition condition =
    if is_blank condition || is_blank (strip condition)
    then value_error
    else if matches dangerous_condition_re condition
    then value_error
    else accepted condition

pub data Dialect : Type 0 where
  mysql other : Dialect

abbrev pub quote_of : Dialect → ℕ
quote_of mysql = b'`'
quote_of other = 34

-- `identifier.replace(q, q * 2)`
unfoldable pub double : ℕ → Text → Text
double q [] = []
double q (c ∷ s) = let rest = double q s in if c == q then c ∷ c ∷ rest else c ∷ rest

pub has_nul : Text → Bool
has_nul [] = false
has_nul (c ∷ s) = c == 0 || has_nul s

unfoldable pub quote_identifier : Text → Dialect → Checked
unfolding double has_nul
quote_identifier identifier dialect =
    if is_blank identifier
    then value_error
    else if has_nul identifier
    then value_error
    else accepted (quote_of dialect ∷ double (quote_of dialect) identifier ++ quote_of dialect ∷ [])
