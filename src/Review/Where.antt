-- ===== src/Review/Where.antt =====
-- `_extract_where` and `_validate_where` of backend/api/db_operations.py.
use sql_rpa.Base.{◌≡◌, refl, Option, none, some, [], ◌∷◌, codes, if◌then◌else◌}
use sql_rpa.Text.{Text, strip, strip_end}
use sql_rpa.Text.Regex.{
  Regex, Place, set, many, group, end, boundary, any_char, space, is_digit, one, word, chain,
  one_of, some_of, least_of, search, matches,
}

abbrev keyword : Text → Regex
keyword w = chain (boundary ∷ word w ∷ boundary ∷ [])

abbrev where_re : Regex
where_re = chain (
    keyword (codes "where")
    ∷ some_of space
    ∷ group (least_of any_char)
    ∷ one_of (
        chain (
          many space
          ∷ one_of (
              word (codes "order")
              ∷ word (codes "limit")
              ∷ word (codes "group")
              ∷ word (codes "having")
              ∷ [])
          ∷ space
          ∷ [])
        ∷ one b';'
        ∷ end
        ∷ [])
    ∷ [])

abbrev where_injection_re : Regex
where_injection_re = one_of (
    keyword (codes "union")
    ∷ keyword (codes "select")
    ∷ word (codes "--")
    ∷ chain (
        keyword (codes "or")
        ∷ some_of space
        ∷ some_of (set is_digit)
        ∷ many space
        ∷ one b'='
        ∷ many space
        ∷ some_of (set is_digit)
        ∷ [])
    ∷ word (codes "/*")
    ∷ word (codes "*/")
    ∷ one b';'
    ∷ [])

-- The clause, or the error 400 for one with an injection pattern.
pub data Where : Type 0 where
  clause : Option Text → Where
  disallowed : Where

validate : Text → Where
validate [] = clause (some [])
validate (c ∷ s) = if matches where_injection_re (c ∷ s) then disallowed else clause (some (c ∷ s))

trimmed : Option Text → Where
trimmed none = clause none
trimmed (some s) = validate (strip_end b';' (strip s))

extracted : Option Place → Where
extracted none = clause none
extracted (some p) = trimmed p.found

unfoldable pub extract_where : Text → Where
unfolding extracted trimmed validate search matches strip strip_end
extract_where sql = extracted (search where_re sql)

simple_where :
    extract_where (codes "DELETE FROM t WHERE id = 1 LIMIT 5;") ≡ clause (some (codes "id = 1"))
unfolding extract_where
simple_where = refl

injected_where : extract_where (codes "DELETE FROM t WHERE id=1 OR 1=1") ≡ disallowed
unfolding extract_where
injected_where = refl
