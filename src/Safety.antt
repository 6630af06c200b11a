-- ===== src/Safety.antt =====
-- backend/db_connector/safety.py: the rule engine that classifies a SQL text. Messages are kept as
-- constructors with the values that they are formatted from.
pub mod Verdict
pub mod Allowed
mod Tests
use sql_rpa.Base.{
  ℕ, Bool, true, false, ◌&&◌, not, Option, none, some, List, [], ◌∷◌, ◌++◌, codes, keep, length,
  leb, ltb, ◌==◌, if◌then◌else◌,
}
use sql_rpa.Text.{Text, strip, upper, split, words, contains, text_eq, text_in}
use sql_rpa.Text.Regex.{
  Regex, Place, set, many, group, end, boundary, space, one, word, chain, one_of, some_of, maybe,
  literal, is_word, search, matches,
}

pub data Level : Type 0 where
  info warning danger critical : Level

pub data Message : Type 0 where
  disallowed_function multiple_statements empty_statement read_only trivial_where : Message
  dangerous_operation without_where requires_review_first unsupported_type : Text → Message
  full_scan : Text → ℕ → Message
  too_many_rows : ℕ → Message

pub record SafetyResult : Type 0 where
  pub allowed : Bool
  pub blocked : Bool
  pub requires_review : Bool
  pub level : Level
  pub message : Message
  pub warnings : List Message

-- `table_row_counts`; `none` is a missing argument, and an empty one is as good as missing.
abbrev pub Counts : Type 0
Counts = List (Text × ℕ)

abbrev pub critical_keywords : List Text
critical_keywords = codes "DROP" ∷ codes "TRUNCATE" ∷ codes "ALTER" ∷ []

abbrev pub write_keywords : List Text
write_keywords = codes "INSERT" ∷ codes "UPDATE" ∷ codes "DELETE" ∷ codes "REPLACE" ∷ []

abbrev pub read_keywords : List Text
read_keywords =
    codes "SELECT" ∷ codes "PRAGMA" ∷ codes "EXPLAIN" ∷ codes "DESCRIBE" ∷ codes "SHOW" ∷ []

-- The keywords of a statement that `review_where_required` is about.
abbrev pub scoped_keywords : List Text
scoped_keywords = codes "DELETE" ∷ codes "UPDATE" ∷ []

abbrev full_scan_warn_threshold : ℕ
full_scan_warn_threshold = 100000

abbrev large_result_threshold : ℕ
large_result_threshold = 5000

-- `DENIED_SQL_PATTERNS`, searched with `re.IGNORECASE`.
abbrev call_of : Text → Regex
call_of name = chain (boundary ∷ word name ∷ many space ∷ one b'(' ∷ [])

abbrev phrase : Text → Text → Regex
phrase first second = chain (boundary ∷ word first ∷ some_of space ∷ word second ∷ boundary ∷ [])

abbrev dot : Regex
dot = set (λ c. not (c == 10))

abbrev pub denied_sql_re : Regex
denied_sql_re = one_of (
    chain (
      boundary
      ∷ word (codes "into")
      ∷ some_of space
      ∷ one_of (word (codes "outfile") ∷ word (codes "dumpfile") ∷ [])
      ∷ boundary
      ∷ [])
    ∷ call_of (codes "load_file")
    ∷ call_of (codes "sleep")
    ∷ call_of (codes "benchmark")
    ∷ phrase (codes "attach") (codes "database")
    ∷ phrase (codes "detach") (codes "database")
    ∷ chain (
        boundary
        ∷ word (codes "copy")
        ∷ some_of space
        ∷ some_of dot
        ∷ some_of space
        ∷ one_of (word (codes "from") ∷ word (codes "to") ∷ [])
        ∷ some_of space
        ∷ word (codes "program")
        ∷ boundary
        ∷ [])
    ∷ [])

abbrev pub where_re : Regex
where_re = chain (boundary ∷ literal (codes "WHERE") ∷ boundary ∷ [])

-- The pattern is matched against an upper-case text, so that its `true` matches nothing.
abbrev pub trivial_where_re : Regex
trivial_where_re = chain (
    boundary
    ∷ literal (codes "WHERE")
    ∷ some_of space
    ∷ one_of (
        chain (one b'1' ∷ many space ∷ one b'=' ∷ many space ∷ one b'1' ∷ [])
        ∷ literal (codes "true")
        ∷ one b'1'
        ∷ [])
    ∷ many space
    ∷ one_of (
        literal (codes "ORDER")
        ∷ literal (codes "LIMIT")
        ∷ literal (codes "GROUP")
        ∷ literal (codes "HAVING")
        ∷ one b';'
        ∷ end
        ∷ [])
    ∷ [])

abbrev from_re : Regex
from_re = chain (
    boundary
    ∷ word (codes "from")
    ∷ some_of space
    ∷ maybe (set (λ c. text_in (c ∷ []) (codes "\"" ∷ codes "`" ∷ codes "[" ∷ [])))
    ∷ group (some_of (set is_word))
    ∷ maybe (set (λ c. text_in (c ∷ []) (codes "\"" ∷ codes "`" ∷ codes "]" ∷ [])))
    ∷ [])

abbrev refused : Level → Message → SafetyResult
refused level message = record {
  allowed = false;
  blocked = true;
  requires_review = false;
  level = level;
  message = message;
  warnings = [];
}

abbrev not_blank : Text → Bool
not_blank [] = false
not_blank (_ ∷ _) = true

-- `[s for s in stripped.split(";") if s.strip()]`
unfoldable pub statements : Text → List Text
statements sql = keep (λ s. not_blank (strip s)) (split b';' (strip sql))

-- `upper.split()[0]`, or nothing for an empty statement.
abbrev head_of : List Text → Option Text
head_of [] = none
head_of (w ∷ ws) = some w

unfoldable pub first_word : Text → Option Text
first_word sql = head_of (words (upper (strip sql)))

-- `_check_has_where`
unfoldable pub check_has_where : Text → Text → Option SafetyResult
check_has_where sql op_type =
    if not (matches where_re (upper sql))
    then some (refused danger (without_where op_type))
    else if matches trivial_where_re (upper sql)
    then some (refused danger trivial_where)
    else none

-- `table_row_counts.get(table, 0)`
unfoldable pub count_of : Counts → Text → ℕ
count_of [] table = 0
count_of ((name, n) ∷ counts) table =
    let rest = count_of counts table in if text_eq name table then n else rest

-- The table name that the pattern finds.
unfoldable pub table_of : Option Place → Option Text
table_of none = none
table_of (some p) = p.found

-- `_check_full_scan`
unfoldable pub check_full_scan : Text → Counts → SafetyResult → SafetyResult
check_full_scan sql counts result =
    if contains (codes "WHERE") (upper sql)
    then result
    else if contains (codes "LIMIT") (upper sql)
    then result
    else elim (table_of (search from_re (upper sql))) [
      | none ↦ result
      | some table ↦
          if ltb full_scan_warn_threshold (count_of counts table)
          then (record result {
            warnings = result.warnings ++ full_scan table (count_of counts table) ∷ [];
          })
          else result
    ]

abbrev level_of : Text → Level
level_of op =
    if text_eq op (codes "INSERT")
    then info
    else if text_eq op (codes "DELETE")
    then danger
    else warning

abbrev read_result : SafetyResult
read_result = record {
  allowed = true;
  blocked = false;
  requires_review = false;
  level = info;
  message = read_only;
  warnings = [];
}

abbrev review_result : Text → SafetyResult
review_result op = record {
  allowed = true;
  blocked = false;
  requires_review = true;
  level = level_of op;
  message = requires_review_first op;
  warnings = [];
}

abbrev has_counts : Counts → Bool
has_counts [] = false
has_counts (_ ∷ _) = true

-- The branches on the first word; `where_required` is `settings.review_where_required`.
unfoldable pub check_word : Bool → Text → Counts → Text → SafetyResult
check_word where_required sql counts first =
    if text_in first read_keywords
    then (if has_counts counts then check_full_scan sql counts read_result else read_result)
    else if text_in first critical_keywords
    then refused critical (dangerous_operation first)
    else if text_in first write_keywords
    then (if text_in first scoped_keywords && where_required
        then elim (check_has_where sql first) [
          | none ↦ review_result first
          | some no_where ↦ no_where
        ]
        else review_result first)
    else refused danger (unsupported_type first)

unfoldable pub check : Bool → Text → Counts → SafetyResult
check where_required sql counts =
    if matches denied_sql_re (upper (strip sql))
    then refused critical disallowed_function
    else if ltb 1 (length (statements sql))
    then refused critical multiple_statements
    else elim (first_word sql) [
      | none ↦ refused danger empty_statement
      | some first ↦ check_word where_required sql counts first
    ]

pub check_result_size : ℕ → List Message
check_result_size row_count =
    if ltb large_result_threshold row_count then too_many_rows row_count ∷ [] else []
