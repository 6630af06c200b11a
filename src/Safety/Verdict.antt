-- ===== src/Safety/Verdict.antt =====
-- What the verdict of the rule engine says about the SQL text.
use sql_rpa.Base.{
  ◌≡◌, refl, Bool, true, false, ◌&&◌, ◌||◌, not, Option, none, some, [], ◌∷◌, length, ltb, arith,
  Bool-cases, inl, inr, if◌then◌else◌,
}
use sql_rpa.Text.{Text, strip, upper, text_in}
use sql_rpa.Text.Regex.{matches}
use sql_rpa.Safety.{
  SafetyResult, Counts, read_keywords, write_keywords, critical_keywords, scoped_keywords,
  denied_sql_re, where_re, trivial_where_re, statements, first_word, check_has_where,
  check_full_scan, check_word, check, has_counts, read_result, review_result, refused, danger,
  critical, empty_statement, dangerous_operation, without_where, trivial_where, unsupported_type,
}

-- The text has a WHERE clause, and not the trivial one.
abbrev pub is_scoped : Text → Bool
is_scoped sql = matches where_re (upper sql) && not (matches trivial_where_re (upper sql))

-- The write of the first word may go to review.
abbrev pub is_reviewable : Bool → Text → Text → Bool
is_reviewable where_required sql first =
    not (text_in first read_keywords)
    && not (text_in first critical_keywords)
    && text_in first write_keywords
    && (not (text_in first scoped_keywords && where_required) || is_scoped sql)

abbrev pub on_first : (Text → Bool) → Option Text → Bool
on_first test none = false
on_first test (some w) = test w

-- One statement without a denied pattern.
abbrev pub is_plain : Text → Bool
is_plain sql =
    not (matches denied_sql_re (upper (strip sql))) && not (ltb 1 (length (statements sql)))

-- The three flags of a verdict: allowed to run, or sent to review, or blocked.
pub record Flags (r : SafetyResult) (reads writes : Bool) : Type 0 where
  pub allowed : r.allowed ≡ (reads || writes)
  pub blocked : r.blocked ≡ not (reads || writes)
  pub review : r.requires_review ≡ writes

check_full_scan-Flags :
    (sql : Text) (counts : Counts) (r : SafetyResult) (a b : Bool)
    → Flags r a b
    → Flags (check_full_scan sql counts r) a b
unfolding check_full_scan
check_full_scan-Flags sql counts r a b f = record {
  allowed = ground (arith, f.allowed);
  blocked = ground (arith, f.blocked);
  review = ground (arith, f.review);
}

read_result-Flags :
    (sql : Text) (counts : Counts) (first : Text)
    → Flags
        (if has_counts counts then check_full_scan sql counts read_result else read_result)
        true
        false
read_result-Flags sql [] first = record { allowed = refl; blocked = refl; review = refl }
read_result-Flags sql (c ∷ cs) first =
    check_full_scan-Flags sql (c ∷ cs) read_result true false
      (record { allowed = refl; blocked = refl; review = refl })

-- The branches behind the reading keywords, on the outcomes of their tests.
abbrev branches : Bool → Bool → Bool → Bool → Bool → Text → SafetyResult
branches c w s has trivial first =
    if c
    then refused critical (dangerous_operation first)
    else if w
    then (if s
        then elim (if not has
            then some (refused danger (without_where first))
            else if trivial
            then some (refused danger trivial_where)
            else none) [ none ↦ review_result first | some no_where ↦ no_where ]
        else review_result first)
    else refused danger (unsupported_type first)

branches-Flags :
    (c w s has trivial : Bool) (first : Text)
    → Flags (branches c w s has trivial first) false (not c && w && (not s || (has && not trivial)))
branches-Flags true w s has trivial first = record { allowed = refl; blocked = refl; review = refl }
branches-Flags false false s has trivial first = record {
  allowed = refl;
  blocked = refl;
  review = refl;
}
branches-Flags false true false has trivial first = record {
  allowed = refl;
  blocked = refl;
  review = refl;
}
branches-Flags false true true false trivial first = record {
  allowed = refl;
  blocked = refl;
  review = refl;
}
branches-Flags false true true true false first = record {
  allowed = refl;
  blocked = refl;
  review = refl;
}
branches-Flags false true true true true first = record {
  allowed = refl;
  blocked = refl;
  review = refl;
}

check_word-Flags :
    (required : Bool) (sql : Text) (counts : Counts) (first : Text)
    → Flags
        (check_word required sql counts first)
        (text_in first read_keywords)
        (is_reviewable required sql first)
unfolding check_word check_has_where
check_word-Flags required sql counts first = elim (Bool-cases (text_in first read_keywords)) [
  | inl e ↦ rw e (read_result-Flags sql counts first)
  | inr e ↦ rw e (
      branches-Flags (text_in first critical_keywords) (text_in first write_keywords)
        (text_in first scoped_keywords && required) (matches where_re (upper sql))
        (matches trivial_where_re (upper sql)) first)
]

-- The flags of a verdict, for every text, setting and table sizes: a text is allowed, and not
-- blocked, just if it is one statement without a denied pattern that starts with a reading keyword,
-- or with a writing one; a DELETE or an UPDATE, where the setting requires it, must have a WHERE
-- clause that is not the trivial one. It requires review just if it is a write that is allowed.
pub check-Flags :
    (required : Bool) (sql : Text) (counts : Counts)
    → Flags
        (check required sql counts)
        (is_plain sql && on_first (λ w. text_in w read_keywords) (first_word sql))
        (is_plain sql && on_first (is_reviewable required sql) (first_word sql))
unfolding check
check-Flags required sql counts = elim (Bool-cases (matches denied_sql_re (upper (strip sql)))) [
  | inl e ↦ rw e (record { allowed = refl; blocked = refl; review = refl })
  | inr e ↦ elim (Bool-cases (ltb 1 (length (statements sql)))) [
    | inl n ↦ rw (e, n) (record { allowed = refl; blocked = refl; review = refl })
    | inr n ↦ rw (e, n) (go (first_word sql))
  ]
]
  where
    go :
        (first : Option Text)
        → Flags
            (elim first [
              | none ↦ refused danger empty_statement
              | some w ↦ check_word required sql counts w
            ])
            (on_first (λ w. text_in w read_keywords) first)
            (on_first (is_reviewable required sql) first)
    go none = record { allowed = refl; blocked = refl; review = refl }
    go (some w) = check_word-Flags required sql counts w
