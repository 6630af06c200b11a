-- ===== src/Safety/Allowed.antt =====
-- What a SQL text has that the rule engine allows.
use sql_rpa.Base.{◌≡◌, ◌≤◌, ◌⊎◌, Bool, true, false, ◌&&◌, some, [], ◌∷◌, codes, length}
use sql_rpa.Text.{Text, upper, text_in}
use sql_rpa.Text.Regex.Literal.{Holds}
use sql_rpa.Safety.{SafetyResult, first_word, statements}

-- A text that is allowed: one statement, which reads, or writes and goes to review; and a DELETE or an
-- UPDATE that must have a WHERE holds the word.
pub record IsAllowed (required : Bool) (sql : Text) (r : SafetyResult) : Type 0 where
  pub first : Text
  pub starts : first_word sql ≡ some first
  pub allowed : r.allowed ≡ true
  pub blocked : r.blocked ≡ false
  pub alone : length (statements sql) ≤ 1
  pub kind :
      ((text_in first (
            codes "SELECT"
            ∷ codes "PRAGMA"
            ∷ codes "EXPLAIN"
            ∷ codes "DESCRIBE"
            ∷ codes "SHOW"
            ∷ [])
          ≡ true)
        × (r.requires_review ≡ false))
      ⊎ (((text_in first (codes "INSERT" ∷ codes "UPDATE" ∷ codes "DELETE" ∷ codes "REPLACE" ∷ [])
              ≡ true)
            × (r.requires_review ≡ true))
          × (((text_in first (codes "DELETE" ∷ codes "UPDATE" ∷ []) && required) ≡ false)
              ⊎ Holds (codes "WHERE") (upper sql)))

abbrev pub IsRefused : SafetyResult → Type 0
IsRefused r = (r.allowed ≡ false) × ((r.blocked ≡ true) × (r.requires_review ≡ false))
