-- ===== src/Safety/Tests.antt =====
-- Runs of the rule engine.
use sql_rpa.Base.{◌≡◌, refl, true, [], codes}
use sql_rpa.Text.{strip, upper, split, words}
use sql_rpa.Text.Regex.{matches}
use sql_rpa.Safety.{check, check_word, check_has_where, statements, first_word}

delete_by_id : (check true (codes "delete from t where id = 3;") []).requires_review ≡ true
unfolding check check_word check_has_where statements first_word upper strip split words matches
delete_by_id = refl

delete_all : (check true (codes "delete from t where 1 = 1") []).blocked ≡ true
unfolding check check_word check_has_where statements first_word upper strip split words matches
delete_all = refl

-- The word `true` is no trivial condition.
delete_true : (check true (codes "delete from t where true") []).allowed ≡ true
unfolding check check_word check_has_where statements first_word upper strip split words matches
delete_true = refl
