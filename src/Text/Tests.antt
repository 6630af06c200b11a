-- ===== src/Text/Tests.antt =====
-- Runs of the text functions.
use sql_rpa.Base.{◌≡◌, refl, true, false, [], ◌∷◌, codes}
use sql_rpa.Text.{strip, words, split, upper}
use sql_rpa.Text.Regex.{matches, chain, word, boundary}

strip_run : strip (codes "  a b\n") ≡ codes "a b"
unfolding strip
strip_run = refl

words_run : words (codes " select  1 ") ≡ codes "select" ∷ codes "1" ∷ []
unfolding words
words_run = refl

split_run : split b';' (codes "a;;b") ≡ codes "a" ∷ codes "" ∷ codes "b" ∷ []
unfolding split
split_run = refl

upper_run : upper (codes "drop x1") ≡ codes "DROP X1"
unfolding upper
upper_run = refl

where_run :
    matches (chain (boundary ∷ word (codes "where") ∷ boundary ∷ [])) (codes "a WhErE b") ≡ true
unfolding matches
where_run = refl

no_where_run :
    matches (chain (boundary ∷ word (codes "where") ∷ boundary ∷ [])) (codes "nowhere b") ≡ false
unfolding matches
no_where_run = refl
