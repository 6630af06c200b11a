-- ===== src/Splitter/Tests.antt =====
-- Runs of the splitter.
use sql_rpa.Base.{◌≡◌, refl, true, some, [], ◌∷◌, codes, arith}
use sql_rpa.Text.{strip}
use sql_rpa.Splitter.{windows, cons_all, split_text}
use sql_rpa.Splitter.Cover.{covered, windows-covered}

two_chunks :
    split_text 3 1 (codes "ab cd") [] 0 0
    ≡ some (
        (record { doc_id = []; text = codes "ab"; chunk_index = 0 })
        ∷ (record { doc_id = []; text = codes "cd"; chunk_index = 1 })
        ∷ (record { doc_id = []; text = codes "d"; chunk_index = 2 })
        ∷ [])
unfolding split_text windows cons_all strip
two_chunks = refl

windows-covered_example : covered 4 (windows 5 3 1 0 5) ≡ true
windows-covered_example =
    windows-covered 5 3 1 0 5 4 (omega arith) (omega arith) (omega arith) (omega arith)
