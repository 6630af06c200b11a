-- ===== src/Memory/Query.antt =====
-- What a search asks of the full-text index (`search_memories` of backend/memory/store.py).
use sql_rpa.Base.{◌≡◌, some, List, [], ◌∷◌, ◌++◌, codes, map, if◌then◌else◌}
use sql_rpa.Text.{Text, words}
use sql_rpa.SqlUtils.Quoting.{read_quoted}
use sql_rpa.Memory.{is_sign}

-- How the index reads a query of phrases: a string in quotes, in which a doubled quote is one, and
-- after the word OR another one.
pub data ReadsAs : Text → List Text → Type 0 where
  phrase : (s t : Text) → read_quoted b'"' [] s ≡ some (t, []) → ReadsAs (b'"' ∷ s) (t ∷ [])
  phrase_or :
      (s t rest : Text) (ts : List Text)
      → read_quoted b'"' [] s ≡ some (t, codes " OR " ++ rest)
      → ReadsAs rest ts
      → ReadsAs (b'"' ∷ s) (t ∷ ts)

-- The words of a text without the signs of the language of the index; the empty phrase for none.
abbrev pub words_of : Text → List Text
words_of query = words (map (λ c. if is_sign c then b' ' else c) query)

abbrev pub phrases_of : List Text → List Text
phrases_of [] = [] ∷ []
phrases_of (t ∷ ts) = t ∷ ts
