-- ===== src/Splitter.antt =====
-- backend/rag/splitter.py: the text of a document in windows that overlap. Where the windows do not
-- move on (`overlap >= chunk_size`), the source's loop has no end; here the fuel then runs out.
pub mod Cover
mod Tests
use sql_rpa.Base.{
  ℕ, zero, suc, ◌+◌, ◌-◌, Bool, true, false, Option, none, some, List, [], ◌∷◌, length, take, drop,
  min, ltb, ◌==◌, if◌then◌else◌,
}
use sql_rpa.Text.{Text, strip}

-- `TextChunk`: the id is made of the document's id and the index.
pub record TextChunk : Type 0 where
  pub doc_id : Text
  pub text : Text
  pub chunk_index : ℕ

pub cons_all : ℕ × ℕ → Option (List (ℕ × ℕ)) → Option (List (ℕ × ℕ))
cons_all w none = none
cons_all w (some ws) = some (w ∷ ws)

-- The bounds of the windows from `start` on. For `overlap < chunk_size` the difference is the source's.
pub windows : ℕ → ℕ → ℕ → ℕ → ℕ → Option (List (ℕ × ℕ))
windows zero chunk_size overlap start text_len = if ltb start text_len then none else some []
windows (suc fuel) chunk_size overlap start text_len =
    let rest = windows fuel chunk_size overlap (start + (chunk_size - overlap)) text_len in
    if ltb start text_len then cons_all (start, min (start + chunk_size) text_len) rest else some []

-- `text[start:end].strip()`
slice : Text → ℕ × ℕ → Text
slice text (start, end) = strip (take (end - start) (drop start text))

-- The chunks of the windows, without the blank ones, which take no index.
add_chunk : Text → ℕ → Text → List TextChunk → List TextChunk → List TextChunk
add_chunk doc_id idx [] skipped added = skipped
add_chunk doc_id idx (c ∷ s) skipped added =
    (record { doc_id = doc_id; text = c ∷ s; chunk_index = idx }) ∷ added

chunks : Text → Text → ℕ → List (ℕ × ℕ) → List TextChunk
unfolding slice add_chunk
chunks text doc_id idx [] = []
chunks text doc_id idx (w ∷ ws) =
    let skipped = chunks text doc_id idx ws in
    let added = chunks text doc_id (idx + 1) ws in add_chunk doc_id idx (slice text w) skipped added

-- `chunk_size or settings.chunk_size`
abbrev or_default : ℕ → ℕ → ℕ
or_default n default = if n == 0 then default else n

blank : Text → Bool
blank [] = true
blank (_ ∷ _) = false

all_chunks : Text → Text → Option (List (ℕ × ℕ)) → Option (List TextChunk)
unfolding chunks
all_chunks text doc_id none = none
all_chunks text doc_id (some ws) = some (chunks text doc_id 0 ws)

-- `split_text`, with the two settings; the fuel is the length of the text.
pub split_text : ℕ → ℕ → Text → Text → ℕ → ℕ → Option (List TextChunk)
unfolding all_chunks blank
split_text default_size default_overlap text doc_id chunk_size overlap =
    if blank (strip text)
    then some []
    else all_chunks text doc_id (
        windows (length text) (or_default chunk_size default_size)
          (or_default overlap default_overlap) 0 (length text))
