-- ===== src/Agent/Stream/Pieces.antt =====
-- The pieces in which the service sends a tool call: `chat_stream` of backend/llm/openai_impl.py and
-- `_stream_llm_response` of backend/agent/react_loop.py.
use mathlib.Core.List.{append_assoc, append-nil}
use sql_rpa.Base.{
  ℕ, ◌≡◌, refl, ap, String, Bool, true, false, none, List, [], ◌∷◌, ◌++◌, ◌==◌, ==_iff, Bool-cases,
  inl, inr, str_append, str_append_assoc,
}
use sql_rpa.Text.{Text}
use sql_rpa.Agent.{ToolCall}
use sql_rpa.Agent.Stream.{
  Buffer, Chunk, Delta, LlmResponse, add_delta, add_deltas, chat_stream, degraded_response,
  is_calls, responses, stream_from, stream_llm_response, merged,
}

-- A later piece of a call, without its id.
abbrev pub later : ℕ → String → Text → Delta
later i n s = record { index = i; id = ""; name = n; arguments = s }

-- A piece with a later one.
abbrev pub joined : Delta → String → Text → Delta
joined d n s = record d { name = str_append d.name n; arguments = d.arguments ++ s }

merged-joined :
    (d : Delta) (n : String) (s : Text) (t : ToolCall)
    → merged (later d.index n s) (merged d t) ≡ merged (joined d n s) t
merged-joined d n s t =
    rw (str_append_assoc t.name d.name n, append_assoc t.arguments d.arguments s) refl

module _ (d : Delta) (n : String) (s : Text) where
  add_delta-joined :
      (b : Buffer) → add_delta (later d.index n s) (add_delta d b) ≡ add_delta (joined d n s) b
  unfolding add_delta
  add_delta-joined [] =
      let empty : ToolCall = record { id = d.id; name = ""; arguments = [] } in
      rw ((==_iff d.index d.index).1 refl) (ap (λ t. (d.index, t) ∷ []) (merged-joined d n s empty))
  add_delta-joined ((i, t) ∷ b) = elim (Bool-cases (i == d.index)) [
    | inl e ↦ rw (e, add_delta, e) (ap (λ u. (i, u) ∷ b) (merged-joined d n s t))
    | inr e ↦ rw (e, add_delta, e) (ap (λ c. (i, t) ∷ c) (add_delta-joined b))
  ]

add_deltas-append :
    (ds es : List Delta) (b : Buffer) → add_deltas (ds ++ es) b ≡ add_deltas es (add_deltas ds b)
unfolding add_deltas
add_deltas-append [] es b = refl
add_deltas-append (d ∷ ds) es b = add_deltas-append ds es (add_delta d b)

-- The same answer, if the rest of the responses gives the same.
stream_from-cong :
    (broken : Bool) (received : List ToolCall) (r : LlmResponse) (rs rs' : List LlmResponse)
    → ((received' : List ToolCall)
        → stream_from broken received' rs ≡ stream_from broken received' rs')
    → stream_from broken received (r ∷ rs) ≡ stream_from broken received (r ∷ rs')
unfolding stream_from
stream_from-cong broken received r rs rs' h = rw (h (received ++ r.tool_calls)) refl

module _ (broken : Bool) (xs ys : List Chunk)
    (h : (b : Buffer) (received : List ToolCall)
      → stream_from broken received (responses b xs)
        ≡ stream_from broken received (responses b ys)) where
  responses-cong :
      (before : List Chunk) (b : Buffer) (received : List ToolCall)
      → stream_from broken received (responses b (before ++ xs))
        ≡ stream_from broken received (responses b (before ++ ys))
  unfolding responses
  responses-cong [] b received = h b received
  responses-cong (c ∷ before) b received = elim (Bool-cases c.has_choice) [
    | inr e ↦ rw (e, responses) (responses-cong before b received)
    | inl e ↦ elim (Bool-cases (is_calls c.finish_reason)) [
      | inl f ↦
          rw (e, f, responses)
            (stream_from-cong broken received _ (responses [] (before ++ xs))
              (responses [] (before ++ ys)) (responses-cong before []))
      | inr f ↦
          rw (e, f, responses)
            (stream_from-cong broken received _ (responses (add_deltas c.deltas b) (before ++ xs))
              (responses (add_deltas c.deltas b) (before ++ ys))
              (responses-cong before (add_deltas c.deltas b)))
    ]
  ]

-- A chunk with pieces of calls alone.
abbrev pub pieces_only : List Delta → Chunk
pieces_only ds = record {
  has_choice = true;
  content = [];
  deltas = ds;
  finish_reason = none;
  usage = false;
}

-- A chunk with a choice that has given pieces of calls.
abbrev pub with_pieces : Chunk → List Delta → Chunk
with_pieces c ds = record c { has_choice = true; deltas = ds }

module _ (c : Chunk) (ds es : List Delta) (d : Delta) (n : String) (s : Text)
    (rest : List Chunk) where
  abbrev pub whole : List Chunk
  whole = with_pieces c (ds ++ joined d n s ∷ es) ∷ rest

  abbrev pub split : List Chunk
  split = pieces_only (ds ++ d ∷ []) ∷ with_pieces c (later d.index n s ∷ es) ∷ rest

  filled-split :
      (b : Buffer)
      → add_deltas (later d.index n s ∷ es) (add_deltas (ds ++ d ∷ []) b)
        ≡ add_deltas (ds ++ joined d n s ∷ es) b
  unfolding add_deltas
  filled-split b =
      rw
        (
          add_deltas-append ds (d ∷ []) b,
          add_deltas-append ds (joined d n s ∷ es) b,
          add_delta-joined d n s (add_deltas ds b),
        )
        refl

  stream_from-split :
      (broken : Bool) (b : Buffer) (received : List ToolCall)
      → stream_from broken received (responses b split)
        ≡ stream_from broken received (responses b whole)
  unfolding responses stream_from
  stream_from-split broken b received = rw (append-nil received, filled-split b) refl

  -- It makes no difference to the answer of the model whether the service sends a piece of a tool call
  -- whole, or cuts its name and its arguments in two and sends the first part with the pieces before it
  -- in a chunk of its own; wherever in the stream that is, and whether the stream breaks off or not.
  pub stream_llm_response-split :
      (degraded broken : Bool) (before : List Chunk)
      → stream_llm_response broken (chat_stream degraded (before ++ split))
        ≡ stream_llm_response broken (chat_stream degraded (before ++ whole))
  unfolding stream_llm_response chat_stream
  stream_llm_response-split true broken before =
      stream_from-cong broken [] degraded_response (responses [] (before ++ split))
        (responses [] (before ++ whole))
        (responses-cong broken split whole (stream_from-split broken) before [])
  stream_llm_response-split false broken before =
      responses-cong broken split whole (stream_from-split broken) before [] []
