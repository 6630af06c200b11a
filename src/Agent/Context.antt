-- ===== src/Agent/Context.antt =====
-- backend/agent/context.py: `ContextManager.trim_messages` and the estimate of tokens. The encoding
-- of tiktoken is a parameter: how many tokens a text has, if it can be had.
pub mod Kept
use mathlib.Core.List.{reverse}
use sql_rpa.Base.{
  ℕ, ◌+◌, ◌*◌, ◌/◌, not, Option, none, some, List, [], ◌∷◌, ◌++◌, codes, keep, leb, length, ltb,
  map, max, take, if◌then◌else◌,
}
use sql_rpa.Text.{Text}
use sql_rpa.Agent.{ChatMessage, is_assistant, is_system, is_tool, is_user, text_of, tool}

-- The budget in tokens and the characters of a tool's result that are kept.
pub record ContextManager : Type 0 where
  pub token_budget : ℕ
  pub max_tool_result_chars : ℕ

pub record Trimmed : Type 0 where
  pub messages : List ChatMessage
  pub dropped_queries : List Text

-- What a walk from the newest message to the oldest has kept, with their tokens, and the messages
-- that it has not reached, the newest first.
pub record Walk : Type 0 where
  pub kept : List ChatMessage
  pub total : ℕ
  pub rest : List ChatMessage

-- The messages before the last one of the user, the newest first, that message, and those after it,
-- the newest first.
pub split_anchor :
    List ChatMessage
    → List ChatMessage
    → Option (List ChatMessage × (ChatMessage × List ChatMessage))
split_anchor newer [] = none
split_anchor newer (m ∷ older) =
    let again = split_anchor (m ∷ newer) older in
    if is_user m then some (older, (m, reverse newer)) else again

abbrev pub shortened : Text → ChatMessage → ChatMessage
shortened content m = record {
  role = tool;
  content = some content;
  tool_calls = [];
  tool_call_id = m.tool_call_id;
  name = m.name;
}

-- The last ten of a list whose newest entry stands first, the oldest first.
abbrev last_ten : List Text → List Text
last_ten newest_first = reverse (take 10 newest_first)

module _ (encoding : Text → Option ℕ) where
  -- `_estimate_tokens`
  pub estimate_tokens : Text → ℕ
  estimate_tokens [] = 0
  estimate_tokens (c ∷ s) = elim (encoding (c ∷ s)) [
    | some n ↦ n
    | none ↦ max 1 (length (c ∷ s) / 2)
  ]

  abbrev pub tokens : ChatMessage → ℕ
  tokens m = estimate_tokens (text_of m)

  module _ (c : ContextManager) where
    -- A tool's message as it is kept, and its tokens.
    pub keep_tool : ChatMessage → ℕ → ChatMessage × ℕ
    unfolding estimate_tokens
    keep_tool m total =
        let truncated = take c.max_tool_result_chars (text_of m) in
        if ltb c.token_budget (tokens m + total)
        then (shortened (truncated ++ codes "[truncated]") m, estimate_tokens truncated)
        else if ltb c.max_tool_result_chars (length (text_of m))
        then (shortened (truncated ++ codes "[truncated]") m, tokens m)
        else (record m { role = tool; tool_calls = [] }, tokens m)

    -- The two loops: the newest message stands first.
    pub walk : List ChatMessage → ℕ → List ChatMessage → Walk
    unfolding estimate_tokens keep_tool
    walk kept total [] = record { kept = kept; total = total; rest = [] }
    walk kept total (m ∷ []) =
        let stop : Walk = record { kept = kept; total = total; rest = m ∷ [] } in
        if not (ltb total c.token_budget)
        then stop
        else if is_tool m
        then record {
          kept = (keep_tool m total).0 ∷ kept;
          total = total + (keep_tool m total).1;
          rest = [];
        }
        else if ltb c.token_budget (tokens m + total)
        then stop
        else record { kept = m ∷ kept; total = total + tokens m; rest = [] }
    walk kept total (m ∷ n ∷ older) =
        let stop : Walk = record { kept = kept; total = total; rest = m ∷ n ∷ older } in
        let tool_kept = (keep_tool m total).0 ∷ kept in
        let tool_total = total + (keep_tool m total).1 in
        let fits = leb (tokens n + tool_total) c.token_budget in
        let pair =
          walk (if fits then n ∷ tool_kept else tool_kept)
            (if fits then tool_total + tokens n else tool_total) older in
        let lone = walk tool_kept tool_total (n ∷ older) in
        let plain = walk (m ∷ kept) (total + tokens m) (n ∷ older) in
        if not (ltb total c.token_budget)
        then stop
        else if is_tool m
        then (if is_assistant n then pair else lone)
        else if ltb c.token_budget (tokens m + total)
        then stop
        else plain

    -- `anchor.content[: budget * 2]` with the mark of the cut; another message has no such mark.
    abbrev cut_anchor : ChatMessage → ChatMessage
    cut_anchor m = record {
      role = m.role;
      content = some (take (c.token_budget * 2) (text_of m) ++ codes "…[truncated]");
      tool_calls = [];
      tool_call_id = none;
      name = none;
    }

    abbrev queries : List ChatMessage → List Text
    queries rest = last_ten (map (λ m. take 100 (text_of m)) (keep is_user rest))

    trim_around : List ChatMessage → List ChatMessage → ChatMessage → List ChatMessage → Trimmed
    unfolding walk
    trim_around systems older anchor newer =
        let after = walk [] (tokens anchor) newer in
        let before = walk [] after.total older in
        record {
          messages = systems ++ (before.kept ++ anchor ∷ after.kept);
          dropped_queries = queries before.rest;
        }

    trim_anchored :
        List ChatMessage
        → List ChatMessage
        → Option (List ChatMessage × (ChatMessage × List ChatMessage))
        → Trimmed
    unfolding trim_around
    trim_anchored systems others none = record {
      messages = systems ++ others;
      dropped_queries = [];
    }
    trim_anchored systems others (some (older, (anchor, newer))) =
        if ltb c.token_budget (tokens anchor)
        then record { messages = systems ++ cut_anchor anchor ∷ []; dropped_queries = [] }
        else trim_around systems older anchor newer

    -- `trim_messages`
    pub trim_messages : List ChatMessage → Trimmed
    unfolding split_anchor trim_anchored
    trim_messages messages =
        let others = keep (λ m. not (is_system m)) messages in
        trim_anchored (keep is_system messages) others (split_anchor [] (reverse others))
