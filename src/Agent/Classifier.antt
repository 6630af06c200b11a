-- ===== src/Agent/Classifier.antt =====
-- backend/agent/classifier.py: `llm_classify`, as far as it calls the model and may break a run off.
-- Whether a rule of `_rule_match` matches, and what the model answers, are parameters.
use sql_rpa.Base.{ℕ, Bool, true, if◌then◌else◌}

-- What comes of the call of the model: an exception in the `try`, no tool call, or the arguments of
-- one, whose confidence is a number or is not.
pub data Classified : Type 0 where
  raises no_call : Classified
  arguments : Bool → Classified

-- `_llm_classify`: whether the confidence of its hint is a number.
abbrev pub is_number : Classified → Bool
is_number raises = true
is_number no_call = true
is_number (arguments number) = number

-- `llm_classify`: how often it calls the model, and whether the confidence is a number.
unfoldable pub llm_classify : Bool → Classified → ℕ × Bool
llm_classify matches_rule classified = if matches_rule then (0, true) else (1, is_number classified)
