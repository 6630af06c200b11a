-- ===== src/Agent.antt =====
-- backend/agent: the messages of the loop, in the types of backend/llm/base.py.
pub mod Classifier
pub mod Context
pub mod Stream
pub mod Tools
pub mod Loop
mod Tests
use sql_rpa.Base.{ℕ, String, Bool, true, false, Option, none, some, List, [], ◌∷◌}
use sql_rpa.Text.{Text}

pub data Role : Type 0 where
  system user assistant tool : Role

-- `ToolCall`
pub record ToolCall : Type 0 where
  pub id : String
  pub name : String
  pub arguments : Text

-- `ChatMessage`; the absence of tool calls is the empty list.
pub record ChatMessage : Type 0 where
  pub role : Role
  pub content : Option Text
  pub tool_calls : List ToolCall
  pub tool_call_id : Option String
  pub name : Option String

abbrev pub is_system : ChatMessage → Bool
is_system m = elim m.role [ system ↦ true | user ↦ false | assistant ↦ false | tool ↦ false ]

abbrev pub is_user : ChatMessage → Bool
is_user m = elim m.role [ system ↦ false | user ↦ true | assistant ↦ false | tool ↦ false ]

abbrev pub is_assistant : ChatMessage → Bool
is_assistant m = elim m.role [ system ↦ false | user ↦ false | assistant ↦ true | tool ↦ false ]

abbrev pub is_tool : ChatMessage → Bool
is_tool m = elim m.role [ system ↦ false | user ↦ false | assistant ↦ false | tool ↦ true ]

-- `content or ""`
abbrev pub text_of : ChatMessage → Text
text_of m = elim m.content [ none ↦ [] | some s ↦ s ]
