-- ===== src/Agent/Tools.antt =====
-- backend/agent/tools: `validate_tool_arguments` of validation.py, and `ToolRegistry.execute` of
-- __init__.py. What a tool does at an attempt is a parameter; the waits between attempts are left out.
pub mod Attempts
use sql_rpa.Base.{
  ℕ, zero, suc, ◌+◌, ◌-◌, String, Bool, true, false, ◌&&◌, ◌||◌, not, Option, none, some, List, [],
  ◌∷◌, ◌==◌, all, any, find, is_some, map, min, str_eq, if◌then◌else◌,
}
use sql_rpa.Text.{Text}

-- A value of JSON, its contents as text.
pub data Value : Type 0 where
  null : Value
  boolean : Bool → Value
  integer : Text → Value
  float : Text → Value
  string : Text → Value
  array : Text → Value
  object : Text → Value

abbrev pub Arguments : Type 0
Arguments = List (String × Value)

-- `_type_matches`
abbrev is_string : Value → Bool
is_string (string s) = true
is_string _ = false

abbrev is_integer : Value → Bool
is_integer (integer n) = true
is_integer _ = false

abbrev is_number : Value → Bool
is_number (integer n) = true
is_number (float n) = true
is_number _ = false

abbrev is_boolean : Value → Bool
is_boolean (boolean b) = true
is_boolean _ = false

abbrev is_array : Value → Bool
is_array (array s) = true
is_array _ = false

abbrev is_object : Value → Bool
is_object (object s) = true
is_object _ = false

abbrev is_null : Value → Bool
is_null null = true
is_null _ = false

pub type_matches : Value → String → Bool
type_matches value expected =
    if str_eq expected "string"
    then is_string value
    else if str_eq expected "integer"
    then is_integer value
    else if str_eq expected "number"
    then is_number value
    else if str_eq expected "boolean"
    then is_boolean value
    else if str_eq expected "array"
    then is_array value
    else if str_eq expected "object"
    then is_object value
    else if str_eq expected "null"
    then is_null value
    else true

-- A schema: its type, the types of its properties ("" for one without) and the required ones.
pub record Schema : Type 0 where
  pub type : String
  pub properties : List (String × String)
  pub required : List String

abbrev pub property : String → List (String × String) → Option (String × String)
property name ps = find (λ (p, _). str_eq p name) ps

abbrev pub is_given : String → Arguments → Bool
is_given name args = any (λ (a, _). str_eq a name) args

pub argument_fits : Schema → String × Value → Bool
unfolding type_matches
argument_fits schema (name, value) = elim (property name schema.properties) [
  | none ↦ false
  | some (p, expected) ↦ str_eq expected "" || type_matches value expected
]

-- `validate_tool_arguments`: whether it passes.
pub validate_tool_arguments : Option Schema → Arguments → Bool
unfolding argument_fits
validate_tool_arguments none args = true
validate_tool_arguments (some schema) args =
    if not (str_eq schema.type "object")
    then true
    else all (λ name. is_given name args) schema.required && all (argument_fits schema) args

pub data RetryStrategy : Type 0 where
  no_retries exponential unknown : RetryStrategy

-- `ToolResult`: `row_count` is what the loop shows of the data, `dumped` the data as JSON, if it can be
-- dumped, and `sources` the documents or pages in the data.
pub record ToolResult : Type 0 where
  pub success : Bool
  pub dumped : Option Text
  pub row_count : ℕ
  pub sources : List Text
  pub retries : ℕ

-- `BaseTool`: what `execute` gives at an attempt, where `none` is an exception.
pub record Tool : Type 0 where
  pub name : String
  pub schema : Option Schema
  pub max_retries : ℕ
  pub retry_strategy : RetryStrategy
  pub execute : Arguments → ℕ → Option ToolResult

-- What the registry answers: a result, or an exception of its own.
pub data Executed : Type 0 where
  result : ToolResult → Executed
  key_error value_error : Executed

abbrev pub failure : ℕ → ToolResult
failure retries = record {
  success = false;
  dumped = none;
  row_count = 0;
  sources = [];
  retries = retries;
}

abbrev pub with_retries : ℕ → ToolResult → ToolResult
with_retries n r = record r { retries = n }

-- The loop over the attempts from one on, `left` after it.
pub attempts_from : (ℕ → Option ToolResult) → ℕ → ℕ → ToolResult
attempts_from run attempt zero = elim (run attempt) [
  | some r ↦ with_retries attempt r
  | none ↦ failure attempt
]
attempts_from run attempt (suc left) =
    let again = attempts_from run (attempt + 1) left in
    elim (run attempt) [ some r ↦ with_retries attempt r | none ↦ again ]

-- `ToolRegistry.execute` for a tool that was found; `max_tool_retries` is the setting.
unfoldable pub execute_tool : ℕ → Tool → Arguments → Executed
unfolding attempts_from validate_tool_arguments
execute_tool max_tool_retries t args =
    if not (validate_tool_arguments t.schema args)
    then result (failure 0)
    else elim t.retry_strategy [
      | no_retries ↦ result (attempts_from (t.execute args) 0 0)
      | exponential ↦ result (attempts_from (t.execute args) 0 (min t.max_retries max_tool_retries))
      | unknown ↦ value_error
    ]

-- `ToolRegistry.execute`
unfoldable pub execute : ℕ → List Tool → String → Arguments → Executed
unfolding execute_tool
execute max_tool_retries tools name args = elim (find (λ t. str_eq t.name name) tools) [
  | none ↦ key_error
  | some t ↦ execute_tool max_tool_retries t args
]
