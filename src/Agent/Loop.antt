-- ===== src/Agent/Loop.antt =====
-- backend/agent/react_loop.py: `run_agent`. The model, the clock, the reading of arguments as JSON and
-- the tools are parameters; texts that the program writes itself are left out.
pub mod Ends
pub mod Paired
use sql_rpa.Base.{
  ℕ, zero, suc, ◌+◌, String, Bool, true, false, ◌&&◌, ◌||◌, not, Option, none, some, List, [], ◌∷◌,
  ◌++◌, ◌==◌, codes, is_some, leb, ltb, map, str_eq, if◌then◌else◌,
}
use sql_rpa.Text.{Text}
use sql_rpa.Agent.{ChatMessage, Role, ToolCall, assistant, tool, user}
use sql_rpa.Agent.Classifier.{Classified, llm_classify}
use sql_rpa.Agent.Context.{ContextManager, Trimmed, trim_messages}
use sql_rpa.Agent.Stream.{Answer, StreamEvent, chunk, degradation, finished, tool_calls, usage}
use sql_rpa.Agent.Tools.{
  Arguments, Executed, Tool, ToolResult, execute, is_given, key_error, result, value_error,
}

-- The events that are sent to the client.
pub data Event : Type 0 where
  thought : Event
  answer_chunk : Text → Event
  usage_event : Event
  degradation_event : Event
  tool_call : ToolCall → Event
  tool_result : String → Bool → ℕ → Event
  sources : List Text → Event
  error : Event
  done : Event

-- The settings, and what is outside: the seconds that have passed when an iteration starts, what the
-- model answers to a call with or without tools, and the arguments of a tool as a JSON object, if they
-- are one; and, for the classifier, whether a rule matches and what comes of its call of the model.
pub record Agent : Type 0 where
  pub max_loop_iterations : ℕ
  pub max_total_time : ℕ
  pub max_tool_retries : ℕ
  pub context : ContextManager
  pub encoding : Text → Option ℕ
  pub tools : List Tool
  pub elapsed : ℕ → ℕ
  pub chat : ℕ → List ChatMessage → Bool → Answer
  pub loads : Text → Option Arguments
  pub matches_rule : Bool
  pub classified : Classified

-- What a run has sent, the messages at its end, how often it called the model, and whether it came to
-- its end or an exception broke it off.
pub record Run : Type 0 where
  pub events : List Event
  pub messages : List ChatMessage
  pub calls : ℕ
  pub ended : Bool

abbrev sent : StreamEvent → List Event
sent degradation = degradation_event ∷ []
sent (chunk s) = answer_chunk s ∷ []
sent usage = usage_event ∷ []
sent (tool_calls ts) = []
sent finished = []

pub forwarded : List StreamEvent → List Event
forwarded [] = []
forwarded (e ∷ es) = sent e ++ forwarded es

-- `assistant_content` and `assistant_tool_calls` after the stream.
pub content_of : List StreamEvent → Text
content_of [] = []
content_of (chunk s ∷ es) = s ++ content_of es
content_of (_ ∷ es) = content_of es

pub calls_after : List ToolCall → List StreamEvent → List ToolCall
calls_after ts [] = ts
calls_after ts (tool_calls us ∷ es) = calls_after us es
calls_after ts (_ ∷ es) = calls_after ts es

abbrev pub is_blank {ℓ} : {A : Type ℓ} → List A → Bool
is_blank [] = true
is_blank (_ ∷ _) = false

abbrev pub assistant_message : Text → List ToolCall → ChatMessage
assistant_message content ts = record {
  role = assistant;
  content = if is_blank content then none else some content;
  tool_calls = ts;
  tool_call_id = none;
  name = none;
}

abbrev pub tool_message : ToolCall → Text → ChatMessage
tool_message t content = record {
  role = tool;
  content = some content;
  tool_calls = [];
  tool_call_id = some t.id;
  name = some t.name;
}

abbrev refused : Text
refused = codes "Error: invalid tool arguments; execution was refused."

abbrev failed : Text
failed = codes "Error: tool execution failed or was refused. Do not retry with the same arguments."

-- The tools whose results are shown as sources.
abbrev gives_sources : ToolCall → Bool
gives_sources t = str_eq t.name "search_docs" || str_eq t.name "web_search"

-- What one tool call sends and appends, and its sources; `none` is an exception that the loop does not
-- catch: of the registry, or of the dump of the data.
pub record Called : Type 0 where
  pub content : Text
  pub success : Bool
  pub row_count : ℕ
  pub found : List Text

abbrev unsuccessful : Text → Called
unsuccessful content = record { content = content; success = false; row_count = 0; found = [] }

-- The arguments are passed on as keywords beside `self` and `name`, which they may not repeat.
abbrev pub repeats_parameter : Arguments → Bool
repeats_parameter args = is_given "name" args || is_given "self" args

module _ (a : Agent) where
  use_result : ToolCall → Executed → Option Called
  use_result t key_error = none
  use_result t value_error = none
  use_result t (result r) = elim r.success [
    | false ↦ some (unsuccessful failed)
    | true ↦ elim r.dumped [
      | none ↦ none
      | some content ↦ some (record {
        content = content;
        success = true;
        row_count = r.row_count;
        found = if gives_sources t then r.sources else [];
      })
    ]
  ]

  pub call_tool : ToolCall → Option Called
  unfolding use_result
  call_tool t = elim (a.loads t.arguments) [
    | none ↦ some (unsuccessful refused)
    | some args ↦
        if repeats_parameter args
        then none
        else use_result t (execute a.max_tool_retries a.tools t.name args)
  ]

  -- The loop over the tool calls of an answer: the events, the messages and the sources, and whether it
  -- came to its end.
  pub record Batch : Type 0 where
    pub events : List Event
    pub messages : List ChatMessage
    pub found : List Text
    pub ended : Bool

  pub call_tools : List ToolCall → Batch
  unfolding call_tool
  call_tools [] = record { events = []; messages = []; found = []; ended = true }
  call_tools (t ∷ ts) =
      let rest = call_tools ts in
      elim (call_tool t) [
        | none ↦ record { events = tool_call t ∷ []; messages = []; found = []; ended = false }
        | some r ↦ record {
          events = tool_call t ∷ tool_result t.name r.success r.row_count ∷ rest.events;
          messages = tool_message t r.content ∷ rest.messages;
          found = r.found ++ rest.found;
          ended = rest.ended;
        }
      ]

  abbrev pub trimmed : List ChatMessage → Trimmed
  trimmed messages = trim_messages a.encoding a.context messages

  -- Whether the joined queries make a text that is not empty.
  abbrev has_summary : List Text → Bool
  has_summary [] = false
  has_summary (q ∷ []) = not (is_blank q)
  has_summary (q ∷ r ∷ qs) = true

  abbrev compressed : Trimmed → List Event
  compressed t = if has_summary t.dropped_queries then thought ∷ [] else []

  abbrev sources_event : List Text → List Event
  sources_event [] = []
  sources_event (s ∷ ss) = sources (s ∷ ss) ∷ []

  abbrev summary_request : ChatMessage
  summary_request = record {
    role = user;
    content = some (codes "请基于以上所有工具调用结果，用中文给出最终回答。");
    tool_calls = [];
    tool_call_id = none;
    name = none;
  }

  -- The call that is left when the iterations are used up. Its stream is not under a `try`.
  pub final_call : ℕ → List ChatMessage → Run
  unfolding forwarded
  final_call iteration messages =
      let asked = messages ++ summary_request ∷ [] in
      let answer = a.chat iteration (trimmed asked).messages false in
      if answer.complete
      then record {
        events = thought ∷ forwarded answer.events ++ done ∷ [];
        messages = asked;
        calls = 1;
        ended = true;
      }
      else record {
        events = thought ∷ forwarded answer.events;
        messages = asked;
        calls = 1;
        ended = false;
      }

  -- An iteration after the model has answered: `again` is the rest of the run from given messages and
  -- sources on.
  after_answer : List ChatMessage → List Text → Answer → (List ChatMessage → List Text → Run) → Run
  unfolding forwarded content_of calls_after call_tools
  after_answer messages found answer again =
      let content = content_of answer.events in
      let calls = calls_after [] answer.events in
      let batch = call_tools calls in
      let all_messages = messages ++ assistant_message content calls ∷ batch.messages in
      let all_found = found ++ batch.found in
      let rest = again all_messages all_found in
      if not answer.complete
      then record {
        events = forwarded answer.events ++ error ∷ done ∷ [];
        messages = messages;
        calls = 1;
        ended = true;
      }
      else if is_blank calls
      then record {
        events = forwarded answer.events ++ done ∷ [];
        messages = messages;
        calls = 1;
        ended = true;
      }
      else if not batch.ended
      then record {
        events = forwarded answer.events ++ batch.events;
        messages = all_messages;
        calls = 1;
        ended = false;
      }
      else record {
        events =
            forwarded answer.events ++ (batch.events ++ (sources_event all_found ++ rest.events));
        messages = rest.messages;
        calls = rest.calls + 1;
        ended = rest.ended;
      }

  -- The iterations from one on, `left` of them.
  pub iterate : ℕ → ℕ → List ChatMessage → List Text → Run
  unfolding final_call after_answer
  iterate iteration zero messages found = final_call iteration messages
  iterate iteration (suc left) messages found =
      let t = trimmed messages in
      let answer = a.chat iteration t.messages (not (left == 0)) in
      let run = after_answer messages found answer (iterate (iteration + 1) left) in
      if ltb a.max_total_time (a.elapsed iteration)
      then record { events = error ∷ done ∷ []; messages = messages; calls = 0; ended = true }
      else record run { events = compressed t ++ run.events }

  -- `run_agent`, with the messages of the system, of the history and of the user. A confidence that
  -- is not a number cannot be formatted for the first event.
  unfoldable pub run_agent : List ChatMessage → Run
  unfolding iterate llm_classify
  run_agent messages =
      let (asked, number) = llm_classify a.matches_rule a.classified in
      let run = iterate 0 a.max_loop_iterations messages [] in
      if number
      then record run { events = thought ∷ run.events; calls = asked + run.calls }
      else record { events = []; messages = []; calls = asked; ended = false }
