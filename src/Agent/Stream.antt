-- ===== src/Agent/Stream.antt =====
-- `chat_stream` of backend/llm/openai_impl.py and `_stream_llm_response` of
-- backend/agent/react_loop.py: from the chunks of the service to the events of one answer. The
-- service is a parameter: the chunks that it sends, and whether its stream breaks off.
pub mod Pieces
use sql_rpa.Base.{
  ℕ, String, Bool, true, false, ◌&&◌, not, Option, none, some, List, [], ◌∷◌, ◌++◌, ◌==◌, is_some,
  map, str_append, str_eq, if◌then◌else◌,
}
use sql_rpa.Text.{Text}
use sql_rpa.Agent.{ToolCall}

-- A piece of a tool call: an absent id is "", an absent text is empty.
pub record Delta : Type 0 where
  pub index : ℕ
  pub id : String
  pub name : String
  pub arguments : Text

-- A chunk; one without choices has no more than usage, and is passed over.
pub record Chunk : Type 0 where
  pub has_choice : Bool
  pub content : Text
  pub deltas : List Delta
  pub finish_reason : Option String
  pub usage : Bool

-- `LLMResponse`; an absent content is empty.
pub record LlmResponse : Type 0 where
  pub content : Text
  pub tool_calls : List ToolCall
  pub finish_reason : Option String
  pub usage : Bool
  pub degradation : Bool

-- `tool_call_buffer`, in the order of insertion.
abbrev pub Buffer : Type 0
Buffer = List (ℕ × ToolCall)

abbrev merged : Delta → ToolCall → ToolCall
merged d t = record {
  id = if str_eq d.id "" then t.id else d.id;
  name = str_append t.name d.name;
  arguments = t.arguments ++ d.arguments;
}

pub add_delta : Delta → Buffer → Buffer
add_delta d [] = (d.index, merged d (record { id = d.id; name = ""; arguments = [] })) ∷ []
add_delta d ((i, t) ∷ b) =
    let later = (i, t) ∷ add_delta d b in if i == d.index then (i, merged d t) ∷ b else later

pub add_deltas : List Delta → Buffer → Buffer
unfolding add_delta
add_deltas [] b = b
add_deltas (d ∷ ds) b = add_deltas ds (add_delta d b)

abbrev is_calls : Option String → Bool
is_calls none = false
is_calls (some reason) = str_eq reason "tool_calls"

abbrev calls_of : Buffer → List ToolCall
calls_of b = map (λ (_, t). t) b

-- The loop of `chat_stream` over the chunks.
pub responses : Buffer → List Chunk → List LlmResponse
unfolding add_deltas
responses b [] = []
responses b (c ∷ cs) =
    let filled = add_deltas c.deltas b in
    let skip = responses b cs in
    let finish =
      record {
        content = c.content;
        tool_calls = calls_of filled;
        finish_reason = c.finish_reason;
        usage = c.usage;
        degradation = false;
      }
      ∷ responses [] cs in
    let go_on =
      record {
        content = c.content;
        tool_calls = [];
        finish_reason = c.finish_reason;
        usage = c.usage;
        degradation = false;
      }
      ∷ responses filled cs in
    if not c.has_choice then skip else if is_calls c.finish_reason then finish else go_on

abbrev pub degraded_response : LlmResponse
degraded_response = record {
  content = [];
  tool_calls = [];
  finish_reason = none;
  usage = false;
  degradation = true;
}

-- `chat_stream`, after the attempts at the service.
pub chat_stream : Bool → List Chunk → List LlmResponse
unfolding responses
chat_stream degraded chunks =
    if degraded then degraded_response ∷ responses [] chunks else responses [] chunks

pub data StreamEvent : Type 0 where
  degradation : StreamEvent
  chunk : Text → StreamEvent
  usage : StreamEvent
  tool_calls : List ToolCall → StreamEvent
  finished : StreamEvent

-- The events of an answer; the Boolean is false if the stream broke off.
pub record Answer : Type 0 where
  pub events : List StreamEvent
  pub complete : Bool

abbrev event_if : Bool → StreamEvent → List StreamEvent
event_if true e = e ∷ []
event_if false e = []

abbrev is_blank {ℓ} : {A : Type ℓ} → List A → Bool
is_blank [] = true
is_blank (_ ∷ _) = false

abbrev last_event : List ToolCall → StreamEvent
last_event [] = finished
last_event (t ∷ ts) = tool_calls (t ∷ ts)

-- `_stream_llm_response`
pub stream_from : Bool → List ToolCall → List LlmResponse → Answer
stream_from broken received [] =
    if broken
    then record { events = []; complete = false }
    else record { events = last_event received ∷ []; complete = true }
stream_from broken received (r ∷ rs) =
    let here =
      event_if r.degradation degradation
      ++ (event_if (not (is_blank r.content)) (chunk r.content) ++ event_if r.usage usage) in
    let rest = stream_from broken (received ++ r.tool_calls) rs in
    if is_some r.finish_reason && is_blank r.content && is_blank r.tool_calls
    then record { events = here ++ finished ∷ []; complete = true }
    else record { events = here ++ rest.events; complete = rest.complete }

unfoldable pub stream_llm_response : Bool → List LlmResponse → Answer
unfolding stream_from
stream_llm_response broken rs = stream_from broken [] rs
