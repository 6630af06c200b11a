-- ===== src/Agent/Tests.antt =====
-- Runs of the agent (backend/agent) on concrete models and tools.
use sql_rpa.Base.{
  false, zero, suc, ◌≤◌, ◌≡◌, refl, true, none, some, [], ◌∷◌, codes, ltb, if◌then◌else◌,
}
use sql_rpa.Agent.{ChatMessage, ToolCall, user}
use sql_rpa.Agent.Classifier.{arguments}
use sql_rpa.Agent.Stream.{
  Chunk, Delta, chat_stream, stream_llm_response, chunk, finished, tool_calls,
}
use sql_rpa.Agent.Tools.{Arguments, execute, Tool, execute_tool, exponential, string}
use sql_rpa.Agent.Tools.Attempts.{IsAnswered, execute_tool-IsAnswered}
use sql_rpa.Agent.Stream.Pieces.{split, stream_llm_response-split, whole}
use sql_rpa.Agent.Loop.{Agent, run_agent}
use sql_rpa.Agent.Loop.Ends.{IsClosed, run_agent-IsClosed}
use sql_rpa.Agent.Loop.Paired.{IsPaired, run_agent-IsPaired}

-- A search that fails at its first two attempts.
abbrev search : Tool
search = record {
  name = "search_docs";
  schema =
      some (record {
        type = "object";
        properties = ("query", "string") ∷ [];
        required = "query" ∷ [];
      });
  max_retries = 3;
  retry_strategy = exponential;
  execute = λ args attempt.
      if ltb attempt 2
      then none
      else some (record {
        success = true;
        dumped = some (codes "[]");
        row_count = 1;
        sources = codes "page" ∷ [];
        retries = 0;
      });
}

abbrev query : Arguments
query = ("query", string (codes "orders")) ∷ []

abbrev call : ToolCall
call = record { id = "c1"; name = "search_docs"; arguments = codes "orders" }

abbrev question : ChatMessage
question = record {
  role = user;
  content = some (codes "How many orders?");
  tool_calls = [];
  tool_call_id = none;
  name = none;
}

-- The model asks for the search once, and then answers.
abbrev agent : Agent
agent = record {
  max_loop_iterations = 2;
  max_total_time = 60;
  max_tool_retries = 2;
  context = record { token_budget = 1000; max_tool_result_chars = 100 };
  encoding = λ s. none;
  tools = search ∷ [];
  elapsed = λ i. i;
  chat = λ i ms with_tools. elim i [
    | zero ↦ record { events = tool_calls (call ∷ []) ∷ []; complete = true }
    | suc n ↦ record { events = chunk (codes "3") ∷ finished ∷ []; complete = true }
  ];
  loads = λ s. some query;
  matches_rule = false;
  classified = arguments true;
}

execute_tool-IsAnswered_example : IsAnswered 2 query search (execute_tool 2 search query)
execute_tool-IsAnswered_example = execute_tool-IsAnswered 2 query search

run_agent-IsClosed_example :
    IsClosed (run_agent agent (question ∷ [])).ended (run_agent agent (question ∷ [])).events
    × ((run_agent agent (question ∷ [])).calls ≤ 4)
run_agent-IsClosed_example = run_agent-IsClosed agent (question ∷ [])

run_agent-IsPaired_example : IsPaired (run_agent agent (question ∷ [])).messages
unfolding run_agent execute
run_agent-IsPaired_example = run_agent-IsPaired agent (question ∷ []) refl refl

three_calls : (run_agent agent (question ∷ [])).calls ≡ 3
unfolding run_agent execute
three_calls = refl

third_attempt : execute_tool 2 search query ≡ execute_tool 5 search query
unfolding execute_tool
third_attempt = refl

-- The end of the call, in one piece or in two.
abbrev last_chunk : Chunk
last_chunk = record {
  has_choice = true;
  content = [];
  deltas = [];
  finish_reason = some "tool_calls";
  usage = true;
}

abbrev first_part : Delta
first_part = record { index = 0; id = "c1"; name = "search"; arguments = codes "{" }

stream_llm_response-split_example :
    stream_llm_response false
      (chat_stream true (split last_chunk [] [] first_part "_docs" (codes "}") []))
    ≡ stream_llm_response false
        (chat_stream true (whole last_chunk [] [] first_part "_docs" (codes "}") []))
stream_llm_response-split_example =
    stream_llm_response-split last_chunk [] [] first_part "_docs" (codes "}") [] true false []
