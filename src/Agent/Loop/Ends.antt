-- ===== src/Agent/Loop/Ends.antt =====
-- A run of the agent calls the model a bounded number of times and closes its stream.
use sql_rpa.Base.{
  ℕ, zero, suc, ◌+◌, ◌≤◌, ◌≡◌, refl, Bool, true, false, not, List, [], ◌∷◌, ◌++◌, ◌==◌, All, arith,
  ltb, Option-cases, if_elim, inl, inr, if◌then◌else◌,
}
use sql_rpa.Text.{Text}
use sql_rpa.Agent.{ChatMessage, ToolCall}
use sql_rpa.Agent.Classifier.{Classified, is_number, llm_classify}
use sql_rpa.Agent.Stream.{Answer, StreamEvent, chunk, degradation, finished, tool_calls, usage}
use sql_rpa.Agent.Loop.{
  Agent, Event, Run, after_answer, call_tool, call_tools, calls_after, compressed, done, error,
  final_call, forwarded, has_summary, is_blank, summary_request, assistant_message, content_of,
  iterate, run_agent, sources_event, thought, trimmed,
}

abbrev is_done : Event → Bool
is_done done = true
is_done _ = false

-- The stream of a run that has come to its end has one `done`, which is its last event; the stream of
-- one that an exception broke off has none.
abbrev pub IsClosed : Bool → List Event → Type 0
IsClosed ended [] = ended ≡ false
IsClosed ended (e ∷ es) = elim (is_done e) [
  | true ↦ (ended ≡ true) × (es ≡ [])
  | false ↦ IsClosed ended es
]

abbrev IsSilent : List Event → Type 0
IsSilent es = All (λ e. is_done e ≡ false) es

IsClosed-append :
    (ended : Bool) (xs ys : List Event)
    → IsSilent xs
    → IsClosed ended ys
    → IsClosed ended (xs ++ ys)
IsClosed-append ended [] ys s h = h
IsClosed-append ended (x ∷ xs) ys (s, ss) h = rw (s, IsClosed) (IsClosed-append ended xs ys ss h)

IsSilent-append : (xs ys : List Event) → IsSilent xs → IsSilent ys → IsSilent (xs ++ ys)
IsSilent-append [] ys s t = t
IsSilent-append (x ∷ xs) ys (s, ss) t = (s, IsSilent-append xs ys ss t)

IsSilent-IsClosed : (es : List Event) → IsSilent es → IsClosed false es
IsSilent-IsClosed [] s = refl
IsSilent-IsClosed (e ∷ es) (s, ss) = rw (s, IsClosed) (IsSilent-IsClosed es ss)

forwarded-IsSilent : (es : List StreamEvent) → IsSilent (forwarded es)
unfolding forwarded
forwarded-IsSilent [] = tt
forwarded-IsSilent (degradation ∷ es) = (refl, forwarded-IsSilent es)
forwarded-IsSilent (chunk s ∷ es) = (refl, forwarded-IsSilent es)
forwarded-IsSilent (usage ∷ es) = (refl, forwarded-IsSilent es)
forwarded-IsSilent (tool_calls ts ∷ es) = forwarded-IsSilent es
forwarded-IsSilent (finished ∷ es) = forwarded-IsSilent es

sources-IsSilent : (a : Agent) (ss : List Text) → IsSilent (sources_event a ss)
sources-IsSilent a [] = tt
sources-IsSilent a (s ∷ ss) = (refl, tt)

module _ (a : Agent) where
  call_tools-IsSilent : (ts : List ToolCall) → IsSilent (call_tools a ts).events
  unfolding call_tools
  call_tools-IsSilent [] = tt
  call_tools-IsSilent (t ∷ ts) = elim (Option-cases (call_tool a t)) [
    | inl e ↦ rw (e, call_tools) (refl, tt)
    | inr (r, e) ↦ rw (e, call_tools) (refl, (refl, call_tools-IsSilent ts))
  ]

  compressed-IsSilent : (ms : List ChatMessage) → IsSilent (compressed a (trimmed a ms))
  compressed-IsSilent ms =
      if_elim IsSilent (has_summary a (trimmed a ms).dropped_queries) (λ _. (refl, tt)) (λ _. tt)

  abbrev Closes : ℕ → Run → Type 0
  Closes n r = IsClosed r.ended r.events × (r.calls ≤ n)

  final_call-Closes : (i : ℕ) (ms : List ChatMessage) → Closes 1 (final_call a i ms)
  unfolding final_call
  final_call-Closes i ms =
      let answer = a.chat i (trimmed a (ms ++ summary_request a ∷ [])).messages false in
      let silent = forwarded-IsSilent answer.events in
      if_elim (Closes 1) answer.complete
        (λ _. (
          IsClosed-append true (forwarded answer.events) (done ∷ []) silent (refl, refl),
          omega arith,
        ))
        (λ _. (IsSilent-IsClosed (forwarded answer.events) silent, omega arith))

  after_answer-Closes :
      (n : ℕ) (ms : List ChatMessage) (found : List Text) (answer : Answer)
      (again : List ChatMessage → List Text → Run)
      → ((ms' : List ChatMessage) (found' : List Text) → Closes n (again ms' found'))
      → Closes (n + 1) (after_answer a ms found answer again)
  unfolding after_answer
  after_answer-Closes n ms found answer again h =
      let calls = calls_after [] answer.events in
      let batch = call_tools a calls in
      let all_messages =
        ms ++ assistant_message (content_of answer.events) calls ∷ batch.messages in
      let all_found = found ++ batch.found in
      let (closed, bounded) = h all_messages all_found in
      let rest = again all_messages all_found in
      let silent = forwarded-IsSilent answer.events in
      let closes = λ (b : Bool) (es : List Event) (c : IsClosed b es).
        IsClosed-append b (forwarded answer.events) es silent c in
      if_elim (Closes (n + 1)) (not answer.complete)
        (λ _. (closes true (error ∷ done ∷ []) (refl, refl), omega arith))
        (λ _.
          if_elim (Closes (n + 1)) (is_blank calls)
            (λ _. (closes true (done ∷ []) (refl, refl), omega arith))
            (λ _.
              if_elim (Closes (n + 1)) (not batch.ended)
                (λ _. (
                  closes false batch.events
                      (IsSilent-IsClosed batch.events (call_tools-IsSilent calls)),
                  omega arith,
                ))
                (λ _. (
                  closes rest.ended (batch.events ++ (sources_event a all_found ++ rest.events)) (
                      IsClosed-append rest.ended batch.events
                        (sources_event a all_found ++ rest.events) (call_tools-IsSilent calls)
                        (IsClosed-append rest.ended (sources_event a all_found) rest.events
                          (sources-IsSilent a all_found) closed)),
                  omega arith,
                ))))

  iterate-Closes :
      (i left : ℕ) (ms : List ChatMessage) (found : List Text)
      → Closes (left + 1) (iterate a i left ms found)
  unfolding iterate
  iterate-Closes i zero ms found = final_call-Closes i ms
  iterate-Closes i (suc left) ms found =
      let t = trimmed a ms in
      let answer = a.chat i t.messages (not (left == 0)) in
      let run = after_answer a ms found answer (iterate a (i + 1) left) in
      let (closed, bounded) =
        after_answer-Closes (left + 1) ms found answer (iterate a (i + 1) left)
          (iterate-Closes (i + 1) left) in
      if_elim (Closes (suc left + 1)) (ltb a.max_total_time (a.elapsed i))
        (λ _. ((refl, refl), omega arith))
        (λ _. (
          IsClosed-append run.ended (compressed a t) run.events (compressed-IsSilent ms) closed,
          omega arith,
        ))

  started-Closes :
      (run : Run) (n : ℕ) (matches : Bool) (classified : Classified)
      → Closes n run
      → Closes (n + (if matches then 0 else 1)) (
          if (llm_classify matches classified).1
          then record run {
            events = thought ∷ run.events;
            calls = (llm_classify matches classified).0 + run.calls;
          }
          else record {
            events = [];
            messages = [];
            calls = (llm_classify matches classified).0;
            ended = false;
          })
  unfolding llm_classify
  started-Closes run n true classified (c, l) = (c, omega (arith, l))
  started-Closes run n false classified (c, l) =
      if_elim (Closes (n + 1)) (is_number classified) (λ _. (c, omega (arith, l)))
        (λ _. (refl, omega arith))

-- A run of the agent calls the model at most once more than the iterations that are allowed, and once
-- more for the classification if no rule matches the message, whatever the model answers and the
-- tools do; and what it sends holds one `done`, as its last event, if the run
-- came to its end, and none if an exception broke it off.
pub run_agent-IsClosed :
    (a : Agent) (messages : List ChatMessage)
    → IsClosed (run_agent a messages).ended (run_agent a messages).events
      × ((run_agent a messages).calls
          ≤ a.max_loop_iterations + 1 + (if a.matches_rule then 0 else 1))
unfolding run_agent
run_agent-IsClosed a messages =
    started-Closes a (iterate a 0 a.max_loop_iterations messages []) (a.max_loop_iterations + 1)
      a.matches_rule a.classified (iterate-Closes a 0 a.max_loop_iterations messages [])
