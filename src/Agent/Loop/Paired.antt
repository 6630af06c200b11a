-- ===== src/Agent/Loop/Paired.antt =====
-- The messages of a run of the agent (backend/agent/react_loop.py): tool calls and their results.
use sql_rpa.Base.{
  ℕ, zero, suc, ◌+◌, ◌≡◌, refl, String, Bool, true, false, not, Option, none, some, List, [], ◌∷◌,
  ◌++◌, ◌==◌, ltb, map, Option-cases, if_elim, inl, inr, arith, str_eq, eq_iff, if◌then◌else◌,
}
use sql_rpa.Text.{Text}
use sql_rpa.Agent.{ChatMessage, ToolCall, is_tool, is_assistant}
use sql_rpa.Agent.Classifier.{llm_classify}
use sql_rpa.Agent.Stream.{Answer}
use sql_rpa.Agent.Loop.{
  Agent, Run, after_answer, assistant_message, call_tool, call_tools, calls_after, content_of,
  final_call, is_blank, iterate, run_agent, summary_request, trimmed,
}

abbrev ids : List ToolCall → List String
ids ts = map (λ t. t.id) ts

abbrev answers_call : String → Option String → Bool
answers_call i none = false
answers_call i (some j) = str_eq j i

-- The tool calls that still await their results after a message, if the message may stand there.
abbrev awaited_after : List String → ChatMessage → Option (List String)
awaited_after [] m =
    if is_tool m then none else if is_assistant m then some (ids m.tool_calls) else some []
awaited_after (i ∷ is) m =
    if is_tool m then (if answers_call i m.tool_call_id then some is else none) else none

abbrev is_paired_from : List String → List ChatMessage → Bool
is_paired_from [] [] = true
is_paired_from (i ∷ is) [] = false
is_paired_from awaited (m ∷ ms) = elim (awaited_after awaited m) [
  | none ↦ false
  | some later ↦ is_paired_from later ms
]

-- Every tool call of an assistant's message is answered by one message of a tool, in the order of the
-- calls and directly after the message, and no other message of a tool is among the messages.
abbrev pub IsPaired : List ChatMessage → Type 0
IsPaired ms = is_paired_from [] ms ≡ true

IsPaired-append :
    (awaited : List String) (xs ys : List ChatMessage)
    → is_paired_from awaited xs ≡ true
    → IsPaired ys
    → is_paired_from awaited (xs ++ ys) ≡ true
IsPaired-append [] [] ys h k = k
IsPaired-append (i ∷ is) [] ys h k = absurd (ground (arith, h))
IsPaired-append [] (m ∷ xs) ys h k = elim (Option-cases (awaited_after [] m)) [
  | inl e ↦ absurd (ground (arith, rw (e, is_paired_from) at h))
  | inr (later, e) ↦
      rw (e, is_paired_from) (IsPaired-append later xs ys (rw (e, is_paired_from) at h) k)
]
IsPaired-append (i ∷ is) (m ∷ xs) ys h k = elim (Option-cases (awaited_after (i ∷ is) m)) [
  | inl e ↦ absurd (ground (arith, rw (e, is_paired_from) at h))
  | inr (later, e) ↦
      rw (e, is_paired_from) (IsPaired-append later xs ys (rw (e, is_paired_from) at h) k)
]

module _ (a : Agent) where
  call_tools-answer :
      (ts : List ToolCall)
      → (call_tools a ts).ended ≡ true
      → is_paired_from (ids ts) (call_tools a ts).messages ≡ true
  unfolding call_tools
  call_tools-answer [] h = refl
  call_tools-answer (t ∷ ts) h = elim (Option-cases (call_tool a t)) [
    | inl e ↦ absurd (ground (arith, rw (e, call_tools) at h))
    | inr (r, e) ↦
        rw (e, call_tools)
          (rw ((eq_iff t.id t.id).1 refl, is_paired_from)
            (call_tools-answer ts (rw (e, call_tools) at h)))
  ]

  abbrev Keeps : Run → Type 0
  Keeps r = r.ended ≡ true → IsPaired r.messages

  final_call-Keeps : (i : ℕ) (ms : List ChatMessage) → IsPaired ms → Keeps (final_call a i ms)
  unfolding final_call
  final_call-Keeps i ms p =
      let answer = a.chat i (trimmed a (ms ++ summary_request a ∷ [])).messages false in
      if_elim Keeps answer.complete (λ _ _. IsPaired-append [] ms (summary_request a ∷ []) p refl)
        (λ _ e. absurd (ground (arith, e)))

  after_answer-Keeps :
      (ms : List ChatMessage) (found : List Text) (answer : Answer)
      (again : List ChatMessage → List Text → Run)
      → ((ms' : List ChatMessage) (found' : List Text) → IsPaired ms' → Keeps (again ms' found'))
      → IsPaired ms
      → Keeps (after_answer a ms found answer again)
  unfolding after_answer
  after_answer-Keeps ms found answer again h p =
      let calls = calls_after [] answer.events in
      let batch = call_tools a calls in
      let asked = assistant_message (content_of answer.events) calls in
      let all_messages = ms ++ asked ∷ batch.messages in
      if_elim Keeps (not answer.complete) (λ _ _. p)
        (λ _.
          if_elim Keeps (is_blank calls) (λ _ _. p)
            (λ _.
              if_elim Keeps (not batch.ended) (λ _ e. absurd (ground (arith, e)))
                (λ ended. h all_messages (found ++ batch.found) (
                  IsPaired-append [] ms (asked ∷ batch.messages) p
                    (call_tools-answer calls (ground (arith, ended)))))))

  iterate-Keeps :
      (i left : ℕ) (ms : List ChatMessage) (found : List Text)
      → IsPaired ms
      → Keeps (iterate a i left ms found)
  unfolding iterate
  iterate-Keeps i zero ms found p = final_call-Keeps i ms p
  iterate-Keeps i (suc left) ms found p =
      if_elim Keeps (ltb a.max_total_time (a.elapsed i)) (λ _ _. p)
        (λ _.
          after_answer-Keeps ms found (a.chat i (trimmed a ms).messages (not (left == 0)))
            (iterate a (i + 1) left) (λ ms' found'. iterate-Keeps (i + 1) left ms' found') p)

-- A run of the agent that comes to its end leaves messages in which each tool call of the model is
-- answered by one result, in order and directly after the message with the calls, if the messages that
-- it started from are so, whichever calls the model made and whether the tools were run, failed or had
-- their arguments refused.
pub run_agent-IsPaired :
    (a : Agent) (messages : List ChatMessage)
    → IsPaired messages
    → (run_agent a messages).ended ≡ true
    → IsPaired (run_agent a messages).messages
unfolding run_agent llm_classify
run_agent-IsPaired a messages p =
    let kept = iterate-Keeps a 0 a.max_loop_iterations messages [] p in
    if_elim (λ (r : Run). r.ended ≡ true → IsPaired r.messages)
      (llm_classify a.matches_rule a.classified).1 (λ _. kept) (λ _ e. absurd (ground (arith, e)))
