-- ===== src/Breaker/Tests.antt =====
-- Runs of the circuit breaker.
use sql_rpa.Base.{ℕ, ◌==◌, if◌then◌else◌, ◌≡◌, ◌≤◌, refl, true, false, List, [], ◌∷◌, arith}
use sql_rpa.Breaker.{init, allow, failure, success}
use sql_rpa.Breaker.Calls.{
  Answer, timeout, connection, result, Client, create_completion, should_retry, IsLast,
  create_completion-IsLast, create_completion_with_fallback, counted, fallback-calls,
}
use sql_rpa.Breaker.Refinement.{
  Event, ask, succeed, fail, run, react_all, circuit, closed, run-refines,
}

abbrev events : List (ℕ × Event)
events = (5, ask) ∷ (6, fail) ∷ (7, fail) ∷ (9, ask) ∷ (30, ask) ∷ (31, succeed) ∷ (32, ask) ∷ []

answers : (run 2 20 events init).1 ≡ true ∷ false ∷ true ∷ false ∷ true ∷ false ∷ true ∷ []
unfolding run allow success failure
answers = refl

run-refines_example :
    (circuit (run 2 20 events init).0, (run 2 20 events init).1) ≡ react_all 2 20 events (closed 0)
run-refines_example = run-refines 2 20 events (omega arith)

abbrev client : Client
client = record {
  model = "m";
  max_retries = 2;
  fallback_model = "f";
  failure_threshold = 2;
  recovery_time = 20;
}

-- Two lost connections, then a result.
abbrev answers_of : ℕ → Answer
answers_of n = if n == 0 then timeout else if n == 1 then connection else result 9

completes : create_completion 2 0 answers_of ≡ (result 9, 3)
unfolding create_completion should_retry
completes = refl

create_completion-IsLast_example :
    IsLast 2 0 answers_of (create_completion 2 0 answers_of).0 (create_completion 2 0 answers_of).1
create_completion-IsLast_example = create_completion-IsLast 2 0 answers_of

fallback-calls_example :
    let r = create_completion_with_fallback client 5 6 answers_of init in
    let (b', allowed) = allow 20 5 init in
    (r.primary_calls ≤ 3)
    × (r.fallback_calls ≤ 3)
    × ((allowed ≡ false → (r.primary_calls ≡ 0) × (r.breaker ≡ b'))
        × (allowed ≡ true → r.breaker ≡ counted client 6 (create_completion 2 0 answers_of).0 b'))
fallback-calls_example = fallback-calls client 5 6 answers_of init
