-- ===== src/Breaker/Calls.antt =====
-- `_should_retry`, `_create_completion` and `_create_completion_with_fallback` of
-- backend/llm/openai_impl.py. What the model's service answers to each call is given: calls are
-- numbered from 0. The waits between the calls are not modelled.
use sql_rpa.Base.{
  ℕ, zero, suc, ◌+◌, ◌≤◌, ◌<◌, ◌≡◌, refl, String, Bool, true, false, ◌&&◌, not, List, [], ◌∷◌, ◌++◌,
  ap, subst, leb, truthy, str_eq, arith, Bool-cases, inl, inr, if◌then◌else◌,
}
use sql_rpa.Breaker.{CircuitBreaker, allow, success, failure}

-- An answer, or one of the errors that `_should_retry` names.
pub data Answer : Type 0 where
  result : ℕ → Answer
  timeout connection rate_limit server : Answer
  other_error circuit_open : Answer

abbrev pub is_result : Answer → Bool
is_result (result n) = true
is_result _ = false

unfoldable pub should_retry : Answer → Bool
should_retry timeout = true
should_retry connection = true
should_retry rate_limit = true
should_retry server = true
should_retry _ = false

-- The attempts from call number `at` on, `left` of them after the first: the answer of the last
-- one, and the number of the next call.
unfoldable pub create_completion : ℕ → ℕ → (ℕ → Answer) → Answer × ℕ
create_completion zero at answers = (answers at, suc at)
create_completion (suc left) at answers =
    let again = create_completion left (suc at) answers in
    if should_retry (answers at) then again else (answers at, suc at)

pub record Client : Type 0 where
  pub model : String
  pub max_retries : ℕ
  pub fallback_model : String
  pub failure_threshold : ℕ
  pub recovery_time : ℕ

-- The events of `record_degradation`.
pub data Degradation : Type 0 where
  circuit_opened fallback_started fallback_succeeded fallback_failed request_failed : Degradation

pub record Completion : Type 0 where
  pub breaker : CircuitBreaker
  pub answer : Answer
  pub primary_calls : ℕ
  pub fallback_calls : ℕ
  pub events : List Degradation

abbrev has_fallback : Client → Bool
has_fallback c = truthy c.fallback_model && not (str_eq c.model c.fallback_model)

-- After the primary error: the fallback model, or the error again.
after_error : Client → (ℕ → Answer) → CircuitBreaker → Answer → ℕ → List Degradation → Completion
after_error c answers b error calls events =
    if has_fallback c
    then (let (answer, end) = create_completion c.max_retries 0 (λ n. answers (calls + n)) in
        record {
          breaker = b;
          answer = answer;
          primary_calls = calls;
          fallback_calls = end;
          events =
              events
              ++ fallback_started
                ∷ (if is_result answer then fallback_succeeded else fallback_failed)
                ∷ [];
        })
    else record {
      breaker = b;
      answer = error;
      primary_calls = calls;
      fallback_calls = 0;
      events = events ++ request_failed ∷ [];
    }

after_primary : Client → ℕ → (ℕ → Answer) → CircuitBreaker → Answer → ℕ → Completion
unfolding after_error
after_primary c now answers b (result n) calls = record {
  breaker = success b;
  answer = result n;
  primary_calls = calls;
  fallback_calls = 0;
  events = [];
}
after_primary c now answers b error calls =
    let (b', opened) = failure c.failure_threshold now b in
    after_error c answers b' error calls (if opened then circuit_opened ∷ [] else [])

-- `now` is the clock at `allow`, `later` at `failure`.
pub create_completion_with_fallback : Client → ℕ → ℕ → (ℕ → Answer) → CircuitBreaker → Completion
unfolding after_primary after_error
create_completion_with_fallback c now later answers b =
    let (b', allowed) = allow c.recovery_time now b in
    let (answer, calls) = create_completion c.max_retries 0 answers in
    if allowed
    then after_primary c later answers b' answer calls
    else after_error c answers b' circuit_open 0 []

-- The attempts stop at the first answer that is no error worth a retry, or when none is left.
pub record IsLast (left at : ℕ) (answers : ℕ → Answer) (answer : Answer) (end : ℕ) : Type 0 where
  pub some_call : at < end
  pub bounded : end ≤ at + left + 1
  pub last : (n : ℕ) → suc n ≡ end → answer ≡ answers n
  pub retried : (n : ℕ) → at ≤ n → suc n < end → should_retry (answers n) ≡ true
  pub exhausted : should_retry answer ≡ true → end ≡ at + left + 1

-- For every count of retries and all answers: the completion is the answer of the last call made,
-- every call before that one failed with an error worth a retry, and if the last one did so too,
-- then all the retries are used; there is at least one call, and at most one for each retry besides.
pub create_completion-IsLast :
    (left at : ℕ) (answers : ℕ → Answer)
    → IsLast left at answers
        (create_completion left at answers).0
        (create_completion left at answers).1
unfolding create_completion
create_completion-IsLast zero at answers = record {
  some_call = omega arith;
  bounded = omega arith;
  last = λ n e. ap answers (omega arith);
  retried = λ n a b. absurd (omega arith);
  exhausted = λ h. omega arith;
}
create_completion-IsLast (suc left) at answers = elim (Bool-cases (should_retry (answers at))) [
  | inl e ↦
      let r = create_completion-IsLast left (suc at) answers in
      rw e (record {
        some_call = omega (arith, r.some_call);
        bounded = omega (arith, r.bounded);
        last = r.last;
        retried = λ n a b. retried-from n e a (λ le. r.retried n le b);
        exhausted = λ h. omega (arith, r.exhausted h);
      })
  | inr e ↦ rw e (record {
    some_call = omega arith;
    bounded = omega arith;
    last = λ n q. ap answers (omega arith);
    retried = λ n a b. absurd (omega arith);
    exhausted = λ h. absurd (ground (arith, h, e));
  })
]
  where
    retried-from :
        (n : ℕ)
        → should_retry (answers at) ≡ true
        → at ≤ n
        → (suc at ≤ n → should_retry (answers n) ≡ true)
        → should_retry (answers n) ≡ true
    retried-from n e le h = elim (Bool-cases (leb (suc at) n)) [
      | inl later ↦ h (ground (arith, later))
      | inr now ↦ subst (λ k. should_retry (answers k) ≡ true) (ground (arith, now, le)) e
    ]

after_error-bounded :
    (c : Client) (answers : ℕ → Answer) (b : CircuitBreaker) (error : Answer) (calls : ℕ)
    (events : List Degradation)
    → let r = after_error c answers b error calls events in
      (r.primary_calls ≡ calls) × (r.fallback_calls ≤ c.max_retries + 1) × (r.breaker ≡ b)
unfolding after_error
after_error-bounded c answers b error calls events = elim (Bool-cases (has_fallback c)) [
  | inl e ↦ rw e (
    refl,
    omega (arith, (create_completion-IsLast c.max_retries 0 (λ n. answers (calls + n))).bounded),
    refl,
  )
  | inr e ↦ rw e (refl, omega arith, refl)
]

-- The breaker after an answer of the primary model.
abbrev pub counted : Client → ℕ → Answer → CircuitBreaker → CircuitBreaker
counted c now answer b =
    if is_result answer then success b else (failure c.failure_threshold now b).0

after_primary-bounded :
    (c : Client) (now : ℕ) (answers : ℕ → Answer) (b : CircuitBreaker) (answer : Answer) (calls : ℕ)
    → let r = after_primary c now answers b answer calls in
      (r.primary_calls ≡ calls)
      × (r.fallback_calls ≤ c.max_retries + 1)
      × (r.breaker ≡ counted c now answer b)
unfolding after_primary
after_primary-bounded c now answers b (result n) calls = (refl, omega arith, refl)
after_primary-bounded c now answers b timeout calls =
    after_error-bounded c answers _ timeout calls _
after_primary-bounded c now answers b connection calls =
    after_error-bounded c answers _ connection calls _
after_primary-bounded c now answers b rate_limit calls =
    after_error-bounded c answers _ rate_limit calls _
after_primary-bounded c now answers b server calls = after_error-bounded c answers _ server calls _
after_primary-bounded c now answers b other_error calls =
    after_error-bounded c answers _ other_error calls _
after_primary-bounded c now answers b circuit_open calls =
    after_error-bounded c answers _ circuit_open calls _

-- For every state of the breaker: the service is called at most twice for each attempt that the
-- settings allow; if the breaker does not let the request through, the primary model is not called
-- and the breaker stays as `allow` left it; and if it does, then the breaker is reset if the primary
-- model gave a result, and counts one failure if it did not, whatever the fallback model answers.
pub fallback-calls :
    (c : Client) (now later : ℕ) (answers : ℕ → Answer) (b : CircuitBreaker)
    → let r = create_completion_with_fallback c now later answers b in
      let (b', allowed) = allow c.recovery_time now b in
      (r.primary_calls ≤ c.max_retries + 1)
      × (r.fallback_calls ≤ c.max_retries + 1)
      × ((allowed ≡ false → (r.primary_calls ≡ 0) × (r.breaker ≡ b'))
          × (allowed ≡ true
              → r.breaker ≡ counted c later (create_completion c.max_retries 0 answers).0 b'))
unfolding create_completion_with_fallback
fallback-calls c now later answers b = elim (Bool-cases (allow c.recovery_time now b).1) [
  | inl e ↦
      let (p, f, k) =
        after_primary-bounded c later answers (allow c.recovery_time now b).0
          (create_completion c.max_retries 0 answers).0
          (create_completion c.max_retries 0 answers).1 in
      rw e (
        omega (arith, p, (create_completion-IsLast c.max_retries 0 answers).bounded),
        f,
        ((λ no. absurd (ground (arith, no))), (λ _. k)),
      )
  | inr e ↦
      let (p, f, k) =
        after_error-bounded c answers (allow c.recovery_time now b).0 circuit_open 0 [] in
      rw e (omega (arith, p), f, ((λ _. (p, k)), (λ yes. absurd (ground (arith, yes)))))
]
