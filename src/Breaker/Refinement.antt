-- ===== src/Breaker/Refinement.antt =====
-- The breaker against a circuit that is closed, with a count of failures, or open since a time.
use sql_rpa.Base.{
  ℕ, ◌+◌, ◌<◌, ◌≤◌, ◌≡◌, refl, Bool, true, false, List, [], ◌∷◌, ◌==◌, leb, arith, if◌then◌else◌,
}
use sql_rpa.Breaker.{CircuitBreaker, init, allow, success, failure}

pub data Circuit : Type 0 where
  closed : ℕ → Circuit
  open_since : ℕ → Circuit

pub data Event : Type 0 where
  ask succeed fail : Event

-- What a circuit does at an event, and what the method returns (`success` returns nothing).
abbrev pub react : ℕ → ℕ → ℕ → Event → Circuit → Circuit × Bool
react threshold recovery now ask (closed n) = (closed n, true)
react threshold recovery now ask (open_since t) =
    if leb (t + recovery) now then (closed 0, true) else (open_since t, false)
react threshold recovery now succeed k = (closed 0, false)
react threshold recovery now fail (closed n) =
    if leb threshold (n + 1) then (open_since now, true) else (closed (n + 1), false)
react threshold recovery now fail (open_since t) = (open_since t, false)

abbrev pub circuit : CircuitBreaker → Circuit
circuit b = if b.opened_at == 0 then closed b.failures else open_since b.opened_at

abbrev pub step : ℕ → ℕ → ℕ → Event → CircuitBreaker → CircuitBreaker × Bool
step threshold recovery now ask b = allow recovery now b
step threshold recovery now succeed b = (success b, false)
step threshold recovery now fail b = failure threshold now b

-- While it is open the breaker has counted at least `threshold` failures.
pub record IsValid (threshold : ℕ) (b : CircuitBreaker) : Type 0 where
  pub counted : 0 < b.opened_at → threshold ≤ b.failures

step-IsValid :
    (threshold recovery now : ℕ) (e : Event) (b : CircuitBreaker)
    → IsValid threshold b
    → IsValid threshold (step threshold recovery now e b).0
unfolding allow success failure
step-IsValid threshold recovery now ask b v = record { counted = λ h. ground (arith, v.counted) }
step-IsValid threshold recovery now succeed b v = record { counted = λ h. ground arith }
step-IsValid threshold recovery now fail b v = record { counted = λ h. ground (arith, v.counted) }

step-react :
    (threshold recovery now : ℕ) (e : Event) (b : CircuitBreaker)
    → 0 < now
    → IsValid threshold b
    → (circuit (step threshold recovery now e b).0, (step threshold recovery now e b).1)
      ≡ react threshold recovery now e (circuit b)
unfolding allow success failure
step-react threshold recovery now ask b pos v = ground (arith, v.counted)
step-react threshold recovery now succeed b pos v = ground (arith, v.counted)
step-react threshold recovery now fail b pos v = ground (arith, v.counted)

-- A run: the events with their times, and what the methods returned.
unfoldable pub run : ℕ → ℕ → List (ℕ × Event) → CircuitBreaker → CircuitBreaker × List Bool
run threshold recovery [] b = (b, [])
run threshold recovery ((now, e) ∷ es) b =
    let (b', answer) = step threshold recovery now e b in
    let (last, answers) = run threshold recovery es b' in (last, answer ∷ answers)

pub react_all : ℕ → ℕ → List (ℕ × Event) → Circuit → Circuit × List Bool
react_all threshold recovery [] k = (k, [])
react_all threshold recovery ((now, e) ∷ es) k =
    let (k', answer) = react threshold recovery now e k in
    let (last, answers) = react_all threshold recovery es k' in (last, answer ∷ answers)

abbrev pub HasTimes : List (ℕ × Event) → Type 0
HasTimes [] = Unit
HasTimes ((now, e) ∷ es) = (0 < now) × HasTimes es

run-react_all :
    (threshold recovery : ℕ) (es : List (ℕ × Event)) (b : CircuitBreaker)
    → HasTimes es
    → IsValid threshold b
    → (circuit (run threshold recovery es b).0, (run threshold recovery es b).1)
      ≡ react_all threshold recovery es (circuit b)
unfolding run react_all
run-react_all threshold recovery [] b t v = refl
run-react_all threshold recovery ((now, e) ∷ es) b (pos, t) v = ground (
  arith,
  step-react threshold recovery now e b pos v,
  run-react_all threshold recovery es (step threshold recovery now e b).0 t
      (step-IsValid threshold recovery now e b v),
)

-- Over any run of `allow`, `success` and `failure` at positive times, from a new breaker, the
-- breaker gives the answers of the circuit and ends in its state.
pub run-refines :
    (threshold recovery : ℕ) (es : List (ℕ × Event))
    → HasTimes es
    → (circuit (run threshold recovery es init).0, (run threshold recovery es init).1)
      ≡ react_all threshold recovery es (closed 0)
run-refines threshold recovery es t =
    run-react_all threshold recovery es init t (record { counted = λ h. absurd (omega arith) })
