-- ===== src/Breaker.antt =====
-- backend/llm/resilience.py: the circuit breaker of the language-model client. The lock makes each
-- method one atomic step. Times are clock ticks; as in the source, `opened_at` is 0 while closed.
pub mod Refinement
pub mod Calls
mod Tests
use sql_rpa.Base.{ℕ, ◌+◌, Bool, true, false, ◌==◌, leb, if◌then◌else◌}

pub record CircuitBreaker : Type 0 where
  pub failures : ℕ
  pub opened_at : ℕ

abbrev pub init : CircuitBreaker
init = record { failures = 0; opened_at = 0 }

pub allow : ℕ → ℕ → CircuitBreaker → CircuitBreaker × Bool
allow recovery now b =
    if b.opened_at == 0
    then (b, true)
    else if leb (b.opened_at + recovery) now
    then (record { opened_at = 0; failures = 0 }, true)
    else (b, false)

pub success : CircuitBreaker → CircuitBreaker
success b = record b { failures = 0; opened_at = 0 }

-- `newly_opened = not self.opened_at; self.opened_at = self.opened_at or time.monotonic()`
pub failure : ℕ → ℕ → CircuitBreaker → CircuitBreaker × Bool
failure threshold now b =
    let failures = b.failures + 1 in
    if leb threshold failures
    then (
      record { failures = failures; opened_at = if b.opened_at == 0 then now else b.opened_at },
      b.opened_at == 0,
    )
    else (record b { failures = failures }, false)
