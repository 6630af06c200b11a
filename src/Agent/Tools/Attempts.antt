-- ===== src/Agent/Tools/Attempts.antt =====
-- The attempts of `ToolRegistry.execute` (backend/agent/tools/__init__.py) at a tool.
use sql_rpa.Base.{
  ℕ, zero, suc, ◌+◌, ◌≤◌, ◌<◌, ◌≡◌, refl, true, false, Option, none, some, min, Option-cases,
  Bool-cases, inl, inr, arith, ap, ◌⊎◌, ◌==◌, ==_iff, sym,
}
use sql_rpa.Agent.Tools.{
  Arguments, Executed, RetryStrategy, Tool, ToolResult, attempts_from, execute_tool, exponential,
  failure, key_error, no_retries, result, unknown, validate_tool_arguments, value_error,
  with_retries,
}

module _ (run : ℕ → Option ToolResult) where
  -- The attempts from one on, up to a last one: those before the answer raised exceptions, and the
  -- answer is that of the first attempt that gave one, or the failure after the last.
  abbrev pub IsFirst : ℕ → ℕ → ToolResult → Type 0
  IsFirst first last r =
      (r.retries ≤ last)
      × (((k : ℕ) → first ≤ k → k < r.retries → run k ≡ none)
          × (((r ≡ failure last) × (run last ≡ none))
              ⊎ ((given : ToolResult) × ((run r.retries ≡ some given)
                    × (r ≡ with_retries r.retries given)))))

  abbrev given_at :
      (attempt last : ℕ) (r : ToolResult)
      → attempt ≤ last
      → run attempt ≡ some r
      → IsFirst attempt last (with_retries attempt r)
  given_at attempt last r h e = (h, (λ k g l. absurd (omega (arith, g, l)), inr (r, (e, refl))))

  raised_at :
      (attempt last : ℕ) (r : ToolResult)
      → run attempt ≡ none
      → IsFirst (attempt + 1) last r
      → IsFirst attempt last r
  raised_at attempt last r e (bounded, (raised, answer)) = (
    bounded,
    (
      λ k g l. elim (Bool-cases (k == attempt)) [
        | inl same ↦ rw ((==_iff k attempt).0 same) e
        | inr other ↦ raised k (ground (arith, other, g)) l
      ],
      answer,
    ),
  )

  raised_last :
      (attempt last : ℕ)
      → attempt ≡ last
      → run attempt ≡ none
      → IsFirst attempt last (failure attempt)
  raised_last attempt last h e =
      (omega arith, (λ k g l. absurd (omega (arith, g, l)), inl (ap failure h, rw (sym h) e)))

  attempts_from-IsFirst :
      (attempt left last : ℕ)
      → attempt + left ≡ last
      → IsFirst attempt last (attempts_from run attempt left)
  unfolding attempts_from
  attempts_from-IsFirst attempt zero last h = elim (Option-cases (run attempt)) [
    | inl e ↦ rw (e, attempts_from) (raised_last attempt last (omega arith) e)
    | inr (r, e) ↦ rw (e, attempts_from) (given_at attempt last r (omega arith) e)
  ]
  attempts_from-IsFirst attempt (suc left) last h = elim (Option-cases (run attempt)) [
    | inl e ↦
        rw (e, attempts_from)
          (raised_at attempt last (attempts_from run (attempt + 1) left) e
            (attempts_from-IsFirst (attempt + 1) left last (omega arith)))
    | inr (r, e) ↦ rw (e, attempts_from) (given_at attempt last r (omega arith) e)
  ]

-- How often a tool may be tried again: never, or as often as both the tool and the setting allow.
abbrev pub most_retries : ℕ → Tool → ℕ
most_retries max_tool_retries t = elim t.retry_strategy [
  | no_retries ↦ 0
  | exponential ↦ min t.max_retries max_tool_retries
  | unknown ↦ 0
]

module _ (max_tool_retries : ℕ) (args : Arguments) where
  abbrev pub IsAnswered : Tool → Executed → Type 0
  IsAnswered t key_error = ⊥
  IsAnswered t value_error = t.retry_strategy ≡ unknown
  IsAnswered t (result r) =
      ((validate_tool_arguments t.schema args ≡ false) × (r ≡ failure 0))
      ⊎ ((validate_tool_arguments t.schema args ≡ true)
          × IsFirst (t.execute args) 0 (most_retries max_tool_retries t) r)

  answered :
      (t : Tool) (s : RetryStrategy)
      → t.retry_strategy ≡ s
      → validate_tool_arguments t.schema args ≡ true
      → IsAnswered t (execute_tool max_tool_retries t args)
  unfolding execute_tool
  answered t no_retries e v =
      rw (v, e, execute_tool) (inr (v, attempts_from-IsFirst (t.execute args) 0 0 0 refl))
  answered t exponential e v =
      let last = min t.max_retries max_tool_retries in
      rw (v, e, execute_tool)
        (inr (v, attempts_from-IsFirst (t.execute args) 0 last last (omega arith)))
  answered t unknown e v = rw (v, e, execute_tool) refl

  -- What the registry answers for a tool that it has, whatever the tool's attempts give. With arguments
  -- that do not validate it is a failure without retries. Otherwise there are at most `most_retries`
  -- attempts after the first: the answer is that of the first attempt that raised no exception, with
  -- its number, or the failure after the last one, when all of them raised one. Only an unknown
  -- strategy is an error of the registry's own.
  pub execute_tool-IsAnswered : (t : Tool) → IsAnswered t (execute_tool max_tool_retries t args)
  unfolding execute_tool
  execute_tool-IsAnswered t = elim (Bool-cases (validate_tool_arguments t.schema args)) [
    | inl v ↦ answered t t.retry_strategy refl v
    | inr v ↦ rw (v, execute_tool) (inl (v, refl))
  ]
