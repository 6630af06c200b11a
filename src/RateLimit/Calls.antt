-- ===== src/RateLimit/Calls.antt =====
-- The whole middleware: runs of calls by many clients, where Redis gives no answer.
use sql_rpa.Base.{
  ℕ, ◌≤◌, ◌≡◌, refl, String, Bool, true, false, none, List, [], ◌∷◌, ◌++◌, ◌&&◌, not, ◌⊎◌, inl, inr,
  length, arith, eq_iff, subst, sym, if◌then◌else◌,
}
use sql_rpa.RateLimit.{
  Limits, Middleware, Scope, Outcome, served, put, admit, is_exempt, call, global_check,
  sensitive_check,
}
use sql_rpa.RateLimit.Window.{Ledger, IsSound, record_call, record_call-IsSound, within}

abbrev is_served : Outcome → Bool
is_served served = true
is_served _ = false

-- A call that is counted and reaches the application.
abbrev counts : Scope → Outcome → Bool
counts sc o = not (is_exempt sc) && is_served o

-- The middleware with, for each client, the times of its counted calls that were served.
pub record Gate : Type 0 where
  pub middleware : Middleware
  pub served_at : String → List ℕ
  pub last : ℕ

module _ (c : Limits) (digest : String → String) where
  unfoldable pub gate_call : ℕ → Scope → Gate → Gate
  gate_call now sc g =
      let (m', o) = call c digest none none now sc g.middleware in
      record {
        middleware = m';
        served_at =
            if counts sc o
            then put g.served_at sc.client_ip (g.served_at sc.client_ip ++ now ∷ [])
            else g.served_at;
        last = now;
      }

  unfoldable pub gate_run : List (ℕ × Scope) → Gate → Gate
  unfolding gate_call
  gate_run [] g = g
  gate_run ((now, sc) ∷ calls) g = gate_run calls (gate_call now sc g)

  -- A call leaves the windows alone and is not counted, or it is one `admit` of its client.
  call-cases :
      (now : ℕ) (sc : Scope) (m : Middleware)
      → (((call c digest none none now sc m).0.windows ≡ m.windows)
          × (counts sc (call c digest none none now sc m).1 ≡ false))
        ⊎ (((call c digest none none now sc m).0.windows
              ≡ put m.windows sc.client_ip
                  (admit c.rate_limit c.rate_window now (m.windows sc.client_ip)).0)
            × (counts sc (call c digest none none now sc m).1
                ≡ not (admit c.rate_limit c.rate_window now (m.windows sc.client_ip)).1))
  unfolding call global_check sensitive_check
  call-cases now sc m = ground arith

  -- Every client's window is that of a sound bucket with the served times for its history.
  abbrev IsSoundGate : Gate → Type 0
  IsSoundGate g =
      (ip : String)
      → (t : ℕ) × (t ≤ g.last)
        × IsSound c.rate_limit c.rate_window
            (record { window = g.middleware.windows ip; admitted = g.served_at ip; last = t })

  abbrev IsRunAt : ℕ → List (ℕ × Scope) → Type 0
  IsRunAt last [] = Unit
  IsRunAt last ((now, sc) ∷ calls) = (last ≤ now) × IsRunAt now calls

  -- What one call does to the bucket of one client: nothing, or one recorded call.
  bucket : Gate → String → ℕ → Ledger
  bucket g ip t = record { window = g.middleware.windows ip; admitted = g.served_at ip; last = t }

  bucket-gate_call :
      (now : ℕ) (sc : Scope) (g : Gate) (ip : String) (t : ℕ)
      → (bucket (gate_call now sc g) ip t ≡ bucket g ip t)
        ⊎ (bucket (gate_call now sc g) ip now
            ≡ record_call c.rate_limit c.rate_window now (bucket g ip t))
  unfolding bucket gate_call record_call
  bucket-gate_call now sc g ip t =
      ground (arith, call-cases now sc g.middleware, eq_iff sc.client_ip ip)

  gate_call-IsSound :
      (now : ℕ) (sc : Scope) (g : Gate)
      → g.last ≤ now
      → IsSoundGate g
      → IsSoundGate (gate_call now sc g)
  unfolding bucket gate_call
  gate_call-IsSound now sc g le s ip =
      let (t, early, sound) = s ip in
      elim (bucket-gate_call now sc g ip t) [
        | inl same ↦ (t, omega arith, subst (IsSound c.rate_limit c.rate_window) (sym same) sound)
        | inr step ↦ (
          now,
          omega arith,
          subst (IsSound c.rate_limit c.rate_window) (sym step)
              (record_call-IsSound c.rate_limit c.rate_window now _ sound (omega arith)),
        )
      ]

  gate_run-IsSound :
      (calls : List (ℕ × Scope)) (g : Gate)
      → IsRunAt g.last calls
      → IsSoundGate g
      → IsSoundGate (gate_run calls g)
  unfolding gate_run
  gate_run-IsSound [] g r s = s
  gate_run-IsSound ((now, sc) ∷ calls) g (le, r) s =
      gate_run-IsSound calls (gate_call now sc g) (unfold gate_call in r)
        (gate_call-IsSound now sc g le s)

abbrev pub idle : Gate
idle = record {
  middleware = record { windows = λ _. []; sensitive_windows = λ _. [] };
  served_at = λ _. [];
  last = 0;
}

-- From empty windows, where Redis gives no answer and the times of the calls do not fall: whatever
-- calls the clients make, in every interval as long as the window, ends included, at most
-- `rate_limit` counted calls of a client are served.
pub served-le-limit :
    (c : Limits) (digest : String → String) (calls : List (ℕ × Scope)) (ip : String) (lo : ℕ)
    → IsRunAt c digest 0 calls
    → length (within lo c.rate_window ((gate_run c digest calls idle).served_at ip)) ≤ c.rate_limit
served-le-limit c digest calls ip lo r =
    ((gate_run-IsSound c digest calls idle r (λ _. (
      0,
      omega arith,
      record { same = refl; sorted = tt; past = tt; bound = λ _. omega arith },
    )))
        ip).2.bound
      lo
