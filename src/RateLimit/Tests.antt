-- ===== src/RateLimit/Tests.antt =====
-- Runs and instances of the limiter.
use sql_rpa.Base.{ℕ, ◌≤◌, ◌≡◌, refl, String, true, List, [], ◌∷◌, length, arith}
use sql_rpa.RateLimit.{Limits, Scope, call, prune, admit, is_exempt, global_check, limits_of}
use sql_rpa.RateLimit.Window.{fresh, run, within, run-le-limit}
use sql_rpa.RateLimit.Calls.{idle, gate_run, served-le-limit}

abbrev limits : Limits
limits = record {
  rate_limit = 2;
  rate_window = 60;
  user_create_limit = 1;
  password_change_limit = 5;
}

abbrev get : String → Scope
get path = record {
  is_http = true;
  path = path;
  method = "GET";
  client_ip = "10.0.0.7";
  authorization = "";
}

abbrev calls : List (ℕ × Scope)
calls =
    (1, get "/api/chat")
    ∷ (2, get "/api/health")
    ∷ (3, get "/api/chat")
    ∷ (60, get "/api/chat")
    ∷ (62, get "/api/chat")
    ∷ []

gate_served : (gate_run limits (λ _. "") calls idle).served_at "10.0.0.7" ≡ 1 ∷ 3 ∷ 62 ∷ []
unfolding gate_run call is_exempt global_check limits_of admit prune
gate_served = refl

served-le-limit_example :
    length (within 2 60 ((gate_run limits (λ _. "") calls idle).served_at "10.0.0.7")) ≤ 2
served-le-limit_example = served-le-limit limits (λ _. "") calls "10.0.0.7" 2 (omega arith)

run-le-limit_example : length (within 0 10 (run 2 10 (1 ∷ 1 ∷ 5 ∷ 12 ∷ []) fresh).admitted) ≤ 2
run-le-limit_example = run-le-limit 2 10 0 (1 ∷ 1 ∷ 5 ∷ 12 ∷ []) (omega arith)
