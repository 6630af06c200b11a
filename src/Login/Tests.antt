-- ===== src/Login/Tests.antt =====
-- Runs of the login lock.
use sql_rpa.Base.{ℕ, ◌≡◌, refl, some, List, [], ◌∷◌, leb, length, arith, if◌then◌else◌, false}
use sql_rpa.Login.{
  local_lock_remaining, local_record_failure, local_reset, prune_login_failures,
  login_lock_remaining, unavailable, recent, remaining,
}
use sql_rpa.Login.History.{
  Event, checks, fails, resets, step, run, history, no_failures, lock-history,
}

abbrev events : List (ℕ × Event)
events =
    (1, fails "ann")
    ∷ (10, fails "bob")
    ∷ (20, checks "ann" 5)
    ∷ (30, fails "ann")
    ∷ (40, resets "bob")
    ∷ (50, fails "ann")
    ∷ []

ann_is_free : (local_lock_remaining 302 "ann" 3 (run events no_failures)).1 ≡ 0
unfolding local_lock_remaining local_record_failure prune_login_failures run step local_reset
ann_is_free = refl

ann_is_locked :
    (login_lock_remaining false unavailable 60 "ann" (run events no_failures)).1 ≡ some 241
unfolding local_lock_remaining local_record_failure prune_login_failures run step local_reset
    login_lock_remaining
ann_is_locked = refl

lock-history_example : (local_lock_remaining 302 "ann" 3 (run events no_failures)).1 ≡ (
    let h = recent 302 (history events "ann" []) in if leb 3 (length h) then remaining 302 h else 0)
lock-history_example = lock-history events 302 "ann" 3 (omega arith)
