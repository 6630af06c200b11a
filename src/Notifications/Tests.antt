-- ===== src/Notifications/Tests.antt =====
-- Two deliveries: one to an endpoint that never answers, one that was claimed long ago.
use sql_rpa.Base.{ℕ, ◌≡◌, refl, true, false, none, some, List, [], ◌∷◌, arith, map}
use sql_rpa.Notifications.{
  Delivery, Endpoint, Preference, Round, claim, deliver_pending, failed, pending,
  publish_notification, recover, sending, settle,
}
use sql_rpa.Notifications.Settles.{IsSettledAt, deliver_pending-settled, run, waits}

abbrev mail : Endpoint
mail = record { id = "e1"; tenant_id = "acme"; kind = "mail"; enabled = true }

abbrev preferences : List Preference
preferences =
    record { user_id = "ann"; event_type = "*"; channel = "mail"; enabled = false }
    ∷ record { user_id = "ann"; event_type = "review.done"; channel = "mail"; enabled = true }
    ∷ []

-- The exact preference goes before the one for all events.
exact_first :
    map
      (λ d. d.endpoint_id)
      (publish_notification (λ e. e) "n1" "review.done" "ann" "acme" preferences (mail ∷ []))
    ≡ "e1" ∷ []
unfolding publish_notification
exact_first = refl

muted : publish_notification (λ e. e) "n1" "review.open" "ann" "acme" preferences (mail ∷ []) ≡ []
unfolding publish_notification
muted = refl

abbrev fresh : Delivery
fresh = record {
  id = "d1";
  tenant_id = "acme";
  notification_id = "n1";
  endpoint_id = "e1";
  status = pending;
  attempts = 0;
  next_retry_at = none;
  claimed_at = none;
}

abbrev stale : Delivery
stale = record fresh { id = "d2"; status = sending; claimed_at = some 699 }

abbrev at : ℕ → Round
at now = record { now = now; post = λ d. false }

abbrev rounds : List Round
rounds = at 4600 ∷ at 8200 ∷ at 11800 ∷ at 15400 ∷ []

given_up :
    map (λ d. d.status) (run ("n1" ∷ []) ("e1" ∷ []) 2 (at 1000 ∷ rounds) (fresh ∷ stale ∷ []))
    ≡ failed ∷ failed ∷ []
unfolding run deliver_pending claim recover settle
given_up = refl

-- A row whose endpoint is gone stands before the delivery, and one that was given up behind it.
abbrev orphan : Delivery
orphan = record fresh { id = "d0"; endpoint_id = "e9" }

deliver_pending-settled_example :
    IsSettledAt
      ("n1" ∷ [])
      ("e1" ∷ [])
      (orphan ∷ [])
      fresh
      (run ("n1" ∷ []) ("e1" ∷ []) 3 (at 1000 ∷ rounds) (orphan ∷ fresh ∷ stale ∷ []))
unfolding recover
deliver_pending-settled_example =
    deliver_pending-settled ("n1" ∷ []) ("e1" ∷ []) 3 (at 1000) rounds (orphan ∷ []) fresh
      (stale ∷ []) (omega arith) (omega arith, (omega arith, (omega arith, (omega arith, tt))))
      (omega arith) (waits refl (omega arith) (omega arith) refl)
