-- ===== src/Notifications.antt =====
-- backend/notifications.py: `publish_notification` and `deliver_pending`. Times are in seconds. The
-- endpoint's answer to a delivery, with the resolution of its address, is a parameter.
pub mod Settles
mod Tests
use sql_rpa.Base.{
  ℕ, suc, ◌+◌, ◌-◌, ◌*◌, ◌^◌, String, Bool, true, false, ◌&&◌, ◌||◌, not, Option, none, some, List,
  [], ◌∷◌, ◌++◌, ◌==◌, leb, ltb, min, map, keep, find, length, str_eq, str_in, if◌then◌else◌,
}

-- `NotificationEndpoint`
pub record Endpoint : Type 0 where
  pub id : String
  pub tenant_id : String
  pub kind : String
  pub enabled : Bool

-- `NotificationPreference`
pub record Preference : Type 0 where
  pub user_id : String
  pub event_type : String
  pub channel : String
  pub enabled : Bool

pub data Status : Type 0 where
  pending retry sending sent failed : Status

-- `NotificationDelivery`
pub record Delivery : Type 0 where
  pub id : String
  pub tenant_id : String
  pub notification_id : String
  pub endpoint_id : String
  pub status : Status
  pub attempts : ℕ
  pub next_retry_at : Option ℕ
  pub claimed_at : Option ℕ

abbrev preference_for : List Preference → String → String → Option Preference
preference_for ps channel event =
    find (λ p. str_eq p.channel channel && str_eq p.event_type event) ps

-- `(exact or fallback)` is there and is not enabled.
abbrev is_muted : List Preference → String → String → Bool
is_muted ps channel event = elim (preference_for ps channel event) [
  | some exact ↦ not exact.enabled
  | none ↦ elim (preference_for ps channel "*") [
    | some fallback ↦ not fallback.enabled
    | none ↦ false
  ]
]

abbrev preferences_of : String → String → List Preference → List Preference
preferences_of user_id event ps =
    if str_eq user_id ""
    then []
    else keep (λ p. str_eq p.user_id user_id && str_in p.event_type (event ∷ "*" ∷ [])) ps

abbrev new_delivery : (String → String) → String → String → Endpoint → Delivery
new_delivery uuid tenant notification e = record {
  id = uuid e.id;
  tenant_id = tenant;
  notification_id = notification;
  endpoint_id = e.id;
  status = pending;
  attempts = 0;
  next_retry_at = none;
  claimed_at = none;
}

-- The deliveries that `publish_notification` adds, for the notification with an id; `uuid` gives the
-- fresh ids, and a user who is absent is "".
pub publish_notification :
    (String → String)
    → String
    → String
    → String
    → String
    → List Preference
    → List Endpoint
    → List Delivery
publish_notification uuid notification event user_id tenant preferences endpoints =
    map (new_delivery uuid tenant notification) (
      keep (λ e. not (is_muted (preferences_of user_id event preferences) e.kind event))
        (keep (λ e. str_eq e.tenant_id tenant && e.enabled) endpoints))

abbrev is_sending : Status → Bool
is_sending sending = true
is_sending _ = false

abbrev pub is_waiting : Status → Bool
is_waiting pending = true
is_waiting retry = true
is_waiting _ = false

-- A claim of more than five minutes ago is given up.
pub recover : ℕ → Delivery → Delivery
recover now d =
    if is_sending d.status && elim d.claimed_at [ none ↦ false | some t ↦ ltb (t + 300) now ]
    then record d { status = retry; claimed_at = none; next_retry_at = some now }
    else d

abbrev pub is_due : ℕ → Delivery → Bool
is_due now d = is_waiting d.status && elim d.next_retry_at [ none ↦ true | some t ↦ leb t now ]

-- The claims of at most `limit` deliveries; the Boolean says that a row's id is in `claimed_ids`.
abbrev pub mark : ℕ → Bool → Delivery → Delivery × Bool
mark now claimed d =
    if claimed then (record d { status = sending; claimed_at = some now }, true) else (d, false)

pub claim : ℕ → ℕ → List Delivery → List (Delivery × Bool)
claim now limit [] = []
claim now limit (d ∷ ds) =
    let claimed = is_due now d && ltb 0 limit in
    mark now claimed d ∷ claim now (if claimed then limit - 1 else limit) ds

-- A delivery that the endpoint took, and one that failed.
abbrev pub deliver : Delivery → Delivery
deliver d = record d { status = sent; claimed_at = none }

abbrev pub fail : ℕ → Delivery → Delivery
fail now d = record d {
  attempts = d.attempts + 1;
  status = if leb 5 (d.attempts + 1) then failed else retry;
  next_retry_at = some (now + min 3600 (2 ^ (d.attempts + 1) * 30));
  claimed_at = none;
}

-- One call of `deliver_pending`: when it is made, and what the endpoints answer.
pub record Round : Type 0 where
  pub now : ℕ
  pub post : Delivery → Bool

pub record Outcome : Type 0 where
  pub rows : List Delivery
  pub sent : ℕ
  pub failed : ℕ

module _ (notifications endpoints : List String) where
  -- The join with the notification and the endpoint.
  abbrev pub is_joined : Delivery → Bool
  is_joined d = str_in d.notification_id notifications && str_in d.endpoint_id endpoints

  pub settle : Round → Delivery × Bool → Delivery
  settle r (d, claimed) =
      if claimed && is_joined d then (if r.post d then deliver d else fail r.now d) else d

  abbrev claims : ℕ → Round → List Delivery → List (Delivery × Bool)
  claims limit r ds = claim r.now limit (map (recover r.now) ds)

  -- `deliver_pending`
  pub deliver_pending : ℕ → Round → List Delivery → Outcome
  unfolding claim recover settle
  deliver_pending limit r ds = record {
    rows = map (settle r) (claims limit r ds);
    sent = length (keep (λ (d, claimed). claimed && is_joined d && r.post d) (claims limit r ds));
    failed =
        length
          (keep (λ (d, claimed). claimed && is_joined d && not (r.post d)) (claims limit r ds));
  }
