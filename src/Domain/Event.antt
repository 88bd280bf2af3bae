-- ===== src/Domain/Event.antt =====
-- app/domain/entities/webhook_event.py: the record of a notification of a gateway.
use billing_core.Shared.{ℕ, Bool, true, false, Option, none, if◌then◌else◌}
use billing_core.Shared.Texts.{Text, strip, is_empty}
use billing_core.Shared.Json.{Json}
use billing_core.Shared.Actions.{domain, Result, ok, err}
use billing_core.Domain.Enums.{GatewayProvider}
use billing_core.Domain.Calendar.{Datetime}

pub record WebhookEvent : Type 0 where
  pub id : Option ℕ
  pub event_id : Text
  pub provider : GatewayProvider
  pub event_type : Text
  pub payload : Json
  pub processed : Bool
  pub created_at : Datetime

-- `__init__`, of the fields as they are given.
unfoldable pub construct : WebhookEvent → Result WebhookEvent
construct e =
    let id' = strip e.event_id in
    let kind = strip e.event_type in
    if is_empty id'
    then err (domain "WebhookEvent precisa ter event_id.")
    else if is_empty kind
    then err (domain "WebhookEvent precisa ter event_type.")
    else ok (record e { event_id = id'; event_type = kind })

-- `WebhookEvent(…)` with the defaults of `processed`, `created_at` and `id`.
unfoldable pub new_event : Text → GatewayProvider → Text → Json → Datetime → Result WebhookEvent
unfolding construct
new_event event_id provider event_type payload now = construct (record {
  id = none;
  event_id = event_id;
  provider = provider;
  event_type = event_type;
  payload = payload;
  processed = false;
  created_at = now;
})

-- The early return on `processed` leaves the event as it is, which has the same field.
unfoldable pub mark_as_processed : WebhookEvent → WebhookEvent
mark_as_processed e = if e.processed then e else record e { processed = true }
