-- ===== src/Domain/Delivery.antt =====
-- app/domain/entities/internal_webhook_delivery.py: a notification of a client system.
use billing_core.Shared.{ℕ, ◌+◌, Option, none, some, if◌then◌else◌}
use billing_core.Shared.Texts.{Text, lit, strip, is_empty, or_empty}
use billing_core.Shared.Json.{Json}
use billing_core.Shared.Actions.{domain, Result, ok, err}
use billing_core.Domain.Enums.{DeliveryStatus}
use billing_core.Domain.Calendar.{Datetime}

pub record Delivery : Type 0 where
  pub id : Option ℕ
  pub dedupe_key : Text
  pub event_type : Text
  pub target_url : Text
  pub payload : Json
  pub subscription_id : Option ℕ
  pub payment_id : Option ℕ
  pub status : DeliveryStatus
  pub attempt_count : ℕ
  pub last_error : Option Text
  pub last_attempt_at : Option Datetime
  pub delivered_at : Option Datetime
  pub created_at : Datetime
  pub updated_at : Datetime

-- `__init__`, of the fields as they are given.
unfoldable pub construct : Delivery → Result Delivery
construct d =
    let key = strip d.dedupe_key in
    let event = strip d.event_type in
    let url = strip d.target_url in
    if is_empty key
    then err (domain "InternalWebhookDelivery precisa ter dedupe_key.")
    else if is_empty event
    then err (domain "InternalWebhookDelivery precisa ter event_type.")
    else if is_empty url
    then err (domain "InternalWebhookDelivery precisa ter target_url.")
    else ok (record d { dedupe_key = key; event_type = event; target_url = url })

-- `InternalWebhookDelivery(…)` with the defaults of the arguments that the workers do not give.
unfoldable pub new_delivery :
    Text → Text → Option Text → Json → Option ℕ → Option ℕ → Datetime → Result Delivery
unfolding construct
new_delivery dedupe_key event_type target_url payload subscription_id payment_id now =
    construct (record {
      id = none;
      dedupe_key = dedupe_key;
      event_type = event_type;
      target_url = or_empty target_url;
      payload = payload;
      subscription_id = subscription_id;
      payment_id = payment_id;
      status = DeliveryStatus.pending;
      attempt_count = 0;
      last_error = none;
      last_attempt_at = none;
      delivered_at = none;
      created_at = now;
      updated_at = now;
    })

-- `(error_message or "").strip() or default`
error_or : Text → Text → Text
error_or message default = let m = strip message in if is_empty m then default else m

unfoldable pub register_attempt : Datetime → Delivery → Delivery
register_attempt now d = record d {
  attempt_count = d.attempt_count + 1;
  last_attempt_at = some now;
  updated_at = now;
}

unfoldable pub mark_retrying : Text → Datetime → Delivery → Delivery
unfolding error_or
mark_retrying error_message now d = record d {
  status = DeliveryStatus.retrying;
  last_error = some (error_or error_message (lit "Falha transitoria."));
  updated_at = now;
}

unfoldable pub mark_failed : Text → Datetime → Delivery → Delivery
unfolding error_or
mark_failed error_message now d = record d {
  status = DeliveryStatus.failed;
  last_error = some (error_or error_message (lit "Falha nao detalhada."));
  updated_at = now;
}

unfoldable pub mark_delivered : Datetime → Delivery → Delivery
mark_delivered now d = record d {
  status = DeliveryStatus.delivered;
  last_error = none;
  delivered_at = some now;
  updated_at = now;
}
