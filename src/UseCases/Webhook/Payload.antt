-- ===== src/UseCases/Webhook/Payload.antt =====
-- app/application/dtos/request/webhook.py and the two response types of
-- app/application/dtos/response/webhook.py that the use case answers with.
use billing_core.Shared.{
  ℕ, ◌==◌, Bool, true, false, [], ◌∷◌, ◌++◌, Option, none, some, if◌then◌else◌,
}
use billing_core.Shared.Int.{ℤ}
use billing_core.Shared.Texts.{Text, lit, is_truthy, or_empty}
use billing_core.Shared.Actions.{value_error, Result, ok, err}
use billing_core.Domain.Enums.{GatewayProvider, provider_value}
use billing_core.Domain.Calendar.{Datetime}

pub data EventType : Type 0 where
  checkout_created checkout_paid checkout_canceled checkout_expired : EventType
  payment_confirmed payment_received payment_overdue payment_refunded : EventType
  payment_chargeback_requested payment_deleted : EventType
  subscription_inactivated subscription_deleted unknown : EventType

unfoldable pub event_value : EventType → Text
event_value EventType.checkout_created = lit "CHECKOUT_CREATED"
event_value EventType.checkout_paid = lit "CHECKOUT_PAID"
event_value EventType.checkout_canceled = lit "CHECKOUT_CANCELED"
event_value EventType.checkout_expired = lit "CHECKOUT_EXPIRED"
event_value EventType.payment_confirmed = lit "PAYMENT_CONFIRMED"
event_value EventType.payment_received = lit "PAYMENT_RECEIVED"
event_value EventType.payment_overdue = lit "PAYMENT_OVERDUE"
event_value EventType.payment_refunded = lit "PAYMENT_REFUNDED"
event_value EventType.payment_chargeback_requested = lit "PAYMENT_CHARGEBACK_REQUESTED"
event_value EventType.payment_deleted = lit "PAYMENT_DELETED"
event_value EventType.subscription_inactivated = lit "SUBSCRIPTION_INACTIVATED"
event_value EventType.subscription_deleted = lit "SUBSCRIPTION_DELETED"
event_value EventType.unknown = lit "__UNKNOWN__"

pub record Details : Type 0 where
  pub id : Option Text
  pub subscription : Option Text
  pub status : Option Text
  pub value : Option ℤ
  pub net_value : Option ℤ
  pub payment_date : Option Datetime
  pub external_reference : Option Text
  pub billing_type : Option Text

pub record WebhookPayload : Type 0 where
  pub event : EventType
  pub source_event_id : Option Text
  pub details : Details

pub data InternalEventType : Type 0 where
  payment_received payment_overdue payment_refunded : InternalEventType
  payment_chargeback_requested payment_status_updated : InternalEventType
  subscription_inactivated : InternalEventType

pub record ProcessWebhookResponse : Type 0 where
  pub event : InternalEventType
  pub payment_id : Option ℕ
  pub subscription_id : Option ℕ

-- `a or b`, for optional texts and a text.
abbrev pub text_or : Option Text → Option Text → Option Text
text_or a b = if is_truthy a then a else b

abbrev pub text_or_default : Option Text → Text → Text
text_or_default a d = if is_truthy a then or_empty a else d

-- The parts of a key, joined by colons.
unfoldable pub joined : Text → Text → Text
joined s t = s ++ (b':' ∷ t)

unfoldable pub event_id_for : WebhookPayload → GatewayProvider → Result Text
unfolding joined
event_id_for payload provider =
    let source = text_or payload.source_event_id payload.details.id in
    let subscription = text_or_default payload.details.subscription (lit "no-subscription") in
    if is_truthy source
    then ok (
        joined (provider_value provider)
          (joined (event_value payload.event) (joined (or_empty source) subscription)))
    else err (value_error "Webhook sem identificador tecnico suficiente para idempotencia.")

-- `str.removeprefix`
unfoldable pub remove_prefix : Text → Text → Option Text
remove_prefix [] s = some s
remove_prefix (c ∷ p) [] = none
remove_prefix (c ∷ p) (d ∷ s) = let rest = remove_prefix p s in if c == d then rest else none

-- `event.value.removeprefix("PAYMENT_")`
unfoldable pub event_suffix : EventType → Text
unfolding remove_prefix event_value lit
event_suffix e = elim (remove_prefix (lit "PAYMENT_") (event_value e)) [
  | some rest ↦ rest
  | none ↦ event_value e
]

-- `payload.event in {CHECKOUT_CREATED, …}`
unfoldable pub is_checkout_event : EventType → Bool
is_checkout_event EventType.checkout_created = true
is_checkout_event EventType.checkout_paid = true
is_checkout_event EventType.checkout_canceled = true
is_checkout_event EventType.checkout_expired = true
is_checkout_event _ = false

-- `SUBSCRIPTION_LIFECYCLE_EVENTS`
unfoldable pub lifecycle_event : EventType → Option InternalEventType
lifecycle_event EventType.payment_overdue = some InternalEventType.payment_overdue
lifecycle_event EventType.payment_refunded = some InternalEventType.payment_refunded
lifecycle_event EventType.payment_chargeback_requested =
    some InternalEventType.payment_chargeback_requested
lifecycle_event _ = none

-- The events that only a warning is logged for.
unfoldable pub is_ignored_event : EventType → Bool
is_ignored_event EventType.unknown = true
is_ignored_event EventType.payment_overdue = true
is_ignored_event EventType.payment_chargeback_requested = true
is_ignored_event EventType.payment_refunded = true
is_ignored_event _ = false
