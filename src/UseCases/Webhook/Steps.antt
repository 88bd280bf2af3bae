-- ===== src/UseCases/Webhook/Steps.antt =====
-- The steps that the branches of `ProcessWebhookService.execute` share. The time is asked for at
-- fixed places of the code; `clock` gives the instant that each place gets.
use billing_core.Shared.{
  ℕ, ◌==◌, Bool, true, false, not, ◌&&◌, Option, none, some, if◌then◌else◌, is_some, or_else,
}
use billing_core.Shared.Int.{ℤ, is_zero}
use billing_core.Shared.Texts.{Text, lit, upper, is_truthy, or_empty}
use billing_core.Shared.Json.{Json}
use billing_core.Shared.Actions.{Action, pure, ◌>>=◌, ◌>>◌}
use billing_core.Domain.Enums.{PaymentStatus, PaymentType, payment_status_eq, payment_type_named}
use billing_core.Domain.Calendar.{Datetime}
use billing_core.Domain.Payment.{Payment}
use billing_core.Domain.Subscription.{Subscription}
use billing_core.Domain.Event.{WebhookEvent, mark_as_processed}
use billing_core.Store.Session.{Session, commit, save}
use billing_core.Store.Repositories.{
  payments, events, payment_by_provider_id, payment_by_external_reference,
}
use billing_core.UseCases.Webhook.Payload.{
  Details, WebhookPayload, InternalEventType, ProcessWebhookResponse, text_or_default, event_suffix,
}

-- What the use case takes from outside: the time, and pydantic's dump of the payload.
pub record Env : Type 0 where
  pub clock : ℕ → Datetime
  pub dump : WebhookPayload → Json

abbrev pub Answer : Type 0
Answer = Option ProcessWebhookResponse

abbrev pub answer : InternalEventType → Option ℕ → Option ℕ → Answer
answer e p s = some (record { event = e; payment_id = p; subscription_id = s })

-- `_mark_event_processed`
unfoldable pub mark_event_processed : WebhookEvent → Action Session Unit
mark_event_processed event = do save events (mark_as_processed event); commit

-- The event is recorded and the transaction committed; then the use case answers.
unfoldable pub finish : WebhookEvent → Answer → Action Session Answer
finish event a = do mark_event_processed event; pure a

-- `payment_date.date()`, read as a datetime by `apply_gateway_payment_status`: midnight in UTC.
unfoldable pub midnight : Option Datetime → Option Datetime
midnight none = none
midnight (some t) = some (record t { micros = 0; west = 1440 })

-- `details.status or event.value.removeprefix("PAYMENT_")`
unfoldable pub status_of : WebhookPayload → Text
status_of payload = text_or_default payload.details.status (event_suffix payload.event)

-- `a == b`, of optional ids
abbrev pub same_id : Option ℕ → Option ℕ → Bool
same_id none none = true
same_id none (some b) = false
same_id (some a) none = false
same_id (some a) (some b) = a == b

-- The payment of a standalone notification: found by its id, or else by the reference, and then
-- it takes the id.
unfoldable pub adopted : Option Text → Option Payment → Option Payment
adopted id none = none
adopted id (some p) = some (record p { provider_payment_id = or_empty id })

unfoldable pub find_standalone : Details → Action Session (Option Payment)
find_standalone details = do
  payment ← payment_by_provider_id details.id
  (if not (is_some payment) && is_truthy details.external_reference
      then (do
        found ← payment_by_external_reference details.external_reference
        pure (adopted details.id found))
      else pure payment)

unfoldable pub save_if : Bool → Payment → Action Session Payment
save_if changed payment = if changed then save payments payment else pure payment

-- `_find_subscription_payment`: the provisional payment, which has the id of the subscription.
abbrev pub is_provisional : Subscription → Payment → Bool
is_provisional sub p =
    same_id p.subscription_id sub.id && payment_status_eq p.payment_status PaymentStatus.pending

unfoldable pub taken_over : Subscription → Option Text → Option Payment → Option Payment
taken_over sub id none = none
taken_over sub id (some p) =
    if is_provisional sub p then some (record p { provider_payment_id = or_empty id }) else none

unfoldable pub find_subscription_payment :
    Subscription → Option Text → Action Session (Option Payment)
find_subscription_payment sub provider_payment_id = do
  payment ← payment_by_provider_id provider_payment_id
  (if is_some payment then pure payment else (do
    provisional ← payment_by_provider_id (some sub.gateway_subscription_id)
    pure (taken_over sub provider_payment_id provisional)))

-- `PaymentType[(billing_type or "CREDIT_CARD").upper()]`, or `CREDIT_CARD` on a `KeyError`
unfoldable pub payment_type_of : Option Text → PaymentType
payment_type_of billing_type =
    or_else (payment_type_named (upper (text_or_default billing_type (lit "CREDIT_CARD"))))
      PaymentType.credit_card

-- `value or default`, for a `Decimal`
abbrev pub value_or : Option ℤ → ℤ → ℤ
value_or none d = d
value_or (some v) d = if is_zero v then d else v

-- `f"{…}"` of an optional text
abbrev pub shown : Option Text → Text
shown none = lit "None"
shown (some s) = s
