-- ===== src/UseCases/Webhook/Methods.antt =====
-- The branches of `ProcessWebhookService` that are methods of their own: the life cycle of a payment
-- of a subscription, and checkouts.
use billing_core.Shared.{
  Bool, true, false, not, ◌&&◌, ◌||◌, [], ◌∷◌, Option, none, some, if◌then◌else◌, is_some,
}
use billing_core.Shared.Texts.{lit, text_eq, upper, is_truthy}
use billing_core.Shared.Actions.{Action, pure, call, cases, ◌>>=◌}
use billing_core.Domain.Enums.{PaymentStatus, payment_status_eq, one_of}
use billing_core.Domain.Payment.{Payment}
use billing_core.Domain.Payment.Methods.{mark_as_paid, mark_as_canceled, mark_as_expired}
use billing_core.Domain.Subscription.{Subscription}
use billing_core.Domain.Event.{WebhookEvent}
use billing_core.Store.Session.{Session, save}
use billing_core.Store.Repositories.{
  payments, payment_by_provider_id, payment_by_external_reference, subscription_by_provider_id,
}
use billing_core.UseCases.Reconcile.{apply_gateway_payment_status}
use billing_core.UseCases.Webhook.Payload.{EventType, Details, WebhookPayload, InternalEventType}
use billing_core.UseCases.Webhook.Steps.{Env, Answer, answer, finish, midnight, status_of, save_if}

module _ (env : Env) where
  unfoldable pub lifecycle_found :
      InternalEventType
      → WebhookEvent
      → WebhookPayload
      → Subscription
      → Payment
      → Action Session Answer
  lifecycle_found kind event payload sub payment =
      if text_eq (upper (status_of payload)) (lit "OVERDUE")
        && one_of payment.payment_status (
            PaymentStatus.paid ∷ PaymentStatus.canceled ∷ PaymentStatus.refunded
            ∷ PaymentStatus.failed ∷ [])
      then finish event none
      else (do
        (changed, payment') ←
            call
              (apply_gateway_payment_status (some (status_of payload))
                (midnight payload.details.payment_date) payload.details.net_value (env.clock 1)
                (env.clock 2))
              payment
        saved ← save_if changed payment'
        finish event (if changed then answer kind saved.id sub.id else none))

  unfoldable pub find_by_id : Details → Action Session (Option Payment)
  find_by_id details = if is_truthy details.id then payment_by_provider_id details.id else pure none

  -- `_process_subscription_lifecycle_webhook`
  unfoldable pub process_lifecycle :
      InternalEventType → WebhookEvent → WebhookPayload → Action Session Answer
  process_lifecycle kind event payload = do
    sub ← subscription_by_provider_id payload.details.subscription
    payment ← find_by_id payload.details
    cases payment (finish event none) λ p. lifecycle_found kind event payload sub p

  -- The payment of a checkout: by its id, or else by the reference.
  unfoldable pub find_checkout : Details → Action Session (Option Payment)
  find_checkout details = do
    payment ← find_by_id details
    (if not (is_some payment) && is_truthy details.external_reference
        then payment_by_external_reference details.external_reference
        else pure payment)

  -- The status that the notification of a checkout asks for.
  unfoldable pub target_status : EventType → PaymentStatus
  target_status EventType.checkout_paid = PaymentStatus.paid
  target_status EventType.checkout_canceled = PaymentStatus.canceled
  target_status _ = PaymentStatus.expired

  unfoldable pub is_terminal : PaymentStatus → Bool
  is_terminal s = one_of s (
      PaymentStatus.confirmed ∷ PaymentStatus.paid ∷ PaymentStatus.canceled ∷ PaymentStatus.expired
      ∷ PaymentStatus.refunded ∷ PaymentStatus.failed ∷ [])

  unfoldable pub mark_target : EventType → Details → Action Payment Unit
  mark_target EventType.checkout_paid details =
      mark_as_paid details.payment_date details.net_value (env.clock 1) (env.clock 2)
  mark_target EventType.checkout_canceled details = mark_as_canceled (env.clock 1)
  mark_target _ details = mark_as_expired (env.clock 1)

  abbrev is_created : EventType → Bool
  is_created EventType.checkout_created = true
  is_created _ = false

  unfoldable pub checkout_found : WebhookEvent → WebhookPayload → Payment → Action Session Answer
  checkout_found event payload payment =
      if is_created payload.event
        || payment_status_eq payment.payment_status (target_status payload.event)
        || is_terminal payment.payment_status
      then finish event none
      else (do
        (u, payment') ← call (mark_target payload.event payload.details) payment
        saved ← save payments payment'
        finish event (answer InternalEventType.payment_status_updated saved.id none))

  -- `_process_checkout_webhook`
  unfoldable pub process_checkout : WebhookEvent → WebhookPayload → Action Session Answer
  process_checkout event payload = do
    payment ← find_checkout payload.details
    cases payment (finish event none) λ p. checkout_found event payload p
