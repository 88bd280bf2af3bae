-- ===== src/Workers/Deliveries.antt =====
-- `_build_internal_delivery`, `_build_payment_internal_delivery` and `_persist_internal_delivery` of
-- app/workers/tasks.py, with the two payloads of app/application/dtos/response/webhook.py.
use billing_core.Shared.{ℕ, not, ◌∷◌, ◌++◌, Option, none, some, is_some, if◌then◌else◌}
use billing_core.Shared.Int.{ℤ}
use billing_core.Shared.Texts.{Text, lit, is_truthy}
use billing_core.Shared.Json.{Json}
use billing_core.Shared.Actions.{
  domain, value_error, Result, ok, err, Action, pure, raise, lift, cases, ◌>>=◌, ◌>>◌,
}
use billing_core.Domain.Enums.{PaymentStatus, payment_status_value}
use billing_core.Domain.Calendar.{Datetime}
use billing_core.Domain.Payment.{Payment}
use billing_core.Domain.Subscription.{Subscription}
use billing_core.Domain.Delivery.{Delivery, new_delivery}
use billing_core.Store.Session.{Session, commit, save}
use billing_core.Store.Repositories.{
  deliveries, payment_by_id, subscription_by_id, delivery_by_dedupe_key,
}
use billing_core.UseCases.Webhook.Payload.{InternalEventType, ProcessWebhookResponse}
use billing_core.UseCases.Webhook.Steps.{Answer, midnight}

-- `InternalEventType.value`
unfoldable pub internal_event_value : InternalEventType → Text
internal_event_value InternalEventType.payment_received = lit "PAYMENT_RECEIVED"
internal_event_value InternalEventType.payment_overdue = lit "PAYMENT_OVERDUE"
internal_event_value InternalEventType.payment_refunded = lit "PAYMENT_REFUNDED"
internal_event_value InternalEventType.payment_chargeback_requested =
    lit "PAYMENT_CHARGEBACK_REQUESTED"
internal_event_value InternalEventType.payment_status_updated = lit "PAYMENT_STATUS_UPDATED"
internal_event_value InternalEventType.subscription_inactivated = lit "SUBSCRIPTION_INACTIVATED"

-- A date is the midnight at which it begins.
pub record SendInternalWebhookSubscription : Type 0 where
  pub event : InternalEventType
  pub subscription_id : ℕ
  pub system_sub_id : Text
  pub subscription_expires_at : Option Datetime
  pub payment_date : Option Datetime

pub record SendInternalWebhookPayment : Type 0 where
  pub event : InternalEventType
  pub payment_id : ℕ
  pub system_payment_id : Text
  pub payment_status : PaymentStatus
  pub value : ℤ
  pub paid_date : Option Datetime
  pub checkout_url : Option Text

-- The texts of an identifier and of a datetime, pydantic's dumps of the payloads, and the time.
pub record DeliveryEnv : Type 0 where
  pub uuid_text : ℕ → Text
  pub isoformat : Datetime → Text
  pub dump_subscription : SendInternalWebhookSubscription → Json
  pub dump_payment : SendInternalWebhookPayment → Json
  pub now : Datetime

abbrev pub by_colon : Text → Text → Text
by_colon s t = s ++ (b':' ∷ t)

-- The date that goes with a payment that was received.
unfoldable pub payment_date_of : ProcessWebhookResponse → Action Session (Option Datetime)
payment_date_of result = elim result.event [
  | InternalEventType.payment_received ↦
      cases result.payment_id
        (raise (domain "Evento interno de pagamento recebido sem payment_id."))
        λ payment_id. do
          payment ← payment_by_id payment_id
          lift (elim payment.paid_date [
            | none ↦
                err (domain "Pagamento confirmado sem paid_date para envio de webhook interno.")
            | some t ↦ ok (midnight (some t))
          ])
  | _ ↦ pure none
]

-- The delivery is saved and committed if its key is not there. The id is what is to be sent.
unfoldable pub persist_delivery : Option Delivery → Action Session (Option ℕ)
persist_delivery none = pure none
persist_delivery (some delivery) = do
  existing ← delivery_by_dedupe_key delivery.dedupe_key
  (if is_some existing
      then pure none
      else (do saved ← save deliveries delivery; commit; pure saved.id))

module _ (env : DeliveryEnv) where
  abbrev pub id_text : Option ℕ → Text → Text
  id_text none default = default
  id_text (some n) default = env.uuid_text n

  -- The `dedupe_key` of an event of a subscription.
  unfoldable pub subscription_dedupe_key : InternalEventType → ℕ → Option ℕ → Text
  subscription_dedupe_key event subscription_id payment_id =
      by_colon (internal_event_value event)
        (by_colon (env.uuid_text subscription_id) (id_text payment_id (lit "no-payment")))

  -- The payload and the delivery. A subscription without an identifier is no valid payload.
  unfoldable pub subscription_delivery :
      ProcessWebhookResponse → Subscription → Option Datetime → Result Delivery
  subscription_delivery result s payment_date = elim s.id [
    | none ↦ err (value_error "SendInternalWebhookSubscription")
    | some subscription_id ↦
        new_delivery (subscription_dedupe_key result.event subscription_id result.payment_id)
          (internal_event_value result.event) s.webhook_link
          (env.dump_subscription (record {
            event = result.event;
            subscription_id = subscription_id;
            system_sub_id = s.system_subscription_id;
            subscription_expires_at = midnight (some s.expires_at);
            payment_date = payment_date;
          }))
          (some subscription_id) result.payment_id env.now
  ]

  unfoldable pub delivery_for :
      ProcessWebhookResponse → Subscription → Action Session (Option Delivery)
  delivery_for result s = if not (is_truthy s.webhook_link) then pure none else (do
    payment_date ← payment_date_of result
    delivery ← lift (subscription_delivery result s payment_date)
    pure (some delivery))

  -- `_build_internal_delivery`
  unfoldable pub build_internal_delivery : Answer → Action Session (Option Delivery)
  build_internal_delivery none = pure none
  build_internal_delivery (some result) =
      cases result.subscription_id (pure none)
        λ subscription_id. do s ← subscription_by_id subscription_id; delivery_for result s

  -- The `dedupe_key` of a status of a payment.
  unfoldable pub payment_dedupe_key : ℕ → PaymentStatus → Datetime → Text
  payment_dedupe_key payment_id status updated_at = by_colon (lit "payment") (
      by_colon (env.uuid_text payment_id)
        (by_colon (payment_status_value status) (env.isoformat updated_at)))

  -- `_build_payment_internal_delivery`
  unfoldable pub build_payment_internal_delivery : Payment → Result (Option Delivery)
  build_payment_internal_delivery p =
      if not (is_truthy p.webhook_link) then ok none else (elim p.id [
        | none ↦ err (value_error "SendInternalWebhookPayment")
        | some payment_id ↦
            elim (new_delivery (payment_dedupe_key payment_id p.payment_status p.updated_at)
              (internal_event_value InternalEventType.payment_status_updated) p.webhook_link
              (env.dump_payment (record {
                event = InternalEventType.payment_status_updated;
                payment_id = payment_id;
                system_payment_id = p.system_payment_id;
                payment_status = p.payment_status;
                value = p.value;
                paid_date = midnight p.paid_date;
                checkout_url = p.checkout_link;
              }))
              none (some payment_id) env.now) [ err e ↦ err e | ok d ↦ ok (some d) ]
      ])

  -- `_persist_internal_delivery`
  unfoldable pub persist_internal_delivery : Answer → Action Session (Option ℕ)
  persist_internal_delivery result = do
    delivery ← build_internal_delivery result
    persist_delivery delivery
