-- ===== src/Gateways/MercadoPago/Notifications.antt =====
-- The payloads of notifications, of app/infra/interfaces/mercadopago_mappers.py, and
-- `resolve_webhook` of app/infra/interfaces/mercadopago_provider.py.
pub mod Named
pub mod Given
pub mod Identified
use billing_core.Shared.{not, Option, none, some, any, is_some, ◌==◌, if◌then◌else◌}
use billing_core.Shared.Texts.{Text, lit, text_eq, is_truthy, or_empty}
use billing_core.Shared.Actions.{value_error, Result, ok, err}
use billing_core.Domain.Calendar.{Datetime}
use billing_core.UseCases.Webhook.Payload.{
  EventType, Details, WebhookPayload, joined, text_or, remove_prefix,
}
use billing_core.Workers.Reconciliation.Payload.{and_then}
use billing_core.Gateways.MercadoPago.{
  RemotePayment, Invoice, Preapproval, Notification, Api, normalized, payment_status_to_gateway,
  billing_type_from_payment, with_offset, required,
}

abbrev pub checkout_reference_prefix : Text
checkout_reference_prefix = lit "checkout:"

-- `_REVERSAL_EVENTS`
unfoldable pub reversal_event : Text → Option EventType
reversal_event status =
    if text_eq status (lit "refunded")
    then some EventType.payment_refunded
    else if text_eq status (lit "charged_back")
    then some EventType.payment_chargeback_requested
    else none

-- The event of a payment of an invoice.
unfoldable pub invoice_event : Text → Option EventType
invoice_event status =
    if text_eq status (lit "approved")
    then some EventType.payment_received
    else reversal_event status

unfoldable pub preapproval_notification_to_webhook : Preapproval → Result (Option WebhookPayload)
preapproval_notification_to_webhook preapproval =
    if not (text_eq (normalized preapproval.status) (lit "cancelled"))
    then ok none
    else and_then (required preapproval.id) λ id. ok (
        some (record {
          event = EventType.subscription_inactivated;
          source_event_id = some (joined (lit "preapproval") (joined id (lit "cancelled")));
          details = record {
            id = some id;
            subscription = some id;
            status = some (lit "CANCELED");
            value = none;
            net_value = none;
            payment_date = none;
            external_reference = none;
            billing_type = none;
          };
        }))

module _ (api : Api) where
  -- `Details.normalize_payment_date`: a datetime without an offset becomes one of UTC.
  unfoldable pub normalize_payment_date : Option Text → Result (Option Datetime)
  normalize_payment_date none = ok none
  normalize_payment_date (some value) =
      let text = with_offset value in
      and_then
        (if any (λ c. c == b'T') text
          then and_then (api.datetime_of text) (λ m. ok m.at)
          else api.date_of text)
        λ t. ok (some t)

  -- `_payment_details`, as `Details` reads it.
  unfoldable pub payment_details : RemotePayment → Option Text → Text → Result Details
  payment_details payment subscription status = and_then (required payment.id) λ id.
      and_then (normalize_payment_date payment.date_approved) λ payment_date. ok (record {
        id = some id;
        subscription = subscription;
        status = some status;
        value = payment.transaction_amount;
        net_value = payment.net_received_amount;
        payment_date = payment_date;
        external_reference = payment.external_reference;
        billing_type = some (billing_type_from_payment payment);
      })

  -- `WebhookPayload.model_validate`
  unfoldable pub payload_of :
      EventType → Text → RemotePayment → Option Text → Text → Result (Option WebhookPayload)
  payload_of event source_event_id payment subscription status =
      and_then (payment_details payment subscription status) λ details.
        ok (
          some
            (record { event = event; source_event_id = some source_event_id; details = details }))

  -- The payload of a payment that was taken back.
  unfoldable pub reversal_of : Text → RemotePayment → Option Text → Result (Option WebhookPayload)
  reversal_of source_event_id payment subscription =
      elim (reversal_event (normalized payment.status)) [
        | none ↦ ok none
        | some event ↦
            payload_of event source_event_id payment subscription
              (payment_status_to_gateway (some (normalized payment.status)))
      ]

  unfoldable pub payment_notification_to_webhook : RemotePayment → Result (Option WebhookPayload)
  payment_notification_to_webhook payment = and_then (required payment.id) λ id.
      let source_event_id = joined (lit "payment") (joined id (normalized payment.status)) in
      if is_some (remove_prefix checkout_reference_prefix (or_empty payment.external_reference))
      then (if text_eq (normalized payment.status) (lit "approved")
          then payload_of EventType.checkout_paid source_event_id payment none (lit "PAID")
          else reversal_of source_event_id payment none)
      else if is_truthy payment.subscription_id
      then reversal_of source_event_id payment payment.subscription_id
      else ok none

  unfoldable pub authorized_payment_to_webhook :
      Invoice → Option RemotePayment → Result (Option WebhookPayload)
  authorized_payment_to_webhook invoice none = ok none
  authorized_payment_to_webhook invoice (some payment) =
      elim (invoice_event (normalized payment.status)) [
        | none ↦ ok none
        | some event ↦ and_then (required invoice.id) λ id.
            payload_of event
              (joined (lit "authorized_payment") (joined id (normalized payment.status))) payment
              invoice.preapproval_id (payment_status_to_gateway (some (normalized payment.status)))
      ]

  -- The payment of an invoice, if it has one.
  unfoldable pub payment_of_invoice : Invoice → Result (Option RemotePayment)
  payment_of_invoice invoice =
      if is_truthy invoice.payment_id
      then and_then (api.get_payment (or_empty invoice.payment_id)) (λ payment. ok (some payment))
      else ok none

  unfoldable pub resolve_webhook : Notification → Result (Option WebhookPayload)
  resolve_webhook n =
      let topic = or_empty (text_or n.type_name n.topic) in
      if not (is_truthy n.data_id)
      then err (value_error "Notificacao do Mercado Pago sem data.id.")
      else if text_eq topic (lit "payment")
      then and_then (api.get_payment (or_empty n.data_id)) payment_notification_to_webhook
      else if text_eq topic (lit "subscription_authorized_payment")
      then and_then (api.get_invoice (or_empty n.data_id))
          (λ invoice. and_then (payment_of_invoice invoice) (authorized_payment_to_webhook invoice))
      else if text_eq topic (lit "subscription_preapproval")
      then and_then (api.get_preapproval (or_empty n.data_id)) preapproval_notification_to_webhook
      else ok none
