-- ===== src/Gateways/MercadoPago/Examples.antt =====
-- A checkout that is over, and a notification of its payment.
use billing_core.Shared.{◌≡◌, refl, true, List, [], ◌∷◌, none, some, any}
use billing_core.Shared.Int.{pos}
use billing_core.Shared.Texts.{Text, lit, text_eq, lower, upper}
use billing_core.Shared.Actions.{ok, err, gateway_api}
use billing_core.Domain.Examples.{day}
use billing_core.Domain.Calendar.{
  instant, ordinal, days_before_year, days_before_month, days_in_month,
}
use billing_core.UseCases.Webhook.Payload.{EventType, WebhookPayload, joined, remove_prefix}
use billing_core.Workers.Reconciliation.Checkouts.{checkout_payment_status}
use billing_core.Gateways.MercadoPago.{
  Api, RemotePayment, Preference, Notification, parse_datetime, billing_type_from_payment,
}
use billing_core.Gateways.MercadoPago.Checkouts.{has_status, is_current, resolve_checkout_status}
use billing_core.Gateways.MercadoPago.Notifications.{
  normalize_payment_date, payment_details, payload_of, payment_notification_to_webhook,
  resolve_webhook,
}
use billing_core.Gateways.MercadoPago.Checkouts.Followed.{Follows, resolve_checkout_status-Follows}
use billing_core.Gateways.MercadoPago.Notifications.Named.{IsIdentified}
use billing_core.Gateways.MercadoPago.Notifications.Identified.{resolve_webhook-IsIdentified}

abbrev payment : Text → RemotePayment
payment status = record {
  id = some (lit "77");
  status = some status;
  transaction_amount = some (pos 500);
  net_received_amount = none;
  date_approved = none;
  external_reference = some (lit "checkout:NEECTIFY_FOOD:order-9");
  payment_type_id = some (lit "bank_transfer");
  subscription_id = none;
}

abbrev preference : Preference
preference = record {
  id = some (lit "chk_1");
  init_point = some (lit "/pay");
  external_reference = some (lit "checkout:NEECTIFY_FOOD:order-9");
  expires = true;
  expiration_date_to = some (lit "2026-02-01T12:00:00Z");
}

abbrev api : Api
api = record {
  get_payment = λ i. ok (payment (lit "Approved"));
  get_invoice = λ i. err (gateway_api 404 []);
  get_preapproval = λ i. err (gateway_api 404 []);
  get_preference = λ i. ok preference;
  search_payments = λ r. ok (payment (lit "rejected") ∷ []);
  datetime_of = λ t. ok (record { at = day 2 1; has_offset = true });
  date_of = λ t. ok (day 2 1);
}

abbrev rejected : List RemotePayment
rejected = payment (lit "rejected") ∷ []

expired : resolve_checkout_status api preference rejected (day 3 1) 0 ≡ ok (lit "EXPIRED")
unfolding resolve_checkout_status parse_datetime has_status is_current any lower text_eq lit instant
    ordinal days_before_year days_before_month days_in_month
expired = refl

resolve_checkout_status-Follows_example :
    Follows api preference rejected (day 3 1) 0 (checkout_payment_status (upper (lit "EXPIRED")))
resolve_checkout_status-Follows_example =
    resolve_checkout_status-Follows api preference rejected (day 3 1) 0 expired

abbrev notification : Notification
notification = record { type_name = some (lit "payment"); topic = none; data_id = some (lit "77") }

abbrev paid : WebhookPayload
paid = record {
  event = EventType.checkout_paid;
  source_event_id = some (lit "payment:77:approved");
  details = record {
    id = some (lit "77");
    subscription = none;
    status = some (lit "PAID");
    value = some (pos 500);
    net_value = none;
    payment_date = none;
    external_reference = some (lit "checkout:NEECTIFY_FOOD:order-9");
    billing_type = some (lit "PIX");
  };
}

resolved : resolve_webhook api notification ≡ ok (some paid)
unfolding resolve_webhook payment_notification_to_webhook payload_of payment_details joined
    normalize_payment_date billing_type_from_payment remove_prefix lower text_eq lit
resolved = refl

resolve_webhook-IsIdentified_example : IsIdentified api notification paid
resolve_webhook-IsIdentified_example = resolve_webhook-IsIdentified api notification resolved
