-- ===== src/Gateways/MercadoPago/Notifications/Named.antt =====
-- What identifies the payload of a notification of MercadoPago.
use billing_core.Shared.{
  ◌≡◌, ◌++◌, refl, Bool, true, false, [], ◌∷◌, Option, none, some, is_some, arith,
}
use billing_core.Shared.Texts.{Text, lit, lower, is_truthy, or_empty}
use billing_core.Shared.Actions.{ok}
use billing_core.Domain.Enums.{GatewayProvider, provider_value}
use billing_core.UseCases.Webhook.Payload.{
  EventType, Details, WebhookPayload, joined, event_value, event_id_for, text_or_default, text_or,
  remove_prefix,
}
use billing_core.Gateways.MercadoPago.{Api, RemotePayment, Invoice, Preapproval, Notification}
use billing_core.Gateways.MercadoPago.Notifications.{checkout_reference_prefix}

-- The payload names its payment and its subscription, and its event has an identifier, which is made
-- of the gateway, the event, what was reported and the subscription.
pub record Names (w : WebhookPayload) (source id : Text) (subscription : Option Text) : Type 0 where
  pub reported : w.source_event_id ≡ some source
  pub named : w.details.id ≡ some id
  pub linked : w.details.subscription ≡ subscription
  pub key :
      event_id_for w GatewayProvider.mercadopago
      ≡ ok (
          lit "mercadopago:"
          ++ (event_value w.event
              ++ (lit ":"
                  ++ (source
                      ++ (lit ":" ++ text_or_default subscription (lit "no-subscription"))))))

pub made :
    (event : EventType) (source id : Text) (d : Details)
    → is_truthy (some source) ≡ true
    → d.id ≡ some id
    → Names
        (record { event = event; source_event_id = some source; details = d })
        source
        id
        d.subscription
unfolding event_id_for joined lit provider_value
made event [] id d t n = ground arith
made event (c ∷ s) id d t n = record { reported = refl; named = n; linked = refl; key = refl }

abbrev pub topic : Notification → Text
topic n = or_empty (text_or n.type_name n.topic)

-- The status that MercadoPago gives a payment, in small letters.
abbrev pub status_of : RemotePayment → Text
status_of p = lower (or_empty p.status)

abbrev pub of_checkout : RemotePayment → Bool
of_checkout p = is_some (remove_prefix checkout_reference_prefix (or_empty p.external_reference))

module _ (api : Api) (n : Notification) where
  -- The payload is one of the resource that the notification points at, under the identifiers that
  -- MercadoPago gives.
  pub data IsIdentified (w : WebhookPayload) : Type 0 where
    of_order :
        {p : RemotePayment} {i : Text}
        → topic n ≡ lit "payment"
        → api.get_payment (or_empty n.data_id) ≡ ok p
        → p.id ≡ some i
        → of_checkout p ≡ true
        → Names w (lit "payment:" ++ (i ++ (lit ":" ++ status_of p))) i none
        → IsIdentified w
    of_charge :
        {p : RemotePayment} {i : Text}
        → topic n ≡ lit "payment"
        → api.get_payment (or_empty n.data_id) ≡ ok p
        → p.id ≡ some i
        → of_checkout p ≡ false
        → is_truthy p.subscription_id ≡ true
        → Names w (lit "payment:" ++ (i ++ (lit ":" ++ status_of p))) i p.subscription_id
        → IsIdentified w
    of_invoice :
        {v : Invoice} {p : RemotePayment} {j i : Text}
        → topic n ≡ lit "subscription_authorized_payment"
        → api.get_invoice (or_empty n.data_id) ≡ ok v
        → v.id ≡ some j
        → is_truthy v.payment_id ≡ true
        → api.get_payment (or_empty v.payment_id) ≡ ok p
        → p.id ≡ some i
        → Names w (lit "authorized_payment:" ++ (j ++ (lit ":" ++ status_of p))) i v.preapproval_id
        → IsIdentified w
    of_preapproval :
        {a : Preapproval} {i : Text}
        → topic n ≡ lit "subscription_preapproval"
        → api.get_preapproval (or_empty n.data_id) ≡ ok a
        → a.id ≡ some i
        → lower (or_empty a.status) ≡ lit "cancelled"
        → Names w (lit "preapproval:" ++ (i ++ lit ":cancelled")) i (some i)
        → IsIdentified w
