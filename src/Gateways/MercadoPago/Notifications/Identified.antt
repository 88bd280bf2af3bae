-- ===== src/Gateways/MercadoPago/Notifications/Identified.antt =====
-- The notifications of MercadoPago, and the identifiers of their events.
use billing_core.Shared.{
  ◌≡◌, refl, Bool, true, false, not, Option, none, some, arith, if◌then◌else◌,
}
use billing_core.Shared.Texts.{Text, lit, lower, text_eq, text_eq_iff, is_truthy, or_empty}
use billing_core.Shared.Actions.{Result, ok, err}
use billing_core.UseCases.Webhook.Payload.{EventType, Details, WebhookPayload, joined}
use billing_core.Workers.Reconciliation.Payload.{and_then}
use billing_core.Gateways.MercadoPago.{
  Api, RemotePayment, Invoice, Preapproval, Notification, required, payment_status_to_gateway,
}
use billing_core.Gateways.MercadoPago.Notifications.{
  payload_of, invoice_event, payment_notification_to_webhook, authorized_payment_to_webhook,
  preapproval_notification_to_webhook, payment_of_invoice, resolve_webhook,
}
use billing_core.Gateways.MercadoPago.Notifications.Named.{
  IsIdentified, of_order, of_charge, of_invoice, of_preapproval, made, topic, status_of,
  of_checkout,
}
use billing_core.Gateways.MercadoPago.Notifications.Given.{
  Gives, nothing_given, error_given, some_given, Gives-and_then, Gives-if, Gives-required,
  Gives-payload_of, Gives-reversal_of, renamed,
}

module _ (api : Api) (n : Notification) where
  abbrev Identifies : Result (Option WebhookPayload) → Type 0
  Identifies = Gives (IsIdentified api n)

  Identifies-payment :
      topic n ≡ lit "payment"
      → (p : RemotePayment) → api.get_payment (or_empty n.data_id) ≡ ok p
      → Identifies (payment_notification_to_webhook api p)
  unfolding payment_notification_to_webhook joined lit
  Identifies-payment k p g = Gives-required _ p.id _ λ i h.
      Gives-if _ (of_checkout p) _ _
        (λ c.
          Gives-if _ (text_eq (status_of p) (lit "approved")) _ _
            (λ a.
              Gives-payload_of api _ p _ none refl (λ j h' w m. of_order k g h c (renamed h' h m))
                EventType.checkout_paid (lit "PAID"))
            (λ a.
              Gives-reversal_of api _ p _ none refl λ j h' w m. of_order k g h c (renamed h' h m)))
        (λ c.
          Gives-if _ (is_truthy p.subscription_id) _ _
            (λ s.
              Gives-reversal_of api _ p _ p.subscription_id refl
                λ j h' w m. of_charge k g h c s (renamed h' h m))
            (λ s. nothing_given _))

  Identifies-invoice :
      topic n ≡ lit "subscription_authorized_payment"
      → (v : Invoice) → api.get_invoice (or_empty n.data_id) ≡ ok v
      → is_truthy v.payment_id ≡ true
      → (p : RemotePayment) → api.get_payment (or_empty v.payment_id) ≡ ok p
      → Identifies (authorized_payment_to_webhook api v (some p))
  unfolding authorized_payment_to_webhook joined lit
  Identifies-invoice k v g t p f = go (invoice_event (status_of p))
    where
      go :
          (o : Option EventType)
          → Identifies (elim o [
            | none ↦ ok none
            | some event ↦ and_then (required v.id) λ id.
                payload_of api event
                  (joined (lit "authorized_payment") (joined id (status_of p)))
                  p
                  v.preapproval_id
                  (payment_status_to_gateway (some (status_of p)))
          ])
      go none = nothing_given _
      go (some event) = Gives-required _ v.id _ λ j hj.
          Gives-payload_of api _ p _ v.preapproval_id refl (λ i h w m. of_invoice k g hj t f h m)
            event _

  cancelled_of :
      (a : Preapproval)
      → not (text_eq (lower (or_empty a.status)) (lit "cancelled")) ≡ false
      → lower (or_empty a.status) ≡ lit "cancelled"
  cancelled_of a h =
      (text_eq_iff (lower (or_empty a.status)) (lit "cancelled")).0 (ground (arith, h))

  abbrev cancelled_details : Text → Details
  cancelled_details i = record {
    id = some i;
    subscription = some i;
    status = some (lit "CANCELED");
    value = none;
    net_value = none;
    payment_date = none;
    external_reference = none;
    billing_type = none;
  }

  Identifies-preapproval :
      topic n ≡ lit "subscription_preapproval"
      → (a : Preapproval) → api.get_preapproval (or_empty n.data_id) ≡ ok a
      → Identifies (preapproval_notification_to_webhook a)
  unfolding preapproval_notification_to_webhook joined lit
  Identifies-preapproval k a g =
      Gives-if _ (not (text_eq (lower (or_empty a.status)) (lit "cancelled"))) _ _
        (λ c. nothing_given _)
        λ c. Gives-required _ a.id _ λ i h. some_given _ _ (
          of_preapproval k g h (cancelled_of a c)
            (made EventType.subscription_inactivated _ i (cancelled_details i) refl refl))

  Identifies-payment_of_invoice :
      topic n ≡ lit "subscription_authorized_payment"
      → (v : Invoice) → api.get_invoice (or_empty n.data_id) ≡ ok v
      → Identifies (and_then (payment_of_invoice api v) (authorized_payment_to_webhook api v))
  unfolding payment_of_invoice authorized_payment_to_webhook
  Identifies-payment_of_invoice k v g = go (is_truthy v.payment_id) refl
    where
      go :
          (b : Bool)
          → is_truthy v.payment_id ≡ b
          → Identifies (
              and_then
                (if b
                  then and_then
                      (api.get_payment (or_empty v.payment_id))
                      (λ payment. ok (some payment))
                  else ok none)
                (authorized_payment_to_webhook api v))
      go false t = nothing_given _
      go true t = paid_by (api.get_payment (or_empty v.payment_id)) refl
        where
          paid_by :
              (r : Result RemotePayment)
              → api.get_payment (or_empty v.payment_id) ≡ r
              → Identifies (
                  and_then
                    (and_then r λ payment. ok (some payment))
                    (authorized_payment_to_webhook api v))
          paid_by (err e) f = error_given _ e
          paid_by (ok p) f = Identifies-invoice k v g t p f

  has_topic : (s : Text) → text_eq (topic n) s ≡ true → topic n ≡ s
  has_topic s h = (text_eq_iff (topic n) s).0 h

  -- A payload to which resolve_webhook of MercadoPago leads is of the resource that the
  -- notification points at: of a payment of a checkout, of a payment of a subscription, of the
  -- payment of an invoice or of a preapproval that was canceled. It has the identifier of that
  -- payment or preapproval and of the subscription, as MercadoPago gives them; and its event has
  -- an identifier, which is made of the gateway, the event, the kind, the identifier and the
  -- status of the resource, and the subscription.
  pub resolve_webhook-IsIdentified :
      {w : WebhookPayload} → resolve_webhook api n ≡ ok (some w) → IsIdentified api n w
  unfolding resolve_webhook
  resolve_webhook-IsIdentified {w} =
      Gives-if _ (not (is_truthy n.data_id)) _ _ (λ e. error_given _ _)
        (λ e.
          Gives-if _ (text_eq (topic n) (lit "payment")) _ _
            (λ k. Gives-and_then _ _ _ (Identifies-payment (has_topic _ k)))
            (λ e.
              Gives-if _ (text_eq (topic n) (lit "subscription_authorized_payment")) _ _
                (λ k. Gives-and_then _ _ _ (Identifies-payment_of_invoice (has_topic _ k)))
                (λ e.
                  Gives-if _ (text_eq (topic n) (lit "subscription_preapproval")) _ _
                    (λ k. Gives-and_then _ _ _ (Identifies-preapproval (has_topic _ k)))
                    (λ e. nothing_given _))))
        w
