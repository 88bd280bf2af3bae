-- ===== src/Gateways/MercadoPago/Notifications/Given.antt =====
-- What holds of the payload that a notification leads to, by the way it is made.
use billing_core.Shared.{
  ◌≡◌, subst, refl, Bool, true, false, Option, none, some, arith, if◌then◌else◌,
}
use billing_core.Shared.Texts.{Text, is_truthy}
use billing_core.Shared.Actions.{Error, key_error, Result, ok, err}
use billing_core.Domain.Calendar.{Datetime}
use billing_core.UseCases.Webhook.Payload.{EventType, WebhookPayload}
use billing_core.Workers.Reconciliation.Payload.{and_then}
use billing_core.Gateways.MercadoPago.{
  Api, RemotePayment, required, billing_type_from_payment, payment_status_to_gateway,
}
use billing_core.Gateways.MercadoPago.Notifications.{
  normalize_payment_date, payment_details, payload_of, reversal_event, reversal_of,
}
use billing_core.Gateways.MercadoPago.Notifications.Named.{Names, made, status_of}

module _ (P : WebhookPayload → Type 0) where
  -- What holds of the payload, if there is one.
  abbrev pub Gives : Result (Option WebhookPayload) → Type 0
  Gives r = (w : WebhookPayload) → r ≡ ok (some w) → P w

  pub nothing_given : Gives (ok none)
  nothing_given w h = ground (arith, h)

  pub error_given : (e : Error) → Gives (err e)
  error_given e w h = ground (arith, h)

  pub some_given : (w : WebhookPayload) → P w → Gives (ok (some w))
  some_given w h v q = subst P (ground (arith, q)) h

  pub Gives-and_then :
      {A : Type 0} (r : Result A) (f : A → Result (Option WebhookPayload))
      → ((a : A) → r ≡ ok a → Gives (f a))
      → Gives (and_then r f)
  Gives-and_then (ok a) f h w q = h a refl w q
  Gives-and_then (err e) f h w q = ground (arith, q)

  pub Gives-if :
      (b : Bool) (r s : Result (Option WebhookPayload))
      → (b ≡ true → Gives r)
      → (b ≡ false → Gives s)
      → Gives (if b then r else s)
  Gives-if true r s p q = p refl
  Gives-if false r s p q = q refl

  pub Gives-required :
      (o : Option Text) (f : Text → Result (Option WebhookPayload))
      → ((i : Text) → o ≡ some i → Gives (f i))
      → Gives (and_then (required o) f)
  Gives-required none f h = error_given key_error
  Gives-required (some i) f h = h i refl

-- The identifier of a payment is read again for the payload.
module _ (api : Api) (P : WebhookPayload → Type 0) (p : RemotePayment) (source : Text)
    (subscription : Option Text) (t : is_truthy (some source) ≡ true)
    (gives : (i : Text)
      → p.id ≡ some i
      → (w : WebhookPayload) → Names w source i subscription
      → P w) where
  pub Gives-payload_of :
      (event : EventType) (status : Text)
      → Gives P (payload_of api event source p subscription status)
  unfolding payload_of payment_details
  Gives-payload_of event status = go p.id refl (normalize_payment_date api p.date_approved)
    where
      go :
          (x : Option Text)
          → p.id ≡ x
          → (o : Result (Option Datetime))
          → Gives P (
              and_then
                (and_then (required x) λ id. and_then o λ payment_date. ok (record {
                  id = some id;
                  subscription = subscription;
                  status = some status;
                  value = p.transaction_amount;
                  net_value = p.net_received_amount;
                  payment_date = payment_date;
                  external_reference = p.external_reference;
                  billing_type = some (billing_type_from_payment p);
                }))
                λ details. ok (
                  some
                    (record { event = event; source_event_id = some source; details = details })))
      go none h o = error_given P key_error
      go (some i) h (err e) = error_given P e
      go (some i) h (ok payment_date) = some_given P _ (gives i h _ (made event source i _ t refl))

  Gives-of_event :
      (o : Option EventType)
      → Gives P (elim o [
        | none ↦ ok none
        | some event ↦
            payload_of api event source p subscription
              (payment_status_to_gateway (some (status_of p)))
      ])
  Gives-of_event none = nothing_given P
  Gives-of_event (some event) = Gives-payload_of event _

  pub Gives-reversal_of : Gives P (reversal_of api source p subscription)
  unfolding reversal_of
  Gives-reversal_of = Gives-of_event (reversal_event (status_of p))

-- The two readings of an identifier agree.
pub renamed :
    {w : WebhookPayload} {source i j : Text} {subscription o : Option Text}
    → o ≡ some j
    → o ≡ some i
    → Names w source j subscription
    → Names w source i subscription
renamed {w} {source} {i} {j} {subscription} h k m =
    subst (λ x. Names w source x subscription) (ground (arith, h, k)) m
