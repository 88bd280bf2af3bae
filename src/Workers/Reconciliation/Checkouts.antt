-- ===== src/Workers/Reconciliation/Checkouts.antt =====
-- The operation `create_checkout` in the reconciliation.
use billing_core.Shared.{
  ℕ, Bool, true, not, ◌&&◌, ◌||◌, [], ◌∷◌, Option, none, some, is_some, if◌then◌else◌,
}
use billing_core.Shared.Texts.{Text, lit, text_eq, upper, is_truthy, or_empty}
use billing_core.Shared.Actions.{
  domain, Result, ok, err, Action, pure, raise, lift, raise_if, call, cases, ◌>>=◌, ◌>>◌,
}
use billing_core.Domain.Enums.{system_value, PaymentStatus, PaymentType, payment_status_eq, one_of}
use billing_core.Domain.Payment.{Payment, create_standalone_payment}
use billing_core.Domain.Payment.Methods.{
  mark_as_paid, mark_as_canceled, mark_as_expired, renew_checkout,
}
use billing_core.Domain.Operation.{GatewayOperation, mark_completed}
use billing_core.Store.Session.{Session, commit, save}
use billing_core.Store.Repositories.{
  payments, deliveries, payment_by_system_ref, delivery_by_dedupe_key,
}
use billing_core.Domain.Delivery.{Delivery}
use billing_core.UseCases.Webhook.Payload.{joined}
use billing_core.Workers.Deliveries.{build_payment_internal_delivery}
use billing_core.Workers.Reconciliation.Payload.{
  OperationEnv, RemoteCheckoutInfo, text_item, item, get_text, description_of,
}
use billing_core.Workers.Reconciliation.Subscriptions.{complete_operation}

-- `payment_statuses`
unfoldable pub checkout_payment_status : Text → Option PaymentStatus
checkout_payment_status status =
    if text_eq status (lit "ACTIVE")
    then some PaymentStatus.pending
    else if text_eq status (lit "PAID")
    then some PaymentStatus.paid
    else if text_eq status (lit "CANCELED")
    then some PaymentStatus.canceled
    else if text_eq status (lit "EXPIRED")
    then some PaymentStatus.expired
    else none

-- `a != b`, of a text and an optional one
abbrev pub is_other : Option Text → Text → Bool
is_other none t = true
is_other (some s) t = not (text_eq s t)

-- `checkout_status in {"PAID", "CANCELED", "EXPIRED"}`
abbrev pub is_terminal_checkout : Text → Bool
is_terminal_checkout status =
    text_eq status (lit "PAID") || text_eq status (lit "CANCELED") || text_eq status (lit "EXPIRED")

module _ (env : OperationEnv) (op : GatewayOperation) where
  -- The reference of the request, or the one that the system's identifier makes.
  unfoldable pub expected_reference : Result Text
  expected_reference = elim (get_text (lit "external_reference") op.request_payload) [
    | err e ↦ err e
    | ok given ↦
        if is_truthy given
        then ok (or_empty given)
        else elim (text_item (lit "system_payment_id") op.request_payload) [
          | err e ↦ err e
          | ok system_payment_id ↦
              ok (joined (lit "checkout") (joined (system_value op.system) system_payment_id))
        ]
  ]

  -- The payment of a checkout that is not there.
  unfoldable pub payment_of_request :
      Text → RemoteCheckoutInfo → Text → Action Session (Payment × Bool)
  payment_of_request system_payment_id checkout reference = do
    description ← lift (description_of op.request_payload)
    amount ← lift (item (lit "value") op.request_payload)
    value ← lift (env.decimal_of amount)
    webhook_link ← lift (get_text (lit "webhook_link") op.request_payload)
    payment ← lift (
        create_standalone_payment
          (record {
            description = description;
            gateway = op.provider;
            system_payment_id = some system_payment_id;
            provider_payment_id = some checkout.checkout_id;
            value = value;
            from_system = op.system;
            checkout_link = some checkout.checkout_url;
          })
          webhook_link none reference (env.clock 0))
    pure (record payment { payment_type = PaymentType.undefined }, true)

  -- `is_checkout_renewal`
  unfoldable pub is_checkout_renewal : Payment → Text → Bool
  is_checkout_renewal payment reference =
      is_other payment.external_reference reference
      && one_of payment.payment_status (PaymentStatus.expired ∷ PaymentStatus.canceled ∷ [])

  -- The payment that is stored, renewed if it is to be; and whether it is to be saved.
  unfoldable pub payment_to_follow :
      Payment → RemoteCheckoutInfo → Text → PaymentStatus → Action Session (Payment × Bool)
  payment_to_follow payment checkout reference status =
      if is_checkout_renewal payment reference
      then (do
        (u, renewed) ←
            call
              (renew_checkout (some checkout.checkout_id) (some checkout.checkout_url) reference
                (env.clock 0))
              payment
        pure (renewed, true))
      else pure (payment, not (payment_status_eq payment.payment_status status))

  -- The method that the status of the checkout asks for.
  unfoldable pub follow_checkout : Text → Action Payment Unit
  follow_checkout status =
      if text_eq status (lit "PAID")
      then mark_as_paid (some (env.clock 1)) none (env.clock 1) (env.clock 2)
      else if text_eq status (lit "CANCELED")
      then mark_as_canceled (env.clock 1)
      else if text_eq status (lit "EXPIRED")
      then mark_as_expired (env.clock 1)
      else pure tt

  unfoldable pub save_followed : Text → Payment × Bool → Action Session Payment
  save_followed status (payment, should_save) =
      if should_save
      then (do (u, followed) ← call (follow_checkout status) payment; save payments followed)
      else pure payment

  -- The delivery of a status that ends the checkout.
  unfoldable pub store_delivery : Option Delivery → Action Session (Option ℕ)
  store_delivery none = pure none
  store_delivery (some delivery) = do
    existing ← delivery_by_dedupe_key delivery.dedupe_key
    (if is_some existing then pure none else (do saved ← save deliveries delivery; pure saved.id))

  unfoldable pub deliver_checkout : Text → Payment → Action Session (Option ℕ)
  deliver_checkout status payment =
      if is_terminal_checkout status
      then (do
        delivery ← lift (build_payment_internal_delivery env.delivery payment)
        store_delivery delivery)
      else pure none

  unfoldable pub follow_remote :
      RemoteCheckoutInfo → Text → PaymentStatus → Action Session (Option ℕ)
  follow_remote checkout reference local = do
    system_payment_id ← lift (text_item (lit "system_payment_id") op.request_payload)
    stored ← payment_by_system_ref system_payment_id op.system
    candidate ←
        cases stored (payment_of_request system_payment_id checkout reference)
          λ payment. payment_to_follow payment checkout reference local
    payment ← save_followed (upper checkout.status) candidate
    internal_delivery_id ← deliver_checkout (upper checkout.status) payment
    complete_operation (mark_completed (some checkout.checkout_id) (env.clock 3)) op
    commit
    pure internal_delivery_id

  unfoldable pub reconcile_found : Text → Action Session (Option ℕ)
  reconcile_found gateway_reference = do
    checkout ← lift (env.get_checkout op.provider gateway_reference)
    reference ← lift expected_reference
    raise_if (is_other checkout.external_reference reference)
        (domain "Checkout remoto retornou externalReference divergente durante reconciliacao.")
    cases (checkout_payment_status (upper checkout.status))
        (raise (domain "Status de checkout remoto desconhecido"))
        λ local. follow_remote checkout reference local

  -- A checkout of which nothing is known at the gateway is left to a person.
  unfoldable pub reconcile_checkout : Action Session (Option ℕ)
  reconcile_checkout =
      if is_truthy op.gateway_reference
      then reconcile_found (or_empty op.gateway_reference)
      else (do commit; pure none)
