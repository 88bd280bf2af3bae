-- ===== src/Workers/Reconciliation/Subscriptions.antt =====
-- The operations `create_subscription` and `cancel_subscription` in the reconciliation.
use billing_core.Shared.{
  ℕ, Bool, true, not, ◌||◌, List, [], ◌∷◌, ◌++◌, Option, none, some, if◌then◌else◌,
}
use billing_core.Shared.Int.{pos}
use billing_core.Shared.Texts.{Text, lit, text_eq, upper, lower}
use billing_core.Shared.Actions.{
  type_error, integrity, Result, ok, err, Action, pure, lift, call, ◌>>=◌, ◌>>◌,
}
use billing_core.Domain.Enums.{SubscriptionStatus, subscription_status_eq}
use billing_core.Domain.Payment.{Payment, create_subscription_payment}
use billing_core.Domain.Subscription
use billing_core.Domain.Subscription.{Subscription, cancel}
use billing_core.Domain.Operation.{GatewayOperation, mark_completed}
use billing_core.Store.Session.{Session, commit, save}
use billing_core.Store.Repositories.{
  payments, subscriptions, operations, payment_by_provider_id, subscription_by_provider_id,
  subscription_by_id,
}
use billing_core.UseCases.Cancellation.{RemoteStatus}
use billing_core.UseCases.Creation.{PaymentInfo}
use billing_core.UseCases.Webhook.Payload.{InternalEventType, joined}
use billing_core.UseCases.Webhook.Steps.{answer, payment_type_of}
use billing_core.Workers.Deliveries.{persist_internal_delivery}
use billing_core.Workers.Reconciliation.Payload.{
  OperationEnv, text_item, item, get_text, description_of, datetime_of, subscription_type_of,
  unless_found,
}

-- `status.upper()`
unfoldable pub status_text : RemoteStatus → Result Text
status_text remote = elim remote.status [ none ↦ err (type_error "upper") | some s ↦ ok s ]

unfoldable pub local_status : RemoteStatus → Result SubscriptionStatus
local_status remote = elim (status_text remote) [
  | err e ↦ err e
  | ok s ↦
      let status = upper s in
      ok (
        if remote.deleted
          || text_eq status (lit "INACTIVE")
          || text_eq status (lit "CANCELED")
          || text_eq status (lit "CANCELLED")
          || text_eq status (lit "DELETED")
        then SubscriptionStatus.canceled
        else if text_eq status (lit "ACTIVE")
        then SubscriptionStatus.active
        else SubscriptionStatus.pending)
]

-- `deleted or status.lower() in {…}`
unfoldable pub reports_ended : RemoteStatus → Result Bool
reports_ended remote = if remote.deleted then ok true else (elim (status_text remote) [
  | err e ↦ err e
  | ok s ↦
      let status = lower s in
      ok (
        text_eq status (lit "inactive")
        || text_eq status (lit "canceled")
        || text_eq status (lit "cancelled")
        || text_eq status (lit "deleted"))
])

-- The operation is completed under a reference.
unfoldable pub complete_operation :
    Action GatewayOperation Unit → GatewayOperation → Action Session Unit
complete_operation mark op = do (u, completed) ← call mark op; save operations completed; pure tt

module _ (env : OperationEnv) (op : GatewayOperation) where
  -- The subscription of the request. The table refuses one without an end.
  unfoldable pub subscription_of_request : SubscriptionStatus → Action Session Subscription
  subscription_of_request status = do
    description ← lift (description_of op.request_payload)
    system_sub_id ← lift (text_item (lit "system_sub_id") op.request_payload)
    type_text ← lift (text_item (lit "subscription_type") op.request_payload)
    subscription_type ← lift (subscription_type_of type_text)
    expires ← lift (datetime_of env (lit "expires_at") op.request_payload)
    expires_at ← lift (elim expires [ none ↦ err integrity | some t ↦ ok t ])
    next_due_date ← lift (datetime_of env (lit "next_due_date") op.request_payload)
    amount ← lift (item (lit "value") op.request_payload)
    value ← lift (env.decimal_of amount)
    webhook_link ← lift (get_text (lit "webhook_link") op.request_payload)
    lift (
        Subscription.construct
          (record {
            id = none;
            initial_date = op.created_at;
            description = [];
            system_subscription_id = system_sub_id;
            gateway_subscription_id = [];
            gateway_provider = op.provider;
            status = status;
            last_paid_date = none;
            from_system = op.system;
            subscription_type = subscription_type;
            expires_at = expires_at;
            trial_days = pos 0;
            value = value;
            trial_ends_at = none;
            next_due_date = next_due_date;
            cancelled_at = none;
            cancellation_requested_at = none;
            cancellation_reason = none;
            cancellation_job_id = none;
            webhook_link = webhook_link;
          })
          description (some system_sub_id) op.gateway_reference)

  -- The subscription that is stored, or the one of the request.
  unfoldable pub mirrored_subscription : SubscriptionStatus → Action Session Subscription
  mirrored_subscription status =
      unless_found (subscription_by_provider_id op.gateway_reference)
        (do sub ← subscription_of_request status; save subscriptions sub)

  unfoldable pub mirrored_payment : Subscription → PaymentInfo → Result Payment
  mirrored_payment sub info =
      create_subscription_payment
        (record {
          description = some (lit "Pagamento relacionado a assinatura: " ++ sub.description);
          gateway = sub.gateway_provider;
          system_payment_id = some (joined sub.system_subscription_id info.payment_id);
          provider_payment_id = some info.payment_id;
          value = info.value;
          from_system = sub.from_system;
          checkout_link = info.invoice_url;
        })
        sub.id (payment_type_of info.billing_type) (env.clock 0)

  -- One turn of the loop over the payments of the gateway.
  unfoldable pub mirror_payment : Subscription → PaymentInfo → Action Session Unit
  mirror_payment sub info =
      unless_found (payment_by_provider_id (some info.payment_id) >> pure tt)
        (do payment ← lift (mirrored_payment sub info); save payments payment; pure tt)

  unfoldable pub mirror_payments : Subscription → List PaymentInfo → Action Session Unit
  mirror_payments sub [] = pure tt
  mirror_payments sub (info ∷ l) =
      let rest = mirror_payments sub l in mirror_payment sub info >> rest

  unfoldable pub reconcile_creation : Action Session (Option ℕ)
  reconcile_creation = do
    remote ← lift (env.verify_status op.provider op.gateway_reference)
    status ← lift (local_status remote)
    sub ← mirrored_subscription status
    infos ← lift (env.get_subscription_payment op.provider op.gateway_reference)
    mirror_payments sub infos
    complete_operation (mark_completed op.gateway_reference (env.clock 1)) op
    commit
    pure none

  unfoldable pub cancel_mirror : Subscription → Action Session Subscription
  cancel_mirror sub =
      if not (subscription_status_eq sub.status SubscriptionStatus.canceled)
      then (do
        (u, sub') ←
            call
              (cancel (some (env.clock 0)) (some (lit "Reconciled cancellation")) none
                (env.clock 0))
              sub
        save subscriptions sub'
        pure sub')
      else pure sub

  -- The transaction is committed with the delivery, or else at its end.
  unfoldable pub commit_unless : Option ℕ → Action Session (Option ℕ)
  commit_unless (some delivery_id) = pure (some delivery_id)
  commit_unless none = do commit; pure none

  unfoldable pub mirror_cancellation : Action Session (Option ℕ)
  mirror_cancellation = do
    sub_text ← lift (text_item (lit "subscription_id") op.request_payload)
    sub_id ← lift (env.parse_uuid sub_text)
    stored ← subscription_by_id sub_id
    sub ← cancel_mirror stored
    complete_operation (mark_completed op.gateway_reference (env.clock 1)) op
    internal_delivery_id ←
        persist_internal_delivery env.delivery
          (answer InternalEventType.subscription_inactivated none sub.id)
    commit_unless internal_delivery_id

  unfoldable pub reconcile_cancellation : Action Session (Option ℕ)
  reconcile_cancellation = do
    remote ← lift (env.verify_status op.provider op.gateway_reference)
    ended ← lift (reports_ended remote)
    (if ended then mirror_cancellation else commit_unless none)
