-- ===== src/Workers/Orderly.antt =====
-- The order of the tables and what the jobs do in their sessions.
use billing_core.Shared.{ℕ, Option, none, some}
use billing_core.Shared.Texts.{Text}
use billing_core.Domain.Enums.{GatewayProvider}
use billing_core.Domain.Delivery.{Delivery}
use billing_core.Domain.Payment.{Payment}
use billing_core.Domain.Subscription.{Subscription}
use billing_core.Store.Integrity.{Orderly}
use billing_core.Store.Preserves.{Preserves-statement}
use billing_core.Store.Lookups.{lookup_rules}
use billing_core.UseCases.Cancellation.{CancelResponse}
use billing_core.UseCases.Reconcile.Orderly.{Orderly-sync_checkout_status}
use billing_core.UseCases.Webhook.Orderly as Webhook
use billing_core.UseCases.Webhook.Payload.{
  WebhookPayload, InternalEventType, ProcessWebhookResponse,
}
use billing_core.UseCases.Webhook.Steps.{Answer}
use billing_core.Workers.World.{Job}
use billing_core.Workers.Deliveries.{
  DeliveryEnv, payment_date_of, delivery_for, build_internal_delivery, persist_delivery,
  persist_internal_delivery,
}
use billing_core.Workers.Webhook.{WebhookJobEnv, delivery_of_parts, delivery_of, process_in_session}
use billing_core.Workers.Requests.{
  CancelJobEnv, CreationJobEnv, deliver_cancellation, customer_by_provider_id,
}
use billing_core.Workers.Sending.{SendEnv, delivery_by_id, send_delivery, deliver, failure_written}
use billing_core.Workers.Sync.{SyncEnv, deliver_synced, sync_payment}

Orderly-payment_date_of : (r : ProcessWebhookResponse) → Orderly (payment_date_of r)
unfolding payment_date_of
Orderly-payment_date_of r = dated r.event
  where
    dated : (e : InternalEventType) → Orderly (payment_date_of (record r { event = e }))
    dated InternalEventType.payment_received = search lookup_rules
    dated InternalEventType.payment_overdue = search lookup_rules
    dated InternalEventType.payment_refunded = search lookup_rules
    dated InternalEventType.payment_chargeback_requested = search lookup_rules
    dated InternalEventType.payment_status_updated = search lookup_rules
    dated InternalEventType.subscription_inactivated = search lookup_rules

Orderly-delivery_for :
    (env : DeliveryEnv) (r : ProcessWebhookResponse) (s : Subscription)
    → Orderly (delivery_for env r s)
unfolding delivery_for
Orderly-delivery_for env r s = search (lookup_rules, Orderly-payment_date_of)

Orderly-build_internal_delivery :
    (env : DeliveryEnv) (a : Answer) → Orderly (build_internal_delivery env a)
unfolding build_internal_delivery
Orderly-build_internal_delivery env none = search lookup_rules
Orderly-build_internal_delivery env (some r) = search (lookup_rules, Orderly-delivery_for)

pub Orderly-persist_delivery : (o : Option Delivery) → Orderly (persist_delivery o)
unfolding persist_delivery
Orderly-persist_delivery none = search lookup_rules
Orderly-persist_delivery (some d) = search lookup_rules

pub Orderly-persist_internal_delivery :
    (env : DeliveryEnv) (a : Answer) → Orderly (persist_internal_delivery env a)
unfolding persist_internal_delivery
Orderly-persist_internal_delivery env a =
    search (lookup_rules, Orderly-build_internal_delivery, Orderly-persist_delivery)

Orderly-delivery_of_parts :
    (env : WebhookJobEnv) (r : ProcessWebhookResponse) (p s : Option ℕ)
    → Orderly (delivery_of_parts env r p s)
unfolding delivery_of_parts
Orderly-delivery_of_parts env r (some p) none = search lookup_rules
Orderly-delivery_of_parts env r none s = search (lookup_rules, Orderly-build_internal_delivery)
Orderly-delivery_of_parts env r (some p) (some s) =
    search (lookup_rules, Orderly-build_internal_delivery)

Orderly-delivery_of : (env : WebhookJobEnv) (a : Answer) → Orderly (delivery_of env a)
unfolding delivery_of
Orderly-delivery_of env none = search lookup_rules
Orderly-delivery_of env (some r) = search (lookup_rules, Orderly-delivery_of_parts)

pub Orderly-process_in_session :
    (env : WebhookJobEnv) (g : GatewayProvider) (w : WebhookPayload)
    → Orderly (process_in_session env g w)
unfolding process_in_session
Orderly-process_in_session env g w =
    search (lookup_rules, Webhook.Orderly-execute, Orderly-delivery_of, Orderly-persist_delivery)

Orderly-delivery_by_id : (n : ℕ) → Orderly (delivery_by_id n)
unfolding delivery_by_id
Orderly-delivery_by_id n = search lookup_rules

Orderly-send_delivery :
    (env : SendEnv) (job : Job) (d : Delivery) → Orderly (send_delivery env job d)
unfolding send_delivery
Orderly-send_delivery env job d = search lookup_rules depth 8

pub Orderly-deliver : (env : SendEnv) (job : Job) (i : Text) → Orderly (deliver env job i)
unfolding deliver
Orderly-deliver env job i = search (lookup_rules, Orderly-delivery_by_id, Orderly-send_delivery)

pub Orderly-failure_written :
    (env : SendEnv) (job : Job) (change : Delivery → Delivery) (i : Text)
    → Orderly (failure_written env job change i)
unfolding failure_written
Orderly-failure_written env job change i = search (lookup_rules, Orderly-delivery_by_id) depth 8

pub Orderly-deliver_cancellation :
    (env : CancelJobEnv) (job : Job) (r : CancelResponse) → Orderly (deliver_cancellation env job r)
unfolding deliver_cancellation
Orderly-deliver_cancellation env job r = search (lookup_rules, Orderly-persist_internal_delivery)

pub Orderly-customer_by_provider_id :
    (env : CreationJobEnv) (job : Job) (i : Text) → Orderly (customer_by_provider_id env job i)
unfolding customer_by_provider_id
Orderly-customer_by_provider_id env job i = search (lookup_rules, Preserves-statement)

Orderly-deliver_synced :
    (env : SyncEnv) (turn : ℕ) (o : Option Payment) → Orderly (deliver_synced env turn o)
unfolding deliver_synced
Orderly-deliver_synced env turn none = search lookup_rules
Orderly-deliver_synced env turn (some p) = search (lookup_rules, Orderly-persist_delivery)

pub Orderly-sync_payment :
    (env : SyncEnv) (turn : ℕ) (p : Payment) → Orderly (sync_payment env turn p)
unfolding sync_payment
Orderly-sync_payment env turn p =
    search (lookup_rules, Orderly-sync_checkout_status, Orderly-deliver_synced)
