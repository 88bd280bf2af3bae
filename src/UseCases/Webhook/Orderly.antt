-- ===== src/UseCases/Webhook/Orderly.antt =====
-- The order of the tables and the notifications.
use billing_core.Shared.{Bool, Option, none, some}
use billing_core.Shared.Texts.{Text}
use billing_core.Domain.Enums.{GatewayProvider}
use billing_core.Domain.Calendar.{Datetime}
use billing_core.Domain.Payment.{Payment}
use billing_core.Domain.Subscription.{Subscription}
use billing_core.Domain.Event.{WebhookEvent}
use billing_core.Store.Integrity.{Orderly}
use billing_core.UseCases.Webhook.Payload.{EventType, InternalEventType, WebhookPayload, Details}
use billing_core.UseCases.Webhook.Steps.{
  Env, Answer, mark_event_processed, finish, find_standalone, save_if, find_subscription_payment,
}
use billing_core.UseCases.Webhook.Handlers.{
  renew_if, cancel_if_open, cancel_if_live, standalone_found, process_standalone, received_paid,
  received_new, process_received, confirmed_dated, process_confirmed, process_deleted,
  process_ended,
}
use billing_core.UseCases.Webhook.Methods.{
  find_by_id, find_checkout, lifecycle_found, process_lifecycle, checkout_found, process_checkout,
}
use billing_core.UseCases.Webhook.Execute.{
  event_for, dispatch_event, dispatch_lifecycle, dispatch, execute,
}
use billing_core.Store.Lookups.{lookup_rules}

Orderly-mark_event_processed : (e : WebhookEvent) → Orderly (mark_event_processed e)
unfolding mark_event_processed
Orderly-mark_event_processed e = search lookup_rules

Orderly-finish : (e : WebhookEvent) (a : Answer) → Orderly (finish e a)
unfolding finish
Orderly-finish e a = search (lookup_rules, Orderly-mark_event_processed)

Orderly-find_standalone : (d : Details) → Orderly (find_standalone d)
unfolding find_standalone
Orderly-find_standalone d = search lookup_rules

Orderly-save_if : (b : Bool) (p : Payment) → Orderly (save_if b p)
unfolding save_if
Orderly-save_if b p = search lookup_rules

Orderly-find_subscription_payment :
    (s : Subscription) (i : Option Text) → Orderly (find_subscription_payment s i)
unfolding find_subscription_payment
Orderly-find_subscription_payment s i = search lookup_rules

Orderly-renew_if :
    (env : Env) (b : Bool) (s : Subscription) (t : Datetime) → Orderly (renew_if env b s t)
unfolding renew_if
Orderly-renew_if env b s t = search lookup_rules

Orderly-find_by_id : (env : Env) (d : Details) → Orderly (find_by_id env d)
unfolding find_by_id
Orderly-find_by_id env d = search lookup_rules

Orderly-find_checkout : (env : Env) (d : Details) → Orderly (find_checkout env d)
unfolding find_checkout
Orderly-find_checkout env d = search (lookup_rules, Orderly-find_by_id)

Orderly-cancel_if_open : (env : Env) (o : Option Payment) → Orderly (cancel_if_open env o)
unfolding cancel_if_open
Orderly-cancel_if_open env none = search lookup_rules
Orderly-cancel_if_open env (some p) = search lookup_rules

Orderly-cancel_if_live : (env : Env) (s : Subscription) → Orderly (cancel_if_live env s)
unfolding cancel_if_live
Orderly-cancel_if_live env s = search lookup_rules

Orderly-event_for :
    (env : Env) (i : Text) (g : GatewayProvider) (w : WebhookPayload) (o : Option WebhookEvent)
    → Orderly (event_for env i g w o)
unfolding event_for
Orderly-event_for env i g w none = search lookup_rules
Orderly-event_for env i g w (some e) = search lookup_rules

ruleset step_rules = (
  lookup_rules, Orderly-finish, Orderly-find_standalone, Orderly-save_if,
  Orderly-find_subscription_payment, Orderly-renew_if, Orderly-find_by_id, Orderly-find_checkout,
  Orderly-cancel_if_open, Orderly-cancel_if_live, Orderly-event_for,
)

Orderly-standalone_found :
    (env : Env) (event : WebhookEvent) (payload : WebhookPayload) (p : Payment)
    → Orderly (standalone_found env event payload p)
unfolding standalone_found
Orderly-standalone_found env event payload p = search step_rules

Orderly-process_standalone :
    (env : Env) (event : WebhookEvent) (payload : WebhookPayload)
    → Orderly (process_standalone env event payload)
unfolding process_standalone
Orderly-process_standalone env event payload = search (step_rules, Orderly-standalone_found)

Orderly-received_paid :
    (env : Env) (event : WebhookEvent) (payload : WebhookPayload) (s : Subscription) (p : Payment)
    (t : Datetime)
    → Orderly (received_paid env event payload s p t)
unfolding received_paid
Orderly-received_paid env event payload s p t = search step_rules

Orderly-received_new :
    (env : Env) (event : WebhookEvent) (payload : WebhookPayload) (s : Subscription)
    (o : Option Payment)
    → Orderly (received_new env event payload s o)
unfolding received_new
Orderly-received_new env event payload s o = search (step_rules, Orderly-received_paid)

Orderly-process_received :
    (env : Env) (event : WebhookEvent) (payload : WebhookPayload)
    → Orderly (process_received env event payload)
unfolding process_received
Orderly-process_received env event payload = search (step_rules, Orderly-received_new)

Orderly-confirmed_dated :
    (env : Env) (event : WebhookEvent) (payload : WebhookPayload) (s : Subscription) (p : Payment)
    (t : Datetime)
    → Orderly (confirmed_dated env event payload s p t)
unfolding confirmed_dated
Orderly-confirmed_dated env event payload s p t = search step_rules

Orderly-process_confirmed :
    (env : Env) (event : WebhookEvent) (payload : WebhookPayload)
    → Orderly (process_confirmed env event payload)
unfolding process_confirmed
Orderly-process_confirmed env event payload = search (step_rules, Orderly-confirmed_dated) depth 8

Orderly-process_deleted :
    (env : Env) (event : WebhookEvent) (payload : WebhookPayload)
    → Orderly (process_deleted env event payload)
unfolding process_deleted
Orderly-process_deleted env event payload = search step_rules

Orderly-process_ended :
    (env : Env) (event : WebhookEvent) (payload : WebhookPayload)
    → Orderly (process_ended env event payload)
unfolding process_ended
Orderly-process_ended env event payload = search step_rules

Orderly-lifecycle_found :
    (env : Env) (k : InternalEventType) (event : WebhookEvent) (payload : WebhookPayload)
    (s : Subscription) (p : Payment)
    → Orderly (lifecycle_found env k event payload s p)
unfolding lifecycle_found
Orderly-lifecycle_found env k event payload s p = search step_rules

Orderly-process_lifecycle :
    (env : Env) (k : InternalEventType) (event : WebhookEvent) (payload : WebhookPayload)
    → Orderly (process_lifecycle env k event payload)
unfolding process_lifecycle
Orderly-process_lifecycle env k event payload = search (step_rules, Orderly-lifecycle_found)

Orderly-checkout_found :
    (env : Env) (event : WebhookEvent) (payload : WebhookPayload) (p : Payment)
    → Orderly (checkout_found env event payload p)
unfolding checkout_found
Orderly-checkout_found env event payload p = search step_rules

Orderly-process_checkout :
    (env : Env) (event : WebhookEvent) (payload : WebhookPayload)
    → Orderly (process_checkout env event payload)
unfolding process_checkout
Orderly-process_checkout env event payload = search (step_rules, Orderly-checkout_found)

ruleset branch_rules = (
  step_rules, Orderly-process_standalone, Orderly-process_received, Orderly-process_confirmed,
  Orderly-process_deleted, Orderly-process_ended, Orderly-process_lifecycle,
  Orderly-process_checkout,
)

Orderly-dispatch_event :
    (env : Env) (t : EventType) (event : WebhookEvent) (payload : WebhookPayload) (b : Bool)
    → Orderly (dispatch_event env t event payload b)
unfolding dispatch_event
Orderly-dispatch_event env EventType.payment_received event payload b = search branch_rules
Orderly-dispatch_event env EventType.payment_confirmed event payload b = search branch_rules
Orderly-dispatch_event env EventType.payment_deleted event payload b = search branch_rules
Orderly-dispatch_event env EventType.subscription_deleted event payload b = search branch_rules
Orderly-dispatch_event env EventType.subscription_inactivated event payload b = search branch_rules
Orderly-dispatch_event env _ event payload b = search branch_rules

Orderly-dispatch_lifecycle :
    (env : Env) (o : Option InternalEventType) (event : WebhookEvent) (payload : WebhookPayload)
    (b : Bool)
    → Orderly (dispatch_lifecycle env o event payload b)
unfolding dispatch_lifecycle
Orderly-dispatch_lifecycle env none event payload b = search (branch_rules, Orderly-dispatch_event)
Orderly-dispatch_lifecycle env (some k) event payload b = search branch_rules

Orderly-dispatch :
    (env : Env) (event : WebhookEvent) (payload : WebhookPayload)
    → Orderly (dispatch env event payload)
unfolding dispatch
Orderly-dispatch env event payload = search (branch_rules, Orderly-dispatch_lifecycle)

pub Orderly-execute :
    (env : Env) (g : GatewayProvider) (w : WebhookPayload) → Orderly (execute env g w)
unfolding execute
Orderly-execute env g w = search (branch_rules, Orderly-dispatch) depth 8
