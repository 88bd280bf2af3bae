-- ===== src/UseCases/Webhook/Atomic.antt =====
-- What `ProcessWebhookService.execute` has committed when it raises.
use billing_core.Shared.{◌≡◌, Bool, Option, none, some}
use billing_core.Shared.Actions.{Error, err}
use billing_core.Domain.Enums.{GatewayProvider}
use billing_core.Domain.Calendar.{Datetime}
use billing_core.Domain.Payment.{Payment}
use billing_core.Domain.Subscription.{Subscription}
use billing_core.Domain.Event.{WebhookEvent, mark_as_processed}
use billing_core.Store.Session.{Session, save}
use billing_core.Store.Repositories.{events}
use billing_core.Store.Transactions.{
  Atomic, keeps_rules, Atomic-if, Atomic-Quiet, Atomic-bind, Atomic-then, Atomic-commit,
  Atomic-cases, Keeps-save, Ignores-committed,
}
use billing_core.UseCases.Webhook.Frames.{steps}
use billing_core.UseCases.Webhook.Payload.{EventType, WebhookPayload, InternalEventType}
use billing_core.UseCases.Webhook.Steps.{Env, Answer, mark_event_processed, finish}
use billing_core.UseCases.Webhook.Handlers.{
  standalone_found, process_standalone, received_paid, received_new, process_received,
  confirmed_dated, process_confirmed, process_deleted, process_ended,
}
use billing_core.UseCases.Webhook.Methods.{
  lifecycle_found, process_lifecycle, checkout_found, process_checkout,
}
use billing_core.UseCases.Webhook.Execute.{dispatch_event, dispatch_lifecycle, dispatch, execute}

-- The commit is the last thing that can fail.
Atomic-finish : (e : WebhookEvent) (a : Answer) → Atomic (finish e a)
unfolding finish mark_event_processed
Atomic-finish e a = Atomic-then _ a (
    Atomic-bind (save events (mark_as_processed e)) _ (Keeps-save _ _ _ (Ignores-committed _))
      (λ _. Atomic-commit))

ruleset atomic_rules = (steps, Atomic-if, Atomic-bind, Atomic-finish)

module _ (env : Env) (event : WebhookEvent) (payload : WebhookPayload) where
  Atomic-standalone_found : (p : Payment) → Atomic (standalone_found env event payload p)
  unfolding standalone_found
  Atomic-standalone_found p = search atomic_rules

  Atomic-received_paid :
      (s : Subscription) (p : Payment) (t : Datetime)
      → Atomic (received_paid env event payload s p t)
  unfolding received_paid
  Atomic-received_paid s p t = search atomic_rules

  Atomic-confirmed_dated :
      (s : Subscription) (p : Payment) (t : Datetime)
      → Atomic (confirmed_dated env event payload s p t)
  unfolding confirmed_dated
  Atomic-confirmed_dated s p t = search atomic_rules

  Atomic-lifecycle_found :
      (k : InternalEventType) (s : Subscription) (p : Payment)
      → Atomic (lifecycle_found env k event payload s p)
  unfolding lifecycle_found
  Atomic-lifecycle_found k s p = search atomic_rules

  Atomic-checkout_found : (p : Payment) → Atomic (checkout_found env event payload p)
  unfolding checkout_found
  Atomic-checkout_found p = search atomic_rules

ruleset found_rules = (
  atomic_rules, Atomic-cases, Atomic-standalone_found, Atomic-received_paid, Atomic-confirmed_dated,
  Atomic-lifecycle_found, Atomic-checkout_found, Atomic-Quiet,
)

module _ (env : Env) (event : WebhookEvent) (payload : WebhookPayload) where
  Atomic-received_new :
      (s : Subscription) (p : Option Payment) → Atomic (received_new env event payload s p)
  unfolding received_new
  Atomic-received_new s p = search found_rules

  Atomic-process_standalone : Atomic (process_standalone env event payload)
  unfolding process_standalone
  Atomic-process_standalone = search found_rules

  Atomic-process_received : Atomic (process_received env event payload)
  unfolding process_received
  Atomic-process_received = search (found_rules, Atomic-received_new)

  Atomic-process_confirmed : Atomic (process_confirmed env event payload)
  unfolding process_confirmed
  Atomic-process_confirmed = search found_rules depth 8

  Atomic-process_deleted : Atomic (process_deleted env event payload)
  unfolding process_deleted
  Atomic-process_deleted = search found_rules

  Atomic-process_ended : Atomic (process_ended env event payload)
  unfolding process_ended
  Atomic-process_ended = search (found_rules, Atomic-Quiet)

  Atomic-process_lifecycle :
      (k : InternalEventType) → Atomic (process_lifecycle env k event payload)
  unfolding process_lifecycle
  Atomic-process_lifecycle k = search found_rules

  Atomic-process_checkout : Atomic (process_checkout env event payload)
  unfolding process_checkout
  Atomic-process_checkout = search found_rules

module _ (env : Env) (event : WebhookEvent) (payload : WebhookPayload) where
  Atomic-dispatch_event : (t : EventType) (b : Bool) → Atomic (dispatch_event env t event payload b)
  unfolding dispatch_event
  Atomic-dispatch_event EventType.payment_received b =
      search (atomic_rules, Atomic-process_received)
  Atomic-dispatch_event EventType.payment_confirmed b =
      search (atomic_rules, Atomic-Quiet, Atomic-process_confirmed)
  Atomic-dispatch_event EventType.payment_deleted b =
      search (atomic_rules, Atomic-Quiet, Atomic-process_deleted)
  Atomic-dispatch_event EventType.subscription_deleted b = Atomic-process_ended env event payload
  Atomic-dispatch_event EventType.subscription_inactivated b =
      Atomic-process_ended env event payload
  Atomic-dispatch_event _ b = search (Atomic-Quiet, keeps_rules)

  Atomic-dispatch_lifecycle :
      (k : Option InternalEventType) (b : Bool) → Atomic (dispatch_lifecycle env k event payload b)
  unfolding dispatch_lifecycle
  Atomic-dispatch_lifecycle none b = search (atomic_rules, Atomic-dispatch_event)
  Atomic-dispatch_lifecycle (some k) b = search (atomic_rules, Atomic-process_lifecycle)

  Atomic-dispatch : Atomic (dispatch env event payload)
  unfolding dispatch
  Atomic-dispatch =
      search
        (Atomic-if, Atomic-dispatch_lifecycle, Atomic-process_standalone, Atomic-process_checkout)

Atomic-execute :
    (env : Env) (provider : GatewayProvider) (payload : WebhookPayload)
    → Atomic (execute env provider payload)
unfolding execute
Atomic-execute env provider payload = search (atomic_rules, Atomic-Quiet, Atomic-dispatch) depth 8

-- Processing a notification that raises, wherever it stops and whichever statement or commit of
-- the database fails, leaves the committed database as it was.
pub execute-Atomic :
    (env : Env) (provider : GatewayProvider) (payload : WebhookPayload) (s : Session) {e : Error}
    → (execute env provider payload s).0 ≡ err e
    → (execute env provider payload s).1.committed ≡ s.committed
execute-Atomic env provider payload s h = (Atomic-execute env provider payload).at s h
