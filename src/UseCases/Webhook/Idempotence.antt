-- ===== src/UseCases/Webhook/Idempotence.antt =====
-- The branches of `ProcessWebhookService.execute` and the record of the event.
use billing_core.Shared.{
  refl, true, false, ◌||◌, ◌&&◌, not, if◌then◌else◌, arith, ◌≡◌, Bool, Option, none, some,
}
use billing_core.Shared.Texts.{Text, is_truthy}
use billing_core.Domain.Calendar.{Datetime}
use billing_core.Domain.Payment.{Payment}
use billing_core.Domain.Subscription.{Subscription}
use billing_core.Domain.Event.{WebhookEvent}
use billing_core.Store.Repositories.{payments, subscriptions}
use billing_core.Store.Transactions.{Ignores}
use billing_core.UseCases.Webhook.Recorded.{
  Records, Records-if, Records-cases, Records-raise, Records-bind, Records-finish, events_view,
}
use billing_core.UseCases.Webhook.Frames.{steps}
use billing_core.UseCases.Webhook.Payload.{
  is_checkout_event, is_ignored_event, lifecycle_event, EventType, WebhookPayload,
  InternalEventType,
}
use billing_core.UseCases.Webhook.Steps.{Env, finish}
use billing_core.UseCases.Webhook.Handlers.{
  standalone_found, process_standalone, received_paid, received_new, process_received,
  confirmed_dated, process_confirmed, process_deleted, process_ended,
}
use billing_core.UseCases.Webhook.Methods.{
  lifecycle_found, process_lifecycle, checkout_found, process_checkout,
}
use billing_core.UseCases.Webhook.Execute.{dispatch_event, dispatch_lifecycle, dispatch}

pub Ignores-payments : Ignores events_view payments
Ignores-payments = record { at = λ l n d c. refl }

pub Ignores-subscriptions : Ignores events_view subscriptions
Ignores-subscriptions = record { at = λ l n d c. refl }

ruleset records_rules =
    (steps, Ignores-payments, Ignores-subscriptions, Records-if, Records-bind, Records-finish)

module _ (key : Text) (env : Env) (event : WebhookEvent) (payload : WebhookPayload) where
  Records-standalone_found :
      (p : Payment) → Records key event (standalone_found env event payload p)
  unfolding standalone_found
  Records-standalone_found p = search records_rules

  Records-received_paid :
      (s : Subscription) (p : Payment) (t : Datetime)
      → Records key event (received_paid env event payload s p t)
  unfolding received_paid
  Records-received_paid s p t = search records_rules

  Records-confirmed_dated :
      (s : Subscription) (p : Payment) (t : Datetime)
      → Records key event (confirmed_dated env event payload s p t)
  unfolding confirmed_dated
  Records-confirmed_dated s p t = search records_rules

  Records-lifecycle_found :
      (k : InternalEventType) (s : Subscription) (p : Payment)
      → Records key event (lifecycle_found env k event payload s p)
  unfolding lifecycle_found
  Records-lifecycle_found k s p = search records_rules

  Records-checkout_found : (p : Payment) → Records key event (checkout_found env event payload p)
  unfolding checkout_found
  Records-checkout_found p = search records_rules

ruleset handled_rules = (
  records_rules, Records-cases, Records-standalone_found, Records-received_paid,
  Records-confirmed_dated, Records-lifecycle_found, Records-checkout_found, Records-raise,
)

module _ (key : Text) (env : Env) (event : WebhookEvent) (payload : WebhookPayload) where
  Records-received_new :
      (s : Subscription) (p : Option Payment)
      → Records key event (received_new env event payload s p)
  unfolding received_new
  Records-received_new s p = search handled_rules

  Records-process_standalone : Records key event (process_standalone env event payload)
  unfolding process_standalone
  Records-process_standalone = search handled_rules

  Records-process_received : Records key event (process_received env event payload)
  unfolding process_received
  Records-process_received = search (handled_rules, Records-received_new)

  Records-process_confirmed : Records key event (process_confirmed env event payload)
  unfolding process_confirmed
  Records-process_confirmed = search handled_rules depth 8

  Records-process_deleted : Records key event (process_deleted env event payload)
  unfolding process_deleted
  Records-process_deleted = search handled_rules

  Records-process_ended : Records key event (process_ended env event payload)
  unfolding process_ended
  Records-process_ended = search (handled_rules)

  Records-process_lifecycle :
      (k : InternalEventType) → Records key event (process_lifecycle env k event payload)
  unfolding process_lifecycle
  Records-process_lifecycle k = search handled_rules

  Records-process_checkout : Records key event (process_checkout env event payload)
  unfolding process_checkout
  Records-process_checkout = search handled_rules

module _ (key : Text) (env : Env) (event : WebhookEvent) (payload : WebhookPayload) where
  Records-dispatch_event :
      (t : EventType)
      → is_checkout_event t ≡ false
      → is_ignored_event t ≡ false
      → Records key event (dispatch_event env t event payload true)
  unfolding dispatch_event is_checkout_event is_ignored_event
  Records-dispatch_event EventType.payment_received h i =
      Records-process_received key env event payload
  Records-dispatch_event EventType.payment_confirmed h i =
      Records-process_confirmed key env event payload
  Records-dispatch_event EventType.payment_deleted h i =
      Records-process_deleted key env event payload
  Records-dispatch_event EventType.subscription_deleted h i =
      Records-process_ended key env event payload
  Records-dispatch_event EventType.subscription_inactivated h i =
      Records-process_ended key env event payload
  Records-dispatch_event _ h i = ground arith

  Records-dispatch_lifecycle :
      (o : Option InternalEventType)
      → is_checkout_event payload.event ≡ false
      → Records key event (dispatch_lifecycle env o event payload true)
  unfolding dispatch_lifecycle
  Records-dispatch_lifecycle (some kind) h = Records-process_lifecycle key env event payload kind
  Records-dispatch_lifecycle none h = go (is_ignored_event payload.event) refl
    where
      go :
          (b : Bool)
          → is_ignored_event payload.event ≡ b
          → Records key event
              (if b then finish event none else dispatch_event env payload.event event payload true)
      go true e = Records-finish key event none
      go false e = Records-dispatch_event payload.event h e

  pub Records-dispatch :
      (is_truthy payload.details.id || is_truthy payload.details.subscription) ≡ true
      → Records key event (dispatch env event payload)
  unfolding dispatch
  Records-dispatch named =
      go (is_checkout_event payload.event) (is_truthy payload.details.id)
        (is_truthy payload.details.subscription) refl named
    where
      go :
          (c i s : Bool)
          → is_checkout_event payload.event ≡ c
          → (i || s) ≡ true
          → Records key event (
              if c
              then process_checkout env event payload
              else if i && not s
              then process_standalone env event payload
              else dispatch_lifecycle env (lifecycle_event payload.event) event payload s)
      go true i s h n = Records-process_checkout key env event payload
      go false true false h n = Records-process_standalone key env event payload
      go false true true h n = Records-dispatch_lifecycle _ h
      go false false true h n = Records-dispatch_lifecycle _ h
      go false false false h n = ground arith
