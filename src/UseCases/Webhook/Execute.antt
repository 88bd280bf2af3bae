-- ===== src/UseCases/Webhook/Execute.antt =====
-- `ProcessWebhookService.execute`
use billing_core.Shared.{Bool, false, not, ◌&&◌, Option, none, some, if◌then◌else◌}
use billing_core.Shared.Texts.{Text, is_truthy}
use billing_core.Shared.Actions.{Action, pure, lift, ◌>>=◌}
use billing_core.Domain.Enums.{GatewayProvider}
use billing_core.Domain.Event.{WebhookEvent, new_event}
use billing_core.Store.Session.{Session}
use billing_core.Store.Repositories.{event_by_event_id}
use billing_core.UseCases.Webhook.Payload.{
  EventType, WebhookPayload, InternalEventType, event_id_for, event_value, is_checkout_event,
  lifecycle_event, is_ignored_event,
}
use billing_core.UseCases.Webhook.Steps.{Env, Answer, finish}
use billing_core.UseCases.Webhook.Handlers.{
  process_standalone, process_received, process_confirmed, process_deleted, process_ended,
}
use billing_core.UseCases.Webhook.Methods.{process_lifecycle, process_checkout}

module _ (env : Env) where
  -- The tests that come last, on the event.
  unfoldable pub dispatch_event :
      EventType → WebhookEvent → WebhookPayload → Bool → Action Session Answer
  dispatch_event EventType.payment_received event payload has_subscription =
      if has_subscription then process_received env event payload else finish event none
  dispatch_event EventType.payment_confirmed event payload has_subscription =
      if has_subscription then process_confirmed env event payload else pure none
  dispatch_event EventType.payment_deleted event payload has_subscription =
      if has_subscription then process_deleted env event payload else pure none
  dispatch_event EventType.subscription_deleted event payload has_subscription =
      process_ended env event payload
  dispatch_event EventType.subscription_inactivated event payload has_subscription =
      process_ended env event payload
  dispatch_event _ event payload has_subscription = pure none

  unfoldable pub dispatch_lifecycle :
      Option InternalEventType → WebhookEvent → WebhookPayload → Bool → Action Session Answer
  dispatch_lifecycle (some kind) event payload has_subscription =
      if has_subscription then process_lifecycle env kind event payload else finish event none
  dispatch_lifecycle none event payload has_subscription =
      if is_ignored_event payload.event
      then finish event none
      else dispatch_event payload.event event payload has_subscription

  -- The chain of tests on the event and on the subscription of the details.
  unfoldable pub dispatch : WebhookEvent → WebhookPayload → Action Session Answer
  dispatch event payload =
      let has_subscription = is_truthy payload.details.subscription in
      if is_checkout_event payload.event
      then process_checkout env event payload
      else if is_truthy payload.details.id && not has_subscription
      then process_standalone env event payload
      else dispatch_lifecycle (lifecycle_event payload.event) event payload has_subscription

  abbrev pub is_processed : Option WebhookEvent → Bool
  is_processed none = false
  is_processed (some e) = e.processed

  -- The event that is stored, or a new one.
  unfoldable pub event_for :
      Text → GatewayProvider → WebhookPayload → Option WebhookEvent → Action Session WebhookEvent
  event_for event_id provider payload (some e) = pure e
  event_for event_id provider payload none =
      lift
        (new_event event_id provider (event_value payload.event) (env.dump payload) (env.clock 0))

  unfoldable pub execute : GatewayProvider → WebhookPayload → Action Session Answer
  execute provider payload = do
    event_id ← lift (event_id_for payload provider)
    found ← event_by_event_id event_id
    (if is_processed found
        then pure none
        else (do event ← event_for event_id provider payload found; dispatch event payload))
