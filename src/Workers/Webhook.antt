-- ===== src/Workers/Webhook.antt =====
-- `process_webhook` and `process_gateway_notification` of app/workers/tasks.py. A job works on an
-- event under a lock of Redis, whose value is the id of the job.
pub mod Reported
pub mod Lock
pub mod Holder
pub mod Entry
pub mod Exclusion
use billing_core.Shared.{
  ℕ, Bool, true, false, ◌||◌, [], ◌∷◌, ◌++◌, Option, none, some, leb, if◌then◌else◌,
}
use billing_core.Shared.Texts.{Text, lit, text_eq, upper}
use billing_core.Shared.Json.{Json}
use billing_core.Shared.Actions.{Error, Result, Action, pure, lift, try_then, finally, ◌>>=◌, ◌>>◌}
use billing_core.Domain.Enums.{GatewayProvider, provider_named, provider_name}
use billing_core.Domain.Delivery.{Delivery}
use billing_core.Store.Session.{Session}
use billing_core.Store.Repositories.{payment_by_id}
use billing_core.UseCases.Webhook.Payload.{WebhookPayload, ProcessWebhookResponse, event_id_for}
use billing_core.UseCases.Webhook.Steps.{Env, Answer}
use billing_core.UseCases.Webhook.Execute
use billing_core.Workers.Redis.{Redis, set_nx, get, delete, enqueue_job}
use billing_core.Workers.World.{
  World, Job, JobEnv, JobAnswer, success, duplicate, ignored, on_redis, run_session,
}
use billing_core.Workers.Account.{
  is_rejection, start_job, complete_job, reject_job, retry_job, job_failed,
}
use billing_core.Workers.Deliveries.{
  DeliveryEnv, build_internal_delivery, build_payment_internal_delivery, persist_delivery,
}

-- What the two jobs take from outside: pydantic's reading of a payload (its dump is in `webhook`),
-- and the gateways, by their `resolve_webhook`.
pub record WebhookJobEnv : Type 0 where
  pub account : JobEnv
  pub webhook : Env
  pub delivery : DeliveryEnv
  pub validate : Json → Result WebhookPayload
  pub resolve_webhook : GatewayProvider → Json → Result (Option WebhookPayload)

unfoldable pub lock_key : Text → Text
lock_key event_id = lit "billing_core:webhook_lock" ++ (b':' ∷ event_id)

-- `current_holder == job_id`
abbrev is_holder : Text → Option Text → Bool
is_holder job_id none = false
is_holder job_id (some holder) = text_eq holder job_id

-- The lock is taken, or it is the job's own, of an earlier try.
unfoldable pub acquire_lock : Text → Text → Action Redis Bool
acquire_lock event_id job_id = do
  acquired ← set_nx (lock_key event_id) job_id
  (if acquired
      then pure true
      else (do holder ← get (lock_key event_id); pure (is_holder job_id holder)))

unfoldable pub release_lock : Text → Action Redis Unit
release_lock event_id = delete (lock_key event_id)

-- The delivery that a job has stored is to be sent.
unfoldable pub enqueue_delivery : Option ℕ → Action World Unit
enqueue_delivery none = pure tt
enqueue_delivery (some delivery_id) = on_redis (enqueue_job delivery_id)

module _ (env : WebhookJobEnv) where
  -- The delivery that tells of the result: of a payment alone, or of a subscription.
  unfoldable pub delivery_of_parts :
      ProcessWebhookResponse → Option ℕ → Option ℕ → Action Session (Option Delivery)
  delivery_of_parts result (some payment_id) none = do
    payment ← payment_by_id payment_id
    lift (build_payment_internal_delivery env.delivery payment)
  delivery_of_parts result payment_id subscription_id =
      build_internal_delivery env.delivery (some result)

  unfoldable pub delivery_of : Answer → Action Session (Option Delivery)
  delivery_of none = pure none
  delivery_of (some result) = delivery_of_parts result result.payment_id result.subscription_id

  -- What the job does in its session.
  unfoldable pub process_in_session :
      GatewayProvider → WebhookPayload → Action Session (Answer × Option ℕ)
  process_in_session provider payload = do
    result ← Execute.execute env.webhook provider payload
    delivery ← delivery_of result
    internal_delivery_id ← persist_delivery delivery
    pure (result, internal_delivery_id)

  module _ (job : Job) where
    -- The two handlers.
    unfoldable pub webhook_failed : Error → Action World (JobAnswer Answer)
    webhook_failed e =
        if is_rejection e
        then reject_job env.account job (lit "process_webhook") e
        else retry_job env.account job (lit "process_webhook") env.account.settings.worker_max_tries
            e

    -- `release_lock` of a handler: the job is not tried again.
    unfoldable pub releases : Error → Bool
    releases e = is_rejection e || leb env.account.settings.worker_max_tries job.job_try

    -- What follows the session, and the `finally`.
    unfoldable pub event_processed : Text → Answer × Option ℕ → Action World (JobAnswer Answer)
    event_processed event_id (result, internal_delivery_id) =
        finally
          (do
            enqueue_delivery internal_delivery_id
            complete_job env.account job
            pure (success result internal_delivery_id))
          (on_redis (release_lock event_id))

    unfoldable pub event_failed : Text → Error → Action World (JobAnswer Answer)
    event_failed event_id e =
        finally (webhook_failed e)
          (if releases e then on_redis (release_lock event_id) else pure tt)

    unfoldable pub process_event :
        GatewayProvider → WebhookPayload → Text → Action World (JobAnswer Answer)
    process_event provider payload event_id =
        try_then (run_session (process_in_session provider payload)) (event_failed event_id)
          (event_processed event_id)

    unfoldable pub process_locked :
        GatewayProvider → WebhookPayload → Text → Action World (JobAnswer Answer)
    process_locked provider payload event_id = do
      acquired ← on_redis (acquire_lock event_id job.job_id)
      (if acquired
          then process_event provider payload event_id
          else (do complete_job env.account job; pure duplicate))

    -- The provider, the payload and the id of the event.
    unfoldable pub identify : Json → Text → Action World ((GatewayProvider × WebhookPayload) × Text)
    identify payload_dict gateway_provider_str = do
      provider ← lift (provider_named (upper gateway_provider_str))
      payload ← lift (env.validate payload_dict)
      event_id ← lift (event_id_for payload provider)
      pure ((provider, payload), event_id)

    unfoldable pub process_webhook : Json → Text → Action World (JobAnswer Answer)
    process_webhook payload_dict gateway_provider_str =
        start_job env.account job []
        >> try_then (identify payload_dict gateway_provider_str) webhook_failed
            λ ((provider, payload), event_id). process_locked provider payload event_id

    -- What follows the answer of the gateway to a notification.
    unfoldable pub process_resolved :
        GatewayProvider → Option WebhookPayload → Action World (JobAnswer Answer)
    process_resolved provider none = do complete_job env.account job; pure ignored
    process_resolved provider (some payload) =
        process_webhook (env.webhook.dump payload) (provider_name provider)

    -- An unknown provider raises before the first handler.
    unfoldable pub process_gateway_notification : Json → Text → Action World (JobAnswer Answer)
    process_gateway_notification raw_payload gateway_provider_str = do
      provider ← lift (provider_named (upper gateway_provider_str))
      try_then (lift (env.resolve_webhook provider raw_payload))
          (job_failed env.account job is_rejection (lit "process_gateway_notification"))
          (process_resolved provider)
