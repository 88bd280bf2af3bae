-- ===== src/Workers/Webhook/Reported.antt =====
-- The account of the jobs that process a notification.
use billing_core.Shared.{ℕ, ◌≡◌, refl, Bool, [], Option, none, some, if◌then◌else◌, true, false}
use billing_core.Shared.Texts.{Text, upper}
use billing_core.Shared.Json.{Json}
use billing_core.Shared.Actions.{Error, ok, pure, lift}
use billing_core.Domain.Enums.{GatewayProvider, provider_named}
use billing_core.UseCases.Webhook.Payload.{WebhookPayload}
use billing_core.UseCases.Webhook.Steps.{Answer}
use billing_core.Workers.Redis.{enqueue_job, delete}
use billing_core.Workers.World.{World, Job, success, duplicate, ignored, on_redis}
use billing_core.Workers.Account.{start_job}
use billing_core.Workers.Account.Reported.{Reported, Runs, Runs-update, status_after, is_given_up}
use billing_core.Workers.Account.Ends.{
  Silent, Closes-pure, Reported-reject, Reported-retry, Reported-complete, Reported-if,
  Reported-job_failed,
}
use billing_core.Workers.Account.Rules.{
  Accounted, Reported-Accounted, Reported-try, Reported-answered, Reported-after, Reported-finally,
}
use billing_core.Workers.Webhook.{
  WebhookJobEnv, enqueue_delivery, release_lock, releases, webhook_failed, event_processed,
  event_failed, process_event, process_locked, process_webhook, process_resolved,
  process_gateway_notification,
}
use billing_core.Workers.Webhook.Lock.{acquire_lock-answers}

pub Runs-enqueue_delivery : (o : Option ℕ) → Runs (enqueue_delivery o)
unfolding enqueue_delivery on_redis enqueue_job pure
Runs-enqueue_delivery none w = refl
Runs-enqueue_delivery (some n) w = refl

pub Runs-start_job : (env : WebhookJobEnv) (job : Job) → Runs (start_job env.account job [])
unfolding start_job
Runs-start_job env job = Runs-update env.account job _

Silent-release : (event_id : Text) → Silent (on_redis (release_lock event_id))
unfolding on_redis release_lock delete pure
Silent-release event_id = record {
  runs = λ w. refl;
  metadata = λ w. refl;
  dead_letters = λ w. refl;
}

Silent-releases :
    (b : Bool) (event_id : Text) → Silent (if b then on_redis (release_lock event_id) else pure tt)
unfolding pure
Silent-releases true event_id = Silent-release event_id
Silent-releases false event_id = record {
  runs = λ w. refl;
  metadata = λ w. refl;
  dead_letters = λ w. refl;
}

module _ (env : WebhookJobEnv) (job : Job) where
  abbrev tries : ℕ
  tries = env.account.settings.worker_max_tries

  webhook_failed-Reported : (e : Error) → Reported tries job (webhook_failed env job e)
  unfolding webhook_failed
  webhook_failed-Reported e =
      Reported-if env.account job tries _ _ _ (Reported-reject env.account job tries _ e)
        (Reported-retry env.account job tries _ e)

  event_failed-Reported :
      (event_id : Text) (e : Error) → Reported tries job (event_failed env job event_id e)
  unfolding event_failed
  event_failed-Reported event_id e =
      Reported-finally _ _ (Silent-releases (releases env job e) event_id)
        (webhook_failed-Reported e)

  event_processed-Reported :
      (event_id : Text) (r : Answer × Option ℕ)
      → Reported tries job (event_processed env job event_id r)
  unfolding event_processed status_after is_given_up
  event_processed-Reported event_id (result, delivery_id) =
      Reported-finally _ _ (Silent-release event_id) (
        Reported-after _ _ (Runs-enqueue_delivery delivery_id) λ u.
          Reported-complete env.account job tries _ (success result delivery_id) (Closes-pure _)
            refl refl)

  process_event-Reported :
      (provider : GatewayProvider) (payload : WebhookPayload) (event_id : Text)
      → Reported tries job (process_event env job provider payload event_id)
  unfolding process_event
  process_event-Reported provider payload event_id =
      Reported-try _ _ _ (event_failed-Reported event_id) (event_processed-Reported event_id)

  process_locked-Reported :
      (provider : GatewayProvider) (payload : WebhookPayload) (event_id : Text)
      → Reported tries job (process_locked env job provider payload event_id)
  unfolding process_locked on_redis status_after is_given_up
  process_locked-Reported provider payload event_id =
      Reported-answered _ _ (λ w. acquire_lock-answers event_id job.job_id w.redis)
        λ acquired.
          Reported-if env.account job tries acquired _ _
            (process_event-Reported provider payload event_id)
            (Reported-complete env.account job tries _ duplicate (Closes-pure _) refl refl)

  process_webhook-Reported :
      (payload_dict : Json) (provider : Text)
      → Reported tries job (process_webhook env job payload_dict provider)
  unfolding process_webhook
  process_webhook-Reported payload_dict provider = Reported-after _ _ (Runs-start_job env job) λ u.
      Reported-try _ _ _ webhook_failed-Reported
        λ ((provider, payload), event_id). process_locked-Reported provider payload event_id

  process_resolved-Reported :
      (provider : GatewayProvider) (o : Option WebhookPayload)
      → Reported tries job (process_resolved env job provider o)
  unfolding process_resolved status_after is_given_up
  process_resolved-Reported provider none =
      Reported-complete env.account job tries _ ignored (Closes-pure _) refl refl
  process_resolved-Reported provider (some payload) = process_webhook-Reported _ _

  -- A job for a notification of a known provider leaves its status in Redis by its outcome:
  -- completed if it succeeded, was a duplicate or was ignored, failed if it was rejected or
  -- raised on its last try, and retrying if it raised earlier; a job that failed is among the
  -- dead letters.
  pub process_gateway_notification-Accounted :
      (raw_payload : Json) (gateway_provider_str : Text) {provider : GatewayProvider}
      → provider_named (upper gateway_provider_str) ≡ ok provider
      → (w : World)
      → Accounted tries job
          (process_gateway_notification env job raw_payload gateway_provider_str w)
  unfolding process_gateway_notification lift
  process_gateway_notification-Accounted raw_payload gateway_provider_str {provider} h =
      Reported-Accounted _ (
        Reported-answered _ _ (λ w. (provider, h))
          λ p.
            Reported-try _ _ _ (λ e. Reported-job_failed env.account job _ _ e)
              (process_resolved-Reported p))
