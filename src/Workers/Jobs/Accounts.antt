-- ===== src/Workers/Jobs/Accounts.antt =====
-- The account of the jobs that run a use case or send a delivery.
use billing_core.Shared.Texts.{Text}
use billing_core.Shared.Json.{Json, Fields}
use billing_core.Workers.World.{World, Job}
use billing_core.Workers.Account.Rules.{Accounted, Reported-Accounted}
use billing_core.Workers.Requests.{
  CheckoutJobEnv, CreationJobEnv, CancelJobEnv, create_checkout_worker, create_subscription_worker,
  cancel_subscription_worker,
}
use billing_core.Workers.Requests.Reported.{
  create_checkout_worker-Reported, create_subscription_worker-Reported,
  cancel_subscription_worker-Reported,
}
use billing_core.Workers.Sending.{SendEnv, send_internal_webhook}
use billing_core.Workers.Sending.Reported.{send_internal_webhook-Reported}

module _ (checkout : CheckoutJobEnv) (creation : CreationJobEnv) (cancellation : CancelJobEnv)
    (sending : SendEnv) (job : Job) where
  -- The jobs that create a checkout, create and cancel a subscription and send a delivery leave
  -- their status in Redis by their outcome: completed if they succeeded, failed if they were
  -- rejected or raised on their last try, and retrying if they raised earlier; a job that failed
  -- is among the dead letters: whatever gateways and database do.
  pub jobs-Accounted :
      (dto_dict : Json) (fields : Fields) (customer_provider_id delivery_id : Text) (w : World)
      → Accounted checkout.account.settings.worker_max_tries job
          (create_checkout_worker checkout job dto_dict w)
        × Accounted creation.account.settings.worker_max_tries job
            (create_subscription_worker creation job dto_dict customer_provider_id w)
        × Accounted cancellation.account.settings.worker_max_tries job
            (cancel_subscription_worker cancellation job fields w)
        × Accounted sending.account.settings.internal_webhook_max_tries job
            (send_internal_webhook sending job delivery_id w)
  jobs-Accounted dto_dict fields customer_provider_id delivery_id w = (
    Reported-Accounted _ (create_checkout_worker-Reported checkout job dto_dict) w,
    Reported-Accounted _
        (create_subscription_worker-Reported creation job dto_dict customer_provider_id) w,
    Reported-Accounted _ (cancel_subscription_worker-Reported cancellation job fields) w,
    Reported-Accounted _ (send_internal_webhook-Reported sending job delivery_id) w,
  )
