-- ===== src/Workers/Requests/Reported.antt =====
-- The account of the jobs that run a use case on the arguments of a request.
use billing_core.Shared.{refl, none}
use billing_core.Shared.Texts.{Text}
use billing_core.Shared.Json.{Json, Fields}
use billing_core.Workers.World.{Job, success}
use billing_core.Workers.Account.{start_job}
use billing_core.Workers.Account.Reported.{Reported, Runs-update, status_after, is_given_up}
use billing_core.Workers.Account.Ends.{Closes-pure, Reported-complete, Reported-job_failed}
use billing_core.Workers.Account.Rules.{Reported-try, Reported-after}
use billing_core.Workers.Webhook.Reported.{Runs-enqueue_delivery}
use billing_core.Workers.Requests.{
  CheckoutJobEnv, CreationJobEnv, CancelJobEnv, create_checkout_worker, create_subscription_worker,
  cancel_subscription_worker,
}

pub create_checkout_worker-Reported :
    (env : CheckoutJobEnv) (job : Job) (dto_dict : Json)
    → Reported env.account.settings.worker_max_tries job (create_checkout_worker env job dto_dict)
unfolding create_checkout_worker start_job status_after is_given_up
create_checkout_worker-Reported env job dto_dict =
    Reported-after _ _ (Runs-update env.account job _) λ u.
      Reported-try _ _ _ (Reported-job_failed env.account job _ _) λ response.
        Reported-complete env.account job _ _ (success response none) (Closes-pure _) refl refl

pub create_subscription_worker-Reported :
    (env : CreationJobEnv) (job : Job) (dto_dict : Json) (customer_provider_id : Text)
    → Reported env.account.settings.worker_max_tries job
        (create_subscription_worker env job dto_dict customer_provider_id)
unfolding create_subscription_worker start_job status_after is_given_up
create_subscription_worker-Reported env job dto_dict customer_provider_id =
    Reported-after _ _ (Runs-update env.account job _) λ u.
      Reported-try _ _ _ (Reported-job_failed env.account job _ _) λ response.
        Reported-complete env.account job _ _ (success response none) (Closes-pure _) refl refl

pub cancel_subscription_worker-Reported :
    (env : CancelJobEnv) (job : Job) (dto_dict : Fields)
    → Reported env.account.settings.worker_max_tries job
        (cancel_subscription_worker env job dto_dict)
unfolding cancel_subscription_worker start_job status_after is_given_up
cancel_subscription_worker-Reported env job dto_dict =
    Reported-after _ _ (Runs-update env.account job _) λ u.
      Reported-try _ _ _ (Reported-job_failed env.account job _ _) λ (response, delivery_id).
        Reported-after _ _ (Runs-enqueue_delivery delivery_id) λ v.
          Reported-complete env.account job _ _ (success response delivery_id) (Closes-pure _) refl
            refl
