-- ===== src/Workers/Requests.antt =====
-- `create_checkout_worker`, `create_subscription_worker` and `cancel_subscription_worker` of
-- app/workers/tasks.py: the jobs that run a use case on the arguments of a request.
pub mod Reported
use billing_core.Shared.{ℕ, [], ◌∷◌, Option, none, some, List, select, if◌then◌else◌}
use billing_core.Shared.Texts.{Text, lit}
use billing_core.Shared.Json.{Json, str, obj, Fields, with_field}
use billing_core.Shared.Actions.{
  is_domain_error, not_found, Result, ok, err, Action, pure, lift, try_then, ◌>>=◌, ◌>>◌,
}
use billing_core.Domain.Enums.{SubscriptionStatus, subscription_status_eq}
use billing_core.Store.Session.{Session, statement}
use billing_core.Store.Tables.{one_or_none}
use billing_core.Store.Repositories.{column_eq}
use billing_core.Domain.Customer
use billing_core.Domain.Customer.{Customer}
use billing_core.UseCases.Creation
use billing_core.UseCases.Creation.{SubscriptionRequest, SubscriptionResponse, CreationEnv}
use billing_core.UseCases.Checkout.{CheckoutRequest, CheckoutResponse, CheckoutEnv, Gateway}
use billing_core.UseCases.Checkout
use billing_core.UseCases.Cancellation
use billing_core.UseCases.Cancellation.{CancelRequest, CancelResponse, CancelEnv}
use billing_core.UseCases.Webhook.Payload.{InternalEventType}
use billing_core.Workers.Redis.{text}
use billing_core.Workers.World.{World, Job, JobEnv, JobAnswer, success, run_session}
use billing_core.Workers.Account.{is_rejection, start_job, complete_job, job_failed}
use billing_core.Workers.Deliveries.{DeliveryEnv, persist_internal_delivery}
use billing_core.Workers.Webhook.{enqueue_delivery}
use billing_core.UseCases.Webhook.Steps.{answer}

-- What the jobs take from outside: the account, pydantic's reading of the arguments, and what the
-- use cases take.
pub record CheckoutJobEnv : Type 0 where
  pub account : JobEnv
  pub validate : Json → Result CheckoutRequest
  pub checkout : CheckoutEnv
  pub gateway : Gateway

pub record CancelJobEnv : Type 0 where
  pub account : JobEnv
  pub validate : Json → Result CancelRequest
  pub cancellation : CancelEnv
  pub delivery : DeliveryEnv

-- `customers` is the table of the customers, which no job writes.
pub record CreationJobEnv : Type 0 where
  pub account : JobEnv
  pub validate : Json → Result SubscriptionRequest
  pub creation : CreationEnv
  pub customers : List Customer

module _ (env : CheckoutJobEnv) (job : Job) where
  -- What is done inside the `try`, with the session.
  unfoldable pub checkout_in_session : Json → Action World CheckoutResponse
  checkout_in_session dto_dict = do
    request ← lift (env.validate dto_dict)
    run_session (
        Checkout.Execute.execute env.checkout env.account.settings.default_gateway_provider request
          env.gateway)

  unfoldable pub create_checkout_worker : Json → Action World (JobAnswer CheckoutResponse)
  create_checkout_worker dto_dict =
      start_job env.account job []
      >> try_then (checkout_in_session dto_dict)
          (job_failed env.account job is_rejection (lit "create_checkout_worker"))
          λ response. do complete_job env.account job; pure (success response none)

module _ (env : CreationJobEnv) (job : Job) where
  -- `customer_repo.get_by_provider_id`
  unfoldable pub customer_by_provider_id : Text → Action Session Customer
  customer_by_provider_id provider_id =
      statement
      >> lift
          (elim (one_or_none
            (select (λ c. column_eq provider_id c.provider_customer_id) env.customers)) [
              | err e ↦ err e
              | ok none ↦ err (not_found "Customer Not Found")
              | ok (some c) ↦ Customer.construct c (some c.nome) (some c.system_customer_id)
            ])

  unfoldable pub create_in_session : Json → Text → Action World SubscriptionResponse
  create_in_session dto_dict customer_provider_id = do
    request ← lift (env.validate dto_dict)
    run_session (do
      customer ← customer_by_provider_id customer_provider_id
      Creation.Execute.execute env.creation request customer)

  -- An exception that is a ValueError only is tried again here.
  unfoldable pub create_subscription_worker :
      Json → Text → Action World (JobAnswer SubscriptionResponse)
  create_subscription_worker dto_dict customer_provider_id =
      start_job env.account job []
      >> try_then (create_in_session dto_dict customer_provider_id)
          (job_failed env.account job is_domain_error (lit "create_subscription_worker"))
          λ response. do complete_job env.account job; pure (success response none)

module _ (env : CancelJobEnv) (job : Job) where
  -- The system learns of the end of the subscription by a delivery.
  unfoldable pub deliver_cancellation : CancelResponse → Action Session (Option ℕ)
  deliver_cancellation response =
      if subscription_status_eq response.subscription_status SubscriptionStatus.canceled
      then persist_internal_delivery env.delivery
          (answer InternalEventType.subscription_inactivated none response.subscription_id)
      else pure none

  unfoldable pub cancel_in_session : Fields → Action World (CancelResponse × Option ℕ)
  cancel_in_session dto_dict = do
    request ← lift (env.validate (obj (with_field (lit "job_id") (str job.job_id) dto_dict)))
    run_session (do
      response ← Cancellation.execute env.cancellation request
      internal_delivery_id ← deliver_cancellation response
      pure (response, internal_delivery_id))

  -- An exception that is a ValueError only is tried again here.
  unfoldable pub cancel_subscription_worker : Fields → Action World (JobAnswer CancelResponse)
  cancel_subscription_worker dto_dict =
      start_job env.account job ((lit "operation", text (lit "cancel")) ∷ [])
      >> try_then (cancel_in_session dto_dict)
          (job_failed env.account job is_domain_error (lit "cancel_subscription_worker"))
          λ (response, internal_delivery_id). do
            enqueue_delivery internal_delivery_id
            complete_job env.account job
            pure (success response internal_delivery_id)
