-- ===== src/UseCases/Creation/Execute.antt =====
-- `CreateSubscription.execute` and `_build_existing_response`. The operation is made and committed
-- before the gateway is asked.
use billing_core.Shared.{not, ◌++◌, Option, none, some, if◌then◌else◌, or_else}
use billing_core.Shared.Int.{pos}
use billing_core.Shared.Texts.{Text, lit, is_truthy}
use billing_core.Shared.Actions.{
  Error, domain, is_domain_error, Result, ok, err, Action, pure, raise, lift, call, cases, attempt,
  ◌>>=◌, ◌>>◌,
}
use billing_core.Domain.Enums.{system_eq, PaymentType, SubscriptionStatus}
use billing_core.Domain.Calendar.{Datetime}
use billing_core.Domain.Customer.{Customer, has_provider_binding}
use billing_core.Domain.Payment.{Payment, create_subscription_payment}
use billing_core.Domain.Subscription
use billing_core.Domain.Subscription.{Subscription}
use billing_core.Domain.Operation.{
  GatewayOperation, new_operation, mark_completed, mark_failed, mark_requires_reconciliation,
}
use billing_core.Store.Session.{Session, commit, rollback, save}
use billing_core.Store.Repositories.{
  payments, subscriptions, operations, subscription_by_system_ref, operation_by_dedupe_key,
  payments_of_subscription,
}
use billing_core.UseCases.Webhook.Payload.{joined}
use billing_core.UseCases.Webhook.Steps.{payment_type_of}
use billing_core.UseCases.Creation.{
  SubscriptionRequest, SubscriptionResponse, SubscriptionCall, PaymentInfo, CreationEnv,
  creation_response, creation_dedupe_key, check_creation, tracked_payment, first_payment,
}

-- `t.date()`, as the midnight at which it begins.
abbrev day_of : Datetime → Datetime
day_of t = record t { micros = 0; west = 1440 }

-- `_build_existing_response`
unfoldable pub build_existing_response : Subscription → Action Session SubscriptionResponse
build_existing_response s = do
  l ← payments_of_subscription s.id
  cases (tracked_payment l)
      (raise (domain "Assinatura duplicada detectada sem pagamento rastreavel."))
      λ p. lift (creation_response s p)

module _ (env : CreationEnv) (request : SubscriptionRequest) (customer : Customer) where
  -- What the gateway is asked.
  unfoldable pub call_for : SubscriptionCall
  call_for = record {
    customer_provider_id = customer.provider_customer_id;
    billing_type = PaymentType.credit_card;
    value = request.value;
    next_due_date = or_else request.next_due_date (day_of (env.clock 1));
    cycle = request.subscription_type;
    description = request.description;
    external_reference = request.system_sub_id;
    back_url = request.back_url;
  }

  unfoldable pub new_subscription : Text → Result Subscription
  new_subscription gateway_subscription_id =
      Subscription.construct
        (record {
          id = none;
          initial_date = env.clock 2;
          description = request.description;
          system_subscription_id = request.system_sub_id;
          gateway_subscription_id = gateway_subscription_id;
          gateway_provider = customer.gateway_provider;
          status = SubscriptionStatus.pending;
          last_paid_date = none;
          from_system = customer.system;
          subscription_type = request.subscription_type;
          expires_at = request.expires_at;
          trial_days = pos 0;
          value = request.value;
          trial_ends_at = none;
          next_due_date = request.next_due_date;
          cancelled_at = none;
          cancellation_requested_at = none;
          cancellation_reason = none;
          cancellation_job_id = none;
          webhook_link = some request.webhook_link;
        })
        (some request.description) (some request.system_sub_id) (some gateway_subscription_id)

  -- The payment of the gateway for a subscription that is stored.
  unfoldable pub payment_of_info : Subscription → PaymentInfo → Result Payment
  payment_of_info s info =
      create_subscription_payment
        (record {
          description = some (lit "Pagamento relacionado a assinatura: " ++ s.description);
          gateway = s.gateway_provider;
          system_payment_id = some (joined request.system_sub_id info.payment_id);
          provider_payment_id = some info.payment_id;
          value = info.value;
          from_system = s.from_system;
          checkout_link = info.invoice_url;
        })
        s.id (payment_type_of info.billing_type) (env.clock 3)

  -- What follows the answer of the gateway, inside the `try`.
  unfoldable pub record_subscription : GatewayOperation → Text → Action Session SubscriptionResponse
  record_subscription operation gateway_subscription_id = do
    new ← lift (new_subscription gateway_subscription_id)
    s ← save subscriptions new
    infos ← lift (env.get_subscription_payment customer.gateway_provider gateway_subscription_id)
    info ← lift (elim (first_payment infos) [
      | none ↦ err (domain "Gateway nao retornou pagamento para a assinatura criada.")
      | some i ↦ ok i
    ])
    payment ← lift (payment_of_info s info)
    saved ← save payments payment
    (u, completed) ← call (mark_completed (some gateway_subscription_id) (env.clock 4)) operation
    save operations completed
    commit
    lift (creation_response s saved)

  -- The operation is written and committed, and the exception is raised.
  unfoldable pub abandon : GatewayOperation → Error → Action Session SubscriptionResponse
  abandon operation e = do save operations operation; commit; raise e

  -- The two handlers, with the id of the subscription if the gateway gave one.
  unfoldable pub recover_creation :
      GatewayOperation → Option Text → Error → Action Session SubscriptionResponse
  recover_creation operation gateway_subscription_id e =
      rollback
      >> (if is_truthy gateway_subscription_id
          then abandon
              (mark_requires_reconciliation gateway_subscription_id (env.message e) (env.clock 5)
                operation)
              (if is_domain_error e
                then e
                else domain
                    "Assinatura criada no gateway, mas a sincronizacao local falhou. Operacao marcada para reconciliacao.")
          else abandon (mark_failed (env.message e) (env.clock 5) operation) e)

  -- What follows the call of the gateway.
  unfoldable pub settle_creation :
      GatewayOperation → Result Text → Action Session SubscriptionResponse
  settle_creation operation (err e) = recover_creation operation none e
  settle_creation operation (ok gateway_subscription_id) =
      attempt (record_subscription operation gateway_subscription_id)
        λ e. recover_creation operation (some gateway_subscription_id) e

  -- The operation that is stored, with the new payload, or a new one, committed.
  unfoldable pub open_creation : Option GatewayOperation → Action Session GatewayOperation
  open_creation (some o) = pure (record o { request_payload = env.dump request })
  open_creation none = do
    new ← lift (
        new_operation (lit "create_subscription") (creation_dedupe_key request)
          customer.gateway_provider request.system (env.dump request) (env.clock 0))
    operation ← save operations new
    commit
    pure operation

  unfoldable pub create_new : Action Session SubscriptionResponse
  create_new = do
    found ← operation_by_dedupe_key (creation_dedupe_key request)
    lift (check_creation found)
    operation ← open_creation found
    settle_creation operation (env.create_subscription customer.gateway_provider call_for)

  unfoldable pub execute : Action Session SubscriptionResponse
  execute =
      if not (system_eq request.system customer.system)
      then raise (domain "Sistema da assinatura difere do customer informado.")
      else if not (has_provider_binding customer)
      then raise (domain "Customer sem vinculacao no gateway para criacao de assinatura.")
      else (do
        existing ← subscription_by_system_ref request.system_sub_id request.system
        cases existing create_new build_existing_response)
