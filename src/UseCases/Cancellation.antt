-- ===== src/UseCases/Cancellation.antt =====
-- `CancelSubscription` of app/application/use_cases/cancel_subscription.py. The gateway is asked
-- for its view of the subscription first; the operation keeps account of what was done there.
pub mod Answer
pub mod Orderly
mod Examples
use billing_core.Shared.{ℕ, Bool, not, ◌||◌, Option, none, some, if◌then◌else◌, ◌∷◌, ◌++◌}
use billing_core.Shared.Texts.{Text, lit, text_eq, strip, lower, or_empty, is_truthy}
use billing_core.Shared.Json.{Json}
use billing_core.Shared.Actions.{
  Error, domain, not_found, is_domain_error, Result, Action, pure, raise, lift, raise_if, call,
  try_then, ◌>>=◌, ◌>>◌,
}
use billing_core.Domain.Enums.{
  System, system_value, GatewayProvider, GatewayOperationStatus, operation_status_eq,
  SubscriptionStatus, subscription_status_eq,
}
use billing_core.Domain.Calendar.{Datetime}
use billing_core.Domain.Subscription.{Subscription, belongs_to_system, request_cancellation, cancel}
use billing_core.Domain.Operation.{
  GatewayOperation, new_operation, mark_completed, mark_failed, mark_requires_reconciliation,
}
use billing_core.Store.Session.{Session, commit, rollback, save}
use billing_core.Store.Repositories.{
  subscriptions, operations, subscription_by_id, operation_by_dedupe_key,
}

-- `CancelSubscriptionDTO`. `subscription_text` is the identifier as a text.
pub record CancelRequest : Type 0 where
  pub subscription_id : ℕ
  pub subscription_text : Text
  pub system : System
  pub reason : Option Text
  pub job_id : Option Text

pub record CancelResponse : Type 0 where
  pub subscription_id : Option ℕ
  pub subscription_status : SubscriptionStatus
  pub cancelled_at : Option Datetime

-- `SubscriptionStatusResponse`
pub record RemoteStatus : Type 0 where
  pub status : Option Text
  pub deleted : Bool

-- The time, the request as JSON and the text of an exception; and the two calls of a gateway.
pub record CancelEnv : Type 0 where
  pub clock : ℕ → Datetime
  pub dump : CancelRequest → Json
  pub message : Error → Text
  pub verify_status : GatewayProvider → Text → Result RemoteStatus
  pub cancel_subscription : GatewayProvider → Text → Result (Option Text)

-- `_build_response`
unfoldable pub build_response : Subscription → CancelResponse
build_response s = record {
  subscription_id = s.id;
  subscription_status = s.status;
  cancelled_at = s.cancelled_at;
}

-- `_gateway_reports_canceled`
unfoldable pub gateway_reports_canceled : RemoteStatus → Bool
unfolding lit
gateway_reports_canceled r =
    let status = lower (strip (or_empty r.status)) in
    r.deleted
    || text_eq status (lit "inactive")
    || text_eq status (lit "canceled")
    || text_eq status (lit "cancelled")
    || text_eq status (lit "deleted")

abbrev is_canceled : Subscription → Bool
is_canceled s = subscription_status_eq s.status SubscriptionStatus.canceled

-- An exception handler, for the operation as it stands where the exception is raised.
abbrev pub Handler : Type 0
Handler = GatewayOperation → Error → Action Session CancelResponse

module _ (env : CancelEnv) (request : CancelRequest) where
  -- `_operation_dedupe_key`
  unfoldable pub cancel_dedupe_key : Text
  unfolding lit
  cancel_dedupe_key =
      lit "cancel_subscription"
      ++ (b':' ∷ system_value request.system)
      ++ (b':' ∷ request.subscription_text)

  -- The subscription, which the system must own.
  unfoldable pub owned_subscription : Action Session Subscription
  owned_subscription = do
    s ← subscription_by_id request.subscription_id
    raise_if (not (belongs_to_system s request.system)) (not_found "Assinatura nao encontrada.")
    pure s

  -- The subscription, canceled and saved if it was not.
  unfoldable pub cancel_locally : Option Datetime → Action Session Subscription
  cancel_locally cancelled_at = do
    s ← owned_subscription
    (if is_canceled s then pure s else (do
      (u, s') ← call (cancel cancelled_at request.reason request.job_id (env.clock 4)) s
      save subscriptions s'
      pure s'))

  -- The operation is completed, saved and committed.
  unfoldable pub complete :
      Handler → Option Text → GatewayOperation → Subscription → Action Session CancelResponse
  complete handler reference operation s =
      try_then (call (mark_completed reference (env.clock 5)) operation) (handler operation)
        λ (u, completed).
          try_then (do save operations completed; commit) (handler completed)
            λ v. pure (build_response s)

  -- `_finalize_cancellation`
  unfoldable pub finalize_cancellation : Handler → GatewayOperation → Action Session CancelResponse
  finalize_cancellation handler operation =
      try_then (cancel_locally none) (handler operation)
        λ s. complete handler (some s.gateway_subscription_id) operation s

  -- The handler of the first `try`.
  unfoldable pub gateway_failed : Handler
  gateway_failed operation e = if is_domain_error e then raise e else (do
    rollback
    save operations (mark_failed (env.message e) (env.clock 6) operation)
    commit
    raise e)

  -- The handler of the second `try`.
  unfoldable pub local_failed : Option Text → Handler
  local_failed reference operation e = do
    rollback
    save operations (mark_requires_reconciliation reference (env.message e) (env.clock 6) operation)
    commit
    raise (
        domain
          "Assinatura cancelada no gateway, mas a sincronizacao local falhou. Operacao marcada para reconciliacao.")

  -- What follows the answer of the gateway that it has canceled the subscription.
  unfoldable pub canceled_remotely : GatewayOperation → Option Text → Action Session CancelResponse
  canceled_remotely operation reference =
      try_then (cancel_locally (some (env.clock 3))) (local_failed reference operation)
        λ s. complete (local_failed reference) reference operation s

  unfoldable pub cancel_remotely : Subscription → GatewayOperation → Action Session CancelResponse
  cancel_remotely s operation =
      try_then (lift (env.cancel_subscription s.gateway_provider s.gateway_subscription_id))
        (gateway_failed operation)
        λ reference.
          canceled_remotely operation
            (if is_truthy reference then reference else some s.gateway_subscription_id)

  unfoldable pub ask_gateway : Subscription → GatewayOperation → Action Session CancelResponse
  ask_gateway s operation =
      try_then (lift (env.verify_status s.gateway_provider s.gateway_subscription_id))
        (gateway_failed operation)
        λ remote.
          if gateway_reports_canceled remote
          then finalize_cancellation gateway_failed operation
          else cancel_remotely s operation

  unfoldable pub open_cancellation :
      Subscription → Option GatewayOperation → Action Session GatewayOperation
  open_cancellation s (some o) = pure o
  open_cancellation s none = do
    new ← lift (
        new_operation (lit "cancel_subscription") cancel_dedupe_key s.gateway_provider
          request.system (env.dump request) (env.clock 0))
    save operations new

  unfoldable pub request_locally : Subscription → Action Session Subscription
  request_locally s =
      if subscription_status_eq s.status SubscriptionStatus.cancellation_pending
      then pure s
      else (do
        (u, s') ← call (request_cancellation request.reason request.job_id (env.clock 1)) s
        save subscriptions s'
        pure s')

  abbrev may_be_canceled : Subscription → Bool
  may_be_canceled s =
      subscription_status_eq s.status SubscriptionStatus.pending
      || subscription_status_eq s.status SubscriptionStatus.active
      || subscription_status_eq s.status SubscriptionStatus.cancellation_pending

  unfoldable pub cancel_under :
      Subscription → Option GatewayOperation → Action Session CancelResponse
  cancel_under s found =
      if not (may_be_canceled s)
      then raise (domain "Assinatura nao pode ser cancelada no estado atual.")
      else (do
        operation ← open_cancellation s found
        s' ← request_locally s
        commit
        ask_gateway s' operation)

  unfoldable pub check_cancellation :
      Subscription → Option GatewayOperation → Action Session CancelResponse
  check_cancellation s none = cancel_under s none
  check_cancellation s (some o) =
      if operation_status_eq o.status GatewayOperationStatus.completed
      then finalize_cancellation (λ operation e. raise e) o
      else if operation_status_eq o.status GatewayOperationStatus.requires_reconciliation
      then raise (domain "Existe um cancelamento pendente de reconciliacao para essa assinatura.")
      else cancel_under s (some o)

  unfoldable pub execute : Action Session CancelResponse
  execute = do
    s ← owned_subscription
    (if is_canceled s
        then pure (build_response s)
        else (do found ← operation_by_dedupe_key cancel_dedupe_key; check_cancellation s found))
