-- ===== src/UseCases/Cancellation/Answer.antt =====
-- What an answer of `CancelSubscription.execute` says.
use billing_core.Shared.{◌≡◌, true, Option, none, some, arith}
use billing_core.Shared.Texts.{Text}
use billing_core.Shared.Actions.{Error, ok}
use billing_core.Domain.Enums.{GatewayOperationStatus, operation_status_eq, SubscriptionStatus}
use billing_core.Domain.Calendar.{Datetime}
use billing_core.Domain.Subscription.{Subscription, cancel}
use billing_core.Domain.Operation.{GatewayOperation}
use billing_core.Store.Session.{Session, save}
use billing_core.Store.Repositories.{subscriptions}
use billing_core.Store.Answers.{
  Yields, Yields-pure, Yields-raise, Yields-if, Yields-bind, Yields-try_then, Yields-call,
  Yields-any, Yields-after, Yields-either,
}
use billing_core.UseCases.Cancellation.{
  CancelEnv, CancelRequest, CancelResponse, Handler, build_response, is_canceled, cancel_locally,
  complete, finalize_cancellation, gateway_failed, local_failed, canceled_remotely, cancel_remotely,
  ask_gateway, cancel_under, check_cancellation, execute,
}

abbrev pub SaysCanceled : CancelResponse → Type 0
SaysCanceled r = r.subscription_status ≡ SubscriptionStatus.canceled

abbrev IsCanceled : Subscription → Type 0
IsCanceled s = s.status ≡ SubscriptionStatus.canceled

is_canceled-status : (s : Subscription) → is_canceled s ≡ true → IsCanceled s
is_canceled-status s h = ground arith

cancel-status :
    (cancelled_at : Option Datetime) (reason job_id : Option Text) (now : Datetime)
    (s s' : Subscription) (u : Unit)
    → cancel cancelled_at reason job_id now s ≡ (ok u, s')
    → IsCanceled s'
unfolding cancel
cancel-status cancelled_at reason job_id now s s' u h = ground arith

ruleset raise_rules = (Yields-raise, Yields-after, Yields-either)

module _ (env : CancelEnv) (request : CancelRequest) where
  cancel_locally-IsCanceled :
      (at : Option Datetime) → Yields IsCanceled (cancel_locally env request at)
  unfolding cancel_locally
  cancel_locally-IsCanceled at =
      Yields-bind (λ s. Unit) IsCanceled _ _ (Yields-any _)
        λ s u.
          Yields-if IsCanceled (is_canceled s) _ _
            (λ h. Yields-pure IsCanceled s (is_canceled-status s h))
            (λ h.
              Yields-bind (λ x. IsCanceled x.1) IsCanceled _ _
                (Yields-call _ _ s λ u s' e. cancel-status _ _ _ _ s s' u e)
                (λ x q.
                  Yields-bind (λ a. Unit) IsCanceled _ _ (Yields-any (save subscriptions x.1))
                    λ a v. Yields-pure IsCanceled x.1 q))

  abbrev Raises : Handler → Type 0
  Raises handler = (o : GatewayOperation) (e : Error) → Yields SaysCanceled (handler o e)

  complete-SaysCanceled :
      (handler : Handler) (reference : Option Text) (o : GatewayOperation) (s : Subscription)
      → Raises handler
      → IsCanceled s
      → Yields SaysCanceled (complete env request handler reference o s)
  unfolding complete build_response
  complete-SaysCanceled handler reference o s r c =
      Yields-try_then (λ x. Unit) SaysCanceled _ _ _ (Yields-any _) (r o)
        λ x u.
          Yields-try_then (λ v. Unit) SaysCanceled _ _ _ (Yields-any _) (r x.1)
            λ v w. Yields-pure SaysCanceled (build_response s) c

  gateway_failed-Raises : Raises (gateway_failed env request)
  unfolding gateway_failed
  gateway_failed-Raises o e = search raise_rules

  local_failed-Raises : (reference : Option Text) → Raises (local_failed env request reference)
  unfolding local_failed
  local_failed-Raises reference o e = search raise_rules

  finalize_cancellation-SaysCanceled :
      (handler : Handler) (o : GatewayOperation)
      → Raises handler
      → Yields SaysCanceled (finalize_cancellation env request handler o)
  unfolding finalize_cancellation
  finalize_cancellation-SaysCanceled handler o r =
      Yields-try_then IsCanceled SaysCanceled _ _ _ (cancel_locally-IsCanceled none) (r o)
        λ s c. complete-SaysCanceled handler _ o s r c

  canceled_remotely-SaysCanceled :
      (o : GatewayOperation) (reference : Option Text)
      → Yields SaysCanceled (canceled_remotely env request o reference)
  unfolding canceled_remotely
  canceled_remotely-SaysCanceled o reference =
      Yields-try_then IsCanceled SaysCanceled _ _ _ (cancel_locally-IsCanceled _)
        (local_failed-Raises reference o)
        λ s c. complete-SaysCanceled _ _ o s (local_failed-Raises reference) c

  cancel_remotely-SaysCanceled :
      (s : Subscription) (o : GatewayOperation)
      → Yields SaysCanceled (cancel_remotely env request s o)
  unfolding cancel_remotely
  cancel_remotely-SaysCanceled s o =
      Yields-try_then (λ x. Unit) SaysCanceled _ _ _ (Yields-any _) (gateway_failed-Raises o)
        λ reference u. canceled_remotely-SaysCanceled o _

  ask_gateway-SaysCanceled :
      (s : Subscription) (o : GatewayOperation) → Yields SaysCanceled (ask_gateway env request s o)
  unfolding ask_gateway
  ask_gateway-SaysCanceled s o =
      Yields-try_then (λ x. Unit) SaysCanceled _ _ _ (Yields-any _) (gateway_failed-Raises o)
        λ remote u.
          Yields-if SaysCanceled _ _ _
            (λ h. finalize_cancellation-SaysCanceled _ o gateway_failed-Raises)
            (λ h. cancel_remotely-SaysCanceled s o)

  cancel_under-SaysCanceled :
      (s : Subscription) (found : Option GatewayOperation)
      → Yields SaysCanceled (cancel_under env request s found)
  unfolding cancel_under
  cancel_under-SaysCanceled s found = search (raise_rules, ask_gateway-SaysCanceled) depth 8

  check_cancellation-SaysCanceled :
      (s : Subscription) (found : Option GatewayOperation)
      → Yields SaysCanceled (check_cancellation env request s found)
  unfolding check_cancellation
  check_cancellation-SaysCanceled s none = cancel_under-SaysCanceled s none
  check_cancellation-SaysCanceled s (some o) =
      Yields-either SaysCanceled (operation_status_eq o.status GatewayOperationStatus.completed) _ _
        (finalize_cancellation-SaysCanceled _ o λ operation e. Yields-raise SaysCanceled e)
        (Yields-either SaysCanceled
          (operation_status_eq o.status GatewayOperationStatus.requires_reconciliation) _ _
          (Yields-raise SaysCanceled _) (cancel_under-SaysCanceled s (some o)))

  -- An answer of the cancellation of a subscription, as opposed to an exception, says that the
  -- subscription is canceled: whatever the gateway answers and whatever of the database fails.
  pub execute-canceled :
      (s : Session) {r : CancelResponse}
      → (execute env request s).0 ≡ ok r
      → r.subscription_status ≡ SubscriptionStatus.canceled
  unfolding execute build_response
  execute-canceled s h =
      (Yields-after SaysCanceled _ _ λ sub.
          Yields-if SaysCanceled (is_canceled sub) _ _
            (λ c. Yields-pure SaysCanceled (build_response sub) (is_canceled-status sub c))
            (λ c.
              Yields-after SaysCanceled _ _ λ found. check_cancellation-SaysCanceled sub found)).at
        s h
