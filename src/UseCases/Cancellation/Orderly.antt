-- ===== src/UseCases/Cancellation/Orderly.antt =====
-- The order of the tables and a cancellation.
use billing_core.Shared.{Option, none, some}
use billing_core.Shared.Texts.{Text}
use billing_core.Shared.Actions.{Error}
use billing_core.Domain.Calendar.{Datetime}
use billing_core.Domain.Subscription.{Subscription}
use billing_core.Domain.Operation.{GatewayOperation}
use billing_core.Store.Integrity.{Orderly}
use billing_core.Store.Lookups.{lookup_rules}
use billing_core.UseCases.Cancellation.{
  CancelEnv, CancelRequest, Handler, owned_subscription, cancel_locally, complete,
  finalize_cancellation, gateway_failed, local_failed, canceled_remotely, cancel_remotely,
  ask_gateway, open_cancellation, request_locally, cancel_under, check_cancellation, execute,
}

Orderly-owned_subscription :
    (env : CancelEnv) (r : CancelRequest) → Orderly (owned_subscription env r)
unfolding owned_subscription
Orderly-owned_subscription env r = search lookup_rules

Orderly-cancel_locally :
    (env : CancelEnv) (r : CancelRequest) (t : Option Datetime) → Orderly (cancel_locally env r t)
unfolding cancel_locally
Orderly-cancel_locally env r t = search (lookup_rules, Orderly-owned_subscription) depth 8

Orderly-complete :
    (env : CancelEnv) (r : CancelRequest) (h : Handler) (reference : Option Text)
    (o : GatewayOperation) (s : Subscription)
    → ((o : GatewayOperation) (e : Error) → Orderly (h o e))
    → Orderly (complete env r h reference o s)
unfolding complete
Orderly-complete env r h reference o s hs = search (lookup_rules, hs)

Orderly-finalize_cancellation :
    (env : CancelEnv) (r : CancelRequest) (h : Handler) (o : GatewayOperation)
    → ((o : GatewayOperation) (e : Error) → Orderly (h o e))
    → Orderly (finalize_cancellation env r h o)
unfolding finalize_cancellation
Orderly-finalize_cancellation env r h o hs =
    search (lookup_rules, hs, Orderly-cancel_locally, Orderly-complete)

Orderly-gateway_failed :
    (env : CancelEnv) (r : CancelRequest) (o : GatewayOperation) (e : Error)
    → Orderly (gateway_failed env r o e)
unfolding gateway_failed
Orderly-gateway_failed env r o e = search lookup_rules

Orderly-local_failed :
    (env : CancelEnv) (r : CancelRequest) (i : Option Text) (o : GatewayOperation) (e : Error)
    → Orderly (local_failed env r i o e)
unfolding local_failed
Orderly-local_failed env r i o e = search lookup_rules

Orderly-canceled_remotely :
    (env : CancelEnv) (r : CancelRequest) (o : GatewayOperation) (i : Option Text)
    → Orderly (canceled_remotely env r o i)
unfolding canceled_remotely
Orderly-canceled_remotely env r o i =
    search (lookup_rules, Orderly-cancel_locally, Orderly-complete, Orderly-local_failed)

Orderly-cancel_remotely :
    (env : CancelEnv) (r : CancelRequest) (s : Subscription) (o : GatewayOperation)
    → Orderly (cancel_remotely env r s o)
unfolding cancel_remotely
Orderly-cancel_remotely env r s o =
    search (lookup_rules, Orderly-gateway_failed, Orderly-canceled_remotely)

Orderly-ask_gateway :
    (env : CancelEnv) (r : CancelRequest) (s : Subscription) (o : GatewayOperation)
    → Orderly (ask_gateway env r s o)
unfolding ask_gateway
Orderly-ask_gateway env r s o =
    search
      (lookup_rules, Orderly-gateway_failed, Orderly-finalize_cancellation, Orderly-cancel_remotely)

Orderly-open_cancellation :
    (env : CancelEnv) (r : CancelRequest) (s : Subscription) (o : Option GatewayOperation)
    → Orderly (open_cancellation env r s o)
unfolding open_cancellation
Orderly-open_cancellation env r s none = search lookup_rules
Orderly-open_cancellation env r s (some o) = search lookup_rules

Orderly-request_locally :
    (env : CancelEnv) (r : CancelRequest) (s : Subscription) → Orderly (request_locally env r s)
unfolding request_locally
Orderly-request_locally env r s = search lookup_rules

Orderly-cancel_under :
    (env : CancelEnv) (r : CancelRequest) (s : Subscription) (o : Option GatewayOperation)
    → Orderly (cancel_under env r s o)
unfolding cancel_under
Orderly-cancel_under env r s o =
    search (lookup_rules, Orderly-open_cancellation, Orderly-request_locally, Orderly-ask_gateway)

Orderly-check_cancellation :
    (env : CancelEnv) (r : CancelRequest) (s : Subscription) (o : Option GatewayOperation)
    → Orderly (check_cancellation env r s o)
unfolding check_cancellation
Orderly-check_cancellation env r s none = search (lookup_rules, Orderly-cancel_under)
Orderly-check_cancellation env r s (some o) =
    search (lookup_rules, Orderly-cancel_under, Orderly-finalize_cancellation)

pub Orderly-execute : (env : CancelEnv) (r : CancelRequest) → Orderly (execute env r)
unfolding execute
Orderly-execute env r =
    search (lookup_rules, Orderly-owned_subscription, Orderly-check_cancellation)
