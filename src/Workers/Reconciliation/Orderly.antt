-- ===== src/Workers/Reconciliation/Orderly.antt =====
-- The order of the tables and the reconciliation of an operation.
use billing_core.Shared.{ℕ, Bool, List, [], ◌∷◌, Option, none, some}
use billing_core.Shared.Texts.{Text}
use billing_core.Shared.Actions.{Action}
use billing_core.Domain.Enums.{PaymentStatus, SubscriptionStatus}
use billing_core.Domain.Delivery.{Delivery}
use billing_core.Domain.Payment.{Payment}
use billing_core.Domain.Subscription.{Subscription}
use billing_core.Domain.Operation.{GatewayOperation}
use billing_core.Store.Session.{Session}
use billing_core.Store.Integrity.{Orderly, orderly_rules}
use billing_core.Store.Preserves.{Preserves-bind}
use billing_core.Store.Lookups.{Preserves-read, lookup_rules}
use billing_core.UseCases.Creation.{PaymentInfo}
use billing_core.Workers.Orderly.{Orderly-persist_internal_delivery}
use billing_core.Workers.Reconciliation.Payload.{OperationEnv, RemoteCheckoutInfo, unless_found}
use billing_core.Workers.Reconciliation.Subscriptions.{
  complete_operation, subscription_of_request, mirrored_subscription, mirror_payment,
  mirror_payments, reconcile_creation, cancel_mirror, commit_unless, mirror_cancellation,
  reconcile_cancellation,
}
use billing_core.Workers.Reconciliation.Checkouts.{
  payment_of_request, payment_to_follow, save_followed, store_delivery, deliver_checkout,
  follow_remote, reconcile_found, reconcile_checkout,
}
use billing_core.Workers.Reconciliation.Run.{
  operation_row, reconcile_operation, reconcile_row, reconcile_one,
}

Orderly-unless_found :
    {A : Type 0} (m h : Action Session A) → Orderly m → Orderly h → Orderly (unless_found m h)
unfolding unless_found
Orderly-unless_found m h p q = search lookup_rules

Orderly-complete_operation :
    (m : Action GatewayOperation Unit) (op : GatewayOperation) → Orderly (complete_operation m op)
unfolding complete_operation
Orderly-complete_operation m op = search lookup_rules

Orderly-subscription_of_request :
    (env : OperationEnv) (op : GatewayOperation) (t : SubscriptionStatus)
    → Orderly (subscription_of_request env op t)
unfolding subscription_of_request
Orderly-subscription_of_request env op t = search lookup_rules depth 14

Orderly-mirrored_subscription :
    (env : OperationEnv) (op : GatewayOperation) (t : SubscriptionStatus)
    → Orderly (mirrored_subscription env op t)
unfolding mirrored_subscription
Orderly-mirrored_subscription env op t =
    search (lookup_rules, Orderly-unless_found, Orderly-subscription_of_request)

Orderly-mirror_payment :
    (env : OperationEnv) (op : GatewayOperation) (s : Subscription) (i : PaymentInfo)
    → Orderly (mirror_payment env op s i)
unfolding mirror_payment
Orderly-mirror_payment env op s i = search (lookup_rules, Orderly-unless_found)

Orderly-mirror_payments :
    (env : OperationEnv) (op : GatewayOperation) (s : Subscription) (l : List PaymentInfo)
    → Orderly (mirror_payments env op s l)
unfolding mirror_payments
Orderly-mirror_payments env op s [] = search lookup_rules
Orderly-mirror_payments env op s (i ∷ l) =
    Preserves-bind _ _ (Orderly-mirror_payment env op s i) λ u. Orderly-mirror_payments env op s l

Orderly-reconcile_creation :
    (env : OperationEnv) (op : GatewayOperation) → Orderly (reconcile_creation env op)
unfolding reconcile_creation
Orderly-reconcile_creation env op =
    search
      (
        lookup_rules, Orderly-mirrored_subscription, Orderly-mirror_payments,
        Orderly-complete_operation,
      )
      depth 10

Orderly-cancel_mirror :
    (env : OperationEnv) (op : GatewayOperation) (s : Subscription)
    → Orderly (cancel_mirror env op s)
unfolding cancel_mirror
Orderly-cancel_mirror env op s = search lookup_rules

Orderly-commit_unless :
    (env : OperationEnv) (op : GatewayOperation) (o : Option ℕ) → Orderly (commit_unless env op o)
unfolding commit_unless
Orderly-commit_unless env op none = search lookup_rules
Orderly-commit_unless env op (some n) = search lookup_rules

Orderly-mirror_cancellation :
    (env : OperationEnv) (op : GatewayOperation) → Orderly (mirror_cancellation env op)
unfolding mirror_cancellation
Orderly-mirror_cancellation env op =
    search
      (
        lookup_rules, Orderly-cancel_mirror, Orderly-complete_operation,
        Orderly-persist_internal_delivery, Orderly-commit_unless,
      )
      depth 10

Orderly-reconcile_cancellation :
    (env : OperationEnv) (op : GatewayOperation) → Orderly (reconcile_cancellation env op)
unfolding reconcile_cancellation
Orderly-reconcile_cancellation env op =
    search (lookup_rules, Orderly-mirror_cancellation, Orderly-commit_unless)

Orderly-payment_of_request :
    (env : OperationEnv) (op : GatewayOperation) (i : Text) (c : RemoteCheckoutInfo) (r : Text)
    → Orderly (payment_of_request env op i c r)
unfolding payment_of_request
Orderly-payment_of_request env op i c r = search lookup_rules depth 8

Orderly-payment_to_follow :
    (env : OperationEnv) (op : GatewayOperation) (p : Payment) (c : RemoteCheckoutInfo) (r : Text)
    (t : PaymentStatus)
    → Orderly (payment_to_follow env op p c r t)
unfolding payment_to_follow
Orderly-payment_to_follow env op p c r t = search lookup_rules

Orderly-save_followed :
    (env : OperationEnv) (op : GatewayOperation) (i : Text) (p : Payment × Bool)
    → Orderly (save_followed env op i p)
unfolding save_followed
Orderly-save_followed env op i (p, b) = search lookup_rules

Orderly-store_delivery :
    (env : OperationEnv) (op : GatewayOperation) (o : Option Delivery)
    → Orderly (store_delivery env op o)
unfolding store_delivery
Orderly-store_delivery env op none = search lookup_rules
Orderly-store_delivery env op (some d) = search lookup_rules

Orderly-deliver_checkout :
    (env : OperationEnv) (op : GatewayOperation) (i : Text) (p : Payment)
    → Orderly (deliver_checkout env op i p)
unfolding deliver_checkout
Orderly-deliver_checkout env op i p = search (lookup_rules, Orderly-store_delivery)

Orderly-follow_remote :
    (env : OperationEnv) (op : GatewayOperation) (c : RemoteCheckoutInfo) (r : Text)
    (t : PaymentStatus)
    → Orderly (follow_remote env op c r t)
unfolding follow_remote
Orderly-follow_remote env op c r t =
    search
      (
        lookup_rules, Orderly-payment_of_request, Orderly-payment_to_follow, Orderly-save_followed,
        Orderly-deliver_checkout, Orderly-complete_operation,
      )
      depth 12

Orderly-reconcile_found :
    (env : OperationEnv) (op : GatewayOperation) (i : Text) → Orderly (reconcile_found env op i)
unfolding reconcile_found
Orderly-reconcile_found env op i = search (lookup_rules, Orderly-follow_remote) depth 8

Orderly-reconcile_checkout :
    (env : OperationEnv) (op : GatewayOperation) → Orderly (reconcile_checkout env op)
unfolding reconcile_checkout
Orderly-reconcile_checkout env op = search (lookup_rules, Orderly-reconcile_found)

Orderly-operation_row : (n : ℕ) → Orderly (operation_row n)
unfolding operation_row
Orderly-operation_row n = search (Preserves-read, orderly_rules)

Orderly-reconcile_operation :
    (env : OperationEnv) (op : GatewayOperation) → Orderly (reconcile_operation env op)
unfolding reconcile_operation
Orderly-reconcile_operation env op = search (
  lookup_rules, Orderly-reconcile_creation, Orderly-reconcile_cancellation,
  Orderly-reconcile_checkout,
)

Orderly-reconcile_row :
    (env : OperationEnv) (o : Option GatewayOperation) → Orderly (reconcile_row env o)
unfolding reconcile_row
Orderly-reconcile_row env none = search lookup_rules
Orderly-reconcile_row env (some r) = search (lookup_rules, Orderly-reconcile_operation)

pub Orderly-reconcile_one : (env : OperationEnv) (n : ℕ) → Orderly (reconcile_one env n)
unfolding reconcile_one
Orderly-reconcile_one env n = search (lookup_rules, Orderly-operation_row, Orderly-reconcile_row)
