-- ===== src/Workers/Reconciliation/Unmirrored.antt =====
-- The payments of a subscription whose creation is reconciled.
use billing_core.Shared.{
  ◌≡◌, refl, Bool, true, false, not, List, [], ◌∷◌, some, arith, if◌then◌else◌,
}
use billing_core.Shared.Actions.{Error, Result, ok, err, Action, raise, handled, attempt}
use billing_core.Domain.Enums.{SubscriptionStatus}
use billing_core.Domain.Payment.{Payment}
use billing_core.Domain.Subscription.{Subscription}
use billing_core.Domain.Operation.{GatewayOperation}
use billing_core.Store.Tables.{Saved, save_row}
use billing_core.Store.Session.{Db, Session, save, written}
use billing_core.Store.Repositories.{subscriptions, operations}
use billing_core.Store.Preserves.{Preserves, Preserves-bind, Preserves-save_of}
use billing_core.Store.Lookups.{read_rules}
use billing_core.UseCases.Creation.{PaymentInfo}
use billing_core.Workers.Reconciliation.Payload.{OperationEnv, is_not_found, unless_found}
use billing_core.Workers.Reconciliation.Subscriptions.{
  complete_operation, subscription_of_request, mirrored_subscription, mirror_payment,
  mirror_payments, reconcile_creation,
}
use billing_core.Workers.Reconciliation.Found.{is_plain, Finds, payment_by_provider_id-Finds}

-- The table of the payments is a given one.
abbrev HasPayments : List Payment → Db → Type 0
HasPayments l d = d.payments ≡ l

module _ {l : List Payment} where
  Preserves-save_subscription :
      (s : Subscription) → Preserves (HasPayments l) (save subscriptions s)
  Preserves-save_subscription a =
      Preserves-save_of subscriptions a
        λ s g. go s g (save_row subscriptions.row a s.db.subscriptions s.db.next_id)
    where
      go :
          (s : Session)
          → s.db.payments ≡ l
          → (r : Result (Saved subscriptions.row)) → (written subscriptions s r).1.db.payments ≡ l
      go s g (ok w) = g
      go s g (err e) = g

  Preserves-save_operation : (o : GatewayOperation) → Preserves (HasPayments l) (save operations o)
  Preserves-save_operation a =
      Preserves-save_of operations a
        λ s g. go s g (save_row operations.row a s.db.operations s.db.next_id)
    where
      go :
          (s : Session)
          → s.db.payments ≡ l
          → (r : Result (Saved operations.row)) → (written operations s r).1.db.payments ≡ l
      go s g (ok w) = g
      go s g (err e) = g

  Preserves-unless_found :
      {A : Type 0} (m h : Action Session A)
      → Finds m
      → Preserves (HasPayments l) m
      → Preserves (HasPayments l) (unless_found m h)
  unfolding unless_found attempt raise
  Preserves-unless_found {A} m h f p = record { at = λ s g. go (m s).0 (m s).1 (f.at s) (p.at s g) }
    where
      handler : Error → Action Session A
      handler e = if is_not_found e then h else raise e

      go :
          (r : Result A) (t : Session)
          → is_plain r ≡ true
          → HasPayments l t.db × HasPayments l t.committed
          → HasPayments l (handled r handler t).1.db
            × HasPayments l (handled r handler t).1.committed
      go (ok a) t k g = g
      go (err e) t k g = raised (is_not_found e) k
        where
          raised :
              (b : Bool)
              → not b ≡ true
              → HasPayments l ((if b then h else raise e) t).1.db
                × HasPayments l ((if b then h else raise e) t).1.committed
          raised false k = g
          raised true k = ground arith

ruleset kept_rules = (read_rules, Preserves-save_subscription, Preserves-save_operation)

module _ {l : List Payment} (env : OperationEnv) (op : GatewayOperation) where
  kept-complete_operation :
      (m : Action GatewayOperation Unit) → Preserves (HasPayments l) (complete_operation m op)
  unfolding complete_operation
  kept-complete_operation m = search kept_rules

  kept-subscription_of_request :
      (t : SubscriptionStatus) → Preserves (HasPayments l) (subscription_of_request env op t)
  unfolding subscription_of_request
  kept-subscription_of_request t = search kept_rules depth 14

  kept-mirrored_subscription :
      (t : SubscriptionStatus) → Preserves (HasPayments l) (mirrored_subscription env op t)
  unfolding mirrored_subscription unless_found
  kept-mirrored_subscription t = search (kept_rules, kept-subscription_of_request)

  kept-mirror_payment :
      (s : Subscription) (i : PaymentInfo) → Preserves (HasPayments l) (mirror_payment env op s i)
  unfolding mirror_payment
  kept-mirror_payment s i =
      Preserves-unless_found _ _ (payment_by_provider_id-Finds (some i.payment_id))
        (search kept_rules)

  kept-mirror_payments :
      (s : Subscription) (infos : List PaymentInfo)
      → Preserves (HasPayments l) (mirror_payments env op s infos)
  unfolding mirror_payments
  kept-mirror_payments s [] = search kept_rules
  kept-mirror_payments s (i ∷ infos) =
      Preserves-bind _ _ (kept-mirror_payment s i) λ u. kept-mirror_payments s infos

  kept-reconcile_creation : Preserves (HasPayments l) (reconcile_creation env op)
  unfolding reconcile_creation
  kept-reconcile_creation =
      search (kept_rules, kept-mirrored_subscription, kept-mirror_payments, kept-complete_operation)
        depth 10

-- In a session that starts, the reconciliation of the creation of a subscription never changes
-- the committed table of payments, whatever payments the gateway reports and whatever of the
-- database fails.
pub reconcile_creation-payments :
    (env : OperationEnv) (op : GatewayOperation) (d : Db) (faults : List Bool)
    → (reconcile_creation env op
        (record { db = d; committed = d; faults = faults })).1.committed.payments
      ≡ d.payments
reconcile_creation-payments env op d faults =
    ((kept-reconcile_creation {l = d.payments} env op).at
      (record { db = d; committed = d; faults = faults }) (refl, refl)).1
