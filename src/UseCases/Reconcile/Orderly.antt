-- ===== src/UseCases/Reconcile/Orderly.antt =====
-- The order of the tables and the reconciliations of payments.
use billing_core.Shared.{ℕ, Option, none, some}
use billing_core.Shared.Actions.{Action}
use billing_core.Domain.Payment.{Payment}
use billing_core.Store.Integrity.{Orderly}
use billing_core.Store.Lookups.{lookup_rules}
use billing_core.UseCases.Reconcile.Execute.{
  ReconcileEnv, store_payment, reconcile_open, reconcile_payment, apply_method,
  sync_checkout_status,
}

Orderly-store_payment : (p : Payment) → Orderly (store_payment p)
unfolding store_payment
Orderly-store_payment p = search lookup_rules

Orderly-reconcile_open : (env : ReconcileEnv) (p : Payment) → Orderly (reconcile_open env p)
unfolding reconcile_open
Orderly-reconcile_open env p = search (lookup_rules, Orderly-store_payment)

pub Orderly-reconcile_payment : (env : ReconcileEnv) (n : ℕ) → Orderly (reconcile_payment env n)
unfolding reconcile_payment
Orderly-reconcile_payment env n = search (lookup_rules, Orderly-reconcile_open)

Orderly-apply_method :
    (env : ReconcileEnv) (m : Option (Action Payment Unit)) (p : Payment)
    → Orderly (apply_method env m p)
unfolding apply_method
Orderly-apply_method env none p = search lookup_rules
Orderly-apply_method env (some m) p = search (lookup_rules, Orderly-store_payment)

pub Orderly-sync_checkout_status :
    (env : ReconcileEnv) (p : Payment) → Orderly (sync_checkout_status env p)
unfolding sync_checkout_status
Orderly-sync_checkout_status env p = search (lookup_rules, Orderly-apply_method)
