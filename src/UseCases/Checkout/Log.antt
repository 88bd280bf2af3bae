-- ===== src/UseCases/Checkout/Log.antt =====
-- What the steps of `CreateCheckout.execute` do to its operation, after the gateway was asked.
use billing_core.Shared.{
  ℕ, ◌≡◌, refl, ◌∙◌, Bool, true, false, not, ◌||◌, Option, none, some, arith, if◌then◌else◌,
}
use billing_core.Shared.Texts.{Text, is_empty, is_truthy}
use billing_core.Shared.Actions.{Error, Result, ok, err}
use billing_core.Domain.Enums.{GatewayProvider}
use billing_core.Domain.Calendar.{Datetime}
use billing_core.Domain.Payment.{Payment}
use billing_core.Domain.Operation.{
  GatewayOperation, mark_completed, mark_failed, mark_requires_reconciliation,
}
use billing_core.Store.Transactions.{keeps_rules}
use billing_core.UseCases.OperationLog.{is_open}
use billing_core.UseCases.OperationLog.Guard.{
  Maintains, Ignores-payments, Maintains-Keeps, Maintains-if, Maintains-attempt, Maintains-bind,
  Maintains-rollback, Maintains-commit, Maintains-save, Maintains-call,
}
use billing_core.UseCases.Checkout.{
  CheckoutRequest, CheckoutInfo, CheckoutEnv, has_uncertain_gateway_outcome,
}
use billing_core.UseCases.Checkout.Execute.{record_checkout, give_up, recover, settle}

-- The gateway made a checkout, or it is not known whether it did.
unfoldable pub may_have_made : Result CheckoutInfo → Bool
may_have_made (ok info) = not (is_empty info.checkout_id)
may_have_made (err e) = has_uncertain_gateway_outcome e

mark_completed-is_open :
    (reference : Option Text) (now : Datetime) (o o' : GatewayOperation) (u : Unit)
    → mark_completed reference now o ≡ (ok u, o')
    → (o'.id ≡ o.id) × (is_open o' ≡ true)
unfolding mark_completed is_open
mark_completed-is_open reference now o o' u h = ground arith

reconciliation-is_open :
    (reference : Option Text) (message : Text) (now : Datetime) (o : GatewayOperation)
    → is_open (mark_requires_reconciliation reference message now o) ≡ true
unfolding mark_requires_reconciliation is_open
reconciliation-is_open reference message now o = refl

reconciliation-id :
    (reference : Option Text) (message : Text) (now : Datetime) (o : GatewayOperation)
    → (mark_requires_reconciliation reference message now o).id ≡ o.id
unfolding mark_requires_reconciliation
reconciliation-id reference message now o = refl

ruleset guard_rules = (
  keeps_rules, Ignores-payments, Maintains-Keeps, Maintains-if, Maintains-attempt, Maintains-bind,
  Maintains-rollback, Maintains-commit, Maintains-save,
)

module _ (k : Text) (n : ℕ) (env : CheckoutEnv) (provider : GatewayProvider)
    (request : CheckoutRequest) where
  Maintains-give_up :
      (o : GatewayOperation) (e : Error)
      → o.id ≡ some n
      → is_open o ≡ true
      → Maintains k n (give_up env provider request o e)
  unfolding give_up
  Maintains-give_up o e i b = Maintains-bind k n _ _ (Maintains-save k n o i b) λ saved.
      Maintains-bind k n _ _ (Maintains-commit k n) λ u. Maintains-Keeps k n _ (search keeps_rules)

  Maintains-record_checkout :
      (renewed : Option Payment) (o : GatewayOperation) (info : CheckoutInfo)
      → o.id ≡ some n
      → Maintains k n (record_checkout env provider request renewed o info)
  unfolding record_checkout
  Maintains-record_checkout renewed o info i =
      Maintains-bind k n _ _ (Maintains-Keeps k n _ (search keeps_rules)) λ payment.
        Maintains-bind k n _ _ (Maintains-Keeps k n _ (search (keeps_rules, Ignores-payments)))
          λ saved. Maintains-call k n _ _ _ λ u completed e.
            let (same, b) = mark_completed-is_open _ _ o completed u e in
            Maintains-bind k n _ _ (Maintains-save k n completed (same ∙ i) b) λ written.
              Maintains-bind k n _ _ (Maintains-commit k n)
                λ v. Maintains-Keeps k n _ (search keeps_rules)

  Maintains-recover :
      (o : GatewayOperation) (id : Option Text) (e : Error)
      → o.id ≡ some n
      → (is_truthy id || has_uncertain_gateway_outcome e) ≡ true
      → Maintains k n (recover env provider request o id e)
  unfolding recover
  Maintains-recover o id e i may =
      Maintains-bind k n _ _ (Maintains-rollback k n)
        λ u. go (is_truthy id) (has_uncertain_gateway_outcome e) may _ _
    where
      reconciled :
          (reference : Option Text) (x : Error)
          → Maintains k n (
              give_up env provider request
                (mark_requires_reconciliation reference (env.message e) (env.clock 3) o)
                x)
      reconciled reference x =
          Maintains-give_up _ x (reconciliation-id _ _ _ o ∙ i) (reconciliation-is_open _ _ _ o)

      go :
          (b c : Bool)
          → (b || c) ≡ true
          → (x y : Error)
          → Maintains k n (
              if b
              then give_up env provider request
                  (mark_requires_reconciliation id (env.message e) (env.clock 3) o)
                  x
              else if c
              then give_up env provider request
                  (mark_requires_reconciliation none (env.message e) (env.clock 3) o)
                  y
              else give_up env provider request (mark_failed (env.message e) (env.clock 3) o) e)
      go true c h x y = reconciled id x
      go false true h x y = reconciled none y
      go false false h x y = ground arith

  pub Maintains-settle :
      (renewed : Option Payment) (o : GatewayOperation) (r : Result CheckoutInfo)
      → o.id ≡ some n
      → may_have_made r ≡ true
      → Maintains k n (settle env provider request renewed o r)
  unfolding settle may_have_made
  Maintains-settle renewed o (err e) i may = Maintains-recover o none e i may
  Maintains-settle renewed o (ok info) i may =
      Maintains-attempt k n _ _ (Maintains-record_checkout renewed o info i)
        λ e. Maintains-recover o (some info.checkout_id) e i (ground arith)
