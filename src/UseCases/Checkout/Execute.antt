-- ===== src/UseCases/Checkout/Execute.antt =====
-- `CreateCheckout.execute` of app/application/use_cases/create_checkout.py. The operation is made and
-- committed before the gateway is asked, and what the gateway and the database do is written to it.
use billing_core.Shared.{not, Option, none, some, if◌then◌else◌}
use billing_core.Shared.Texts.{Text, lit, is_truthy}
use billing_core.Shared.Actions.{
  Error, domain, Result, ok, err, Action, pure, raise, lift, call, attempt, ◌>>=◌, ◌>>◌,
}
use billing_core.Domain.Enums.{GatewayProvider, PaymentStatus, PaymentType}
use billing_core.Domain.Payment.{Payment, create_standalone_payment}
use billing_core.Domain.Payment.Methods.{renew_checkout}
use billing_core.Domain.Operation.{
  GatewayOperation, new_operation, mark_completed, mark_failed, mark_requires_reconciliation,
}
use billing_core.Store.Session.{Session, commit, rollback, save}
use billing_core.Store.Repositories.{
  payments, operations, payment_by_system_ref, operation_by_dedupe_key,
}
use billing_core.UseCases.Checkout.{
  CheckoutRequest, CheckoutResponse, CheckoutInfo, CheckoutEnv, Gateway,
  has_uncertain_gateway_outcome, response_of, is_renewal, external_reference, operation_dedupe_key,
  call_of, check_operation,
}

module _ (env : CheckoutEnv) (provider : GatewayProvider) (request : CheckoutRequest) where
  abbrev pub respond : Payment → Result CheckoutResponse
  respond p = response_of p.id p.checkout_link p.payment_status

  -- The operation that is stored, or a new one, committed.
  unfoldable pub open_operation :
      Option Payment → Option GatewayOperation → Action Session GatewayOperation
  open_operation renewed (some o) = pure o
  open_operation renewed none = do
    new ← lift (
        new_operation (lit "create_checkout") (operation_dedupe_key request renewed) provider
          request.system (env.dump request (external_reference request renewed)) (env.clock 0))
    operation ← save operations new
    commit
    pure operation

  -- The payment of the checkout: renewed, or a new one. It follows the gateway.
  unfoldable pub payment_of : Option Payment → CheckoutInfo → Result Payment
  payment_of (some p) info =
      let (r, p') =
        renew_checkout (some info.checkout_id) (some info.checkout_url)
          (external_reference request (some p)) (env.clock 1) p in
      elim r [ err e ↦ err e | ok u ↦ ok (record p' { gateway = provider }) ]
  payment_of none info =
      elim (create_standalone_payment
        (record {
          description = some request.description;
          gateway = provider;
          system_payment_id = some request.system_payment_id;
          provider_payment_id = some info.checkout_id;
          value = request.value;
          from_system = request.system;
          checkout_link = some info.checkout_url;
        })
        (some request.webhook_link) none (external_reference request none) (env.clock 1)) [
          | err e ↦ err e
          | ok p ↦ ok (record p {
            payment_type = PaymentType.undefined;
            payment_status = PaymentStatus.pending;
          })
        ]

  -- What follows the answer of the gateway, inside the `try`.
  unfoldable pub record_checkout :
      Option Payment → GatewayOperation → CheckoutInfo → Action Session CheckoutResponse
  record_checkout renewed operation info = do
    payment ← lift (payment_of renewed info)
    saved ← save payments payment
    (u, completed) ← call (mark_completed (some info.checkout_id) (env.clock 2)) operation
    save operations completed
    commit
    lift (respond saved)

  -- The operation is written and committed, and the exception is raised.
  unfoldable pub give_up : GatewayOperation → Error → Action Session CheckoutResponse
  give_up operation e = do save operations operation; commit; raise e

  -- The `except`, with the id of the checkout if the gateway gave one.
  unfoldable pub recover : GatewayOperation → Option Text → Error → Action Session CheckoutResponse
  recover operation checkout_id e =
      rollback
      >> (if is_truthy checkout_id
          then give_up
              (mark_requires_reconciliation checkout_id (env.message e) (env.clock 3) operation)
              (domain
                "Checkout criado no gateway, mas a sincronizacao local falhou. Operacao marcada para reconciliacao.")
          else if has_uncertain_gateway_outcome e
          then give_up (mark_requires_reconciliation none (env.message e) (env.clock 3) operation) (
              domain
                "Resultado incerto ao criar checkout no gateway. Operacao marcada para reconciliacao manual.")
          else give_up (mark_failed (env.message e) (env.clock 3) operation) e)

  -- What follows the call of the gateway.
  unfoldable pub settle :
      Option Payment → GatewayOperation → Result CheckoutInfo → Action Session CheckoutResponse
  settle renewed operation (err e) = recover operation none e
  settle renewed operation (ok info) =
      attempt (record_checkout renewed operation info)
        λ e. recover operation (some info.checkout_id) e

  unfoldable pub open_checkout : Gateway → Option Payment → Action Session CheckoutResponse
  open_checkout gateway renewed = do
    found ← operation_by_dedupe_key (operation_dedupe_key request renewed)
    lift (check_operation found)
    operation ← open_operation renewed found
    settle renewed operation (gateway provider (call_of request renewed))

  unfoldable pub proceed : Gateway → Option Payment → Action Session CheckoutResponse
  proceed gateway none = open_checkout gateway none
  proceed gateway (some p) =
      if not (is_renewal p) then lift (respond p) else open_checkout gateway (some p)

  unfoldable pub execute : Gateway → Action Session CheckoutResponse
  execute gateway = do
    existing ← payment_by_system_ref request.system_payment_id request.system
    proceed gateway existing
