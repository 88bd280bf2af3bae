-- ===== src/UseCases/Checkout/Runs.antt =====
-- Runs of `CreateCheckout.execute` on a small database.
use billing_core.Shared.{◌≡◌, refl, true, false, [], ◌∷◌, none, select, any, List}
use billing_core.Shared.Texts.{lit, text_eq, strip, stripped_or_none}
use billing_core.Shared.Actions.{
  Result, ok, ◌>>=◌, pure, raise, lift, raise_if, modify, call, attempt,
}
use billing_core.Domain.Enums.{system_value, GatewayProvider, GatewayOperationStatus, PaymentStatus}
use billing_core.Domain.Payment
use billing_core.Domain.Payment.{create_standalone_payment}
use billing_core.Domain.Payment.Methods.{renew_checkout}
use billing_core.Domain.Operation
use billing_core.Domain.Operation.{
  GatewayOperation, new_operation, mark_completed, mark_failed, mark_requires_reconciliation,
}
use billing_core.Store.Tables.{one_or_none, find_key, replace_key, insert_row, update_row, save_row}
use billing_core.Store.Session.{Db, Session, opened, statement, commit, rollback, query, save}
use billing_core.Store.Repositories.{payment_by_system_ref, operation_by_dedupe_key}
use billing_core.UseCases.Checkout.{
  CheckoutResponse, Gateway, has_uncertain_gateway_outcome, response_of, is_renewal,
  external_reference, operation_dedupe_key, call_of, check_operation,
}
use billing_core.UseCases.Checkout.Execute.{
  open_operation, payment_of, record_checkout, give_up, recover, settle, open_checkout, proceed,
  execute,
}
use billing_core.UseCases.Checkout.Examples.{env, request, gateway, empty, operation}

-- `execute` with all that it calls open.
unfoldable run : Gateway → Session → Result CheckoutResponse × Session
unfolding select any lit text_eq strip stripped_or_none ◌>>=◌ pure raise lift raise_if modify call
    attempt system_value Payment.construct create_standalone_payment renew_checkout
    Operation.construct new_operation mark_completed mark_failed mark_requires_reconciliation
    one_or_none find_key replace_key insert_row update_row save_row statement commit rollback query
    save payment_by_system_ref operation_by_dedupe_key has_uncertain_gateway_outcome response_of
    is_renewal external_reference operation_dedupe_key call_of check_operation open_operation
    payment_of record_checkout give_up recover settle open_checkout proceed execute
run g s = execute env GatewayProvider.asaas request g s

statuses : List GatewayOperation → List GatewayOperationStatus
statuses [] = []
statuses (o ∷ l) = o.status ∷ statuses l

-- A new checkout: the payment waits, and the operation is completed.
made :
    (run gateway (opened empty)).0
    ≡ ok (record {
      payment_id = 2;
      checkout_url = lit "/pay";
      payment_status = PaymentStatus.pending;
    })
unfolding run
made = refl

made_completed :
    statuses (run gateway (opened empty)).1.committed.operations
    ≡ GatewayOperationStatus.completed ∷ []
unfolding run statuses
made_completed = refl

-- An operation that failed, before it is tried again.
abbrev failed : Db
failed = record empty {
  operations =
      record operation { status = GatewayOperationStatus.failed; gateway_reference = none } ∷ [];
  next_id = 2;
}

-- The retry loses the connection after the gateway has made the checkout: the operation still
-- says that it failed.
retried :
    statuses
      (run gateway (record (opened failed) {
        faults = false ∷ false ∷ true ∷ true ∷ [];
      })).1.committed.operations
    ≡ GatewayOperationStatus.failed ∷ []
unfolding run statuses
retried = refl
