-- ===== src/Workers/Examples/Tables.antt =====
-- The tables after a job, and the payments after a reconciliation.
use billing_core.Shared.{List, arith, ◌≡◌, refl, true, false, [], ◌∷◌, none, some, any}
use billing_core.Shared.Int.{pos}
use billing_core.Shared.Texts.{lit, text_eq}
use billing_core.Shared.Json.{null}
use billing_core.Shared.Actions.{ok, err, gateway_api}
use billing_core.Domain.Examples.{day}
use billing_core.Domain.Enums.{GatewayProvider, GatewayOperationStatus, operation_status_eq, System}
use billing_core.Domain.Operation.{GatewayOperation}
use billing_core.Store.Tables.Uniqueness.{is_table}
use billing_core.Store.Integrity.{InOrder}
use billing_core.Workers.Reconciliation.Payload.{OperationEnv}
use billing_core.Workers.Reconciliation.Subscriptions.{reconcile_creation}
use billing_core.Workers.Reconciliation.Unmirrored.{reconcile_creation-payments}
use billing_core.Workers.Jobs.{Turn, JobCall, run_turns}
use billing_core.Workers.Jobs.Lookups.{IsUnambiguous, run_turns-IsUnambiguous}
use billing_core.Workers.Reconciliation.Run.{reconcile_one}
use billing_core.Workers.Reconciliation.Settled.{IsIdle, starting, reconcile_one-IsIdle}
use billing_core.Store.Tables.{find_key}
use billing_core.Store.Repositories.{operations}
use billing_core.Store.Session.{Db}
use billing_core.Workers.Examples.{
  notified, ordered, created, canceled, sending, delivery_env, job, world, stored,
}

-- The gateway reports a payment of the subscription `sub_1` that is not stored.
abbrev reported : OperationEnv
reported = record {
  clock = λ n. day 3 1;
  delivery = delivery_env;
  verify_status = λ p i. ok (record { status = some (lit "ACTIVE"); deleted = false });
  get_subscription_payment = λ p i. ok (
      record {
        payment_id = lit "pay_9";
        status = lit "PENDING";
        value = pos 500;
        invoice_url = none;
        billing_type = none;
      }
      ∷ []);
  get_checkout = λ p i. err (gateway_api 404 []);
  parse_uuid = λ t. ok 3;
  fromisoformat = λ t. ok (day 4 1);
  decimal_of = λ j. ok (pos 500);
}

abbrev operation : GatewayOperation
operation = record {
  id = some 8;
  operation_name = lit "create_subscription";
  dedupe_key = lit "create_subscription:NEECTIFY_FOOD:sub-9";
  provider = GatewayProvider.asaas;
  system = System.neectify_food;
  request_payload = null;
  status = GatewayOperationStatus.requires_reconciliation;
  gateway_reference = some (lit "sub_1");
  error_message = none;
  created_at = day 3 1;
  updated_at = day 3 1;
}

reconcile_creation-payments_example :
    (reconcile_creation reported operation
      (record { db = stored; committed = stored; faults = [] })).1.committed.payments
    ≡ stored.payments
reconcile_creation-payments_example = reconcile_creation-payments reported operation stored []

-- A job under its name; the connection fails at the seventh statement.
abbrev turn : JobCall → Turn
turn c = record {
  webhook = notified;
  creation = created;
  checkout = ordered;
  cancellation = canceled;
  sending = sending;
  reconciliation = λ n. reported;
  sync = record {
    sync = λ n. record {
      clock = λ n. day 3 1;
      get_payment = λ p i. err (gateway_api 404 []);
      get_checkout = λ p i. err (gateway_api 404 []);
    };
    delivery = λ n. delivery_env;
  };
  faults = false ∷ false ∷ false ∷ false ∷ false ∷ false ∷ true ∷ [];
  job = job;
  call = c;
}

stored-InOrder : InOrder stored
unfolding is_table any text_eq lit
stored-InOrder = record {
  payments_kept = refl;
  subscriptions_kept = refl;
  events_kept = refl;
  operations_kept = refl;
  deliveries_kept = refl;
}

abbrev turns : List Turn
turns =
    turn (JobCall.create_checkout null)
    ∷ turn (JobCall.process_webhook null (lit "asaas"))
    ∷ turn (JobCall.send_internal_webhook (lit "7"))
    ∷ turn JobCall.reconcile_gateway_operations
    ∷ []

run_turns-IsUnambiguous_example : IsUnambiguous (run_turns turns (record world { db = stored })).db
run_turns-IsUnambiguous_example =
    run_turns-IsUnambiguous turns (record world { db = stored }) stored-InOrder

-- The operation has been completed meanwhile.
abbrev completed : GatewayOperation
completed = record operation { status = GatewayOperationStatus.completed }

abbrev done : Db
done = record stored { operations = completed ∷ [] }

completed-settled :
    (row : GatewayOperation)
    → find_key operations.row 8 done.operations ≡ some row
    → operation_status_eq row.status GatewayOperationStatus.requires_reconciliation ≡ false
unfolding find_key
completed-settled row h = ground (arith, h)

reconcile_one-IsIdle_example : IsIdle done (reconcile_one reported 8 (starting done (false ∷ [])))
reconcile_one-IsIdle_example = reconcile_one-IsIdle reported 8 done completed-settled (false ∷ [])
