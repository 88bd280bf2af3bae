-- ===== src/UseCases/Cancellation/Examples.antt =====
-- A subscription that is canceled, at a gateway that has it as active.
use billing_core.Shared.{◌≡◌, refl, false, [], ◌∷◌, none, some, select, any}
use billing_core.Shared.Texts.{lit, text_eq, strip, lower, stripped_or_none}
use billing_core.Shared.Json.{Json}
use billing_core.Shared.Actions.{ok, ◌>>=◌, pure, raise, lift, raise_if, modify, call, try_then}
use billing_core.Domain.Examples.{day, subscription}
use billing_core.Domain.Enums.{System, system_value, SubscriptionStatus}
use billing_core.Domain.Subscription
use billing_core.Domain.Subscription.{request_cancellation, cancel}
use billing_core.Domain.Operation
use billing_core.Domain.Operation.{
  new_operation, mark_completed, mark_failed, mark_requires_reconciliation,
}
use billing_core.Store.Tables.{one_or_none, find_key, replace_key, insert_row, update_row, save_row}
use billing_core.Store.Session.{Db, opened, statement, commit, rollback, query, get_by_key, save}
use billing_core.Store.Repositories.{subscription_by_id, operation_by_dedupe_key}
use billing_core.UseCases.Cancellation.{
  CancelEnv, CancelRequest, CancelResponse, build_response, gateway_reports_canceled,
  cancel_dedupe_key, owned_subscription, cancel_locally, complete, finalize_cancellation,
  gateway_failed, local_failed, canceled_remotely, cancel_remotely, ask_gateway, open_cancellation,
  request_locally, cancel_under, check_cancellation, execute,
}
use billing_core.UseCases.Cancellation.Answer.{execute-canceled}

abbrev env : CancelEnv
env = record {
  clock = λ n. day 3 1;
  dump = λ r. Json.null;
  message = λ e. lit "error";
  verify_status = λ p i. ok (record { status = some (lit "ACTIVE"); deleted = false });
  cancel_subscription = λ p i. ok (some i);
}

abbrev request : CancelRequest
request = record {
  subscription_id = 3;
  subscription_text = lit "3";
  system = System.neectify_food;
  reason = some (lit "moved");
  job_id = none;
}

abbrev db : Db
db = record {
  payments = [];
  subscriptions = subscription ∷ [];
  events = [];
  operations = [];
  deliveries = [];
  next_id = 10;
}

abbrev response : CancelResponse
response = record {
  subscription_id = some 3;
  subscription_status = SubscriptionStatus.canceled;
  cancelled_at = some (day 3 1);
}

canceled : (execute env request (opened db)).0 ≡ ok response
unfolding select any lit text_eq strip lower stripped_or_none ◌>>=◌ pure raise lift raise_if modify
    call try_then system_value Subscription.construct request_cancellation cancel
    Operation.construct new_operation mark_completed mark_failed mark_requires_reconciliation
    one_or_none find_key replace_key insert_row update_row save_row statement commit rollback query
    get_by_key save subscription_by_id operation_by_dedupe_key build_response
    gateway_reports_canceled cancel_dedupe_key owned_subscription cancel_locally complete
    finalize_cancellation gateway_failed local_failed canceled_remotely cancel_remotely ask_gateway
    open_cancellation request_locally cancel_under check_cancellation execute
canceled = refl

execute-canceled_example : response.subscription_status ≡ SubscriptionStatus.canceled
execute-canceled_example = execute-canceled env request (opened db) canceled
