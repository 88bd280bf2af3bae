-- ===== src/UseCases/Webhook/Run.antt =====
-- `execute` with all that it calls open, for tests: they name `run` on their `unfolding` line.
use billing_core.Shared.{select, any}
use billing_core.Shared.Texts.{lit, text_eq, strip, upper, stripped_or_none}
use billing_core.Shared.Actions.{Action, ◌>>=◌, lift, pure, raise, call, cases}
use billing_core.Domain.Enums.{GatewayProvider, provider_value, payment_type_named}
use billing_core.Domain.Calendar.{
  add_billing_period, days_in_month, latest, is_earlier, same_instant, instant, ordinal,
  days_before_year, days_before_month,
}
use billing_core.Domain.Payment
use billing_core.Domain.Payment.{create_subscription_payment}
use billing_core.Domain.Payment.Methods.{mark_as_paid, mark_as_canceled, mark_as_expired}
use billing_core.Domain.Subscription
use billing_core.Domain.Subscription.{cancel}
use billing_core.Domain.Event
use billing_core.Domain.Event.{new_event, mark_as_processed}
use billing_core.Store.Tables.{one_or_none, find_key, replace_key, insert_row, update_row, save_row}
use billing_core.Store.Session.{Session, statement, commit, query, query_or_raise, get_by_key, save}
use billing_core.Store.Repositories.{
  payment_by_provider_id, payment_by_external_reference, subscription_by_provider_id,
  event_by_event_id,
}
use billing_core.UseCases.Reconcile.{apply_gateway_payment_status}
use billing_core.UseCases.Webhook.Payload.{
  WebhookPayload, event_value, joined, event_id_for, event_suffix, is_checkout_event,
  lifecycle_event, is_ignored_event,
}
use billing_core.UseCases.Webhook.Steps.{
  Env, Answer, mark_event_processed, finish, midnight, status_of, adopted, find_standalone, save_if,
  taken_over, find_subscription_payment, payment_type_of,
}
use billing_core.UseCases.Webhook.Handlers.{
  standalone_found, process_standalone, payment_for, renew_if, received_paid, received_new,
  process_received, confirmed_dated, process_confirmed, cancel_if_open, process_deleted,
  cancel_if_live, process_ended,
}
use billing_core.UseCases.Webhook.Methods.{
  lifecycle_found, find_by_id, process_lifecycle, find_checkout, target_status, is_terminal,
  mark_target, checkout_found, process_checkout,
}
use billing_core.UseCases.Webhook.Execute.{
  dispatch_event, dispatch_lifecycle, dispatch, event_for, execute,
}

unfoldable pub run : Env → GatewayProvider → WebhookPayload → Action Session Answer
unfolding select any lit text_eq strip upper stripped_or_none ◌>>=◌ lift pure raise call cases
    provider_value payment_type_named add_billing_period days_in_month latest is_earlier
    same_instant instant ordinal days_before_year days_before_month Payment.construct
    create_subscription_payment mark_as_paid mark_as_canceled mark_as_expired Subscription.construct
    Subscription.mark_as_paid cancel Event.construct new_event mark_as_processed one_or_none
    find_key replace_key insert_row update_row save_row statement commit query query_or_raise
    get_by_key save payment_by_provider_id payment_by_external_reference subscription_by_provider_id
    event_by_event_id apply_gateway_payment_status event_value joined event_id_for event_suffix
    is_checkout_event lifecycle_event is_ignored_event mark_event_processed finish midnight
    status_of adopted find_standalone save_if taken_over find_subscription_payment payment_type_of
    standalone_found process_standalone payment_for renew_if received_paid received_new
    process_received confirmed_dated process_confirmed cancel_if_open process_deleted cancel_if_live
    process_ended lifecycle_found find_by_id process_lifecycle find_checkout target_status
    is_terminal mark_target checkout_found process_checkout dispatch_event dispatch_lifecycle
    dispatch event_for execute
run = execute
