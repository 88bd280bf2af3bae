-- ===== src/Workers/Examples/Accounts.antt =====
-- The account that jobs keep of themselves.
use billing_core.Shared.{◌≡◌, refl, [], ◌∷◌, List}
use billing_core.Shared.Texts.{lit, upper, text_eq}
use billing_core.Shared.Json.{null, end}
use billing_core.Shared.Actions.{ok}
use billing_core.Domain.Enums.{GatewayProvider, provider_named}
use billing_core.Workers.Redis.{number, text}
use billing_core.Workers.Redis.Metadata.{Update, read, run_updates, replay, read-run_updates}
use billing_core.Workers.Account.Rules.{Accounted}
use billing_core.Workers.Webhook.{process_gateway_notification}
use billing_core.Workers.Webhook.Reported.{process_gateway_notification-Accounted}
use billing_core.Workers.Requests.{
  create_checkout_worker, create_subscription_worker, cancel_subscription_worker,
}
use billing_core.Workers.Sending.{send_internal_webhook}
use billing_core.Workers.Jobs.Accounts.{jobs-Accounted}
use billing_core.Workers.Examples.{
  account, notified, ordered, created, canceled, sending, job, redis, world,
}

known_provider : provider_named (upper (lit "asaas")) ≡ ok GatewayProvider.asaas
unfolding provider_named upper text_eq lit
known_provider = refl

process_gateway_notification-Accounted_example :
    Accounted 3 job (process_gateway_notification notified job null (lit "asaas") world)
process_gateway_notification-Accounted_example =
    process_gateway_notification-Accounted notified job null (lit "asaas") known_provider world

jobs-Accounted_example :
    Accounted 3 job (create_checkout_worker ordered job null world)
    × Accounted 3 job (create_subscription_worker created job null (lit "cus_1") world)
    × Accounted 3 job (cancel_subscription_worker canceled job end world)
    × Accounted 5 job (send_internal_webhook sending job (lit "7") world)
jobs-Accounted_example =
    jobs-Accounted ordered created canceled sending job null end (lit "cus_1") (lit "7") world

-- A job that starts, and fails.
abbrev updates : List Update
updates =
    record {
      job = lit "job-1";
      fields = (lit "status", text (lit "processing")) ∷ (lit "attempt", number 12) ∷ [];
    }
    ∷ record { job = lit "job-1"; fields = (lit "status", text (lit "failed")) ∷ [] }
    ∷ []

read-run_updates_example :
    read (run_updates account.isoformat updates redis) (lit "job-1") (lit "status")
    ≡ replay account.isoformat updates (read redis) (lit "job-1") (lit "status")
read-run_updates_example =
    read-run_updates account.isoformat updates redis (lit "job-1") (lit "status")
