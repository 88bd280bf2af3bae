-- ===== src/UseCases/Webhook/Examples.antt =====
-- Notifications processed on a small database.
use billing_core.Shared.{◌≡◌, refl, true, ◌||◌, [], ◌∷◌, none, some}
use billing_core.Shared.Int.{pos}
use billing_core.Shared.Texts.{Text, lit, strip, is_truthy}
use billing_core.Shared.Json.{Json}
use billing_core.Shared.Actions.{ok, err, domain}
use billing_core.Domain.Examples.{day, open_payment, subscription}
use billing_core.Domain.Enums.{GatewayProvider}
use billing_core.Store.Session.{Db, Session, opened}
use billing_core.UseCases.Webhook.Payload.{EventType, WebhookPayload, event_id_for}
use billing_core.UseCases.Webhook.Steps.{Env}
use billing_core.UseCases.Webhook.Execute.{execute}
use billing_core.UseCases.Webhook.Run.{run}
use billing_core.UseCases.Webhook.Atomic.{execute-Atomic}
use billing_core.Store.Tables.Uniqueness.{is_table}
use billing_core.Store.Repositories.{events}
use billing_core.UseCases.Webhook.Recorded.{Recorded}
use billing_core.UseCases.Webhook.Repeat.{execute-Recorded, execute-twice}

abbrev pub env : Env
env = record { clock = λ n. day 3 1; dump = λ w. Json.null }

abbrev pub db : Db
db = record {
  payments = open_payment ∷ [];
  subscriptions = subscription ∷ [];
  events = [];
  operations = [];
  deliveries = [];
  next_id = 10;
}

abbrev pub payload : EventType → WebhookPayload
payload e = record {
  event = e;
  source_event_id = some (lit "evt_1");
  details = record {
    id = some (lit "pay_1");
    subscription = some (lit "sub_1");
    status = none;
    value = none;
    net_value = some (pos 12000);
    payment_date = none;
    external_reference = none;
    billing_type = none;
  };
}

-- A payment that is received without a date.
abbrev session : Session
session = record { db = db; committed = db; faults = [] }

undated_fails :
    (execute env GatewayProvider.asaas (payload EventType.payment_received) session).0
    ≡ err (domain "Webhook de pagamento recebido sem data de pagamento.")
unfolding run
undated_fails = refl

execute-Atomic_example :
    (execute env GatewayProvider.asaas (payload EventType.payment_received) session).1.committed
    ≡ db
execute-Atomic_example =
    execute-Atomic env GatewayProvider.asaas (payload EventType.payment_received) session
      undated_fails

-- A payment that is deleted, and the same notification again, a month later.
abbrev deleted : WebhookPayload
deleted = payload EventType.payment_deleted

abbrev pub deleted_id : Text
deleted_id = lit "asaas:PAYMENT_DELETED:evt_1:sub_1"

pub deleted_identified : event_id_for deleted GatewayProvider.asaas ≡ ok deleted_id
unfolding run
deleted_identified = refl

deleted_id_trimmed : strip deleted_id ≡ deleted_id
unfolding run
deleted_id_trimmed = refl

deleted_processed : (execute env GatewayProvider.asaas deleted session).0 ≡ ok none
unfolding run
deleted_processed = refl

no_events : is_table events.row 10 [] ≡ true
unfolding is_table
no_events = refl

abbrev later : Env
later = record { clock = λ n. day 4 1; dump = λ w. Json.null }

deleted_named : (is_truthy deleted.details.id || is_truthy deleted.details.subscription) ≡ true
unfolding lit
deleted_named = refl

execute-Recorded_example :
    Recorded deleted_id (execute env GatewayProvider.asaas deleted session).1.committed
execute-Recorded_example =
    execute-Recorded env GatewayProvider.asaas deleted deleted_id session deleted_named
      deleted_identified deleted_id_trimmed no_events refl deleted_processed

execute-twice_example :
    execute later GatewayProvider.asaas deleted
      (opened (execute env GatewayProvider.asaas deleted session).1.committed)
    ≡ (ok none, opened (execute env GatewayProvider.asaas deleted session).1.committed)
execute-twice_example =
    execute-twice env later GatewayProvider.asaas deleted deleted_id session deleted_named
      deleted_identified deleted_id_trimmed no_events refl deleted_processed
