-- ===== src/Workers/Examples.antt =====
-- What the jobs take from outside, in the examples.
pub mod Locks
pub mod Accounts
pub mod Sending
pub mod Tables
use billing_core.Shared.{false, [], ◌∷◌, none, some}
use billing_core.Shared.Int.{pos}
use billing_core.Shared.Texts.{lit}
use billing_core.Shared.Json.{null}
use billing_core.Shared.Actions.{ok}
use billing_core.Domain.Examples.{day}
use billing_core.Domain.Enums.{GatewayProvider, DeliveryStatus, SubscriptionType, System}
use billing_core.Domain.Delivery.{Delivery}
use billing_core.Store.Session.{Db}
use billing_core.UseCases.Webhook.Payload.{EventType}
use billing_core.UseCases.Webhook.Examples as Notification
use billing_core.UseCases.Checkout.Examples as Order
use billing_core.Workers.Redis.{Redis}
use billing_core.Workers.World.{World, Job, JobEnv}
use billing_core.Workers.Deliveries.{DeliveryEnv}
use billing_core.Workers.Webhook.{WebhookJobEnv}
use billing_core.Workers.Requests.{CheckoutJobEnv, CreationJobEnv, CancelJobEnv}
use billing_core.Workers.Sending.{SendEnv}

abbrev pub account : JobEnv
account = record {
  settings = record {
    worker_max_tries = 3;
    internal_webhook_max_tries = 5;
    default_gateway_provider = GatewayProvider.asaas;
  };
  now = λ n. day 3 1;
  isoformat = λ t. lit "2026-03-01T12:00:00+00:00";
  message = λ e. lit "error";
  class_name = λ e. lit "Error";
}

abbrev pub delivery_env : DeliveryEnv
delivery_env = record {
  uuid_text = λ n. lit "4";
  isoformat = λ t. lit "2026-03-01T12:00:00+00:00";
  dump_subscription = λ w. null;
  dump_payment = λ w. null;
  now = day 3 1;
}

-- The payload tells that a payment was deleted.
abbrev pub notified : WebhookJobEnv
notified = record {
  account = account;
  webhook = Notification.env;
  delivery = delivery_env;
  validate = λ d. ok (Notification.payload EventType.payment_deleted);
  resolve_webhook = λ p d. ok (some (Notification.payload EventType.payment_deleted));
}

abbrev pub ordered : CheckoutJobEnv
ordered = record {
  account = account;
  validate = λ d. ok Order.request;
  checkout = Order.env;
  gateway = Order.gateway;
}

abbrev pub created : CreationJobEnv
created = record {
  account = account;
  validate = λ d. ok (record {
    value = pos 500;
    subscription_type = SubscriptionType.monthly;
    next_due_date = none;
    description = lit "plan";
    system = System.neectify_food;
    system_sub_id = lit "sub-9";
    expires_at = day 4 1;
    webhook_link = lit "/hook";
    back_url = none;
  });
  creation = record {
    clock = λ n. day 3 1;
    dump = λ r. null;
    message = λ e. lit "error";
    create_subscription = λ p c. ok (lit "sub_9");
    get_subscription_payment = λ p i. ok [];
  };
  customers = [];
}

abbrev pub canceled : CancelJobEnv
canceled = record {
  account = account;
  validate = λ d. ok (record {
    subscription_id = 3;
    subscription_text = lit "3";
    system = System.neectify_food;
    reason = some (lit "moved");
    job_id = some (lit "job-1");
  });
  cancellation = record {
    clock = λ n. day 3 1;
    dump = λ r. null;
    message = λ e. lit "error";
    verify_status = λ p i. ok (record { status = some (lit "ACTIVE"); deleted = false });
    cancel_subscription = λ p i. ok (some i);
  };
  delivery = delivery_env;
}

abbrev pub sending : SendEnv
sending = record {
  account = account;
  parse_uuid = λ t. ok 7;
  uuid_text = λ n. lit "7";
  send = λ u p i e. ok tt;
}

abbrev pub job : Job
job = record { job_id = lit "job-1"; job_try = 3 }

abbrev pub redis : Redis
redis = record { locks = []; metadata = []; dead_letters = []; queue = [] }

abbrev pub world : World
world = record { db = Notification.db; faults = []; redis = redis }

abbrev pub delivery : Delivery
delivery = record {
  id = some 7;
  dedupe_key = lit "PAYMENT_RECEIVED:4";
  event_type = lit "PAYMENT_RECEIVED";
  target_url = lit "/hook";
  payload = null;
  subscription_id = some 3;
  payment_id = some 4;
  status = DeliveryStatus.pending;
  attempt_count = 0;
  last_error = none;
  last_attempt_at = none;
  delivered_at = none;
  created_at = day 3 1;
  updated_at = day 3 1;
}

-- A delivery that is to be sent.
abbrev pub stored : Db
stored = record Notification.db { deliveries = delivery ∷ [] }
