-- ===== src/Workers/Jobs.antt =====
-- The jobs by their names, as the queue runs them one after the other.
pub mod Tidy
pub mod Integrity
pub mod Lookups
pub mod Accounts
use billing_core.Shared.{ℕ, Bool, List, [], ◌∷◌}
use billing_core.Shared.Texts.{Text}
use billing_core.Shared.Json.{Json, Fields}
use billing_core.Workers.World.{World, Job}
use billing_core.Workers.Webhook
use billing_core.Workers.Webhook.{WebhookJobEnv}
use billing_core.Workers.Requests
use billing_core.Workers.Requests.{CheckoutJobEnv, CreationJobEnv, CancelJobEnv}
use billing_core.Workers.Sending
use billing_core.Workers.Sending.{SendEnv}
use billing_core.Workers.Sync.{SyncEnv, sync_pending_checkouts_worker}
use billing_core.Workers.Reconciliation.Payload.{OperationEnv}
use billing_core.Workers.Reconciliation.Run.{reconcile_gateway_operations_worker}

-- The functions of the worker, with their arguments.
pub data JobCall : Type 0 where
  process_webhook : Json → Text → JobCall
  process_gateway_notification : Json → Text → JobCall
  create_subscription : Json → Text → JobCall
  create_checkout : Json → JobCall
  cancel_subscription : Fields → JobCall
  send_internal_webhook : Text → JobCall
  reconcile_gateway_operations : JobCall
  sync_pending_checkouts : JobCall

-- One run of a job: what it takes from outside, the faults of the database that it meets.
pub record Turn : Type 0 where
  pub webhook : WebhookJobEnv
  pub creation : CreationJobEnv
  pub checkout : CheckoutJobEnv
  pub cancellation : CancelJobEnv
  pub sending : SendEnv
  pub reconciliation : ℕ → OperationEnv
  pub sync : SyncEnv
  pub faults : List Bool
  pub job : Job
  pub call : JobCall

module _ (t : Turn) where
  unfoldable pub run_call : JobCall → World → World
  run_call (process_webhook payload provider) w =
      (Webhook.process_webhook t.webhook t.job payload provider w).1
  run_call (process_gateway_notification payload provider) w =
      (Webhook.process_gateway_notification t.webhook t.job payload provider w).1
  run_call (create_subscription dto customer) w =
      (Requests.create_subscription_worker t.creation t.job dto customer w).1
  run_call (create_checkout dto) w = (Requests.create_checkout_worker t.checkout t.job dto w).1
  run_call (cancel_subscription dto) w =
      (Requests.cancel_subscription_worker t.cancellation t.job dto w).1
  run_call (send_internal_webhook delivery_id) w =
      (Sending.send_internal_webhook t.sending t.job delivery_id w).1
  run_call reconcile_gateway_operations w =
      (reconcile_gateway_operations_worker t.reconciliation w).1
  run_call sync_pending_checkouts w = (sync_pending_checkouts_worker t.sync w).1

unfoldable pub run_turns : List Turn → World → World
run_turns [] w = w
run_turns (t ∷ l) w = run_turns l (run_call t t.call (record w { faults = t.faults }))
