-- ===== src/Workers/Jobs/Integrity.antt =====
-- The order of the tables and the jobs.
use billing_core.Shared.{ℕ, suc, List, [], ◌∷◌, Option, none, some}
use billing_core.Shared.Texts.{Text}
use billing_core.Shared.Json.{Json, Fields}
use billing_core.Shared.Actions.{Error, Action}
use billing_core.Domain.Enums.{GatewayProvider}
use billing_core.Domain.Payment.{Payment}
use billing_core.Store.Integrity.{InOrder, orderly_rules}
use billing_core.Store.Preserves.{Preserves-bind}
use billing_core.Store.Lookups.{lookup_rules}
use billing_core.UseCases.Webhook.Payload.{WebhookPayload}
use billing_core.UseCases.Webhook.Steps.{Answer}
use billing_core.UseCases.Checkout.Orderly as Checkout
use billing_core.UseCases.Creation.Orderly as Creation
use billing_core.UseCases.Cancellation.Orderly as Cancellation
use billing_core.Workers.World.{World, Job, JobAnswer}
use billing_core.Workers.Orderly.{
  Orderly-process_in_session, Orderly-deliver, Orderly-failure_written, Orderly-sync_payment,
  Orderly-deliver_cancellation, Orderly-customer_by_provider_id,
}
use billing_core.Workers.Webhook.{
  WebhookJobEnv, webhook_failed, event_processed, event_failed, process_event, process_locked,
  identify, process_webhook, process_resolved, process_gateway_notification,
}
use billing_core.Workers.Requests.{
  CheckoutJobEnv, CreationJobEnv, CancelJobEnv, checkout_in_session, create_checkout_worker,
  create_in_session, create_subscription_worker, cancel_in_session, cancel_subscription_worker,
}
use billing_core.Workers.Sending.{SendEnv, write_failure, send_failed, send_internal_webhook}
use billing_core.Workers.Sync.{SyncEnv, under_lock, sync_payments, sync_pending_checkouts_worker}
use billing_core.Workers.Reconciliation.Payload.{OperationEnv}
use billing_core.Workers.Reconciliation.Orderly.{Orderly-reconcile_one}
use billing_core.Workers.Reconciliation.Run.{reconcile_all, reconcile_gateway_operations_worker}
use billing_core.Workers.Jobs.{JobCall, Turn, run_call, run_turns}
use billing_core.Workers.Jobs.Tidy.{
  Tidy, account_rules, Tidy-bind, Tidy-run_session, Tidy-enqueue_delivery, Tidy-pure,
}
use billing_core.Domain.Delivery.{Delivery}

Tidy-webhook_failed :
    (env : WebhookJobEnv) (job : Job) (e : Error) → Tidy (webhook_failed env job e)
unfolding webhook_failed
Tidy-webhook_failed env job e = search account_rules

Tidy-event_processed :
    (env : WebhookJobEnv) (job : Job) (i : Text) (r : Answer × Option ℕ)
    → Tidy (event_processed env job i r)
unfolding event_processed
Tidy-event_processed env job i (a, n) = search account_rules depth 8

Tidy-event_failed :
    (env : WebhookJobEnv) (job : Job) (i : Text) (e : Error) → Tidy (event_failed env job i e)
unfolding event_failed
Tidy-event_failed env job i e = search (account_rules, Tidy-webhook_failed)

Tidy-process_event :
    (env : WebhookJobEnv) (job : Job) (g : GatewayProvider) (p : WebhookPayload) (i : Text)
    → Tidy (process_event env job g p i)
unfolding process_event
Tidy-process_event env job g p i =
    search (account_rules, Orderly-process_in_session, Tidy-event_failed, Tidy-event_processed)

Tidy-process_locked :
    (env : WebhookJobEnv) (job : Job) (g : GatewayProvider) (p : WebhookPayload) (i : Text)
    → Tidy (process_locked env job g p i)
unfolding process_locked
Tidy-process_locked env job g p i = search (account_rules, Tidy-process_event)

Tidy-identify :
    (env : WebhookJobEnv) (job : Job) (d : Json) (t : Text) → Tidy (identify env job d t)
unfolding identify
Tidy-identify env job d t = search account_rules

Tidy-process_webhook :
    (env : WebhookJobEnv) (job : Job) (d : Json) (t : Text) → Tidy (process_webhook env job d t)
unfolding process_webhook
Tidy-process_webhook env job d t =
    search (account_rules, Tidy-identify, Tidy-webhook_failed, Tidy-process_locked) depth 8

Tidy-process_resolved :
    (env : WebhookJobEnv) (job : Job) (g : GatewayProvider) (o : Option WebhookPayload)
    → Tidy (process_resolved env job g o)
unfolding process_resolved
Tidy-process_resolved env job g none = search account_rules
Tidy-process_resolved env job g (some p) = search Tidy-process_webhook

Tidy-process_gateway_notification :
    (env : WebhookJobEnv) (job : Job) (d : Json) (t : Text)
    → Tidy (process_gateway_notification env job d t)
unfolding process_gateway_notification
Tidy-process_gateway_notification env job d t = search (account_rules, Tidy-process_resolved)

Tidy-checkout_in_session :
    (env : CheckoutJobEnv) (job : Job) (d : Json) → Tidy (checkout_in_session env job d)
unfolding checkout_in_session
Tidy-checkout_in_session env job d = search (account_rules, Checkout.Orderly-execute)

Tidy-create_checkout_worker :
    (env : CheckoutJobEnv) (job : Job) (d : Json) → Tidy (create_checkout_worker env job d)
unfolding create_checkout_worker
Tidy-create_checkout_worker env job d = search (account_rules, Tidy-checkout_in_session) depth 8

Tidy-create_in_session :
    (env : CreationJobEnv) (job : Job) (d : Json) (i : Text) → Tidy (create_in_session env job d i)
unfolding create_in_session
Tidy-create_in_session env job d i =
    search
      (account_rules, Preserves-bind, Orderly-customer_by_provider_id, Creation.Orderly-execute)

Tidy-create_subscription_worker :
    (env : CreationJobEnv) (job : Job) (d : Json) (i : Text)
    → Tidy (create_subscription_worker env job d i)
unfolding create_subscription_worker
Tidy-create_subscription_worker env job d i = search (account_rules, Tidy-create_in_session) depth 8

Tidy-cancel_in_session :
    (env : CancelJobEnv) (job : Job) (d : Fields) → Tidy (cancel_in_session env job d)
unfolding cancel_in_session
Tidy-cancel_in_session env job d =
    search
      (account_rules, orderly_rules, Orderly-deliver_cancellation, Cancellation.Orderly-execute)
      depth 8

Tidy-cancel_subscription_worker :
    (env : CancelJobEnv) (job : Job) (d : Fields) → Tidy (cancel_subscription_worker env job d)
unfolding cancel_subscription_worker
Tidy-cancel_subscription_worker env job d = search (account_rules, Tidy-cancel_in_session) depth 8

Tidy-write_failure :
    (env : SendEnv) (job : Job) (f : Delivery → Delivery) (i : Text)
    → Tidy (write_failure env job f i)
unfolding write_failure
Tidy-write_failure env job f i = search (account_rules, Orderly-failure_written)

Tidy-send_failed :
    (env : SendEnv) (job : Job) (i : Text) (e : Error) → Tidy (send_failed env job i e)
unfolding send_failed
Tidy-send_failed env job i e = search (account_rules, Tidy-write_failure)

Tidy-send_internal_webhook :
    (env : SendEnv) (job : Job) (i : Text) → Tidy (send_internal_webhook env job i)
unfolding send_internal_webhook
Tidy-send_internal_webhook env job i =
    search (account_rules, Orderly-deliver, Tidy-send_failed) depth 8

Tidy-under_lock :
    {A : Type 0} (k : Text) (m : Action World (JobAnswer A)) → Tidy m → Tidy (under_lock k m)
unfolding under_lock
Tidy-under_lock k m h = search account_rules

Tidy-sync_payments : (env : SyncEnv) (n : ℕ) (l : List Payment) → Tidy (sync_payments env n l)
unfolding sync_payments
Tidy-sync_payments env n [] = search account_rules
Tidy-sync_payments env n (p ∷ l) =
    Tidy-bind _ _ (Tidy-run_session _ (Orderly-sync_payment env n p)) λ (updated, delivery_id).
      Tidy-bind _ _ (Tidy-enqueue_delivery delivery_id)
        λ u. Tidy-bind _ _ (Tidy-sync_payments env (suc n) l) λ more. Tidy-pure _

Tidy-sync_pending_checkouts_worker : (env : SyncEnv) → Tidy (sync_pending_checkouts_worker env)
unfolding sync_pending_checkouts_worker
Tidy-sync_pending_checkouts_worker env =
    search (account_rules, lookup_rules, Tidy-under_lock, Tidy-sync_payments) depth 8

Tidy-reconcile_all : (env : ℕ → OperationEnv) (n : ℕ) (l : List ℕ) → Tidy (reconcile_all env n l)
unfolding reconcile_all
Tidy-reconcile_all env n [] = search account_rules
Tidy-reconcile_all env n (i ∷ l) =
    Tidy-bind _ _ (Tidy-run_session _ (Orderly-reconcile_one (env n) i)) λ delivery_id.
      Tidy-bind _ _ (Tidy-enqueue_delivery delivery_id) λ u. Tidy-reconcile_all env (suc n) l

Tidy-reconcile_gateway_operations_worker :
    (env : ℕ → OperationEnv) → Tidy (reconcile_gateway_operations_worker env)
unfolding reconcile_gateway_operations_worker
Tidy-reconcile_gateway_operations_worker env =
    search (account_rules, lookup_rules, Tidy-under_lock, Tidy-reconcile_all) depth 8

run_call-InOrder : (t : Turn) (c : JobCall) (w : World) → InOrder w.db → InOrder (run_call t c w).db
unfolding run_call
run_call-InOrder t (JobCall.process_webhook p g) w = (Tidy-process_webhook t.webhook t.job p g).at w
run_call-InOrder t (JobCall.process_gateway_notification p g) w =
    (Tidy-process_gateway_notification t.webhook t.job p g).at w
run_call-InOrder t (JobCall.create_subscription d c) w =
    (Tidy-create_subscription_worker t.creation t.job d c).at w
run_call-InOrder t (JobCall.create_checkout d) w =
    (Tidy-create_checkout_worker t.checkout t.job d).at w
run_call-InOrder t (JobCall.cancel_subscription d) w =
    (Tidy-cancel_subscription_worker t.cancellation t.job d).at w
run_call-InOrder t (JobCall.send_internal_webhook i) w =
    (Tidy-send_internal_webhook t.sending t.job i).at w
run_call-InOrder t JobCall.reconcile_gateway_operations w =
    (Tidy-reconcile_gateway_operations_worker t.reconciliation).at w
run_call-InOrder t JobCall.sync_pending_checkouts w =
    (Tidy-sync_pending_checkouts_worker t.sync).at w

-- After any row of jobs, whichever jobs run, whatever the gateways and the systems answer and
-- whichever statements of the database fail, the committed tables of payments, subscriptions,
-- events, operations and deliveries keep their keys and their unique constraints, if they kept
-- them before.
pub run_turns-InOrder : (l : List Turn) (w : World) → InOrder w.db → InOrder (run_turns l w).db
unfolding run_turns
run_turns-InOrder [] w g = g
run_turns-InOrder (t ∷ l) w g =
    run_turns-InOrder l (run_call t t.call (record w { faults = t.faults }))
      (run_call-InOrder t t.call (record w { faults = t.faults }) g)
