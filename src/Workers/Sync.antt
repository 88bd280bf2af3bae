-- ===== src/Workers/Sync.antt =====
-- `sync_pending_checkouts_worker` of app/workers/tasks.py: the payments that wait for a checkout are
-- brought up to date one by one, each in a session of its own.
use billing_core.Shared.{
  ℕ, suc, Bool, true, false, List, [], ◌∷◌, Option, none, some, if◌then◌else◌,
}
use billing_core.Shared.Texts.{Text, lit}
use billing_core.Shared.Actions.{Action, pure, lift, attempt, try_then, finally, ◌>>=◌, ◌>>◌}
use billing_core.Domain.Enums.{GatewayProvider}
use billing_core.Domain.Payment.{Payment}
use billing_core.Store.Session.{Session, rollback}
use billing_core.Store.Repositories.{pending_checkouts}
use billing_core.UseCases.Reconcile.Execute.{ReconcileEnv, sync_checkout_status}
use billing_core.Workers.Redis.{set_nx, delete}
use billing_core.Workers.World.{World, JobAnswer, success, skipped, on_redis, run_session}
use billing_core.Workers.Deliveries.{DeliveryEnv, build_payment_internal_delivery, persist_delivery}
use billing_core.Workers.Webhook.{enqueue_delivery}

-- What the job takes from outside, for each turn of its loop.
pub record SyncEnv : Type 0 where
  pub sync : ℕ → ReconcileEnv
  pub delivery : ℕ → DeliveryEnv

abbrev pub batch_size : ℕ
batch_size = 100

unfoldable pub sync_lock_key : Text
sync_lock_key = lit "billing_core:sync_checkouts_lock"

-- A cron job under a lock: the next run is skipped while it holds.
unfoldable pub under_lock :
    {A : Type 0} → Text → Action World (JobAnswer A) → Action World (JobAnswer A)
under_lock key m = do
  acquired ← on_redis (set_nx key (lit "locked"))
  (if acquired then finally m (on_redis (delete key)) else pure skipped)

module _ (env : SyncEnv) (turn : ℕ) where
  -- The payment that was brought up to date, and the delivery that tells of it.
  unfoldable pub deliver_synced : Option Payment → Action Session (Bool × Option ℕ)
  deliver_synced none = pure (false, none)
  deliver_synced (some payment) =
      attempt
        (do
          delivery ← lift (build_payment_internal_delivery (env.delivery turn) payment)
          internal_delivery_id ← persist_delivery delivery
          pure (true, internal_delivery_id))
        (λ e. rollback >> pure (true, none))

  unfoldable pub sync_payment : Payment → Action Session (Bool × Option ℕ)
  sync_payment pending =
      try_then (sync_checkout_status (env.sync turn) pending) (λ e. rollback >> pure (false, none))
        deliver_synced

module _ (env : SyncEnv) where
  -- The loop. It answers how many payments were brought up to date.
  unfoldable pub sync_payments : ℕ → List Payment → Action World ℕ
  sync_payments turn [] = pure 0
  sync_payments turn (pending ∷ others) =
      let rest = sync_payments (suc turn) others in
      (do
        (updated, internal_delivery_id) ← run_session (sync_payment env turn pending)
        enqueue_delivery internal_delivery_id
        more ← rest
        pure (if updated then suc more else more))

  unfoldable pub sync_pending_checkouts_worker : Action World (JobAnswer ℕ)
  sync_pending_checkouts_worker = under_lock sync_lock_key (do
    pending_payments ← run_session (pending_checkouts GatewayProvider.mercadopago batch_size)
    updated ← sync_payments 0 pending_payments
    pure (success updated none))
