-- ===== src/Workers/Reconciliation/Run.antt =====
-- The loop over the operations, each in a transaction of its own, under the lock of the job.
use billing_core.Shared.{ℕ, suc, not, List, [], ◌∷◌, Option, none, some, if◌then◌else◌}
use billing_core.Shared.Texts.{Text, lit, text_eq}
use billing_core.Shared.Actions.{ok, Action, pure, lift, attempt, ◌>>=◌, ◌>>◌}
use billing_core.Domain.Enums.{GatewayOperationStatus, operation_status_eq}
use billing_core.Domain.Operation.{GatewayOperation}
use billing_core.Store.Tables.{find_key}
use billing_core.Store.Session.{Session, statement, commit, rollback}
use billing_core.Store.Repositories.{operations, operations_by_status}
use billing_core.Workers.World.{World, JobAnswer, success, run_session}
use billing_core.Workers.Webhook.{enqueue_delivery}
use billing_core.Workers.Sync.{under_lock}
use billing_core.Workers.Reconciliation.Payload.{OperationEnv}
use billing_core.Workers.Reconciliation.Subscriptions.{reconcile_creation, reconcile_cancellation}
use billing_core.Workers.Reconciliation.Checkouts.{reconcile_checkout}

unfoldable pub reconcile_lock_key : Text
reconcile_lock_key = lit "billing_core:reconcile_worker_lock"

-- `session.get(GatewayOperationModel, op_id, with_for_update=True)`
unfoldable pub operation_row : ℕ → Action Session (Option GatewayOperation)
operation_row op_id s = (statement >> lift (ok (find_key operations.row op_id s.db.operations))) s

module _ (env : OperationEnv) where
  -- The operation by its name.
  unfoldable pub reconcile_operation : GatewayOperation → Action Session (Option ℕ)
  reconcile_operation op =
      if text_eq op.operation_name (lit "create_subscription")
      then reconcile_creation env op
      else if text_eq op.operation_name (lit "cancel_subscription")
      then reconcile_cancellation env op
      else if text_eq op.operation_name (lit "create_checkout")
      then reconcile_checkout env op
      else (do commit; pure none)

  -- An operation that is gone, or that has been settled meanwhile, is passed over.
  unfoldable pub reconcile_row : Option GatewayOperation → Action Session (Option ℕ)
  reconcile_row none = do commit; pure none
  reconcile_row (some row) =
      if not (operation_status_eq row.status GatewayOperationStatus.requires_reconciliation)
      then (do commit; pure none)
      else (do op ← lift (operations.row.to_domain row); reconcile_operation op)

  -- The transaction of one operation; an exception rolls it back and is only logged.
  unfoldable pub reconcile_one : ℕ → Action Session (Option ℕ)
  reconcile_one op_id =
      attempt (do row ← operation_row op_id; reconcile_row row) (λ e. rollback >> pure none)

-- `[op.id for op in operations]`
unfoldable pub ids_of : List GatewayOperation → List ℕ
ids_of [] = []
ids_of (o ∷ l) = let rest = ids_of l in elim o.id [ none ↦ rest | some n ↦ n ∷ rest ]

module _ (envs : ℕ → OperationEnv) where
  unfoldable pub reconcile_all : ℕ → List ℕ → Action World Unit
  reconcile_all turn [] = pure tt
  reconcile_all turn (op_id ∷ others) =
      let rest = reconcile_all (suc turn) others in
      (do
        internal_delivery_id ← run_session (reconcile_one (envs turn) op_id)
        enqueue_delivery internal_delivery_id
        rest)

  unfoldable pub reconcile_gateway_operations_worker : Action World (JobAnswer Unit)
  reconcile_gateway_operations_worker = under_lock reconcile_lock_key (do
    found ← run_session (operations_by_status GatewayOperationStatus.requires_reconciliation)
    reconcile_all 0 (ids_of found)
    pure (success tt none))
