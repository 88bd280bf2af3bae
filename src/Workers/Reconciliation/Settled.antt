-- ===== src/Workers/Reconciliation/Settled.antt =====
-- An operation that no longer waits for the reconciliation.
use billing_core.Shared.{ℕ, ◌≡◌, refl, Bool, true, false, List, [], ◌∷◌, Option, none, some}
use billing_core.Shared.Actions.{Result, ok, attempt, lift, pure, ◌>>=◌, ◌>>◌}
use billing_core.Domain.Enums.{GatewayOperationStatus, operation_status_eq}
use billing_core.Domain.Operation.{GatewayOperation}
use billing_core.Store.Tables.{find_key}
use billing_core.Store.Session.{Db, Session, statement, commit, rollback}
use billing_core.Store.Repositories.{operations}
use billing_core.Workers.Reconciliation.Payload.{OperationEnv}
use billing_core.Workers.Reconciliation.Run.{operation_row, reconcile_row, reconcile_one}

-- The transaction that starts on a database.
abbrev pub starting : Db → List Bool → Session
starting d faults = record { db = d; committed = d; faults = faults }

-- Nothing came of the transaction.
pub record IsIdle (d : Db) (r : Result (Option ℕ) × Session) : Type 0 where
  pub answered : r.0 ≡ ok none
  pub kept : r.1.db ≡ d
  pub nothing_committed : r.1.committed ≡ d

module _ (env : OperationEnv) (op_id : ℕ) (d : Db)
    (settled : (row : GatewayOperation)
      → find_key operations.row op_id d.operations ≡ some row
      → operation_status_eq row.status GatewayOperationStatus.requires_reconciliation ≡ false) where
  passed_over :
      reconcile_row env (find_key operations.row op_id d.operations) ≡ (commit >> pure none)
  unfolding reconcile_row
  passed_over = go (find_key operations.row op_id d.operations) settled
    where
      go :
          (o : Option GatewayOperation)
          → ((row : GatewayOperation)
              → o ≡ some row
              → operation_status_eq row.status GatewayOperationStatus.requires_reconciliation
                ≡ false)
          → reconcile_row env o ≡ (commit >> pure none)
      go none h = refl
      go (some row) h = rw (h row refl) refl

  -- The transaction of an operation that is gone, or does not wait for the reconciliation when
  -- its row is read, changes and commits nothing and has no delivery to send, whatever of the
  -- database fails.
  pub reconcile_one-IsIdle :
      (faults : List Bool) → IsIdle d (reconcile_one env op_id (starting d faults))
  unfolding reconcile_one operation_row attempt statement commit rollback lift pure ◌>>=◌
  reconcile_one-IsIdle [] =
      rw passed_over (record { answered = refl; kept = refl; nothing_committed = refl })
  reconcile_one-IsIdle (true ∷ l) = record {
    answered = refl;
    kept = refl;
    nothing_committed = refl;
  }
  reconcile_one-IsIdle (false ∷ []) =
      rw passed_over (record { answered = refl; kept = refl; nothing_committed = refl })
  reconcile_one-IsIdle (false ∷ true ∷ l) =
      rw passed_over (record { answered = refl; kept = refl; nothing_committed = refl })
  reconcile_one-IsIdle (false ∷ false ∷ l) =
      rw passed_over (record { answered = refl; kept = refl; nothing_committed = refl })
